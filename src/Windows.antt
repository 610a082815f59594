-- ===== src/Windows.antt =====
-- pkg/profiling/continuous/base/windows.go: one slot of data for each second of a period.
-- A list of slots is the source's container/list from its front, the oldest second, to its back,
-- the latest. Times are nanoseconds; `Sub(..).Seconds()` cut down to an int is a division.
pub mod Slots
pub mod Laws
use skywalking_rover.Common.{
  ℕ, zero, suc, ◌+◌, ◌-◌, ◌/◌, Bool, true, false, ◌&&◌, ◌||◌, List, [], ◌∷◌, ◌++◌, Option, none,
  some, ltb, leb, ◌==◌, if◌then◌else◌, length, replicate, drop_last, last?,
}

-- The interface WindowData, as operations on a window of type `W`.
pub record WindowData (D R W : Type 0) : Type 0 where
  pub fresh : W
  pub reset : W → W
  pub accept : D → W → W
  pub get : W → R

-- LatestWindowData, over the zero value of its type.
abbrev pub latest_window_data : {D : Type 0} → D → WindowData D D D
latest_window_data empty = record {
  fresh = empty;
  reset = λ _. empty;
  accept = λ value _. value;
  get = λ value. value;
}

-- windowDataWrapper
pub record Slot (W : Type 0) : Type 0 where
  pub window : W
  pub has_data : Bool

pub record TimeWindows (W : Type 0) : Type 0 where
  pub slots : List (Slot W)
  pub end_time : Option ℕ
  pub last_flush_time : Option ℕ

pub record PolicyItem : Type 0 where
  pub period : ℕ
  pub count : ℕ

abbrev pub second : ℕ
second = 1_000_000_000

unfoldable pub max_period : List PolicyItem → ℕ → ℕ
max_period [] acc = acc
max_period (i ∷ is) acc = max_period is (if ltb acc i.period then i.period else acc)

-- int(from.Sub(to).Seconds()), if it is positive.
unfoldable pub seconds_between : ℕ → ℕ → ℕ
seconds_between from to = (to - from) / second

module _ {D R W : Type 0} (ops : WindowData D R W) where
  unfoldable pub new_slot : Slot W
  new_slot = record { window = ops.fresh; has_data = false }

  unfoldable pub reset_slot : Slot W → Slot W
  reset_slot s = record { window = ops.reset s.window; has_data = false }

  unfoldable pub accept_slot : D → Slot W → Slot W
  accept_slot d s = record { window = ops.accept d s.window; has_data = true }

  -- The loop of NewTimeWindows: each round pushes a new slot to the front.
  unfoldable pub push_front : ℕ → List (Slot W) → List (Slot W)
  unfolding new_slot
  push_front zero slots = slots
  push_front (suc n) slots = push_front n (new_slot ∷ slots)

  unfoldable pub new_time_windows : List PolicyItem → TimeWindows W
  unfolding push_front max_period
  new_time_windows items = record {
    slots = push_front (max_period items 0) [];
    end_time = none;
    last_flush_time = none;
  }

  unfoldable pub reset_all : List (Slot W) → List (Slot W)
  unfolding reset_slot
  reset_all [] = []
  reset_all (s ∷ ss) = reset_slot s ∷ reset_all ss

  -- One round of moveTo: the oldest slot is reset and becomes the latest.
  unfoldable pub rotate : List (Slot W) → List (Slot W)
  unfolding reset_slot
  rotate [] = []
  rotate (s ∷ ss) = ss ++ reset_slot s ∷ []

  unfoldable pub rotate_times : ℕ → List (Slot W) → List (Slot W)
  unfolding rotate
  rotate_times zero slots = slots
  rotate_times (suc n) slots = rotate_times n (rotate slots)

  unfoldable pub move_slots : ℕ → List (Slot W) → List (Slot W)
  unfolding rotate_times reset_all
  move_slots add_seconds slots =
      if ltb (length slots) add_seconds then reset_all slots else rotate_times add_seconds slots

  unfoldable pub move_to : TimeWindows W → ℕ → ℕ → TimeWindows W
  unfolding move_slots seconds_between
  move_to t end_time tm =
      let add_seconds = seconds_between end_time tm in
      if add_seconds == 0
      then t
      else record t { slots = move_slots add_seconds t.slots; end_time = some tm }

  -- Walking `n` elements on from the front, and accepting there. A walk off the list panics in
  -- the source; here it changes nothing.
  unfoldable pub accept_from_front : D → ℕ → List (Slot W) → List (Slot W)
  unfolding accept_slot
  accept_from_front d n [] = []
  accept_from_front d zero (s ∷ ss) = accept_slot d s ∷ ss
  accept_from_front d (suc n) (s ∷ ss) = s ∷ accept_from_front d n ss

  -- Walking `n` elements back from the back.
  unfoldable pub accept_from_back : D → ℕ → List (Slot W) → List (Slot W)
  unfolding accept_slot
  accept_from_back d n [] = []
  accept_from_back d n (s ∷ ss) =
      let later = accept_from_back d n ss in
      if length ss == n then accept_slot d s ∷ ss else s ∷ later

  -- appendDataToSlot walks from the nearer end.
  unfoldable pub append_data_to_slot : ℕ → D → List (Slot W) → List (Slot W)
  unfolding accept_from_front accept_from_back
  append_data_to_slot index d slots =
      if ltb (length slots) index
      then slots
      else if ltb index (length slots / 2)
      then accept_from_front d index slots
      else accept_from_back d (length slots - 1 - index) slots

  -- The end of Add, `second` seconds before the end time.
  unfoldable pub append_before : ℕ → D → TimeWindows W → TimeWindows W
  unfolding append_data_to_slot
  append_before ago d t =
      if leb (length t.slots) ago
      then t
      else record t { slots = append_data_to_slot (length t.slots - ago - 1) d t.slots }

  unfoldable pub add_at : ℕ → TimeWindows W → ℕ → D → TimeWindows W
  unfolding append_before move_to
  add_at end_time t tm d =
      if ltb 0 (seconds_between end_time tm)
      then append_before 0 d (move_to t end_time tm)
      else append_before (seconds_between tm end_time) d t

  unfoldable pub add : TimeWindows W → ℕ → D → TimeWindows W
  unfolding add_at
  add t tm d = elim t.end_time [
    | none ↦ add_at tm (record t { end_time = some tm }) tm d
    | some end_time ↦ add_at end_time t tm d
  ]

  -- The loop of MatchRule, from the back to the front, with the two variables that it assigns.
  unfoldable pub match_slots : (R → Bool) → List (Slot W) → Option R × ℕ
  match_slots check [] = (none, 0)
  match_slots check (s ∷ ss) =
      let (last_match, matched_count) = match_slots check ss in
      if check (ops.get s.window)
      then (some (ops.get s.window), suc matched_count)
      else (last_match, matched_count)

  unfoldable pub match_rule : TimeWindows W → PolicyItem → (R → Bool) → Option R × Bool
  unfolding match_slots
  match_rule t policy check =
      let (last_match, matched_count) = match_slots check t.slots in
      (last_match, leb policy.count matched_count)

  unfoldable pub push_back : ℕ → List (Slot W) → List (Slot W)
  unfolding new_slot
  push_back zero slots = slots
  push_back (suc n) slots = push_back n (slots ++ new_slot ∷ [])

  unfoldable pub remove_back : ℕ → List (Slot W) → List (Slot W)
  remove_back zero slots = slots
  remove_back (suc n) slots = remove_back n (drop_last slots)

  unfoldable pub scale_period : TimeWindows W → List PolicyItem → TimeWindows W
  unfolding max_period push_back remove_back
  scale_period t items =
      let period = max_period items 0 in
      if length t.slots == period
      then t
      else if ltb (length t.slots) period
      then record t { slots = push_back (period - length t.slots) t.slots }
      else record t { slots = remove_back (length t.slots - period) t.slots }

  unfoldable pub should_flush : TimeWindows W → Bool
  should_flush t = elim t.end_time [
    | none ↦ false
    | some end_time ↦ elim t.last_flush_time [ none ↦ true | some last ↦ ltb last end_time ]
  ]

  -- With no slot at all the source panics; here there is no data.
  unfoldable pub flush_most_recent_data : TimeWindows W → TimeWindows W × Option R
  unfolding should_flush
  flush_most_recent_data t =
      if should_flush t
      then (
        record t { last_flush_time = t.end_time },
        elim (last? t.slots) [ none ↦ none | some s ↦ some (ops.get s.window) ],
      )
      else (t, none)

  -- The results of the slots that have data, the latest first, among the latest `n`.
  unfoldable pub collect : ℕ → List (Slot W) → List R
  collect n [] = []
  collect n (s ∷ ss) =
      let later = collect n ss in
      if ltb (length ss) n && s.has_data then later ++ ops.get s.window ∷ [] else later

  unfoldable pub flushed_slots : TimeWindows W → ℕ → ℕ
  unfolding seconds_between
  flushed_slots t end_time = elim t.last_flush_time [
    | none ↦ suc (length t.slots)
    | some last ↦ seconds_between last end_time
  ]

  unfoldable pub flush_multiple_recent_data : TimeWindows W → TimeWindows W × Option (List R)
  unfolding should_flush collect flushed_slots
  flush_multiple_recent_data t = elim t.end_time [
    | none ↦ (t, none)
    | some end_time ↦
        if should_flush t
        then (
          record t { last_flush_time = t.end_time },
          some (collect (flushed_slots t end_time) t.slots),
        )
        else (t, none)
  ]
