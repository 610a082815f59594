-- ===== src/Windows/Laws.antt =====
-- What the operations of pkg/profiling/continuous/base/windows.go promise.
use mathlib.Core.List.{reverse, reverse-cons}
use skywalking_rover.Common.{
  ℕ, zero, suc, ◌-◌, ◌≤◌, ◌<◌, min, ◌≡◌, refl, sym, ap, ◌∙◌, ◌↔◌, Bool, true, false, List, [], ◌∷◌,
  ◌++◌, append-nil, none, some, arith, ltb, leb, ◌==◌, if◌then◌else◌, length, head?, drop,
  Bool-cases, Option-cases, inl, inr,
}
use skywalking_rover.Windows.{
  WindowData, Slot, TimeWindows, PolicyItem, max_period, seconds_between, move_to,
  accept_from_front, append_before, add_at, add, match_slots, match_rule, scale_period, collect,
  flushed_slots, should_flush, flush_multiple_recent_data,
}
use skywalking_rover.Windows.Slots.{
  shifted, length-shifted, length-accept_from_front, move_slots-shifted, append_data_to_slot-front,
  scaled, scale_slots,
}

module _ {D R W : Type 0} (ops : WindowData D R W) where
  -- The slot `ago` seconds before the latest one takes the value, if there is such a slot.
  abbrev pub placed : ℕ → D → List (Slot W) → List (Slot W)
  placed ago d slots =
      if leb (length slots) ago
      then slots
      else accept_from_front ops d (length slots - ago - 1) slots

  append_before-placed :
      (ago : ℕ) (d : D) (t : TimeWindows W)
      → ((append_before ops ago d t).slots ≡ placed ago d t.slots)
        × ((append_before ops ago d t).end_time ≡ t.end_time)
  unfolding append_before
  append_before-placed ago d t = elim (Bool-cases (leb (length t.slots) ago)) [
    | inl old ↦ rw (old, append_before) (refl, refl)
    | inr fits ↦
        rw (fits, append_before)
          (append_data_to_slot-front ops d (length t.slots - ago - 1) t.slots (ground arith), refl)
  ]

  length-placed :
      (ago : ℕ) (d : D) (slots : List (Slot W)) → length (placed ago d slots) ≡ length slots
  length-placed ago d slots =
      ground (arith, length-accept_from_front ops d (length slots - ago - 1) slots)

  -- The values that pass a check, the oldest first.
  abbrev pub matches : (R → Bool) → List (Slot W) → List R
  matches check [] = []
  matches check (s ∷ ss) =
      if check (ops.get s.window) then ops.get s.window ∷ matches check ss else matches check ss

  match_slots-matches :
      (check : R → Bool) (slots : List (Slot W))
      → match_slots ops check slots ≡ (head? (matches check slots), length (matches check slots))
  unfolding match_slots
  match_slots-matches check [] = refl
  match_slots-matches check (s ∷ ss) = elim (Bool-cases (check (ops.get s.window))) [
    | inl hit ↦ rw (hit, match_slots-matches check ss)
    | inr miss ↦ rw (miss, match_slots-matches check ss)
  ]

  -- MatchRule matches exactly if at least `Count` slots of the whole window pass the check, and
  -- the value that it returns is the oldest of those.
  match_rule-matches :
      (t : TimeWindows W) (policy : PolicyItem) (check : R → Bool)
      → ((match_rule ops t policy check).1 ≡ true ↔ policy.count ≤ length (matches check t.slots))
        × ((match_rule ops t policy check).0 ≡ head? (matches check t.slots))
  unfolding match_rule
  match_rule-matches t policy check =
      rw (match_slots-matches check t.slots) (((λ h. ground arith), (λ h. ground arith)), refl)

  -- ScalePeriod leaves one slot for each second of the longest period. The slots that it adds are
  -- put behind the latest one, and the slots that it takes away are the latest ones.
  scale_period-scaled :
      (t : TimeWindows W) (items : List PolicyItem)
      → (scale_period ops t items).slots ≡ scaled ops (max_period items 0) t.slots
  unfolding scale_period
  scale_period-scaled t items = ground arith ∙ scale_slots ops (max_period items 0) t.slots

  -- The results of the slots with data, the oldest first.
  abbrev pub results : List (Slot W) → List R
  results [] = []
  results (s ∷ ss) = if s.has_data then ops.get s.window ∷ results ss else results ss

  collect_nil : (k : ℕ) → [] ≡ reverse (results (drop k []))
  collect_nil zero = refl
  collect_nil (suc k) = refl

  collect-results :
      (n : ℕ) (slots : List (Slot W))
      → collect ops n slots ≡ reverse (results (drop (length slots - n) slots))
  unfolding collect
  collect-results n [] = collect_nil (0 - n)
  collect-results n (s ∷ ss) = elim (Bool-cases (ltb (length ss) n)) [
    | inl near ↦
        let e : suc (length ss) - n ≡ 0 = ground arith in
        let e' : length ss - n ≡ 0 = ground arith in
        let ih : collect ops n ss ≡ reverse (results ss) =
          collect-results n ss ∙ ap (λ k. reverse (results (drop k ss))) e' in
        rw (near, e)
          (elim (Bool-cases s.has_data) [
            | inl full ↦ rw full (
                ap (λ l. l ++ ops.get s.window ∷ []) ih
                ∙ sym (reverse-cons (ops.get s.window) (results ss)))
            | inr empty ↦ rw empty ih
          ])
    | inr far ↦
        let e : suc (length ss) - n ≡ suc (length ss - n) = ground arith in
        rw (far, e) (collect-results n ss)
  ]

  -- After an earlier flush, a flush at a later end time returns the results of the slots with data
  -- among those of the seconds in between, the latest first, and takes note of the end time.
  flush_multiple_recent_data-latest :
      (t : TimeWindows W) (last end_time : ℕ)
      → t.last_flush_time ≡ some last
      → t.end_time ≡ some end_time
      → last < end_time
      → ((flush_multiple_recent_data ops t).0.last_flush_time ≡ some end_time)
        × ((flush_multiple_recent_data ops t).1
            ≡ some
                (reverse (results (drop (length t.slots - seconds_between last end_time) t.slots))))
  unfolding flush_multiple_recent_data should_flush flushed_slots
  flush_multiple_recent_data-latest t last end_time p q h =
      ground (arith, collect-results (seconds_between last end_time) t.slots)

  -- A second flush with no newer end time in between returns nothing and changes nothing.
  pub flush_multiple_recent_data-twice :
      (t : TimeWindows W)
      → flush_multiple_recent_data ops (flush_multiple_recent_data ops t).0
        ≡ ((flush_multiple_recent_data ops t).0, none)
  unfolding flush_multiple_recent_data should_flush
  flush_multiple_recent_data-twice t = ground arith

-- Of two times at most one is full seconds past the other.
one_way : (from to : ℕ) → 0 < seconds_between from to → seconds_between to from ≡ 0
unfolding seconds_between
one_way from to h = omega arith

module _ {D R W : Type 0} (ops : WindowData D R W)
    (resets : (w : W) → ops.reset w ≡ ops.fresh) where
  shifted_zero : (slots : List (Slot W)) → shifted ops 0 slots ≡ slots
  shifted_zero slots = let e : min 0 (length slots) ≡ 0 = omega arith in rw e (append-nil slots)

  -- Where Add ends: the end time, and the slots.
  abbrev pub AddOutcome : TimeWindows W → ℕ → ℕ → D → TimeWindows W → Type 0
  AddOutcome t end_time tm d t' =
      (t'.slots
        ≡ placed ops (seconds_between tm end_time) d
            (shifted ops (seconds_between end_time tm) t.slots))
      × (t'.end_time ≡ some (if ltb 0 (seconds_between end_time tm) then tm else end_time))

  move_to-shifted :
      (t : TimeWindows W) (end_time tm : ℕ)
      → ltb 0 (seconds_between end_time tm) ≡ true
      → ((move_to ops t end_time tm).slots ≡ shifted ops (seconds_between end_time tm) t.slots)
        × ((move_to ops t end_time tm).end_time ≡ some tm)
  unfolding move_to
  move_to-shifted t end_time tm newer =
      let moves : seconds_between end_time tm == 0 ≡ false = ground arith in
      rw (moves, move_to)
        (move_slots-shifted ops resets (seconds_between end_time tm) t.slots, refl)

  add_at-placed :
      (t : TimeWindows W) (end_time tm : ℕ) (d : D)
      → t.end_time ≡ some end_time
      → AddOutcome t end_time tm d (add_at ops end_time t tm d)
  unfolding add_at
  add_at-placed t end_time tm d e = elim (Bool-cases (ltb 0 (seconds_between end_time tm))) [
    | inl newer ↦
        let m = move_to ops t end_time tm in
        let moved = move_to-shifted t end_time tm newer in
        let put = append_before-placed ops 0 d m in
        let ago = one_way end_time tm (ground arith) in
        rw (newer, ago) (put.0 ∙ ap (placed ops 0 d) moved.0, put.1 ∙ moved.1)
    | inr same ↦
        let put = append_before-placed ops (seconds_between tm end_time) d t in
        let ahead : seconds_between end_time tm ≡ 0 = ground arith in
        let shut : shifted ops (seconds_between end_time tm) t.slots ≡ t.slots =
          ap (λ k. shifted ops k t.slots) ahead ∙ shifted_zero t.slots in
        rw same (put.0 ∙ sym (ap (placed ops (seconds_between tm end_time) d) shut), put.1 ∙ e)
  ]

  -- Add at a time `k` full seconds past the end time drops the `k` oldest slots, adds as many
  -- empty ones and puts the value into the latest; at a time before the end it puts the value into
  -- the slot of that second, or nowhere if the second is older than every slot.
  pub add-placed :
      (t : TimeWindows W) (end_time tm : ℕ) (d : D)
      → t.end_time ≡ some end_time
      → AddOutcome t end_time tm d (add ops t tm d)
  unfolding add
  add-placed t end_time tm d e =
      let at : add ops t tm d ≡ add_at ops end_time t tm d = ground arith in
      rw at (add_at-placed t end_time tm d e)

  length-outcome :
      (t : TimeWindows W) (end_time tm : ℕ) (d : D) (t' : TimeWindows W)
      → AddOutcome t end_time tm d t'
      → length t'.slots ≡ length t.slots
  length-outcome t end_time tm d t' o =
      ap length o.0
      ∙ length-placed ops (seconds_between tm end_time) d
          (shifted ops (seconds_between end_time tm) t.slots)
      ∙ length-shifted ops (seconds_between end_time tm) t.slots

  -- The number of slots never changes by Add.
  pub length-add :
      (t : TimeWindows W) (tm : ℕ) (d : D) → length (add ops t tm d).slots ≡ length t.slots
  unfolding add
  length-add t tm d = elim (Option-cases t.end_time) [
    | inl e ↦
        let first : TimeWindows W = record t { end_time = some tm } in
        let at : add ops t tm d ≡ add_at ops tm first tm d = ground arith in
        rw at (
          length-outcome first tm tm d (add_at ops tm first tm d)
            (add_at-placed first tm tm d refl))
    | inr (end_time, e) ↦
        length-outcome t end_time tm d (add ops t tm d) (add-placed t end_time tm d e)
  ]
