-- ===== src/Windows/Slots.antt =====
-- The slot list of pkg/profiling/continuous/base/windows.go: moving on in time, finding the slot
-- of a second, and scaling the period.
use skywalking_rover.Common.{
  ℕ, zero, suc, ◌+◌, ◌-◌, ◌≤◌, ◌<◌, min, ◌≡◌, refl, sym, ap, ◌∙◌, true, false, List, [], ◌∷◌, ◌++◌,
  append-nil, append_assoc, arith, ltb, leb, ◌==◌, if◌then◌else◌, length, length-append, take, drop,
  replicate, drop_last, drop_last-take, take-take, drop-append_le, drop-length_le, take-length_le,
  length-take, length-drop, length-replicate, Bool-cases, inl, inr,
}
use skywalking_rover.Windows.{
  WindowData, Slot, new_slot, reset_slot, reset_all, rotate, rotate_times, move_slots,
  accept_from_front, accept_from_back, append_data_to_slot, push_front, push_back, remove_back,
}

module _ {D R W : Type 0} (ops : WindowData D R W) where
  pub length-accept_from_front :
      (d : D) (n : ℕ) (slots : List (Slot W))
      → length (accept_from_front ops d n slots) ≡ length slots
  unfolding accept_from_front
  length-accept_from_front d n [] = refl
  length-accept_from_front d zero (s ∷ ss) = refl
  length-accept_from_front d (suc n) (s ∷ ss) = ap suc (length-accept_from_front d n ss)

  -- The walk from the back reaches the same slot as the walk from the front.
  accept_from_back-front :
      (d : D) (index : ℕ) (slots : List (Slot W))
      → index < length slots
      → accept_from_back ops d (length slots - 1 - index) slots
        ≡ accept_from_front ops d index slots
  unfolding accept_from_front accept_from_back
  accept_from_back-front d index [] h = absurd (omega arith)
  accept_from_back-front d zero (s ∷ ss) h = ground arith
  accept_from_back-front d (suc n) (s ∷ ss) h =
      let e : suc (length ss) - 1 - suc n ≡ length ss - 1 - n = omega arith in
      let other : length ss == suc (length ss) - 1 - suc n ≡ false = ground arith in
      rw other (
        ap (◌∷◌ s)
          (ap (λ j. accept_from_back ops d j ss) e ∙ accept_from_back-front d n ss (omega arith)))

  -- Walking from the nearer end is only a short cut.
  pub append_data_to_slot-front :
      (d : D) (index : ℕ) (slots : List (Slot W))
      → index < length slots
      → append_data_to_slot ops index d slots ≡ accept_from_front ops d index slots
  unfolding append_data_to_slot
  append_data_to_slot-front d index slots h = ground (arith, accept_from_back-front d index slots h)

  -- The slots `k` seconds later: the oldest go, as many new ones come.
  abbrev pub shifted : ℕ → List (Slot W) → List (Slot W)
  shifted k slots = drop k slots ++ replicate (min k (length slots)) (new_slot ops)

  pub length-shifted : (k : ℕ) (slots : List (Slot W)) → length (shifted k slots) ≡ length slots
  length-shifted k slots = omega (
    arith,
    length-append (drop k slots) (replicate (min k (length slots)) (new_slot ops)),
    length-drop k slots,
    length-replicate (min k (length slots)) (new_slot ops),
  )

module _ {D R W : Type 0} (ops : WindowData D R W)
    (resets : (w : W) → ops.reset w ≡ ops.fresh) where
  reset_slot-new : (s : Slot W) → reset_slot ops s ≡ new_slot ops
  unfolding reset_slot new_slot
  reset_slot-new s = rw (resets s.window)

  reset_all-replicate :
      (slots : List (Slot W)) → reset_all ops slots ≡ replicate (length slots) (new_slot ops)
  unfolding reset_all
  reset_all-replicate [] = refl
  reset_all-replicate (s ∷ ss) = rw (reset_slot-new s, reset_all-replicate ss)

  rotate_times-shifted :
      (k : ℕ) (slots : List (Slot W))
      → k ≤ length slots
      → rotate_times ops k slots ≡ drop k slots ++ replicate k (new_slot ops)
  unfolding rotate_times rotate
  rotate_times-shifted zero slots h = sym (append-nil slots)
  rotate_times-shifted (suc k) [] h = absurd (omega arith)
  rotate_times-shifted (suc k) (s ∷ ss) h =
      rotate_times-shifted k (ss ++ reset_slot ops s ∷ [])
        (omega (arith, length-append ss (reset_slot ops s ∷ [])))
      ∙ rw
          (
            drop-append_le k ss (reset_slot ops s ∷ []) (omega arith),
            append_assoc (drop k ss) (reset_slot ops s ∷ []) (replicate k (new_slot ops)),
            reset_slot-new s,
          )
          refl

  -- Moving `k` seconds on drops the `k` oldest slots and adds as many empty ones.
  pub move_slots-shifted :
      (k : ℕ) (slots : List (Slot W)) → move_slots ops k slots ≡ shifted ops k slots
  unfolding move_slots
  move_slots-shifted k slots = elim (Bool-cases (ltb (length slots) k)) [
    | inl far ↦
        let e : min k (length slots) ≡ length slots = ground arith in
        rw (far, e, drop-length_le k slots (ground arith)) (reset_all-replicate slots)
    | inr near ↦
        let e : min k (length slots) ≡ k = ground arith in
        rw (near, e) (rotate_times-shifted k slots (ground arith))
  ]

module _ {D R W : Type 0} (ops : WindowData D R W) where
  push_back-replicate :
      (n : ℕ) (slots : List (Slot W)) → push_back ops n slots ≡ slots ++ replicate n (new_slot ops)
  unfolding push_back
  push_back-replicate zero slots = sym (append-nil slots)
  push_back-replicate (suc n) slots =
      push_back-replicate n (slots ++ new_slot ops ∷ [])
      ∙ append_assoc slots (new_slot ops ∷ []) (replicate n (new_slot ops))

  pub length-push_front :
      (n : ℕ) (slots : List (Slot W)) → length (push_front ops n slots) ≡ n + length slots
  unfolding push_front
  length-push_front zero slots = omega arith
  length-push_front (suc n) slots = omega (arith, length-push_front n (new_slot ops ∷ slots))

  remove_back-take :
      (n : ℕ) (slots : List (Slot W)) → remove_back ops n slots ≡ take (length slots - n) slots
  unfolding remove_back
  remove_back-take zero slots = sym (take-length_le (length slots - 0) slots (omega arith))
  remove_back-take (suc n) slots =
      let shorter : length (drop_last slots) ≡ length slots - 1 =
        ap length (drop_last-take slots) ∙ omega (arith, length-take (length slots - 1) slots) in
      let e : length (drop_last slots) - n ≡ length slots - suc n = omega (arith, shorter) in
      remove_back-take n (drop_last slots)
      ∙ rw (e, drop_last-take slots)
          (take-take (length slots - suc n) (length slots - 1) slots (omega arith))

  -- Scaling up adds empty slots behind the latest one, and scaling down takes the latest away.
  abbrev pub scaled : ℕ → List (Slot W) → List (Slot W)
  scaled period slots =
      if leb (length slots) period
      then slots ++ replicate (period - length slots) (new_slot ops)
      else take period slots

  pub length-scaled : (period : ℕ) (slots : List (Slot W)) → length (scaled period slots) ≡ period
  length-scaled period slots = elim (Bool-cases (leb (length slots) period)) [
    | inl up ↦ rw up (
        ground (
          arith,
          length-append slots (replicate (period - length slots) (new_slot ops)),
          length-replicate (period - length slots) (new_slot ops),
        ))
    | inr down ↦ rw down (ground (arith, length-take period slots))
  ]

  pub scale_slots :
      (period : ℕ) (slots : List (Slot W))
      → (if length slots == period
          then slots
          else if ltb (length slots) period
          then push_back ops (period - length slots) slots
          else remove_back ops (length slots - period) slots)
        ≡ scaled period slots
  scale_slots period slots = elim (Bool-cases (length slots == period)) [
    | inl same ↦
        let e : leb (length slots) period ≡ true = ground arith in
        let e' : period - length slots ≡ 0 = ground arith in
        rw (same, e, e') (sym (append-nil slots))
    | inr other ↦ elim (Bool-cases (ltb (length slots) period)) [
      | inl up ↦
          let e : leb (length slots) period ≡ true = ground arith in
          rw (other, up, e) (push_back-replicate (period - length slots) slots)
      | inr down ↦
          let e : leb (length slots) period ≡ false = ground arith in
          let e' : length slots - (length slots - period) ≡ period = ground arith in
          rw (other, down, e)
            (remove_back-take (length slots - period) slots ∙ ap (λ k. take k slots) e')
    ]
  ]
