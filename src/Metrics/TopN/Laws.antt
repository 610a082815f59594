-- ===== src/Metrics/TopN/Laws.antt =====
-- How many records the list keeps, and where a new record goes.
use skywalking_rover.Common.{
  ℕ, suc, ◌-◌, ◌≤◌, ◌<◌, ◌≡◌, refl, ap, ◌∙◌, true, List, [], ◌∷◌, ◌++◌, some, arith, length,
  length-append, last?, drop_last, drop_last-take, length-take, Option-cases, inl, inr,
}
use skywalking_rover.Metrics.TopN.{
  TopNRecord, TopN, insert_before_smaller, insert_record, is_below_last, add_record, add_records,
  merge_and_clean,
}

module _ {A : Type 0} where
  length-insert_before_smaller :
      (node : TopNRecord A) (xs ys : List (TopNRecord A))
      → insert_before_smaller node xs ≡ some ys
      → length ys ≡ suc (length xs)
  unfolding insert_before_smaller
  length-insert_before_smaller node [] ys e = cc
  length-insert_before_smaller node (x ∷ xs) ys e =
      elim (Option-cases (insert_before_smaller node xs)) [
        | inl q ↦ ground arith
        | inr (zs, q) ↦ ground (arith, length-insert_before_smaller node xs zs q)
      ]

  length-insert_record :
      (node : TopNRecord A) (xs : List (TopNRecord A))
      → length (insert_record node xs) ≡ suc (length xs)
  unfolding insert_record
  length-insert_record node xs = elim (Option-cases (insert_before_smaller node xs)) [
    | inl q ↦ rw (q, insert_record) (omega (arith, length-append xs (node ∷ [])))
    | inr (zs, q) ↦ rw (q, insert_record) (length-insert_before_smaller node xs zs q)
  ]

  length-drop_last : (xs : List (TopNRecord A)) → length (drop_last xs) ≡ length xs - 1
  length-drop_last xs =
      ap length (drop_last-take xs) ∙ omega (arith, length-take (length xs - 1) xs)

  max_length-add_record :
      (t : TopN A) (content : A) (duration : ℕ)
      → (add_record t content duration).max_length ≡ t.max_length
  unfolding add_record
  max_length-add_record t content duration = ground arith

  -- AddRecord keeps a list that is within its bound within it.
  pub length-add_record :
      (t : TopN A) (content : A) (duration : ℕ)
      → length t.records ≤ t.max_length
      → length (add_record t content duration).records ≤ t.max_length
  unfolding add_record
  length-add_record t content duration h =
      let node : TopNRecord A = record { duration = duration; content = content } in
      ground (
        arith,
        length-insert_record node t.records,
        length-drop_last (insert_record node t.records),
      )

  length-add_records :
      (t : TopN A) (rs : List (TopNRecord A))
      → length t.records ≤ t.max_length
      → length (add_records t rs).records ≤ t.max_length
  unfolding add_records
  length-add_records t [] h = h
  length-add_records t (r ∷ rs) h =
      let t' = add_record t r.content r.duration in
      omega (
        arith,
        length-add_records t' rs
            (omega (arith, length-add_record t r.content r.duration h, same_bound t r)),
        same_bound t r,
      )
    where
      same_bound :
          (t : TopN A) (r : TopNRecord A)
          → (add_record t r.content r.duration).max_length ≡ t.max_length
      same_bound t r = max_length-add_record t r.content r.duration

  insert_before_smaller-last :
      (node b : TopNRecord A) (xs : List (TopNRecord A))
      → b.duration < node.duration
      → insert_before_smaller node (xs ++ b ∷ []) ≡ some (xs ++ node ∷ (b ∷ []))
  unfolding insert_before_smaller
  insert_before_smaller-last node b [] h = ground arith
  insert_before_smaller-last node b (x ∷ xs) h = rw (insert_before_smaller-last node b xs h) refl

  last?-append : (xs : List (TopNRecord A)) (b : TopNRecord A) → last? (xs ++ b ∷ []) ≡ some b
  last?-append [] b = refl
  last?-append (x ∷ []) b = refl
  last?-append (x ∷ y ∷ ys) b = last?-append (y ∷ ys) b

  drop_last-append :
      (xs : List (TopNRecord A)) (a b : TopNRecord A)
      → drop_last (xs ++ a ∷ (b ∷ [])) ≡ xs ++ a ∷ []
  drop_last-append [] a b = refl
  drop_last-append (x ∷ []) a b = refl
  drop_last-append (x ∷ y ∷ ys) a b = ap (◌∷◌ x) (drop_last-append (y ∷ ys) a b)

  -- A record longer than the last one of a full list takes that one's place, at the end.
  replaces_last :
      (t : TopN A) (xs : List (TopNRecord A)) (b : TopNRecord A) (content : A) (duration : ℕ)
      → t.records ≡ xs ++ b ∷ []
      → t.max_length ≡ suc (length xs)
      → b.duration < duration
      → (add_record t content duration).records
        ≡ xs ++ record { duration = duration; content = content } ∷ []
  unfolding add_record insert_record is_below_last
  replaces_last t xs b content duration e full h =
      let node : TopNRecord A = record { duration = duration; content = content } in
      ground (
        arith,
        last?-append xs b,
        drop_last-append xs node b,
        insert_before_smaller-last node b xs h,
        length-append xs (node ∷ (b ∷ [])),
      )

  is_below_last-last :
      (t : TopN A) (xs : List (TopNRecord A)) (b : TopNRecord A) (duration : ℕ)
      → t.records ≡ xs ++ b ∷ []
      → t.max_length ≡ suc (length xs)
      → duration < b.duration
      → is_below_last t duration ≡ true
  unfolding is_below_last
  is_below_last-last t xs b duration e full h =
      ground (arith, last?-append xs b, length-append xs (b ∷ []))

  add_record-skip :
      (t : TopN A) (content : A) (duration : ℕ)
      → is_below_last t duration ≡ true
      → add_record t content duration ≡ t
  unfolding add_record
  add_record-skip t content duration h = rw (h, add_record)

  -- A full list whose last record is shorter than a new one keeps all the others and has the new
  -- record at its end. Whatever the others are, every later record that is shorter than that one
  -- is turned away, although there may be still shorter ones in the list.
  add_record-turns_away :
      (t : TopN A) (xs : List (TopNRecord A)) (b : TopNRecord A) (first second : A) (d e : ℕ)
      → t.records ≡ xs ++ b ∷ []
      → t.max_length ≡ suc (length xs)
      → b.duration < d
      → e < d
      → (add_record (add_record t first d) second e).records
        ≡ xs ++ record { duration = d; content = first } ∷ []
  unfolding is_below_last
  add_record-turns_away t xs b first second d e p full h k =
      let node : TopNRecord A = record { duration = d; content = first } in
      let t' = add_record t first d in
      let kept = replaces_last t xs b first d p full h in
      let below : is_below_last t' e ≡ true =
        is_below_last-last t' xs node e kept (max_length-add_record t first d ∙ full) k in
      ap (λ (x : TopN A). x.records) (add_record-skip t' second e below) ∙ kept

  -- MergeAndClean, on a list within its bound, leaves it within it, and the other list empty.
  pub merge_and_clean-bounded :
      (t other : TopN A)
      → length t.records ≤ t.max_length
      → (length (merge_and_clean t other).0.records ≤ t.max_length)
        × ((merge_and_clean t other).1.records ≡ [])
  unfolding merge_and_clean
  merge_and_clean-bounded t other h = (length-add_records t other.records h, refl)
