-- ===== src/Metrics/Histogram/Laws.antt =====
-- Every value is counted once, in the bucket that holds it, and merging loses no count.
use skywalking_rover.Common.{
  ℕ, zero, suc, ◌+◌, ◌≤◌, ◌<◌, ◌≡◌, refl, Bool, true, false, List, [], ◌∷◌, map, some, arith,
  length, get_elem?, Bool-cases, inl, inr,
}
use skywalking_rover.Metrics.Histogram.{
  Histogram, increment, bucket_from, bucket_of, increase, add_values, merge_histogram,
}

abbrev pub sum : List ℕ → ℕ
sum [] = 0
sum (v ∷ vs) = v + sum vs

sum-increment :
    (i : ℕ) (vs : List ℕ)
    → i < length vs
    → (sum (increment i vs) ≡ sum vs + 1) × (length (increment i vs) ≡ length vs)
unfolding increment
sum-increment i [] h = absurd (omega arith)
sum-increment zero (v ∷ vs) h = (omega arith, refl)
sum-increment (suc i) (v ∷ vs) h = omega (arith, sum-increment i vs (omega arith))

sum-add_values :
    (vs ws : List ℕ)
    → length vs ≡ length ws
    → (sum (add_values vs ws) ≡ sum vs + sum ws) × (length (add_values vs ws) ≡ length vs)
unfolding add_values
sum-add_values vs [] h = (omega arith, refl)
sum-add_values [] (w ∷ ws) h = absurd (omega arith)
sum-add_values (v ∷ vs) (w ∷ ws) h = omega (arith, sum-add_values vs ws (omega arith))

sum-zeros : (ws : List ℕ) → sum (map (λ _. 0) ws) ≡ 0
sum-zeros [] = refl
sum-zeros (w ∷ ws) = omega (arith, sum-zeros ws)

module _ {F : Type 0} (gt : F → F → Bool) (val : F) where
  -- From bucket `i` on, the buckets before the found one are not greater than the value, and the
  -- next one is.
  pub record Bounds (i r : ℕ) (bs : List F) : Type 0 where
    pub above : i ≤ r
    pub below : r ≤ i + length bs
    pub passed : (j : ℕ) (b : F) → i + j < r → get_elem? bs j ≡ some b → gt b val ≡ false
    pub stopped : (j : ℕ) (b : F) → i + j ≡ r → get_elem? bs j ≡ some b → gt b val ≡ true

  stopped_hit :
      (i : ℕ) (x : F) (xs : List F)
      → gt x val ≡ true
      → (j : ℕ) (b : F) → i + j ≡ i
      → get_elem? (x ∷ xs) j ≡ some b
      → gt b val ≡ true
  stopped_hit i x xs hit zero b h e = ground arith
  stopped_hit i x xs hit (suc j) b h e = absurd (omega arith)

  module _ (i r : ℕ) (x : F) (xs : List F) (miss : gt x val ≡ false)
      (later : Bounds (suc i) r xs) where
    passed_miss : (j : ℕ) (b : F) → i + j < r → get_elem? (x ∷ xs) j ≡ some b → gt b val ≡ false
    passed_miss zero b h e = ground arith
    passed_miss (suc j) b h e = later.passed j b (omega arith) e

    stopped_miss : (j : ℕ) (b : F) → i + j ≡ r → get_elem? (x ∷ xs) j ≡ some b → gt b val ≡ true
    stopped_miss zero b h e = absurd (omega (arith, later.above))
    stopped_miss (suc j) b h e = later.stopped j b (omega arith) e

  bucket_from-Bounds : (i : ℕ) (bs : List F) → Bounds i (bucket_from gt val i bs) bs
  unfolding bucket_from
  bucket_from-Bounds i [] = record {
    above = omega arith;
    below = omega arith;
    passed = λ j b h e. cc;
    stopped = λ j b h e. cc;
  }
  bucket_from-Bounds i (x ∷ xs) = elim (Bool-cases (gt x val)) [
    | inl hit ↦ rw hit (record {
      above = omega arith;
      below = omega arith;
      passed = λ j b h e. absurd (omega arith);
      stopped = stopped_hit i x xs hit;
    })
    | inr miss ↦
        let r = bucket_from gt val (suc i) xs in
        let later = bucket_from-Bounds (suc i) xs in
        rw miss (record {
          above = omega (arith, later.above);
          below = omega (arith, later.below);
          passed = passed_miss i r x xs miss later;
          stopped = stopped_miss i r x xs miss later;
        })
  ]

  -- Increase, on a histogram with a bucket and as many values as buckets, counts exactly one value,
  -- in a bucket that exists: no bucket behind the first one up to this bucket is greater than the
  -- value, and the next bucket, if there is one, is.
  increase-bucket :
      (h : Histogram F) (b : F) (bs : List F)
      → h.buckets ≡ b ∷ bs
      → length h.values ≡ length h.buckets
      → (sum (increase gt h val).values ≡ sum h.values + 1)
        × (length (increase gt h val).values ≡ length h.values)
        × Bounds 0 (bucket_of gt val h.buckets) bs
  unfolding increase bucket_of
  increase-bucket h b bs e size =
      let bounds = bucket_from-Bounds 0 bs in
      let counted =
        sum-increment (bucket_of gt val h.buckets) h.values
          (rw (size, e) (omega (arith, bounds.below))) in
      (counted.0, counted.1, rw e bounds)

-- For two histograms with as many values, merging moves every count of the other histogram into this one.
merge_histogram-sum :
    {F : Type 0} (h other : Histogram F)
    → length h.values ≡ length other.values
    → (sum (merge_histogram h other).0.values ≡ sum h.values + sum other.values)
      × (sum (merge_histogram h other).1.values ≡ 0)
      × (length (merge_histogram h other).0.values ≡ length h.values)
unfolding merge_histogram
merge_histogram-sum h other size =
    let moved = sum-add_values h.values other.values size in
    (moved.0, sum-zeros other.values, moved.1)
