-- ===== src/Metrics/Histogram.antt =====
-- counter.go and histogram.go. A bucket bound is a float64 in the source: the model takes
-- the type and its test `>` as parameters. A count is an `int` that does not overflow.
pub mod Laws
use skywalking_rover.Common.{
  ℕ, zero, suc, ◌+◌, ◌/◌, Bool, List, [], ◌∷◌, map, ◌==◌, if◌then◌else◌, length, replicate,
}

-- counter.go
pub record Counter : Type 0 where
  pub value : ℕ

unfoldable pub increase_counter : Counter → Counter
increase_counter c = record { value = c.value + 1 }

unfoldable pub merge_counter : Counter → Counter → Counter × Counter
merge_counter c other = (record { value = c.value + other.value }, record { value = 0 })

unfoldable pub cut_half_counter : Counter → Counter
cut_half_counter c = record { value = c.value / 2 }

-- histogram.go
pub record Histogram (F : Type 0) : Type 0 where
  pub buckets : List F
  pub values : List ℕ

-- values[i]++, which panics out of range; here it changes nothing there.
unfoldable pub increment : ℕ → List ℕ → List ℕ
increment i [] = []
increment zero (v ∷ vs) = (v + 1) ∷ vs
increment (suc i) (v ∷ vs) = v ∷ increment i vs

-- values[inx] += val, for each of the other's values.
unfoldable pub add_values : List ℕ → List ℕ → List ℕ
add_values vs [] = vs
add_values [] (w ∷ ws) = []
add_values (v ∷ vs) (w ∷ ws) = (v + w) ∷ add_values vs ws

module _ {F : Type 0} where
  unfoldable pub new_histogram : List F → Histogram F
  new_histogram buckets = record { buckets = buckets; values = replicate (length buckets) 0 }

  -- The loop of Increase, behind the first bucket: `i` is the index of the bucket before. The
  -- result is the index that is counted up.
  unfoldable pub bucket_from : (F → F → Bool) → F → ℕ → List F → ℕ
  bucket_from gt val i [] = i
  bucket_from gt val i (b ∷ bs) =
      let later = bucket_from gt val (suc i) bs in if gt b val then i else later

  unfoldable pub bucket_of : (F → F → Bool) → F → List F → ℕ
  unfolding bucket_from
  bucket_of gt val [] = 0
  bucket_of gt val (b ∷ bs) = bucket_from gt val 0 bs

  unfoldable pub increase : (F → F → Bool) → Histogram F → F → Histogram F
  unfolding bucket_of increment
  increase gt h val = record h { values = increment (bucket_of gt val h.buckets) h.values }

  unfoldable pub merge_histogram : Histogram F → Histogram F → Histogram F × Histogram F
  unfolding add_values
  merge_histogram h other = (
    record h { values = add_values h.values other.values },
    record other { values = map (λ _. 0) other.values },
  )

  unfoldable pub cut_half_histogram : Histogram F → Histogram F
  cut_half_histogram h = record h { values = map (λ v. v / 2) h.values }
