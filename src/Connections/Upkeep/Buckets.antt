-- ===== src/Connections/Upkeep/Buckets.antt =====
-- The latencies of pkg/accesslog/common/connection.go.
use skywalking_rover.Common.{
  ℕ, suc, ◌+◌, ◌/◌, ◌≤◌, ◌≡◌, List, [], ◌∷◌, ltb, ltb→lt, length, All, arith, Bool-cases, inl, inr,
}
use skywalking_rover.Connections.Upkeep.{Latencies, count_latency, record_resolution_latency}

unfoldable pub record_latencies : List ℕ → Latencies → Latencies
unfolding record_resolution_latency
record_latencies [] l = l
record_latencies (d ∷ ds) l = record_latencies ds (record_resolution_latency d l)

abbrev pub total_count : Latencies → ℕ
total_count l = l.under_1s + l.from_1_to_5s + l.from_5_to_15s + l.over_15s

record-total :
    (d : ℕ) (l : Latencies) → total_count (record_resolution_latency d l) ≡ suc (total_count l)
unfolding record_resolution_latency
record-total d l = ground arith

count_latency-max : (d : ℕ) (l : Latencies) → (count_latency d l).max_milli ≡ l.max_milli
count_latency-max d l = ground arith

record-max :
    (d : ℕ) (l : Latencies)
    → (l.max_milli ≤ (record_resolution_latency d l).max_milli)
      × (d / 1_000_000 ≤ (record_resolution_latency d l).max_milli)
unfolding record_resolution_latency
record-max d l = elim (Bool-cases (ltb l.max_milli (d / 1_000_000))) [
  | inl e ↦ rw e (omega (arith, ltb→lt l.max_milli (d / 1_000_000) e), omega arith)
  | inr e ↦ rw e (omega (arith, count_latency-max d l), ground (arith, count_latency-max d l, e))
]

later-max : (ds : List ℕ) (l : Latencies) → l.max_milli ≤ (record_latencies ds l).max_milli
unfolding record_latencies
later-max [] l = omega arith
later-max (d ∷ ds) l =
    omega (arith, (record-max d l).0, later-max ds (record_resolution_latency d l))

-- Each resolution is counted in one bucket, and the maximum is not less than its milliseconds.
pub record_latencies-total :
    (ds : List ℕ) (l : Latencies)
    → (total_count (record_latencies ds l) ≡ total_count l + length ds)
      × All (λ d. d / 1_000_000 ≤ (record_latencies ds l).max_milli) ds
unfolding record_latencies
record_latencies-total [] l = (omega arith, tt)
record_latencies-total (d ∷ ds) l =
    let r = record_resolution_latency d l in
    let (t, a) = record_latencies-total ds r in
    (omega (arith, t, record-total d l), (omega (arith, (record-max d l).1, later-max ds r), a))
