-- ===== src/Examples/Slots.antt =====
-- Runs of the theorems on windows of three seconds, on a list of the longest requests and on a
-- histogram.
use skywalking_rover.Common.{ℕ, refl, Bool, true, [], ◌∷◌, some, ltb}
use skywalking_rover.Windows.{WindowData, latest_window_data, Slot, TimeWindows, PolicyItem, add}
use skywalking_rover.Windows.Laws.{AddOutcome, add-placed}
use skywalking_rover.Metrics.TopN.{TopNRecord, TopN}
use skywalking_rover.Metrics.Histogram.{Histogram}

abbrev latest : WindowData ℕ ℕ ℕ
latest = latest_window_data 0

abbrev full : ℕ → Slot ℕ
full n = record { window = n; has_data = true }

abbrev three : TimeWindows ℕ
three = record {
  slots = full 7 ∷ full 1 ∷ full 9 ∷ [];
  end_time = some 5_000_000_000;
  last_flush_time = some 3_000_000_000;
}

abbrev twice_in_three : PolicyItem
twice_in_three = record { period = 3; count = 2 }

add_example :
    AddOutcome latest
      (λ w. refl)
      three
      5_000_000_000
      6_000_000_000
      4
      (add latest three 6_000_000_000 4)
add_example = add-placed latest (λ w. refl) three 5_000_000_000 6_000_000_000 4 refl

abbrev request : ℕ → TopNRecord ℕ
request n = record { duration = n; content = n }

abbrev longest : TopN ℕ
longest = record { records = request 9 ∷ request 5 ∷ []; max_length = 2 }

-- A histogram over numbers, compared as the source compares its buckets.
abbrev greater : ℕ → ℕ → Bool
greater a b = ltb b a

abbrev sizes : Histogram ℕ
sizes = record { buckets = 0 ∷ 10 ∷ 100 ∷ []; values = 1 ∷ 2 ∷ 3 ∷ [] }
