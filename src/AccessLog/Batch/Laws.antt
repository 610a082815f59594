-- ===== src/AccessLog/Batch/Laws.antt =====
-- splitBatchLogs of pkg/accesslog/sender/logs.go cuts a batch into parts of a bounded size.
use skywalking_rover.Common.{
  ℕ, suc, ◌%◌, ◌≤◌, ◌<◌, ◌≡◌, refl, sym, ap, ◌∙◌, true, false, List, [], ◌∷◌, ◌++◌, append-nil,
  append_assoc, ◌==◌, ==_iff, ltb, length, length-append, arith, All, All-append, Bool-cases, inl,
  inr,
}
use native.Mathlib.Nat.{mod-eq_of_lt, mod_self}
use skywalking_rover.AccessLog.Batch.{BatchLogs, split_rounds, split_batch_logs}

is_full : (max n : ℕ) → 0 < n → n ≤ max → n % max == 0 ≡ true → n ≡ max
is_full max n p l f = elim (Bool-cases (ltb n max)) [
  | inl lt ↦
      let small : n < max = ground arith in
      let m : n % max ≡ n = mod-eq_of_lt small in
      let zero' : n % max ≡ 0 = (==_iff (n % max) 0).0 f in absurd (omega arith)
  | inr ge ↦ ground arith
]

is_room : (max n : ℕ) → n ≤ max → n % max == 0 ≡ false → n < max
is_room max n l f = elim (Bool-cases (n == max)) [
  | inl same ↦
      let e : n ≡ max = (==_iff n max).0 same in
      let m : n % max ≡ 0 = ap (λ k. n % k) (sym e) ∙ mod_self n in
      cc (sym f ∙ (==_iff (n % max) 0).1 m)
  | inr other ↦ ground arith
]

module _ {K P : Type 0} where
  abbrev pub concat : List (BatchLogs K P) → BatchLogs K P
  concat [] = []
  concat (b ∷ bs) = b ++ concat bs

  concat-snoc :
      (bs : List (BatchLogs K P)) (b : BatchLogs K P) → concat (bs ++ b ∷ []) ≡ concat bs ++ b
  concat-snoc [] b = append-nil b
  concat-snoc (x ∷ bs) b = ap (λ l. x ++ l) (concat-snoc bs b) ∙ sym (append_assoc x (concat bs) b)

  -- Every part of the result is as full as allowed, but for the last one.
  abbrev pub Full : ℕ → List (BatchLogs K P) → Type 0
  Full max [] = Unit
  Full max (b ∷ []) = (0 < length b) × (length b ≤ max)
  Full max (b ∷ c ∷ bs) = (length b ≡ max) × Full max (c ∷ bs)

  Full-snoc :
      (max : ℕ) (bs : List (BatchLogs K P)) (b : BatchLogs K P)
      → All (λ c. length c ≡ max) bs
      → 0 < length b
      → length b ≤ max
      → Full max (bs ++ b ∷ [])
  Full-snoc max [] b a p l = (p, l)
  Full-snoc max (x ∷ []) b a p l = (a.0, (p, l))
  Full-snoc max (x ∷ y ∷ bs) b a p l = (a.0, Full-snoc max (y ∷ bs) b a.1 p l)

  split_rounds_lem :
      (max : ℕ) (result : List (BatchLogs K P)) (current : BatchLogs K P) (es : BatchLogs K P)
      → All (λ c. length c ≡ max) result
      → 0 < length current
      → length current ≤ max
      → (concat (split_rounds max result current (length current) es)
          ≡ concat result ++ (current ++ es))
        × Full max (split_rounds max result current (length current) es)
  unfolding split_rounds
  split_rounds_lem max result current [] a p l = (
    concat-snoc result current ∙ ap (λ l. concat result ++ l) (sym (append-nil current)),
    Full-snoc max result current a p l,
  )
  split_rounds_lem max result current (e ∷ es) a p l =
      elim (Bool-cases (length current % max == 0)) [
        | inl full ↦
            let exact : length current ≡ max = is_full max (length current) p l full in
            let later =
              split_rounds_lem max (result ++ current ∷ []) (e ∷ []) es
                (All-append _ result (current ∷ []) a (exact, tt)) (omega arith) (omega arith) in
            rw full (
              later.0
                  ∙ ap (λ l. l ++ e ∷ es) (concat-snoc result current)
                  ∙ append_assoc (concat result) current (e ∷ es),
              later.1,
            )
        | inr more ↦
            let size : length (current ++ e ∷ []) ≡ suc (length current) =
              omega (arith, length-append current (e ∷ [])) in
            let room : length current < max = is_room max (length current) l more in
            let later =
              split_rounds_lem max result (current ++ e ∷ []) es a (omega arith) (omega arith) in
            rw (more, ← size)
              (later.0 ∙ ap (λ l. concat result ++ l) (append_assoc current (e ∷ []) es), later.1)
      ]

  -- For a positive bound, splitBatchLogs puts every connection with its logs into exactly one part,
  -- and every part but the last one has exactly as many connections as allowed; the last one has at
  -- least one and no more than allowed. There is no part if there are no logs.
  split_batch_logs-concat :
      (max : ℕ) (logs : BatchLogs K P)
      → 0 < max
      → (concat (split_batch_logs max logs) ≡ logs) × Full max (split_batch_logs max logs)
  unfolding split_batch_logs
  split_batch_logs-concat max [] h = (refl, tt)
  split_batch_logs-concat max (e ∷ es) h =
      split_rounds_lem max [] (e ∷ []) es tt (omega arith) (omega arith)
