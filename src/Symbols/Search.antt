-- ===== src/Symbols/Search.antt =====
-- findAddr of pkg/tools/profiling/api.go against a scan of the symbols.
use skywalking_rover.Common.{
  ℕ, zero, suc, ◌+◌, ◌-◌, ◌/◌, ◌^◌, ◌≤◌, ◌<◌, ◌≡◌, refl, sym, ap, subst, ◌∙◌, inl, inr, true, ◌&&◌,
  List, [], ◌∷◌, Option, none, some, arith, ltb, leb, if◌then◌else◌, length, get_elem?,
  get_elem?-lt, All, All-get_elem?, Bool-cases,
}
use skywalking_rover.Symbols.{
  Symbol, address_space, is_negative, is_positive, SearchEnd, hit, stop, fault, out_of_fuel,
  search_at, search, symbol_before, finish_search, find_addr,
}

-- The symbol that an address belongs to: the last one that is not behind it. A symbol reaches up to
-- the next one, so the last symbol of the list has no addresses.
unfoldable pub covering : ℕ → List Symbol → Option Symbol
covering offset [] = none
covering offset (a ∷ []) = none
covering offset (a ∷ b ∷ ss) =
    if leb a.location offset && ltb offset b.location then some a else covering offset (b ∷ ss)

-- The locations increase.
abbrev pub IsIncreasing : List Symbol → Type 0
IsIncreasing [] = Unit
IsIncreasing (s ∷ ss) = All (λ (t : Symbol). s.location < t.location) ss × IsIncreasing ss

-- The difference to the address fits into an int64.
abbrev pub IsNear : ℕ → Symbol → Type 0
IsNear offset s =
    (s.location < address_space) × (s.location < offset + 2 ^ 63) × (offset < s.location + 2 ^ 63)

near_tests :
    (offset : ℕ) (s : Symbol)
    → offset < address_space
    → IsNear offset s
    → (is_negative offset s.location ≡ ltb offset s.location)
      × (is_positive offset s.location ≡ ltb s.location offset)
unfolding is_negative is_positive
near_tests offset s b n = ground arith

-- The location at an index, far away behind the last one.
abbrev place : List Symbol → ℕ → ℕ
place ss i = elim (get_elem? ss i) [ none ↦ address_space | some s ↦ s.location ]

place-lt :
    (ss : List Symbol) (i j : ℕ) → IsIncreasing ss → i < j → j < length ss → place ss i < place ss j
place-lt [] i j o l b = absurd (omega arith)
place-lt (s ∷ ss) i zero o l b = absurd (omega arith)
place-lt (s ∷ ss) zero (suc j) o l b =
    let (t, e) = get_elem?-lt ss j (omega arith) in
    let h : s.location < t.location = All-get_elem? _ ss j t o.0 e in ground arith
place-lt (s ∷ ss) (suc i) (suc j) o l b = place-lt ss i j o.1 (omega arith) (omega arith)

abbrev Ends : List Symbol → ℕ → SearchEnd → Type 0
Ends ss offset (hit s) =
    (i : ℕ) × (get_elem? ss i ≡ some s) × (suc i < length ss) × (s.location ≡ offset)
Ends ss offset (stop k) =
    (k ≤ length ss - 1)
    × (0 < k → place ss (k - 1) < offset)
    × (k < length ss - 1 → offset < place ss k)
Ends ss offset fault = ⊥
Ends ss offset out_of_fuel = ⊥

module _ (ss : List Symbol) (offset : ℕ) (inside : offset < address_space)
    (near : All (IsNear offset) ss) where
  search_at-Ends :
      (mid : ℕ) (s : Symbol) (left right : SearchEnd)
      → suc mid < length ss
      → get_elem? ss mid ≡ some s
      → (offset < s.location → Ends ss offset left)
      → (s.location < offset → Ends ss offset right)
      → Ends ss offset (search_at offset (some s) left right)
  unfolding search_at
  search_at-Ends mid s left right b e l r =
      let tests = near_tests offset s inside (All-get_elem? _ ss mid s near e) in
      elim (Bool-cases (ltb offset s.location)) [
        | inl before ↦ rw (tests.0 ∙ before) (l (ground arith))
        | inr not_before ↦ elim (Bool-cases (ltb s.location offset)) [
          | inl behind ↦ rw (tests.0 ∙ not_before, tests.1 ∙ behind) (r (ground arith))
          | inr here ↦ rw (tests.0 ∙ not_before, tests.1 ∙ here) (mid, e, b, ground arith)
        ]
      ]

  search-Ends :
      (fuel start end' : ℕ)
      → end' - start < fuel
      → start ≤ end'
      → end' ≤ length ss - 1
      → (0 < start → place ss (start - 1) < offset)
      → (end' < length ss - 1 → offset < place ss end')
      → Ends ss offset (search fuel ss offset start end')
  unfolding search
  search-Ends zero start end' f o b l r = absurd (omega arith)
  search-Ends (suc fuel) start end' f o b l r = elim (Bool-cases (ltb start end')) [
    | inr done ↦
        let same : start ≡ end' = ground arith in
        rw done (omega arith, l, λ h. subst (λ k. offset < place ss k) (sym same) (r (omega arith)))
    | inl more ↦
        let mid = start + (end' - start) / 2 in
        let open_range : start < end' = ground arith in
        let (s, e) = get_elem?-lt ss mid (omega arith) in
        let at : place ss mid ≡ s.location = ground (arith, e) in
        rw (more, e)
          (search_at-Ends mid s (search fuel ss offset start mid)
            (search fuel ss offset (mid + 1) end') (omega arith) e
            (λ h.
              search-Ends fuel start mid (omega arith) (omega arith) (omega arith) l
                (λ k. omega (arith, at)))
            (λ h.
              search-Ends fuel (mid + 1) end' (omega arith) (omega arith) b
                (λ k.
                  let back : mid + 1 - 1 ≡ mid = omega arith in
                  subst (λ i. place ss i < offset) (sym back) (omega (arith, at)))
                r))
  ]

place-le :
    (ss : List Symbol) (i j : ℕ) → IsIncreasing ss → i ≤ j → j < length ss → place ss i ≤ place ss j
place-le ss i j o l b = elim (Bool-cases (ltb i j)) [
  | inl lt ↦ omega (arith, place-lt ss i j o (ground arith) b)
  | inr ge ↦
      let same : i ≡ j = ground arith in
      let e : place ss i ≡ place ss j = ap (place ss) same in omega arith
]

covering-at :
    (ss : List Symbol) (offset i : ℕ)
    → IsIncreasing ss
    → suc i < length ss
    → place ss i ≤ offset
    → offset < place ss (suc i)
    → covering offset ss ≡ get_elem? ss i
unfolding covering
covering-at [] offset i o b l h = absurd (omega arith)
covering-at (a ∷ []) offset i o b l h = absurd (omega arith)
covering-at (a ∷ b' ∷ ss) offset zero o b l h = ground arith
covering-at (a ∷ b' ∷ ss) offset (suc i) o b l h =
    let first : b'.location ≤ offset =
      omega (arith, place-le (b' ∷ ss) 0 i o.1 (omega arith) (omega arith)) in
    ground (arith, covering-at (b' ∷ ss) offset i o.1 (omega arith) l h)

covering_low :
    (ss : List Symbol) (offset : ℕ)
    → IsIncreasing ss
    → offset < place ss 0
    → covering offset ss ≡ none
unfolding covering
covering_low [] offset o h = refl
covering_low (a ∷ []) offset o h = refl
covering_low (a ∷ b ∷ ss) offset o h =
    let up : a.location < b.location = o.0.0 in
    ground (arith, covering_low (b ∷ ss) offset o.1 (omega arith))

covering_high :
    (ss : List Symbol) (offset : ℕ)
    → IsIncreasing ss
    → place ss (length ss - 1) ≤ offset
    → covering offset ss ≡ none
unfolding covering
covering_high [] offset o h = refl
covering_high (a ∷ []) offset o h = refl
covering_high (a ∷ b ∷ ss) offset o h =
    let last : suc (length ss) - 1 ≡ length ss = omega arith in
    let back : suc (suc (length ss)) - 1 ≡ suc (length ss) = omega arith in
    let h' : place (b ∷ ss) (length ss) ≤ offset =
      subst (λ k. place (a ∷ b ∷ ss) k ≤ offset) back h in
    let first : b.location ≤ offset =
      omega (arith, place-le (b ∷ ss) 0 (length ss) o.1 (omega arith) (omega arith)) in
    ground (
      arith,
      covering_high (b ∷ ss) offset o.1 (subst (λ k. place (b ∷ ss) k ≤ offset) (sym last) h'),
    )

covering_short : (ss : List Symbol) (offset : ℕ) → length ss ≤ 1 → covering offset ss ≡ none
unfolding covering
covering_short [] offset h = refl
covering_short (a ∷ []) offset h = refl
covering_short (a ∷ b ∷ ss) offset h = absurd (omega arith)

symbol_before-covering :
    (ss : List Symbol) (offset k : ℕ)
    → IsIncreasing ss
    → suc k ≤ length ss - 1
    → place ss k < offset
    → (suc k < length ss - 1 → offset < place ss (suc k))
    → symbol_before ss offset (suc k) ≡ covering offset ss
unfolding symbol_before
symbol_before-covering ss offset k o b l r =
    let (before, e) = get_elem?-lt ss k (omega arith) in
    let (here, f) = get_elem?-lt ss (suc k) (omega arith) in
    let p : place ss k ≡ before.location = ground (arith, e) in
    let q : place ss (suc k) ≡ here.location = ground (arith, f) in
    let low : ltb before.location offset ≡ true = ground (arith, p) in
    elim (Bool-cases (ltb offset here.location)) [
      | inl inside ↦
          let up : offset < here.location = ground arith in
          let at = covering-at ss offset k o (omega arith) (omega arith) (omega (arith, q)) in
          rw (e, symbol_before) (rw (f, low, inside) (sym (at ∙ e)))
      | inr outside ↦
          let last : suc k ≡ length ss - 1 = at_end here.location (ground arith) q in
          let high = subst (λ i. place ss i ≤ offset) last (ground (arith, q)) in
          rw (e, symbol_before) (rw (f, low, outside) (sym (covering_high ss offset o high)))
    ]
  where
    at_end : (l : ℕ) → l ≤ offset → place ss (suc k) ≡ l → suc k ≡ length ss - 1
    at_end l h q = elim (Bool-cases (ltb (suc k) (length ss - 1))) [
      | inl more ↦ let up = r (ground arith) in absurd (omega arith)
      | inr none' ↦ ground arith
    ]

finish_search-covering :
    (ss : List Symbol) (offset : ℕ) (r : SearchEnd)
    → IsIncreasing ss
    → Ends ss offset r
    → finish_search ss offset r ≡ some (covering offset ss)
unfolding finish_search symbol_before
finish_search-covering ss offset (hit s) o (i, e, b, same) =
    let at : place ss i ≡ offset = ground arith in
    let up = place-lt ss i (suc i) o (omega arith) b in
    ap some (sym e ∙ sym (covering-at ss offset i o b (omega arith) (omega arith)))
finish_search-covering ss offset (stop zero) o h = ap some (elim (Bool-cases (ltb 1 (length ss))) [
  | inl many ↦ sym (covering_low ss offset o (h.2 (ground arith)))
  | inr few ↦ sym (covering_short ss offset (ground arith))
])
finish_search-covering ss offset (stop (suc k)) o h =
    let back : suc k - 1 ≡ k = omega arith in
    ap some (
      symbol_before-covering ss offset k o h.0
        (subst (λ i. place ss i < offset) back (h.1 (omega arith))) h.2)
finish_search-covering ss offset fault o h = absurd h
finish_search-covering ss offset out_of_fuel o h = absurd h

-- On symbols whose locations increase, for an address whose differences to all the locations fit
-- into an int64, findAddr does not panic, comes to an end, and finds the symbol that a scan from
-- the front finds: the last one that is not behind the address, provided that there is a next one.
pub find_addr-covering :
    (ss : List Symbol) (offset : ℕ)
    → IsIncreasing ss
    → offset < address_space
    → All (IsNear offset) ss
    → find_addr ss offset ≡ some (covering offset ss)
unfolding find_addr
find_addr-covering ss offset o inside near =
    finish_search-covering ss offset (search (suc (length ss)) ss offset 0 (length ss - 1)) o (
      search-Ends ss offset inside near (suc (length ss)) 0 (length ss - 1) (omega arith)
        (omega arith) (omega arith) (λ h. absurd (omega arith)) (λ h. absurd (omega arith)))
