-- ===== src/Buffer/Elements.antt =====
-- Go's container/list as pkg/tools/buffer/buffer.go uses it: an element has an identity, by which
-- a position holds on to it. `Next` of an element that was removed is nil.
use skywalking_rover.Common.{
  subst, Bool-cases, inl, inr, length, arith, ◌≤◌, ◌≡◌, refl, ap, ◌++◌, last?, some_injective, ℕ,
  ◌≤◌, ◌<◌, ◌≡◌, refl, ◌≢◌, List, [], ◌∷◌, ◌++◌, Option, none, some, arith, ◌==◌, if◌then◌else◌,
  last?, All,
}

pub record Element {ℓ} (A : Type ℓ) : Type ℓ where
  pub ref : ℕ
  pub value : A

module _ {ℓ} {A : Type ℓ} where
  -- The elements from the one with the given identity on.
  unfoldable pub from_element : ℕ → List (Element A) → List (Element A)
  from_element r [] = []
  from_element r (x ∷ xs) = if x.ref == r then x ∷ xs else from_element r xs

  abbrev pub second : List (Element A) → Option (Element A)
  second [] = none
  second (x ∷ []) = none
  second (x ∷ y ∷ ys) = some y

  -- e.Next()
  unfoldable pub next : List (Element A) → Element A → Option (Element A)
  unfolding from_element
  next xs e = second (from_element e.ref xs)

  -- l.Remove(e)
  unfoldable pub remove : ℕ → List (Element A) → List (Element A)
  remove r [] = []
  remove r (x ∷ xs) = if x.ref == r then xs else x ∷ remove r xs

  abbrev pub values : List (Element A) → List A
  values [] = []
  values (x ∷ xs) = x.value ∷ values xs

  abbrev pub NotIn : ℕ → List (Element A) → Type 0
  NotIn r xs = All (λ x. x.ref ≢ r) xs

  -- No two elements share an identity.
  abbrev pub Distinct : List (Element A) → Type 0
  Distinct [] = Unit
  Distinct (x ∷ xs) = NotIn x.ref xs × Distinct xs

  -- Every identity was given out.
  abbrev pub Below : ℕ → List (Element A) → Type 0
  Below n xs = All (λ x. x.ref < n) xs

  pub values-append : (xs ys : List (Element A)) → values (xs ++ ys) ≡ values xs ++ values ys
  values-append [] ys = refl
  values-append (x ∷ xs) ys = ap (◌∷◌ x.value) (values-append xs ys)

  pub last?-values :
      (xs : List (Element A)) (b : Element A) → last? xs ≡ some b → last? (values xs) ≡ some b.value
  last?-values [] b e = cc
  last?-values (x ∷ []) b e = ap (λ y. some (y.value)) (some_injective e)
  last?-values (x ∷ y ∷ ys) b e = last?-values (y ∷ ys) b e

  -- The elements behind the one with the given identity.
  abbrev pub rest_of : List (Element A) → List (Element A)
  rest_of [] = []
  rest_of (x ∷ xs) = xs

  -- The list holds the element: it is the first of those from its identity on.
  abbrev pub Holds : List (Element A) → Element A → Type ℓ
  Holds xs e = from_element e.ref xs ≡ e ∷ rest_of (from_element e.ref xs)

  pub All-from_element {κ} :
      (P : Element A → Type κ) (r : ℕ) (xs : List (Element A))
      → All P xs
      → All P (from_element r xs)
  unfolding from_element
  All-from_element P r [] h = tt
  All-from_element P r (x ∷ xs) h = ground (arith, All-from_element P r xs h.1)

  -- The element behind one that the list holds is held too.
  pub from_element-next :
      (xs : List (Element A)) (r : ℕ) (e m : Element A) (rest : List (Element A))
      → Distinct xs
      → from_element r xs ≡ e ∷ m ∷ rest
      → from_element m.ref xs ≡ m ∷ rest
  unfolding from_element
  from_element-next [] r e m rest d h = cc
  from_element-next (x ∷ xs) r e m rest d h = elim (Bool-cases (x.ref == r)) [
    | inl here ↦
        let q : xs ≡ m ∷ rest = ground (arith, here, h) in
        let apart : All (λ y. y.ref ≢ x.ref) (m ∷ rest) = subst (All (λ y. y.ref ≢ x.ref)) q d.0 in
        rw q (ground (arith, apart.0))
    | inr there ↦
        let h' : from_element r xs ≡ e ∷ m ∷ rest = ground (arith, there, h) in
        let apart : All (λ y. y.ref ≢ x.ref) (e ∷ m ∷ rest) =
          subst (All (λ y. y.ref ≢ x.ref)) h' (All-from_element (λ y. y.ref ≢ x.ref) r xs d.0) in
        ground (arith, apart.1.0, from_element-next xs r e m rest d.1 h')
  ]

  pub length-from_element : (r : ℕ) (xs : List (Element A)) → length (from_element r xs) ≤ length xs
  unfolding from_element
  length-from_element r [] = omega arith
  length-from_element r (x ∷ xs) = ground (arith, length-from_element r xs)

  pub length-rest_of : (xs : List (Element A)) → length (rest_of xs) ≤ length xs
  length-rest_of [] = omega arith
  length-rest_of (x ∷ xs) = omega arith
