-- ===== src/Buffer/Cycle/Lists.antt =====
-- Removing a run of elements from Go's container/list, as RemoveReadElements of
-- pkg/tools/buffer/buffer.go does.
use skywalking_rover.Common.{
  ℕ, zero, suc, ◌<◌, ◌≡◌, refl, sym, ◌≢◌, false, List, [], ◌∷◌, ◌++◌, some, arith, ◌==◌, ==_iff,
  length, head?, All-append, All-left, All-right,
}
use skywalking_rover.Buffer.Elements.{Element, from_element, next, remove, NotIn, Distinct}
use skywalking_rover.Buffer.Cycle.{remove_until}

module _ {ℓ} {A : Type ℓ} where
  -- What tells an element from those before it.
  pub Distinct-before :
      (xs : List (Element A)) (y : Element A) (ys : List (Element A))
      → Distinct (xs ++ y ∷ ys)
      → NotIn y.ref xs
  Distinct-before [] y ys d = tt
  Distinct-before (x ∷ xs) y ys d = (
    (λ e. (All-right (λ z. z.ref ≢ x.ref) xs (y ∷ ys) d.0).0 (sym e)),
    Distinct-before xs y ys d.1,
  )

  pub Distinct-right : (xs ys : List (Element A)) → Distinct (xs ++ ys) → Distinct ys
  Distinct-right [] ys d = d
  Distinct-right (x ∷ xs) ys d = Distinct-right xs ys d.1

  pub Distinct-apart :
      (before : List (Element A)) (m : Element A) (mid : List (Element A)) (e : Element A)
      (rest : List (Element A))
      → Distinct (before ++ m ∷ (mid ++ e ∷ rest))
      → e.ref ≢ m.ref
  Distinct-apart before m mid e rest d =
      (All-right (λ z. z.ref ≢ m.ref) mid (e ∷ rest)
        (Distinct-right before (m ∷ (mid ++ e ∷ rest)) d).0).0

  pub Distinct-remove :
      (xs : List (Element A)) (y : Element A) (ys : List (Element A))
      → Distinct (xs ++ y ∷ ys)
      → Distinct (xs ++ ys)
  Distinct-remove [] y ys d = d.1
  Distinct-remove (x ∷ xs) y ys d = (
    All-append (λ z. z.ref ≢ x.ref) xs ys (All-left (λ z. z.ref ≢ x.ref) xs (y ∷ ys) d.0)
        (All-right (λ z. z.ref ≢ x.ref) xs (y ∷ ys) d.0).1,
    Distinct-remove xs y ys d.1,
  )

  pub remove-middle :
      (xs : List (Element A)) (y : Element A) (ys : List (Element A))
      → NotIn y.ref xs
      → remove y.ref (xs ++ y ∷ ys) ≡ xs ++ ys
  unfolding remove
  remove-middle [] y ys h = ground arith
  remove-middle (x ∷ xs) y ys h = ground (arith, remove-middle xs y ys h.1)

  pub from_element-middle :
      (xs : List (Element A)) (y : Element A) (ys : List (Element A))
      → NotIn y.ref xs
      → from_element y.ref (xs ++ y ∷ ys) ≡ y ∷ ys
  unfolding from_element
  from_element-middle [] y ys h = ground arith
  from_element-middle (x ∷ xs) y ys h = ground (arith, from_element-middle xs y ys h.1)

  pub next-middle :
      (xs : List (Element A)) (y : Element A) (ys : List (Element A))
      → NotIn y.ref xs
      → next (xs ++ y ∷ ys) y ≡ head? ys
  unfolding next
  next-middle xs y [] h = rw (from_element-middle xs y [] h, next)
  next-middle xs y (z ∷ zs) h = rw (from_element-middle xs y (z ∷ zs) h, next)

  -- From the first element of `mid` the loop removes all of `mid` and ends on `e`.
  pub remove_until-middle :
      (fuel : ℕ) (before mid : List (Element A)) (e : Element A) (rest : List (Element A))
      → Distinct (before ++ (mid ++ e ∷ rest))
      → length mid < fuel
      → remove_until fuel (before ++ (mid ++ e ∷ rest)) (head? (mid ++ e ∷ rest)) (some e)
        ≡ (before ++ e ∷ rest, some e)
  unfolding remove_until
  remove_until-middle zero before mid e rest d h = absurd (omega arith)
  remove_until-middle (suc fuel) before [] e rest d h = rw ((==_iff e.ref e.ref).1 refl)
  remove_until-middle (suc fuel) before (m ∷ mid) e rest d h =
      let ahead = Distinct-before before m (mid ++ e ∷ rest) d in
      let apart = Distinct-apart before m mid e rest d in
      let other : m.ref == e.ref ≡ false = ground arith in
      rw
        (
          other,
          remove-middle before m (mid ++ e ∷ rest) ahead,
          next-middle before m (mid ++ e ∷ rest) ahead,
        )
        (remove_until-middle fuel before mid e rest (Distinct-remove before m (mid ++ e ∷ rest) d)
          (omega arith))
