-- ===== src/Buffer/Append/Sorted.antt =====
-- Inserting before the first larger entry: order, content, and independence of the arrival order.
-- The section is over the order test `after` that the two loops of
-- pkg/tools/buffer/buffer.go (AppendDetailEvent, AppendDataEvent) make, read on values.
use mathlib.Core.List.{Permᴰ}
use mathlib.Core.List.Permᴰ
use skywalking_rover.Common.{
  ◌≡◌, refl, sym, ap, subst, ◌∙◌, ◌≢◌, Bool, true, false, List, [], ◌∷◌, ◌++◌, some, arith, last?,
  All, All-map, All-last, Bool-cases, inl, inr,
}
use skywalking_rover.Buffer.Append.{insert_before_first}

module _ {ℓ} {A : Type ℓ} (after : A → A → Bool) where
  abbrev pub insert : A → List A → List A
  insert x = insert_before_first (λ y. after y x) x

  -- No later entry is before an earlier one.
  abbrev pub IsSorted : List A → Type 0
  IsSorted [] = Unit
  IsSorted (x ∷ xs) = All (λ y. after x y ≡ false) xs × IsSorted xs

  -- The test tells any two entries apart.
  abbrev pub Apart : List A → Type 0
  Apart [] = Unit
  Apart (x ∷ xs) = All (λ y. after x y ≢ after y x) xs × Apart xs

  unfoldable pub insert_all : List A → List A → List A
  insert_all acc [] = acc
  insert_all acc (x ∷ xs) = insert_all (insert x acc) xs

-- What the proofs use of an order test.
pub record IsOrder {ℓ} {A : Type ℓ} (after : A → A → Bool) : Type ℓ where
  pub asym : (x y : A) → after x y ≡ true → after y x ≡ false
  pub cotrans : (x y z : A) → after z x ≡ true → after z y ≡ false → after x y ≡ false
  pub negtrans : (x y z : A) → after x y ≡ false → after y z ≡ false → after x z ≡ false

module _ {ℓ} {A : Type ℓ} (after : A → A → Bool) (o : IsOrder after) where
  open o use {asym, cotrans, negtrans}

  All-insert : (P : A → Type 0) (x : A) (xs : List A) → P x → All P xs → All P (insert after x xs)
  unfolding insert_before_first
  All-insert P x [] p h = (p, tt)
  All-insert P x (y ∷ ys) p h = ground (arith, All-insert P x ys p h.1)

  pub insert-IsSorted :
      (x : A) (xs : List A) → IsSorted after xs → IsSorted after (insert after x xs)
  unfolding insert_before_first
  insert-IsSorted x [] s = (tt, tt)
  insert-IsSorted x (y ∷ ys) s = elim (Bool-cases (after y x)) [
    | inl e ↦ rw e ((asym y x e, All-map _ _ (λ z h. negtrans x y z (asym y x e) h) ys s.0), s)
    | inr e ↦ rw e (All-insert (λ z. after y z ≡ false) x ys e s.0, insert-IsSorted x ys s.1)
  ]

  -- In a sorted list an entry that does not precede the last one precedes none.
  pub IsSorted-last :
      (x b : A) (xs : List A)
      → IsSorted after xs
      → last? xs ≡ some b
      → after b x ≡ false
      → All (λ y. after y x ≡ false) xs
  IsSorted-last x b [] s e h = tt
  IsSorted-last x b (y ∷ []) s e h = (ground arith, tt)
  IsSorted-last x b (y ∷ z ∷ zs) s e h = (
    negtrans y b x (All-last (λ w. after y w ≡ false) (z ∷ zs) b s.0 e) h,
    IsSorted-last x b (z ∷ zs) s.1 e h,
  )

  -- Two entries that the test tells apart may arrive in either order.
  pub insert_comm :
      (x y : A) (xs : List A)
      → after x y ≢ after y x
      → insert after x (insert after y xs) ≡ insert after y (insert after x xs)
  unfolding insert_before_first
  insert_comm x y [] d = ground (arith, asym x y, asym y x)
  insert_comm x y (z ∷ zs) d =
      ground (arith, asym x y, asym y x, cotrans x y z, cotrans y x z, insert_comm x y zs d)

  -- Nothing is lost and nothing is made up.
  pub insert-permd : (x : A) (xs : List A) → Permᴰ (insert after x xs) (x ∷ xs)
  unfolding insert_before_first
  insert-permd x [] = Permᴰ.refl (x ∷ [])
  insert-permd x (y ∷ ys) = elim (Bool-cases (after y x)) [
    | inl e ↦ rw e (Permᴰ.refl _)
    | inr e ↦ rw e (Permᴰ.trans (Permᴰ.cons refl (insert-permd x ys)) (Permᴰ.swap refl refl))
  ]

  -- The short cut of both appends: an entry after the last one goes to the end.
  pub insert-last :
      (x : A) (xs : List A) → All (λ y. after y x ≡ false) xs → insert after x xs ≡ xs ++ x ∷ []
  unfolding insert_before_first
  insert-last x [] h = refl
  insert-last x (y ∷ ys) h = rw h.0 (ap (◌∷◌ y) (insert-last x ys h.1))

  All-permd : (P : A → Type 0) {xs ys : List A} → Permᴰ xs ys → All P xs → All P ys
  All-permd P Permᴰ.nil h = h
  All-permd P (Permᴰ.cons e p) h = (subst P e h.0, All-permd P p h.1)
  All-permd P (Permᴰ.swap e f) h = (subst P f h.1.0, (subst P e h.0, h.1.1))
  All-permd P (Permᴰ.trans p q) h = All-permd P q (All-permd P p h)

  Apart-permd : {xs ys : List A} → Permᴰ xs ys → Apart after xs → Apart after ys
  Apart-permd Permᴰ.nil h = h
  Apart-permd (Permᴰ.cons e p) h = rw (← e) (All-permd _ p h.0, Apart-permd p h.1)
  Apart-permd (Permᴰ.swap {b = b} {b' = b'} {l = l} e f) h =
      subst (λ z. Apart after (z ∷ b' ∷ l)) f
        (subst (λ z. Apart after (b ∷ z ∷ l)) e (((λ q. h.0.0 (sym q)), h.1.0), (h.0.1, h.1.1)))
  Apart-permd (Permᴰ.trans p q) h = Apart-permd q (Apart-permd p h)

  pub insert_all-permd :
      {xs ys : List A} (acc : List A)
      → Permᴰ xs ys
      → Apart after xs
      → insert_all after acc xs ≡ insert_all after acc ys
  unfolding insert_all
  insert_all-permd acc Permᴰ.nil d = refl
  insert_all-permd acc (Permᴰ.cons e p) d = rw (← e) (insert_all-permd _ p d.1)
  insert_all-permd acc (Permᴰ.swap {l = l} e f) d =
      rw (← e, ← f) (ap (λ r. insert_all after r l) (insert_comm _ _ acc (λ q. d.0.0 (sym q))))
  insert_all-permd acc (Permᴰ.trans p q) d =
      insert_all-permd acc p d ∙ insert_all-permd acc q (Apart-permd p d)
