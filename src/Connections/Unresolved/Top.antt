-- ===== src/Connections/Unresolved/Top.antt =====
-- The entries that a report of pkg/accesslog/common/connection.go lists.
use skywalking_rover.Common.{
  ℕ, zero, suc, ◌≤◌, ◌≡◌, refl, sym, ap, subst, ◌∙◌, ◌&&◌, List, [], ◌∷◌, ◌++◌, ltb, if◌then◌else◌,
  length, take, drop, take-append-drop, append-nil, length-take, arith, Bool-cases, inl, inr, All,
  All-map,
}
use skywalking_rover.Connections.Unresolved.{insert_count, sort_counts, sort_by_count}
use mathlib.Core.List.{Permᴰ}
use mathlib.Core.List.Permᴰ

-- Each count is not less than the later ones.
abbrev pub IsDescending : List (List ℕ × ℕ) → Type 0
IsDescending [] = Unit
IsDescending (e ∷ m) = All (λ x. x.1 ≤ e.1) m × IsDescending m

insert_count-permd : (e : List ℕ × ℕ) (m : List (List ℕ × ℕ)) → Permᴰ (insert_count e m) (e ∷ m)
insert_count-permd e [] = Permᴰ.refl (e ∷ [])
insert_count-permd e (x ∷ m) = elim (Bool-cases (ltb x.1 e.1)) [
  | inl g ↦ rw g (Permᴰ.refl _)
  | inr g ↦ rw g (Permᴰ.trans (Permᴰ.cons refl (insert_count-permd e m)) (Permᴰ.swap refl refl))
]

sort_counts-permd : (m : List (List ℕ × ℕ)) → Permᴰ (sort_counts m) m
sort_counts-permd [] = Permᴰ.nil
sort_counts-permd (e ∷ m) =
    Permᴰ.trans (insert_count-permd e (sort_counts m)) (Permᴰ.cons refl (sort_counts-permd m))

insert_count-All :
    (n : ℕ) (e : List ℕ × ℕ) (m : List (List ℕ × ℕ))
    → e.1 ≤ n
    → All (λ x. x.1 ≤ n) m
    → All (λ x. x.1 ≤ n) (insert_count e m)
insert_count-All n e [] h a = (h, tt)
insert_count-All n e (x ∷ m) h (b, a) = elim (Bool-cases (ltb x.1 e.1)) [
  | inl g ↦ rw g (h, (b, a))
  | inr g ↦ rw g (b, insert_count-All n e m h a)
]

insert_count-IsDescending :
    (e : List ℕ × ℕ) (m : List (List ℕ × ℕ)) → IsDescending m → IsDescending (insert_count e m)
insert_count-IsDescending e [] h = (tt, tt)
insert_count-IsDescending e (x ∷ m) (a, h) = elim (Bool-cases (ltb x.1 e.1)) [
  | inl g ↦ rw g ((ground (arith, g), All-map _ _ (λ y b. ground (arith, g, b)) m a), (a, h))
  | inr g ↦ rw g (insert_count-All x.1 e m (ground (arith, g)) a, insert_count-IsDescending e m h)
]

sort_counts-IsDescending : (m : List (List ℕ × ℕ)) → IsDescending (sort_counts m)
sort_counts-IsDescending [] = tt
sort_counts-IsDescending (e ∷ m) =
    insert_count-IsDescending e (sort_counts m) (sort_counts-IsDescending m)

-- The entries split in those that are listed and the others, which do not count more.
abbrev pub IsTop : List (List ℕ × ℕ) → List (List ℕ × ℕ) → Type 0
IsTop m top =
    (rest : List (List ℕ × ℕ)) × Permᴰ (top ++ rest) m
    × All (λ e. All (λ x. x.1 ≤ e.1) rest) top
    × IsDescending top

All-drop :
    (n : ℕ) (x : ℕ) (m : List (List ℕ × ℕ)) → All (λ e. e.1 ≤ x) m → All (λ e. e.1 ≤ x) (drop n m)
All-drop zero x m a = a
All-drop (suc n) x [] a = a
All-drop (suc n) x (e ∷ m) a = All-drop n x m a.1

All-take :
    (n : ℕ) (x : ℕ) (m : List (List ℕ × ℕ)) → All (λ e. e.1 ≤ x) m → All (λ e. e.1 ≤ x) (take n m)
All-take zero x m a = tt
All-take (suc n) x [] a = a
All-take (suc n) x (e ∷ m) a = (a.0, All-take n x m a.1)

take-IsTop :
    (n : ℕ) (m : List (List ℕ × ℕ))
    → IsDescending m
    → All (λ e. All (λ x. x.1 ≤ e.1) (drop n m)) (take n m) × IsDescending (take n m)
take-IsTop zero m h = (tt, tt)
take-IsTop (suc n) [] h = (tt, tt)
take-IsTop (suc n) (e ∷ m) (a, h) =
    let (b, d) = take-IsTop n m h in ((All-drop n e.1 m a, b), (All-take n e.1 m a, d))

none-above : (m : List (List ℕ × ℕ)) → All (λ e. All (λ (x : List ℕ × ℕ). x.1 ≤ e.1) []) m
none-above [] = tt
none-above (e ∷ m) = (tt, none-above m)

length-insert_count :
    (e : List ℕ × ℕ) (m : List (List ℕ × ℕ)) → length (insert_count e m) ≡ suc (length m)
length-insert_count e [] = refl
length-insert_count e (x ∷ m) = ground (arith, length-insert_count e m)

length-sort_counts : (m : List (List ℕ × ℕ)) → length (sort_counts m) ≡ length m
length-sort_counts [] = refl
length-sort_counts (e ∷ m) = length-insert_count e (sort_counts m) ∙ ap suc (length-sort_counts m)

-- What a report lists, of any map and with any limit: entries of the map in the order of their
-- counts, and no entry that is left out counts more than one of them. All are listed if the limit is
-- 0 or not less than their number, and as many as the limit otherwise.
pub sort_by_count-IsTop :
    (m : List (List ℕ × ℕ)) (top : ℕ)
    → IsTop m (sort_by_count m top)
      × (length (sort_by_count m top) ≡ (if ltb 0 top && ltb top (length m) then top else length m))
sort_by_count-IsTop m top =
    let sorted = sort_counts m in
    let same = length-sort_counts m in
    elim (Bool-cases (ltb 0 top && ltb top (length sorted))) [
      | inl e ↦ rw e (
        (
          drop top sorted,
          subst (λ xs. Permᴰ xs m) (sym (take-append-drop top sorted)) (sort_counts-permd m),
          (take-IsTop top sorted (sort_counts-IsDescending m)).0,
          (take-IsTop top sorted (sort_counts-IsDescending m)).1,
        ),
        ground (arith, length-take top sorted, same, e),
      )
      | inr e ↦ rw e (
        (
          [],
          subst (λ xs. Permᴰ xs m) (sym (append-nil sorted)) (sort_counts-permd m),
          none-above sorted,
          sort_counts-IsDescending m,
        ),
        ground (arith, same, e),
      )
    ]
