-- ===== src/Connections/Cgroups/Counted.antt =====
-- The pids of the allowed cgroups, and the allowlist of the kernel.
use skywalking_rover.Common.{
  ℕ, ◌≡◌, refl, Bool, true, false, ◌&&◌, ◌||◌, not, List, [], ◌∷◌, Option, none, some, ◌==◌,
  if◌then◌else◌, contains, remove, contains-remove, lookup, has_key, lookup-put, lookup-erase,
  lookup-same, arith, Bool-cases, inl, inr,
}
use skywalking_rover.Connections.Cgroups.{
  World, Cgroups, add_key, allow_one, allow_cgroups, without_pid, disallow_one, disallow_cgroups,
}

abbrev pub pids_of : Option (List ℕ) → List ℕ
pids_of none = []
pids_of (some pids) = pids

abbrev pub has_pid : ℕ → ℕ → List (ℕ × List ℕ) → Bool
has_pid id pid m = contains pid (pids_of (lookup id m))

pub contains-add_key :
    (j k : ℕ) (xs : List ℕ) → contains j (add_key k xs) ≡ (k == j || contains j xs)
contains-add_key j k xs = ground (arith, contains-remove j k xs)

allow_one-has_pid :
    (w : World) (pid id g p : ℕ) (o : Option (List ℕ)) (c : Cgroups)
    → lookup id c.allowed ≡ o
    → w.allow_fails id ≡ false
    → has_pid g p (allow_one w pid id o c).allowed
      ≡ (has_pid g p c.allowed || (id == g && pid == p))
allow_one-has_pid w pid id g p none c e works =
    ground (arith, works, lookup-put g id (pid ∷ []) c.allowed, e)
allow_one-has_pid w pid id g p (some pids) c e works =
    ground (arith, lookup-put g id (add_key pid pids) c.allowed, contains-add_key p pid pids, e)

pub allow_cgroups-has_pid :
    (w : World) (pid g p : ℕ) (ids : List ℕ) (c : Cgroups)
    → ((id : ℕ) → w.allow_fails id ≡ false)
    → has_pid g p (allow_cgroups w pid ids c).allowed
      ≡ (has_pid g p c.allowed || (contains g ids && pid == p))
unfolding allow_cgroups
allow_cgroups-has_pid w pid g p [] c works = ground arith
allow_cgroups-has_pid w pid g p (id ∷ ids) c works = ground (
  arith,
  allow_cgroups-has_pid w pid g p ids (allow_one w pid id (lookup id c.allowed) c) works,
  allow_one-has_pid w pid id g p (lookup id c.allowed) c refl (works id),
)

without_pid-has_pid :
    (w : World) (id g p : ℕ) (pids : List ℕ) (c : Cgroups)
    → has_pid g p (without_pid w id pids c).allowed
      ≡ (if id == g then contains p pids else has_pid g p c.allowed)
without_pid-has_pid w id g p [] c = ground (arith, lookup-erase g id c.allowed)
without_pid-has_pid w id g p (q ∷ pids) c = ground (arith, lookup-put g id (q ∷ pids) c.allowed)

disallow_one-has_pid :
    (w : World) (pid id g p : ℕ) (o : Option (List ℕ)) (c : Cgroups)
    → lookup id c.allowed ≡ o
    → has_pid g p (disallow_one w pid id o c).allowed
      ≡ (has_pid g p c.allowed && not (id == g && pid == p))
disallow_one-has_pid w pid id g p none c e = elim (Bool-cases (id == g)) [
  | inl same ↦ ground (arith, lookup-same id g c.allowed same, e)
  | inr other ↦ ground (arith, other)
]
disallow_one-has_pid w pid id g p (some pids) c e = elim (Bool-cases (id == g)) [
  | inl same ↦ ground (
    arith,
    without_pid-has_pid w id g p (remove pid pids) c,
    contains-remove p pid pids,
    lookup-same id g c.allowed same,
    same,
    e,
  )
  | inr other ↦ ground (arith, without_pid-has_pid w id g p (remove pid pids) c, other)
]

pub disallow_cgroups-has_pid :
    (w : World) (pid g p : ℕ) (ids : List ℕ) (c : Cgroups)
    → has_pid g p (disallow_cgroups w pid ids c).allowed
      ≡ (has_pid g p c.allowed && not (contains g ids && pid == p))
unfolding disallow_cgroups
disallow_cgroups-has_pid w pid g p [] c = ground arith
disallow_cgroups-has_pid w pid g p (id ∷ ids) c = ground (
  arith,
  disallow_cgroups-has_pid w pid g p ids (disallow_one w pid id (lookup id c.allowed) c),
  disallow_one-has_pid w pid id g p (lookup id c.allowed) c refl,
)

abbrev pub nonempty : List ℕ → Bool
nonempty [] = false
nonempty (x ∷ xs) = true

-- The kernel reports exactly the cgroups that have a pid.
abbrev pub Paired : Cgroups → Type 0
Paired c =
    (g : ℕ)
    → (contains g c.allowlist ≡ has_key g c.allowed)
      × (has_key g c.allowed ≡ nonempty (pids_of (lookup g c.allowed)))

allow_one-Paired :
    (w : World) (pid id : ℕ) (o : Option (List ℕ)) (c : Cgroups)
    → Paired c
    → lookup id c.allowed ≡ o
    → Paired (allow_one w pid id o c)
allow_one-Paired w pid id none c h e g =
    let (k, n) = h g in
    (
      ground (arith, k, lookup-put g id (pid ∷ []) c.allowed, contains-add_key g id c.allowlist),
      ground (arith, n, lookup-put g id (pid ∷ []) c.allowed),
    )
allow_one-Paired w pid id (some pids) c h e g =
    let (k, n) = h g in
    let at = lookup-put g id (add_key pid pids) c.allowed in
    elim (Bool-cases (id == g)) [
      | inl same ↦ (
        ground (arith, at, same, k, lookup-same id g c.allowed same, e),
        ground (arith, at, same),
      )
      | inr other ↦ (ground (arith, at, other, k), ground (arith, at, other, n))
    ]

pub allow_cgroups-Paired :
    (w : World) (pid : ℕ) (ids : List ℕ) (c : Cgroups)
    → Paired c
    → Paired (allow_cgroups w pid ids c)
unfolding allow_cgroups
allow_cgroups-Paired w pid [] c h = h
allow_cgroups-Paired w pid (id ∷ ids) c h =
    allow_cgroups-Paired w pid ids (allow_one w pid id (lookup id c.allowed) c)
      (allow_one-Paired w pid id (lookup id c.allowed) c h refl)

without_pid-Paired :
    (w : World) (id : ℕ) (pids old : List ℕ) (c : Cgroups)
    → w.disallow_fails id ≡ false
    → Paired c
    → lookup id c.allowed ≡ some old
    → Paired (without_pid w id pids c)
without_pid-Paired w id [] old c works h e g =
    let (k, n) = h g in
    let at = lookup-erase g id c.allowed in
    (ground (arith, at, works, k, contains-remove g id c.allowlist), ground (arith, at, n))
without_pid-Paired w id (p ∷ pids) old c works h e g =
    let (k, n) = h g in
    let at = lookup-put g id (p ∷ pids) c.allowed in
    elim (Bool-cases (id == g)) [
      | inl same ↦ (
        ground (arith, at, same, k, lookup-same id g c.allowed same, e),
        ground (arith, at, same),
      )
      | inr other ↦ (ground (arith, at, other, k), ground (arith, at, other, n))
    ]

disallow_one-Paired :
    (w : World) (pid id : ℕ) (o : Option (List ℕ)) (c : Cgroups)
    → w.disallow_fails id ≡ false
    → Paired c
    → lookup id c.allowed ≡ o
    → Paired (disallow_one w pid id o c)
disallow_one-Paired w pid id none c works h e = h
disallow_one-Paired w pid id (some pids) c works h e =
    without_pid-Paired w id (remove pid pids) pids c works h e

pub disallow_cgroups-Paired :
    (w : World) (pid : ℕ) (ids : List ℕ) (c : Cgroups)
    → ((id : ℕ) → w.disallow_fails id ≡ false)
    → Paired c
    → Paired (disallow_cgroups w pid ids c)
unfolding disallow_cgroups
disallow_cgroups-Paired w pid [] c works h = h
disallow_cgroups-Paired w pid (id ∷ ids) c works h =
    disallow_cgroups-Paired w pid ids (disallow_one w pid id (lookup id c.allowed) c) works
      (disallow_one-Paired w pid id (lookup id c.allowed) c (works id) h refl)
