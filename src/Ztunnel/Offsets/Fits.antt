-- ===== src/Ztunnel/Offsets/Fits.antt =====
-- What Validate of pkg/tools/ztunnel/offsets.go grants.
use skywalking_rover.Common.{
  ℕ, zero, suc, ◌+◌, ◌^◌, ◌<◌, ◌≤◌, ◌≡◌, refl, ◌⊎◌, inl, inr, Bool, true, false, not, Option, none,
  some, arith, if◌then◌else◌, All, ltb, List, [], ◌∷◌, Bool-cases, ◌||◌, subst,
}
use skywalking_rover.Ztunnel.Integers.{ℤ, pos, negsuc, add_int, add_int_small, ltb_int}
use skywalking_rover.Ztunnel.Offsets.{
  Offsets, Field, spiffe_size, PointerField, ValidateError, offset_absent, max_window,
  check_pointer, check_pointers, pointer_fields, member_fields, validate_pointer_fields, check_enum,
  validate_direction_enums, check_member, check_members, validate_identity_members,
  size_of_identity, validate, first_error, taken,
}

-- A value of `size` bytes at an offset lies in `w` bytes.
abbrev pub Placed : (w size : ℕ) → ℤ → Type 0
Placed w size off = (n : ℕ) × (off ≡ pos n) × (n + size ≤ w)

abbrev pub Optional : (w size : ℕ) → ℤ → Type 0
Optional w size off = (off ≡ offset_absent) ⊎ Placed w size off

pub record Fits (o : Offsets) : Type 0 where
  pub w : ℕ
  pub size : ℕ
  pub window : o.window ≡ pos w
  pub small : w ≤ 2048
  pub src : Placed w 8 o.src
  pub destination_principal : Placed w size o.destination_principal
  pub dst : Optional w 8 o.dst
  pub source_principal : Optional w size o.source_principal
  pub source_namespace : Optional w 8 o.source_namespace
  pub destination_namespace : Optional w 8 o.destination_namespace
  pub source_cluster : Optional w 8 o.source_cluster
  pub destination_cluster : Optional w 8 o.destination_cluster
  pub reporter : Optional w 1 o.reporter
  pub security_policy : Optional w 1 o.security_policy
  pub identity_namespace : Placed size 8 o.identity_namespace
  pub identity_service_account : Placed size 8 o.identity_service_account

-- No sum of such a number with a size wraps around.
abbrev pub IsSmall : ℤ → Type 0
IsSmall z = ltb_int z (pos (2 ^ 62)) ≡ true

-- The numbers that Validate adds.
abbrev pub AllSmall : Offsets → Type 0
AllSmall o = All IsSmall (
    o.src ∷ o.destination_principal ∷ o.dst ∷ o.hbone_target ∷ o.source_principal
    ∷ o.source_namespace ∷ o.destination_namespace ∷ o.source_cluster ∷ o.destination_cluster
    ∷ o.identity_trust_domain ∷ o.identity_namespace ∷ o.identity_service_account
    ∷ o.identity_spiffe_size ∷ [])

check_pointer-Optional :
    (w size : ℕ) (name : Field) (off : ℤ) (required : Bool)
    → size < 2 ^ 62
    → IsSmall off
    → check_pointer
        (pos w)
        (record { name = name; off = off; size = pos size; required = required })
      ≡ none
    → Optional w size off
unfolding check_pointer
check_pointer-Optional w size name (pos n) required l i h =
    let e : add_int (pos n) (pos size) ≡ pos (n + size) =
      add_int_small n size (ground (arith, l, i)) in
    let k = rw e at h in
    elim (Bool-cases (ltb w (n + size))) [
      | inl far ↦ absurd (ground (arith, k, far))
      | inr near ↦ inr (n, refl, ground (arith, near))
    ]
check_pointer-Optional w size name (negsuc zero) required l i h = inl refl
check_pointer-Optional w size name (negsuc (suc n)) required l i h = ground (arith, h)

check_pointer-Placed :
    (w size : ℕ) (name : Field) (off : ℤ)
    → size < 2 ^ 62
    → IsSmall off
    → check_pointer (pos w) (record { name = name; off = off; size = pos size; required = true })
      ≡ none
    → Placed w size off
unfolding check_pointer
check_pointer-Placed w size name (pos n) l i h =
    elim (check_pointer-Optional w size name (pos n) true l i h) [ inl absent ↦ cc | inr p ↦ p ]
check_pointer-Placed w size name (negsuc n) l i h = ground (arith, h)

first_error-none : (a b : Option ValidateError) → first_error a b ≡ none → (a ≡ none) × (b ≡ none)
first_error-none none b h = (refl, h)
first_error-none (some e) b h = cc

check_enum-Optional :
    (w : ℕ) (name : Field) (off : ℤ) → check_enum (pos w) name off ≡ none → Optional w 1 off
unfolding check_enum
check_enum-Optional w name (pos n) h = elim (Bool-cases (ltb n w)) [
  | inl inside ↦ inr (n, refl, ground arith)
  | inr outside ↦ ground arith
]
check_enum-Optional w name (negsuc zero) h = inl refl
check_enum-Optional w name (negsuc (suc n)) h = ground arith

check_member-Placed :
    (size : ℕ) (name : Field) (off : ℤ) (other : Option Field)
    → IsSmall off
    → check_member (pos size) name off other ≡ none
    → Placed size 8 off
unfolding check_member
check_member-Placed size name (pos n) other i h =
    let e : add_int (pos n) (pos 8) ≡ pos (n + 8) = add_int_small n 8 (ground (arith, i)) in
    let k = rw e at h in
    elim (Bool-cases (ltb size (n + 8))) [
      | inl far ↦ absurd (ground (arith, k, far))
      | inr near ↦ (n, refl, ground (arith, near))
    ]
check_member-Placed size name (negsuc n) other i h = ground (arith, h)

window_pos :
    (z : ℤ)
    → (not (ltb_int (pos 0) z) || ltb_int max_window z) ≡ false
    → (w : ℕ) × (z ≡ pos w) × (w ≤ 2048)
window_pos (pos w) h = (w, refl, ground arith)
window_pos (negsuc n) h = cc

size_pos :
    (z : ℤ)
    → IsSmall z
    → (s : ℕ) × ((if ltb_int (pos 0) z then z else spiffe_size) ≡ pos s) × (s < 2 ^ 62)
size_pos (pos n) i = elim (Bool-cases (ltb 0 n)) [
  | inl more ↦ (n, rw more refl, ground (arith, i))
  | inr none' ↦ (24, rw none' refl, omega arith)
]
size_pos (negsuc n) i = (24, refl, omega arith)

check_pointers-All :
    (w : ℕ) (fs : List PointerField)
    → check_pointers (pos w) fs ≡ none
    → All (λ (f : PointerField). check_pointer (pos w) f ≡ none) fs
unfolding check_pointers
check_pointers-All w [] h = tt
check_pointers-All w (f ∷ fs) h =
    let (a, b) = first_error-none (check_pointer (pos w) f) (check_pointers (pos w) fs) h in
    (a, check_pointers-All w fs b)

check_members-All :
    (size : ℕ) (ids fs : List (ℤ × Field))
    → All (λ (f : ℤ × Field). IsSmall f.0) fs
    → check_members (pos size) ids fs ≡ none
    → All (λ (f : ℤ × Field). Placed size 8 f.0) fs
unfolding check_members
check_members-All size ids [] i h = tt
check_members-All size ids ((off, name) ∷ fs) i h =
    let (a, b) =
      first_error-none (check_member (pos size) name off (taken off ids))
        (check_members (pos size) ((off, name) ∷ ids) fs) h in
    (
      check_member-Placed size name off (taken off ids) i.0 a,
      check_members-All size ((off, name) ∷ ids) fs i.1 b,
    )

-- The checks of Validate behind the one of the window, for sizes that are no negative numbers.
module _ (o : Offsets) (w size : ℕ) (window : o.window ≡ pos w) (small : w ≤ 2048)
    (all : AllSmall o) (short : size < 2 ^ 62) where
  checks-Fits :
      check_pointers (pos w) (pointer_fields o (pos size)) ≡ none
      → first_error
          (check_enum (pos w) Field.reporter o.reporter)
          (check_enum (pos w) Field.security_policy o.security_policy)
        ≡ none
      → validate_identity_members o (pos size) ≡ none
      → Fits o
  unfolding check_pointers pointer_fields member_fields validate_identity_members check_members
  checks-Fits c e d =
      let p = check_pointers-All w (pointer_fields o (pos size)) c in
      let q = all.1.1.1.1.1.1.1.1.1 in
      let m = check_members-All size [] (member_fields o) (q.0, (q.1.0, (q.1.1.0, tt))) d in
      let (e1, e2) = first_error-none _ _ e in
      record {
        w = w;
        size = size;
        window = window;
        small = small;
        src = check_pointer-Placed w 8 Field.src o.src (omega arith) all.0 (p.0);
        destination_principal =
            check_pointer-Placed w size Field.destination_principal o.destination_principal short
              all.1.0 (p.1.0);
        dst = check_pointer-Optional w 8 Field.dst o.dst false (omega arith) all.1.1.0 (p.1.1.0);
        source_principal =
            check_pointer-Optional w size Field.source_principal o.source_principal false short
              all.1.1.1.1.0 (p.1.1.1.1.0);
        source_namespace =
            check_pointer-Optional w 8 Field.source_namespace o.source_namespace false (omega arith)
              all.1.1.1.1.1.0 (p.1.1.1.1.1.0);
        destination_namespace =
            check_pointer-Optional w 8 Field.destination_namespace o.destination_namespace false
              (omega arith) all.1.1.1.1.1.1.0 (p.1.1.1.1.1.1.0);
        source_cluster =
            check_pointer-Optional w 8 Field.source_cluster o.source_cluster false (omega arith)
              all.1.1.1.1.1.1.1.0 (p.1.1.1.1.1.1.1.0);
        destination_cluster =
            check_pointer-Optional w 8 Field.destination_cluster o.destination_cluster false
              (omega arith) all.1.1.1.1.1.1.1.1.0 (p.1.1.1.1.1.1.1.1.0);
        reporter = check_enum-Optional w Field.reporter o.reporter e1;
        security_policy = check_enum-Optional w Field.security_policy o.security_policy e2;
        identity_namespace = m.1.0;
        identity_service_account = m.1.1.0;
      }

-- Of offsets that Validate accepts, all below 2^62 so that its sums do not wrap around, the window is no more than 2048 bytes, the source address and
-- the destination principal lie in it, each other field but the trust domain and the HBONE target
-- is absent or lies in it, and the members of an identity lie in the size that is taken for one.
pub validate-Fits : (o : Offsets) → AllSmall o → validate o ≡ none → Fits o
unfolding validate validate_pointer_fields validate_direction_enums size_of_identity
validate-Fits o all h =
    elim (Bool-cases (not (ltb_int (pos 0) o.window) || ltb_int max_window o.window)) [
      | inl bad ↦ ground (arith, bad)
      | inr good ↦
          let (w, window, small) = window_pos o.window good in
          let (size, e, short) = size_pos o.identity_spiffe_size all.1.1.1.1.1.1.1.1.1.1.1.1.0 in
          let checks : first_error (check_pointers o.window (pointer_fields o (size_of_identity o)))
                (first_error (validate_direction_enums o)
                  (validate_identity_members o (size_of_identity o)))
              ≡ none =
            ground (arith, good) in
          let (p, q) = first_error-none _ _ checks in
          let (d, m) = first_error-none _ _ q in
          checks-Fits o w size window small all short
            (subst (λ z. check_pointers z (pointer_fields o (pos size)) ≡ none) window
              (subst (λ z. check_pointers o.window (pointer_fields o z) ≡ none) e p))
            (subst
              (λ z.
                first_error (check_enum z Field.reporter o.reporter)
                  (check_enum z Field.security_policy o.security_policy)
                ≡ none)
              window d)
            (subst (λ z. validate_identity_members o z ≡ none) e m)
    ]
