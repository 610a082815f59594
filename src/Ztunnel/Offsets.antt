-- ===== src/Ztunnel/Offsets.antt =====
-- pkg/tools/ztunnel/offsets.go: the offsets of the fields of a ConnectionResult, and Validate. What
-- HasDirection and Source say is read by no code of this development.
pub mod Fits
use skywalking_rover.Common.{
  ℕ, ◌+◌, ◌||◌, ◌%◌, Bool, true, false, List, [], ◌∷◌, ◌&&◌, not, Option, none, some, ◌==◌,
  if◌then◌else◌, ltb,
}
use skywalking_rover.Ztunnel.Integers.{ℤ, pos, negsuc, add_int, ltb_int, equal_int}

pub record Offsets : Type 0 where
  pub window : ℤ
  pub src : ℤ
  pub dst : ℤ
  pub hbone_target : ℤ
  pub reporter : ℤ
  pub security_policy : ℤ
  pub source_principal : ℤ
  pub destination_principal : ℤ
  pub source_namespace : ℤ
  pub destination_namespace : ℤ
  pub source_cluster : ℤ
  pub destination_cluster : ℤ
  pub identity_spiffe_size : ℤ
  pub identity_trust_domain : ℤ
  pub identity_namespace : ℤ
  pub identity_service_account : ℤ

abbrev pub max_window : ℤ
max_window = pos 2048

abbrev pub spiffe_size : ℤ
spiffe_size = pos 24

abbrev pub offset_absent : ℤ
offset_absent = negsuc 0

-- The names in the errors.
pub data Field : Type 0 where
  src dst hbone_target reporter security_policy source_principal destination_principal
        source_namespace destination_namespace source_cluster destination_cluster
        identity_trust_domain identity_namespace identity_service_account :
      Field

pub data ValidateError : Type 0 where
  window_out_of_range : ValidateError
  does_not_fit not_aligned outside : Field → ValidateError
  share_offset : (later earlier : Field) → ValidateError

pub record PointerField : Type 0 where
  pub name : Field
  pub off : ℤ
  pub size : ℤ
  pub required : Bool

-- f.off % 8 != 0; Go's remainder of a negative number is zero for the same numbers.
abbrev is_unaligned : ℤ → Bool
is_unaligned (pos n) = not (n % 8 == 0)
is_unaligned (negsuc n) = not ((n + 1) % 8 == 0)

-- The body of the loop of validatePointerFields. `none` is no error.
unfoldable pub check_pointer : ℤ → PointerField → Option ValidateError
unfolding add_int
check_pointer window f =
    if equal_int f.off offset_absent && not f.required
    then none
    else if ltb_int f.off (pos 0) || ltb_int window (add_int f.off f.size)
    then some (does_not_fit f.name)
    else if is_unaligned f.off
    then some (not_aligned f.name)
    else none

abbrev pub first_error : Option ValidateError → Option ValidateError → Option ValidateError
first_error (some e) later = some e
first_error none later = later

unfoldable pub check_pointers : ℤ → List PointerField → Option ValidateError
unfolding check_pointer
check_pointers window [] = none
check_pointers window (f ∷ fs) = first_error (check_pointer window f) (check_pointers window fs)

unfoldable pub pointer_fields : Offsets → ℤ → List PointerField
pointer_fields o size =
    record { name = src; off = o.src; size = pos 8; required = true }
    ∷ record {
      name = destination_principal;
      off = o.destination_principal;
      size = size;
      required = true;
    }
    ∷ record { name = dst; off = o.dst; size = pos 8; required = false }
    ∷ record { name = hbone_target; off = o.hbone_target; size = pos 8; required = false }
    ∷ record { name = source_principal; off = o.source_principal; size = size; required = false }
    ∷ record { name = source_namespace; off = o.source_namespace; size = pos 8; required = false }
    ∷ record {
      name = destination_namespace;
      off = o.destination_namespace;
      size = pos 8;
      required = false;
    }
    ∷ record { name = source_cluster; off = o.source_cluster; size = pos 8; required = false }
    ∷ record {
      name = destination_cluster;
      off = o.destination_cluster;
      size = pos 8;
      required = false;
    }
    ∷ []

unfoldable pub validate_pointer_fields : Offsets → ℤ → Option ValidateError
unfolding check_pointers pointer_fields
validate_pointer_fields o size = check_pointers o.window (pointer_fields o size)

unfoldable pub check_enum : ℤ → Field → ℤ → Option ValidateError
check_enum window name off =
    if equal_int off offset_absent
    then none
    else if ltb_int off (pos 0) || not (ltb_int off window)
    then some (outside name)
    else none

unfoldable pub validate_direction_enums : Offsets → Option ValidateError
unfolding check_enum
validate_direction_enums o =
    first_error (check_enum o.window reporter o.reporter)
      (check_enum o.window security_policy o.security_policy)

-- ids[f.off] of the map of the offsets that are taken.
abbrev pub taken : ℤ → List (ℤ × Field) → Option Field
taken off [] = none
taken off ((k, name) ∷ rest) = if equal_int k off then some name else taken off rest

unfoldable pub check_member : ℤ → Field → ℤ → Option Field → Option ValidateError
unfolding add_int
check_member size name off other =
    if ltb_int off (pos 0) || ltb_int size (add_int off (pos 8))
    then some (does_not_fit name)
    else if is_unaligned off
    then some (not_aligned name)
    else elim other [ some f ↦ some (share_offset name f) | none ↦ none ]

unfoldable pub check_members : ℤ → List (ℤ × Field) → List (ℤ × Field) → Option ValidateError
unfolding check_member
check_members size ids [] = none
check_members size ids ((off, name) ∷ fs) =
    first_error (check_member size name off (taken off ids))
      (check_members size ((off, name) ∷ ids) fs)

unfoldable pub member_fields : Offsets → List (ℤ × Field)
member_fields o =
    (o.identity_trust_domain, identity_trust_domain)
    ∷ (o.identity_namespace, identity_namespace)
    ∷ (o.identity_service_account, identity_service_account)
    ∷ []

unfoldable pub validate_identity_members : Offsets → ℤ → Option ValidateError
unfolding check_members member_fields
validate_identity_members o size = check_members size [] (member_fields o)

-- The size that Validate uses where the set carries none.
unfoldable pub size_of_identity : Offsets → ℤ
size_of_identity o =
    if ltb_int (pos 0) o.identity_spiffe_size then o.identity_spiffe_size else spiffe_size

unfoldable pub validate : Offsets → Option ValidateError
unfolding validate_pointer_fields validate_direction_enums validate_identity_members
    size_of_identity
validate o =
    if not (ltb_int (pos 0) o.window) || ltb_int max_window o.window
    then some window_out_of_range
    else first_error (validate_pointer_fields o (size_of_identity o)) (
        first_error (validate_direction_enums o) (validate_identity_members o (size_of_identity o)))
