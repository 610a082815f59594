-- ===== src/Ztunnel/Spiffe.antt =====
-- The SPIFFE identities of pkg/accesslog/collector/ztunnel/ztunnel_identity.go. A string is the list
-- of its bytes.
pub mod Parsed
use skywalking_rover.Common.{
  ℕ, Bool, true, false, ◌||◌, List, [], ◌∷◌, Option, none, some, ◌==◌, if◌then◌else◌,
}
use skywalking_rover.Processes.Report.{is_empty}
use skywalking_rover.Ztunnel.Decode.{WorkloadIdentity}

-- What follows a prefix.
abbrev pub strip_prefix : List ℕ → List ℕ → Option (List ℕ)
strip_prefix [] s = some s
strip_prefix (k ∷ key) [] = none
strip_prefix (k ∷ key) (c ∷ s) = let rest = strip_prefix key s in if k == c then rest else none

abbrev pub first_match : Option (List ℕ) → Option (List ℕ) → Option (List ℕ)
first_match none later = later
first_match (some rest) later = some rest

-- What follows the first place of a key that is not empty.
unfoldable pub find_after : List ℕ → List ℕ → Option (List ℕ)
find_after key [] = none
find_after key (c ∷ s) = first_match (strip_prefix key (c ∷ s)) (find_after key s)

abbrev pub slash : ℕ
slash = b'/'

abbrev pub until_slash : List ℕ → List ℕ
until_slash [] = []
until_slash (c ∷ s) = let rest = until_slash s in if c == slash then [] else c ∷ rest

abbrev pub segment_or_empty : Option (List ℕ) → List ℕ
segment_or_empty none = []
segment_or_empty (some rest) = until_slash rest

unfoldable pub spiffe_path_segment : List ℕ → List ℕ → List ℕ
unfolding find_after
spiffe_path_segment s key = segment_or_empty (find_after key s)

-- "spiffe://", "/ns/" and "/sa/"
abbrev pub spiffe_prefix : List ℕ
spiffe_prefix = b's' ∷ b'p' ∷ b'i' ∷ b'f' ∷ b'f' ∷ b'e' ∷ b':' ∷ b'/' ∷ b'/' ∷ []

abbrev pub namespace_key : List ℕ
namespace_key = b'/' ∷ b'n' ∷ b's' ∷ b'/' ∷ []

abbrev pub account_key : List ℕ
account_key = b'/' ∷ b's' ∷ b'a' ∷ b'/' ∷ []

abbrev pub with_prefix : Option (List ℕ) → Option (List ℕ × List ℕ) → Option (List ℕ × List ℕ)
with_prefix none parsed = none
with_prefix (some rest) parsed = parsed

-- The namespace and the service account, if both are there.
unfoldable pub parse_spiffe_ns_sa : List ℕ → Option (List ℕ × List ℕ)
unfolding spiffe_path_segment
parse_spiffe_ns_sa s =
    let ns = spiffe_path_segment s namespace_key in
    let sa = spiffe_path_segment s account_key in
    with_prefix (strip_prefix spiffe_prefix s)
      (if is_empty ns || is_empty sa then none else some (ns, sa))

abbrev pub identity_with : List ℕ → Option (List ℕ × List ℕ) → Option WorkloadIdentity
identity_with cluster none =
    if is_empty cluster
    then none
    else some (record { cluster = cluster; namespace = []; service_account = [] })
identity_with cluster (some (ns, sa)) =
    some (record { cluster = cluster; namespace = ns; service_account = sa })

unfoldable pub identity_from_access_log : List ℕ → List ℕ → Option WorkloadIdentity
unfolding parse_spiffe_ns_sa
identity_from_access_log cluster identity = identity_with cluster (parse_spiffe_ns_sa identity)
