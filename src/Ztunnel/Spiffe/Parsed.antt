-- ===== src/Ztunnel/Spiffe/Parsed.antt =====
-- The identities of pkg/accesslog/collector/ztunnel/ztunnel_identity.go that are parsed.
use skywalking_rover.Common.{
  ℕ, ◌≡◌, refl, ap, ◌∙◌, Bool, false, ◌||◌, List, [], ◌∷◌, ◌++◌, none, some, ◌==◌, arith,
}
use skywalking_rover.Processes.{bytes_equal}
use skywalking_rover.Processes.Report.{is_empty}
use skywalking_rover.Ztunnel.Spiffe.{
  strip_prefix, first_match, find_after, slash, until_slash, spiffe_path_segment, spiffe_prefix,
  namespace_key, account_key, parse_spiffe_ns_sa,
}

abbrev pub has_slash : List ℕ → Bool
has_slash [] = false
has_slash (c ∷ s) = c == slash || has_slash s

-- A key that begins with a slash is not found in a segment.
find_after-segment :
    (key t s : List ℕ)
    → has_slash t ≡ false
    → find_after (slash ∷ key) (t ++ s) ≡ find_after (slash ∷ key) s
unfolding find_after
find_after-segment key [] s h = refl
find_after-segment key (c ∷ t) s h =
    ground (arith, h, find_after-segment key t s (ground (arith, h)))

-- A segment of two letters is told from another one.
strip_prefix-other :
    (x y : ℕ) (t s : List ℕ)
    → has_slash (x ∷ y ∷ []) ≡ false
    → has_slash t ≡ false
    → bytes_equal t (x ∷ y ∷ []) ≡ false
    → strip_prefix (x ∷ y ∷ slash ∷ []) (t ++ slash ∷ s) ≡ none
strip_prefix-other x y [] s k h d = ground (arith, k)
strip_prefix-other x y (a ∷ []) s k h d = ground (arith, k)
strip_prefix-other x y (a ∷ b ∷ []) s k h d = ground (arith, k, h, d)
strip_prefix-other x y (a ∷ b ∷ c ∷ t) s k h d = ground (arith, k, h)

until_slash-segment : (t : List ℕ) → has_slash t ≡ false → until_slash t ≡ t
until_slash-segment [] h = refl
until_slash-segment (c ∷ t) h = ground (arith, h, until_slash-segment t (ground (arith, h)))

until_slash-append : (t s : List ℕ) → has_slash t ≡ false → until_slash (t ++ slash ∷ s) ≡ t
until_slash-append [] s h = refl
until_slash-append (c ∷ t) s h = ground (arith, h, until_slash-append t s (ground (arith, h)))

skip_segment :
    (x y : ℕ) (t s : List ℕ)
    → has_slash (x ∷ y ∷ []) ≡ false
    → has_slash t ≡ false
    → bytes_equal t (x ∷ y ∷ []) ≡ false
    → find_after (slash ∷ x ∷ y ∷ slash ∷ []) (slash ∷ (t ++ slash ∷ s))
      ≡ find_after (slash ∷ x ∷ y ∷ slash ∷ []) (slash ∷ s)
unfolding find_after
skip_segment x y t s k h d =
    let key = slash ∷ x ∷ y ∷ slash ∷ [] in
    ap (λ o. first_match o (find_after key (t ++ slash ∷ s))) (strip_prefix-other x y t s k h d)
    ∙ find_after-segment (x ∷ y ∷ slash ∷ []) t (slash ∷ s) h

abbrev pub ns : List ℕ
ns = b'n' ∷ b's' ∷ []

abbrev pub sa : List ℕ
sa = b's' ∷ b'a' ∷ []

-- "spiffe://", the domain, "/ns/", the namespace, "/sa/" and the account.
abbrev pub spiffe_identity : (domain namespace account : List ℕ) → List ℕ
spiffe_identity domain namespace account =
    spiffe_prefix ++ (domain ++ (namespace_key ++ (namespace ++ (account_key ++ account))))

-- A part of an identity: not empty and without a slash.
abbrev pub IsSegment : List ℕ → Type 0
IsSegment t = (is_empty t ≡ false) × (has_slash t ≡ false)

find_after-namespace :
    (domain namespace account : List ℕ)
    → has_slash domain ≡ false
    → bytes_equal domain ns ≡ false
    → find_after namespace_key (spiffe_identity domain namespace account)
      ≡ some (namespace ++ (account_key ++ account))
unfolding find_after
find_after-namespace domain namespace account h d =
    skip_segment b'n' b's' domain (b'n' ∷ b's' ∷ b'/' ∷ (namespace ++ (account_key ++ account)))
      refl h d

find_after-account :
    (domain namespace account : List ℕ)
    → has_slash domain ≡ false
    → bytes_equal domain sa ≡ false
    → has_slash namespace ≡ false
    → bytes_equal namespace sa ≡ false
    → find_after account_key (spiffe_identity domain namespace account) ≡ some account
unfolding find_after
find_after-account domain namespace account h d n e =
    skip_segment b's' b'a' domain (b'n' ∷ b's' ∷ b'/' ∷ (namespace ++ (account_key ++ account)))
      refl h d
    ∙ skip_segment b's' b'a' namespace (b's' ∷ b'a' ∷ b'/' ∷ account) refl n e

-- An identity is parsed back to its namespace and its service account, if these are not empty,
-- they and the trust domain have no slash, the domain is neither "ns" nor "sa", and the namespace is
-- not "sa".
pub parse_spiffe_ns_sa-identity :
    (domain namespace account : List ℕ)
    → has_slash domain ≡ false
    → IsSegment namespace
    → IsSegment account
    → bytes_equal domain ns ≡ false
    → bytes_equal domain sa ≡ false
    → bytes_equal namespace sa ≡ false
    → parse_spiffe_ns_sa (spiffe_identity domain namespace account) ≡ some (namespace, account)
unfolding parse_spiffe_ns_sa spiffe_path_segment
parse_spiffe_ns_sa-identity domain namespace account h (g, n) (k, a) d e m = ground (
  arith,
  find_after-namespace domain namespace account h d,
  find_after-account domain namespace account h e n m,
  until_slash-append namespace (b's' ∷ b'a' ∷ b'/' ∷ account) n,
  until_slash-segment account a,
  g,
  k,
)
