-- ===== src/Ztunnel/Calibration.antt =====
-- Observe of pkg/accesslog/collector/ztunnel/ztunnel_offsets.go: offsets by the agreement of samples.
-- What deriveFromSample makes of a sample is an argument.
use skywalking_rover.Common.{
  ℕ, suc, Bool, ◌&&◌, ◌||◌, not, List, [], ◌∷◌, Option, none, some, ltb, leb, if◌then◌else◌, ◌≡◌,
  refl, subst, some_injective, Bool-cases, inl, inr, arith,
}
use skywalking_rover.Ztunnel.Integers.{equal_int}
use skywalking_rover.Ztunnel.Offsets.{Offsets, ValidateError, validate}

abbrev pub agreements : ℕ
agreements = 3

abbrev pub max_samples : ℕ
max_samples = 500

-- The map of the votes, by candidate.
pub record Calibrator : Type 0 where
  pub votes : List (Offsets × ℕ)
  pub observed : ℕ

abbrev pub new_calibrator : Calibrator
new_calibrator = record { votes = []; observed = 0 }

-- The keys of the map are the formatted candidates, which are equal if all fields are.
unfoldable pub equal_offsets : Offsets → Offsets → Bool
equal_offsets a b =
    equal_int a.window b.window
    && equal_int a.src b.src
    && equal_int a.dst b.dst
    && equal_int a.hbone_target b.hbone_target
    && equal_int a.reporter b.reporter
    && equal_int a.security_policy b.security_policy
    && equal_int a.source_principal b.source_principal
    && equal_int a.destination_principal b.destination_principal
    && equal_int a.source_namespace b.source_namespace
    && equal_int a.destination_namespace b.destination_namespace
    && equal_int a.source_cluster b.source_cluster
    && equal_int a.destination_cluster b.destination_cluster
    && equal_int a.identity_spiffe_size b.identity_spiffe_size
    && equal_int a.identity_trust_domain b.identity_trust_domain
    && equal_int a.identity_namespace b.identity_namespace
    && equal_int a.identity_service_account b.identity_service_account

-- Exhausted
unfoldable pub is_exhausted : Calibrator → Bool
is_exhausted c = leb max_samples c.observed

-- The votes with one more for a candidate, and its number of votes.
unfoldable pub add_vote : Offsets → List (Offsets × ℕ) → List (Offsets × ℕ) × ℕ
unfolding equal_offsets
add_vote o [] = ((o, 1) ∷ [], 1)
add_vote o ((p, n) ∷ rest) =
    let later = add_vote o rest in
    if equal_offsets p o then ((p, suc n) ∷ rest, suc n) else ((p, n) ∷ later.0, later.1)

unfoldable pub vote : Offsets → Calibrator → Option ValidateError → Calibrator × Option Offsets
unfolding add_vote
vote o c (some e) = (c, none)
vote o c none =
    let (votes, n) = add_vote o c.votes in
    (record c { votes = votes }, if ltb n agreements then none else some o)

-- What follows deriveFromSample.
unfoldable pub consider : Calibrator → Option Offsets → Calibrator × Option Offsets
unfolding vote
consider c none = (c, none)
consider c (some o) = vote o c (validate o)

-- `has_truth` says that the truth is no nil and has entries.
unfoldable pub observe :
    (has_truth : Bool) → Option Offsets → Calibrator → Calibrator × Option Offsets
unfolding consider
observe has_truth candidate c =
    if not has_truth || leb max_samples c.observed
    then (c, none)
    else consider (record c { observed = suc c.observed }) candidate

vote-validate :
    (o p : Offsets) (c : Calibrator) (e : Option ValidateError)
    → validate o ≡ e
    → (vote o c e).1 ≡ some p
    → validate p ≡ none
unfolding vote
vote-validate o p c (some x) e h = cc
vote-validate o p c none e h = elim (Bool-cases (ltb (add_vote o c.votes).1 agreements)) [
  | inl few ↦ ground (arith, few)
  | inr many ↦
      let same : some o ≡ some p = ground (arith, many) in
      subst (λ q. validate q ≡ none) (some_injective same) e
]

consider-validate :
    (c : Calibrator) (candidate : Option Offsets) (p : Offsets)
    → (consider c candidate).1 ≡ some p
    → validate p ≡ none
unfolding consider
consider-validate c none p h = cc
consider-validate c (some o) p h = vote-validate o p c (validate o) refl h

-- Offsets that Observe returns are accepted by Validate.
pub observe-validate :
    (has_truth : Bool) (candidate : Option Offsets) (c : Calibrator) (o : Offsets)
    → (observe has_truth candidate c).1 ≡ some o
    → validate o ≡ none
unfolding observe
observe-validate has_truth candidate c o h =
    elim (Bool-cases (not has_truth || leb max_samples c.observed)) [
      | inl closed ↦ ground (arith, closed)
      | inr ready ↦
          consider-validate (record c { observed = suc c.observed }) candidate o
            (ground (arith, ready))
    ]
