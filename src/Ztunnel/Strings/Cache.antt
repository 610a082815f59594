-- ===== src/Ztunnel/Strings/Cache.antt =====
-- The cache of decodeArcStr of pkg/accesslog/collector/ztunnel/ztunnel_identity_decode.go changes no
-- result while the memory stays as it is: what Decode returns with it is what it returns without.
use skywalking_rover.Common.{
  ℕ, ◌%◌, ◌≡◌, refl, sym, ap, ◌∙◌, ◌⊎◌, inl, inr, List, Option, none, some, ◌==◌, Bool-cases,
  length,
}
use skywalking_rover.Ztunnel.Integers.{ℤ, pos, ltb_int, add_int}
use skywalking_rover.Ztunnel.Offsets.{Offsets}
use skywalking_rover.Ztunnel.Strings.{Lru, read_arc_str, decode_arc_str, after_get, keep}
use skywalking_rover.Ztunnel.Decode.{
  WorkloadIdentity, decode_from, with_pointers, finished, decode, decode_identity,
  decode_identity_from_pointers, decode_sock_addr_v4, label_if_empty, read_pointer, principal,
  is_empty, or_empty, unless_empty,
}

-- What an LRU cache promises: it gives what it holds, and holds nothing but what was added.
pub record LruLaws {C : Type 0} (lru : Lru C) : Type 1 where
  pub Holds : C → ℕ → List ℕ → Type 0
  pub get-Holds : (k : ℕ) (c : C) (v : List ℕ) → (lru.get k c).1 ≡ some v → Holds c k v
  pub Holds-get : (k : ℕ) (c : C) (j : ℕ) (v : List ℕ) → Holds (lru.get k c).0 j v → Holds c j v
  pub Holds-add :
      (k : ℕ) (u : List ℕ) (c : C) (j : ℕ) (v : List ℕ)
      → Holds (lru.add k u c) j v
      → ((j ≡ k) × (v ≡ u)) ⊎ Holds c j v

-- No cache.
abbrev pub no_cache : Lru Unit
no_cache = record { get = λ k c. (tt, none); add = λ k v c. tt }

keep-no_cache :
    (mem : ℕ → ℕ → Option (List ℕ)) (ptr : ℕ) (r : Option (List ℕ))
    → (keep no_cache mem ptr tt r).1 ≡ r
keep-no_cache mem ptr none = refl
keep-no_cache mem ptr (some v) = refl

finished-cong :
    (o : Offsets) (window : List ℕ) (src : List ℕ × ℕ) (dst : Option (Option (List ℕ × ℕ)))
    {i i' j j' : Option (Option WorkloadIdentity)}
    → i ≡ i'
    → j ≡ j'
    → finished o window src dst i j ≡ finished o window src dst i' j'
finished-cong o window src dst {i} {i'} {j} {j'} e f =
    ap (λ k. finished o window src dst k j) e ∙ ap (λ k. finished o window src dst i' k) f

module _ {C : Type 0} (lru : Lru C) (laws : LruLaws lru) (mem : ℕ → ℕ → Option (List ℕ)) where
  -- The entries are strings of the memory.
  abbrev pub IsSound : C → Type 0
  IsSound c = (k : ℕ) (v : List ℕ) → laws.Holds c k v → read_arc_str mem k ≡ some v

  keep-IsSound :
      (ptr : ℕ) (c : C) (r : Option (List ℕ))
      → read_arc_str mem ptr ≡ r
      → IsSound c
      → ((keep lru mem ptr c r).1 ≡ r) × IsSound (keep lru mem ptr c r).0
  keep-IsSound ptr c none e s = (refl, s)
  keep-IsSound ptr c (some v) e s = (
    refl,
    λ k u h. elim (laws.Holds-add ptr v c k u h) [
      | inl (j, w) ↦ ap (read_arc_str mem) j ∙ e ∙ ap some (sym w)
      | inr old ↦ s k u old
    ],
  )

  after_get-IsSound :
      (ptr : ℕ) (r : C × Option (List ℕ))
      → ((v : List ℕ) → r.1 ≡ some v → read_arc_str mem ptr ≡ some v)
      → IsSound r.0
      → ((after_get lru mem ptr r).1 ≡ read_arc_str mem ptr) × IsSound (after_get lru mem ptr r).0
  after_get-IsSound ptr (c, none) g s = keep-IsSound ptr c (read_arc_str mem ptr) refl s
  after_get-IsSound ptr (c, some v) g s = (sym (g v refl), s)

  abbrev Same : {A : Type 0} → C × A → Unit {0} × A → Type 0
  Same r plain = (r.1 ≡ plain.1) × IsSound r.0

  decode_arc_str-Same :
      (ptr : ℕ) (c : C)
      → IsSound c
      → Same (decode_arc_str lru mem ptr c) (decode_arc_str no_cache mem ptr tt)
  unfolding decode_arc_str
  decode_arc_str-Same ptr c s = elim (Bool-cases (ptr == 0)) [
    | inl null ↦ rw null (refl, s)
    | inr real ↦ elim (Bool-cases (ptr % 8 == 0)) [
      | inr odd ↦ rw (real, odd) (refl, s)
      | inl even ↦
          let found : (v : List ℕ) → (lru.get ptr c).1 ≡ some v → read_arc_str mem ptr ≡ some v =
            λ v h. s ptr v (laws.get-Holds ptr c v h) in
          let left : IsSound (lru.get ptr c).0 = λ k v h. s k v (laws.Holds-get ptr c k v h) in
          let r = after_get-IsSound ptr (lru.get ptr c) found left in
          rw (real, even) (r.0 ∙ sym (keep-no_cache mem ptr (read_arc_str mem ptr)), r.1)
    ]
  ]

  label_if_empty-Same :
      (id : WorkloadIdentity) (ptr : ℕ) (c : C)
      → IsSound c
      → Same (label_if_empty lru mem id ptr c) (label_if_empty no_cache mem id ptr tt)
  unfolding label_if_empty
  label_if_empty-Same id ptr c s = elim (Bool-cases (is_empty id.namespace)) [
    | inr named ↦ rw named (refl, s)
    | inl empty ↦
        let r = decode_arc_str-Same ptr c s in
        rw empty (ap (λ (v : Option (List ℕ)). record id { namespace = or_empty v }) r.0, r.1)
  ]

  decode_identity_from_pointers-Same :
      (p q l k : ℕ) (c : C)
      → IsSound c
      → Same
          (decode_identity_from_pointers lru mem p q l k c)
          (decode_identity_from_pointers no_cache mem p q l k tt)
  unfolding decode_identity_from_pointers
  decode_identity_from_pointers-Same p q l k c s =
      let ns = decode_arc_str lru mem p c in
      let r1 = decode_arc_str-Same p c s in
      let sa = decode_arc_str lru mem q ns.0 in
      let r2 = decode_arc_str-Same q ns.0 r1.1 in
      let ids : principal ns.1 sa.1
          ≡ principal (decode_arc_str no_cache mem p tt).1 (decode_arc_str no_cache mem q tt).1 =
        ap (λ n. principal n sa.1) r1.0
        ∙ ap (principal (decode_arc_str no_cache mem p tt).1) r2.0 in
      let id = label_if_empty lru mem (principal ns.1 sa.1) l sa.0 in
      let r3 = label_if_empty-Same (principal ns.1 sa.1) l sa.0 r2.1 in
      let same : id.1
          ≡ (label_if_empty no_cache mem
              (principal (decode_arc_str no_cache mem p tt).1 (decode_arc_str no_cache mem q tt).1)
              l tt).1 =
        r3.0 ∙ ap (λ i. (label_if_empty no_cache mem i l tt).1) ids in
      let r4 = decode_arc_str-Same k id.0 r3.1 in
      (
        ap
              (λ (i : WorkloadIdentity).
                unless_empty (record i { cluster = or_empty (decode_arc_str lru mem k id.0).1 }))
              same
            ∙ ap
                (λ (v : Option (List ℕ)).
                  unless_empty
                    (record (label_if_empty no_cache mem
                      (principal (decode_arc_str no_cache mem p tt).1
                        (decode_arc_str no_cache mem q tt).1)
                      l tt).1 { cluster = or_empty v }))
                r4.0,
        r4.1,
      )

  with_pointers-Same :
      (p q l k : Option ℕ) (c : C)
      → IsSound c
      → Same (with_pointers lru mem p q l k c) (with_pointers no_cache mem p q l k tt)
  with_pointers-Same (some p) (some q) (some l) (some k) c s =
      let r = decode_identity_from_pointers-Same p q l k c s in (ap some r.0, r.1)
  with_pointers-Same none q l k c s = (refl, s)
  with_pointers-Same (some p) none l k c s = (refl, s)
  with_pointers-Same (some p) (some q) none k c s = (refl, s)
  with_pointers-Same (some p) (some q) (some l) none c s = (refl, s)

  decode_identity-Same :
      (o : Offsets) (window : List ℕ) (p q r : ℤ) (c : C)
      → IsSound c
      → Same
          (decode_identity lru mem o window p q r c)
          (decode_identity no_cache mem o window p q r tt)
  unfolding decode_identity
  decode_identity-Same o window p q r c s =
      with_pointers-Same (read_pointer window (add_int p o.identity_namespace))
        (read_pointer window (add_int p o.identity_service_account)) (read_pointer window r)
        (read_pointer window q) c s

  decode_from-Same :
      (o : Offsets) (window : List ℕ) (src : Option (Option (List ℕ × ℕ))) (c : C)
      → IsSound c
      → Same (decode_from lru mem o window src c) (decode_from no_cache mem o window src tt)
  decode_from-Same o window none c s = (refl, s)
  decode_from-Same o window (some none) c s = (refl, s)
  decode_from-Same o window (some (some src)) c s =
      let r1 =
        decode_identity-Same o window o.source_principal o.source_cluster o.source_namespace c s in
      let r2 =
        decode_identity-Same o window o.destination_principal o.destination_cluster
          o.destination_namespace _ r1.1 in
      (finished-cong o window src (decode_sock_addr_v4 window o.dst) r1.0 r2.0, r2.1)

  -- While the entries of the cache are strings of the memory, Decode returns with the cache what it
  -- returns without one, and the entries are strings of the memory afterwards.
  pub decode-no_cache :
      (o : Offsets) (window : List ℕ) (c : C)
      → IsSound c
      → ((decode lru mem o window c).1 ≡ (decode no_cache mem o window tt).1)
        × IsSound (decode lru mem o window c).0
  unfolding decode
  decode-no_cache o window c s = elim (Bool-cases (ltb_int (pos (length window)) o.window)) [
    | inl short ↦ rw short (refl, s)
    | inr long ↦ rw long (decode_from-Same o window (decode_sock_addr_v4 window o.src) c s)
  ]
