-- ===== src/Connections/Table/Deleted.antt =====
-- The table of the connections of pkg/accesslog/common/connection.go after a cycle.
use skywalking_rover.Common.{
  ℕ, ◌≡◌, refl, ap, ◌∙◌, Bool, true, false, ◌&&◌, ◌||◌, List, [], ◌∷◌, Option, none, some, ◌==◌,
  if◌then◌else◌, lookup, erase, has_key, lookup-erase, lookup-same, IsUnique, arith, Bool-cases,
  inl, inr,
}
use skywalking_rover.Connections.Handling.{ConnectionInfo}
use skywalking_rover.Connections.Unresolved.{Resolutions, record_connection_resolve_result}
use skywalking_rover.Connections.Table.{
  Cycle, finish_connection, finish_all, delete_all, on_build_connection_log_finished, kept,
}

abbrev pub after_cycle : Cycle → Option ConnectionInfo → Option ConnectionInfo
after_cycle w none = none
after_cycle w (some c) = kept (finish_connection w c)

abbrev updated : Cycle → Option ConnectionInfo → Option ConnectionInfo
updated w none = none
updated w (some c) = some (finish_connection w c).0

abbrev is_deleted : Cycle → Option ConnectionInfo → Bool
is_deleted w none = false
is_deleted w (some c) = (finish_connection w c).1

finish_all-updated :
    (w : Cycle) (k : ℕ) (m : List (ℕ × ConnectionInfo))
    → lookup k (finish_all w m).0 ≡ updated w (lookup k m)
unfolding finish_all
finish_all-updated w k [] = refl
finish_all-updated w k ((j, c) ∷ m) = elim (Bool-cases (j == k)) [
  | inl e ↦ rw e refl
  | inr e ↦ rw e (finish_all-updated w k m)
]

has_key-when :
    (k j : ℕ) (c : ConnectionInfo) (deleted : Bool) (m : List (ℕ × ConnectionInfo))
    → has_key k (if deleted then (j, c) ∷ m else m) ≡ (deleted && j == k || has_key k m)
has_key-when k j c true m = ground arith
has_key-when k j c false m = refl

finish_all-deleted :
    (w : Cycle) (k : ℕ) (m : List (ℕ × ConnectionInfo))
    → IsUnique m
    → has_key k (finish_all w m).1 ≡ is_deleted w (lookup k m)
unfolding finish_all
finish_all-deleted w k [] u = refl
finish_all-deleted w k ((j, c) ∷ m) (fresh, u) =
    let later = finish_all-deleted w k m u in
    let d = finish_connection w c in
    let here = has_key-when k j d.0 d.1 (finish_all w m).1 in
    elim (Bool-cases (j == k)) [
      | inl e ↦ ground (arith, here, later, e, lookup-same j k m e, fresh)
      | inr e ↦ ground (arith, here, later, e)
    ]

-- The connections that the cycle deletes.
abbrev pub deleted_of : Cycle → List (ℕ × ConnectionInfo) → List (ℕ × ConnectionInfo)
deleted_of w [] = []
deleted_of w ((key, c) ∷ m) =
    let rest = deleted_of w m in
    if (finish_connection w c).1 then (key, (finish_connection w c).0) ∷ rest else rest

finish_all-deleted_of :
    (w : Cycle) (m : List (ℕ × ConnectionInfo)) → (finish_all w m).1 ≡ deleted_of w m
unfolding finish_all
finish_all-deleted_of w [] = refl
finish_all-deleted_of w ((j, c) ∷ m) = ground (arith, finish_all-deleted_of w m)

module _ (reasons : ConnectionInfo → List (List ℕ)) (text : ConnectionInfo → List ℕ) where
  delete_all-lookup :
      (k : ℕ) (deletable m : List (ℕ × ConnectionInfo)) (r : Resolutions)
      → lookup k (delete_all reasons text deletable m r).0
        ≡ (if has_key k deletable then none else lookup k m)
  unfolding delete_all
  delete_all-lookup k [] m r = refl
  delete_all-lookup k ((j, c) ∷ deletable) m r = ground (
    arith,
    delete_all-lookup k deletable (erase j m) (record_connection_resolve_result reasons text c r),
    lookup-erase k j m,
  )

  -- The connections that are recorded, in order.
  unfoldable pub record_all : List (ℕ × ConnectionInfo) → Resolutions → Resolutions
  unfolding record_connection_resolve_result
  record_all [] r = r
  record_all ((key, c) ∷ cs) r = record_all cs (record_connection_resolve_result reasons text c r)

  delete_all-record_all :
      (deletable m : List (ℕ × ConnectionInfo)) (r : Resolutions)
      → (delete_all reasons text deletable m r).1 ≡ record_all deletable r
  unfolding delete_all record_all
  delete_all-record_all [] m r = refl
  delete_all-record_all ((j, c) ∷ deletable) m r =
      delete_all-record_all deletable (erase j m)
        (record_connection_resolve_result reasons text c r)

  after_cycle-parts :
      (w : Cycle) (o : Option ConnectionInfo)
      → (if is_deleted w o then none else updated w o) ≡ after_cycle w o
  after_cycle-parts w none = refl
  after_cycle-parts w (some c) = elim (Bool-cases (finish_connection w c).1) [
    | inl e ↦ ground (arith, e)
    | inr e ↦ ground (arith, e)
  ]

  -- After a flush, each connection of the table is gone or there as the cycle left it, and nothing
  -- else is. The result of its remote address is recorded for the deleted connections and no others,
  -- once for each and as the cycle left it.
  pub on_build_connection_log_finished-lookup :
      (w : Cycle) (m : List (ℕ × ConnectionInfo)) (r : Resolutions)
      → IsUnique m
      → let t = on_build_connection_log_finished reasons text w m r in
        ((k : ℕ) → lookup k t.0 ≡ after_cycle w (lookup k m))
        × (t.1 ≡ record_all (deleted_of w m) r)
  unfolding on_build_connection_log_finished record_all
  on_build_connection_log_finished-lookup w m r u =
      let (after, deletable) = finish_all w m in
      (
        λ k.
            delete_all-lookup k deletable after r
            ∙ ground (arith, finish_all-deleted w k m u, finish_all-updated w k m)
            ∙ after_cycle-parts w (lookup k m),
        delete_all-record_all deletable after r
            ∙ ap (λ cs. record_all cs r) (finish_all-deleted_of w m),
      )
