-- ===== src/Connections/Upkeep/Cleaned.antt =====
-- The cleaning of the map of active connections of pkg/accesslog/common/connection.go.
use skywalking_rover.Common.{
  ℕ, ◌≡◌, refl, ◌⊎◌, inl, inr, Bool, true, false, List, [], ◌∷◌, All, Bool-cases,
}
use skywalking_rover.Connections.Upkeep.{
  ActiveConnection, CloseEvent, Deletion, deleted_now, key_not_exist, delete_failed, after_deletion,
  clean_active_connections,
}

module _ (fd_exists : ℕ → Bool) (delete : ℕ → Deletion) where
  -- An active connection stays for a reason.
  abbrev pub Stays : ℕ × ActiveConnection → Type 0
  Stays x = (fd_exists x.0 ≡ true) ⊎ (delete x.0 ≡ delete_failed)

  abbrev pub IsClosed : CloseEvent → Type 0
  IsClosed e =
      (fd_exists e.close_connection_id ≡ false) × (delete e.close_connection_id ≡ deleted_now)

  after_deletion-All :
      (id : ℕ) (a : ActiveConnection) (d : Deletion) (m : List (ℕ × ActiveConnection))
      (es : List CloseEvent)
      → delete id ≡ d
      → fd_exists id ≡ false
      → All Stays m
      → All IsClosed es
      → All Stays (after_deletion id a d (m, es)).0 × All IsClosed (after_deletion id a d (m, es)).1
  after_deletion-All id a deleted_now m es same gone k c = (k, ((gone, same), c))
  after_deletion-All id a key_not_exist m es same gone k c = (k, c)
  after_deletion-All id a delete_failed m es same gone k c = ((inr same, k), c)

  -- After a cleaning, an active connection is there only if its file exists or the kernel failed to
  -- delete it, and each close event is of one whose file is gone and that was deleted now.
  pub clean_active_connections-All :
      (m : List (ℕ × ActiveConnection))
      → All Stays (clean_active_connections fd_exists delete m).0
        × All IsClosed (clean_active_connections fd_exists delete m).1
  unfolding clean_active_connections
  clean_active_connections-All [] = (tt, tt)
  clean_active_connections-All ((id, a) ∷ rest) =
      let (k, c) = clean_active_connections-All rest in
      let (m, es) = clean_active_connections fd_exists delete rest in
      elim (Bool-cases (fd_exists id)) [
        | inl e ↦ rw e ((inl e, k), c)
        | inr e ↦ rw e (after_deletion-All id a (delete id) m es refl e k c)
      ]
