-- ===== src/Connections/Unresolved/Accounted.antt =====
-- The counters of resolved and unresolved addresses of pkg/accesslog/common/connection.go.
use skywalking_rover.Common.{
  ℕ, suc, ◌+◌, ◌≤◌, ◌≡◌, refl, subst, ap, ◌∙◌, Bool, true, false, ◌&&◌, not, List, [], ◌∷◌, ◌++◌,
  Option, none, some, leb, if◌then◌else◌, length, arith, Bool-cases, inl, inr,
}
use skywalking_rover.Connections.Addresses.{ConnectionAddress, kubernetes_address, ip_address}
use skywalking_rover.Connections.Handling.{ConnectionInfo}
use skywalking_rover.Connections.Unresolved.{
  Resolutions, has_count, increment, record_unresolved_remote, first_reason, record_raw,
  record_remote, record_connection_resolve_result, insert_count, sort_counts,
  drain_unresolved_remotes, unresolved_remote_max_track,
}

abbrev pub total : List (List ℕ × ℕ) → ℕ
total [] = 0
total ((k, n) ∷ m) = n + total m

total-increment : (key : List ℕ) (m : List (List ℕ × ℕ)) → total (increment key m) ≡ suc (total m)
total-increment key [] = refl
total-increment key ((k, n) ∷ m) = ground (arith, total-increment key m)

length-increment :
    (key : List ℕ) (m : List (List ℕ × ℕ))
    → length (increment key m) ≡ (if has_count key m then length m else suc (length m))
length-increment key [] = refl
length-increment key ((k, n) ∷ m) = ground (arith, length-increment key m)

total-insert_count :
    (k : List ℕ) (n : ℕ) (m : List (List ℕ × ℕ)) → total (insert_count (k, n) m) ≡ n + total m
total-insert_count k n [] = refl
total-insert_count k n ((j, x) ∷ m) = ground (arith, total-insert_count k n m)

total-sort_counts : (m : List (List ℕ × ℕ)) → total (sort_counts m) ≡ total m
total-sort_counts [] = refl
total-sort_counts ((k, n) ∷ m) =
    total-insert_count k n (sort_counts m) ∙ ap (λ x. n + x) (total-sort_counts m)

-- A connection that is deleted, or the report of the interval.
pub data Resolving : Type 0 where
  deleted : ConnectionInfo → Resolving
  reported : Resolving

-- Whether a connection would be sent with a raw IP, if nothing was attached.
abbrev pub is_raw : ConnectionAddress → Bool
is_raw (kubernetes_address k) = false
is_raw (ip_address host port) = true

abbrev pub raw_count : List Resolving → ℕ
raw_count [] = 0
raw_count (deleted c ∷ os) =
    let rest = raw_count os in if is_raw c.rpc_connection.remote then suc rest else rest
raw_count (reported ∷ os) = raw_count os

-- The connections are counted once, by their reasons since the last report; `sent` is the total of
-- the reports before.
abbrev pub IsAccounted : ℕ → ℕ → Resolutions → Type 0
IsAccounted raw sent r =
    (r.ztunnel_resolved_remote_count + r.conntrack_resolved_remote_count + r.unresolved_remote_count
      ≡ raw)
    × (r.unresolved_remote_count ≡ sent + total r.unresolved_by_reason)
    × (length r.unresolved_remotes ≤ unresolved_remote_max_track)

bounded-increment :
    (key : List ℕ) (m : List (List ℕ × ℕ))
    → length m ≤ unresolved_remote_max_track
    → length (
        if not (has_count key m) && leb unresolved_remote_max_track (length m)
        then m
        else increment key m)
      ≤ unresolved_remote_max_track
bounded-increment key m h = elim (Bool-cases (has_count key m)) [
  | inl e ↦ rw e (ground (arith, length-increment key m, e, h))
  | inr e ↦ elim (Bool-cases (leb unresolved_remote_max_track (length m))) [
    | inl g ↦ rw (e, g) h
    | inr g ↦ rw (e, g) (ground (arith, length-increment key m, e, g, h))
  ]
]

record_unresolved_remote-IsAccounted :
    (reason text : List ℕ) (raw sent : ℕ) (r : Resolutions)
    → IsAccounted raw sent r
    → IsAccounted (suc raw) sent (record_unresolved_remote reason text r)
unfolding record_unresolved_remote
record_unresolved_remote-IsAccounted reason text raw sent r (all, reasons, bounded) =
    let key = reason ++ (b' ' ∷ text) in
    (
      omega (arith, all),
      omega (arith, reasons, total-increment reason r.unresolved_by_reason),
      bounded-increment key r.unresolved_remotes bounded,
    )

module _ (reasons : ConnectionInfo → List (List ℕ)) (text : ConnectionInfo → List ℕ) where
  -- The record, and the total that was reported.
  abbrev pub resolve_one : Resolving → Resolutions × ℕ → Resolutions × ℕ
  resolve_one (deleted c) (r, sent) = (record_connection_resolve_result reasons text c r, sent)
  resolve_one reported (r, sent) =
      let (after, pairs, by_reason) = drain_unresolved_remotes r in (after, sent + total by_reason)

  unfoldable pub resolve_all : List Resolving → Resolutions × ℕ → Resolutions × ℕ
  unfolding record_connection_resolve_result drain_unresolved_remotes
  resolve_all [] s = s
  resolve_all (o ∷ os) s = resolve_all os (resolve_one o s)

  record_raw-IsAccounted :
      (c : ConnectionInfo) (attached : Option ℕ) (tracked : Bool) (raw sent : ℕ) (r : Resolutions)
      → IsAccounted raw sent r
      → IsAccounted (suc raw) sent (record_raw reasons text c attached tracked r)
  record_raw-IsAccounted c (some a) tracked raw sent r (all, by, bounded) =
      (omega (arith, all), by, bounded)
  record_raw-IsAccounted c none true raw sent r (all, by, bounded) =
      (omega (arith, all), by, bounded)
  record_raw-IsAccounted c none false raw sent r h =
      record_unresolved_remote-IsAccounted (first_reason (reasons c)) (text c) raw sent r h

  record_remote-IsAccounted :
      (c : ConnectionInfo) (a : ConnectionAddress) (raw sent : ℕ) (r : Resolutions)
      → IsAccounted raw sent r
      → IsAccounted (if is_raw a then suc raw else raw) sent (record_remote reasons text c a r)
  record_remote-IsAccounted c (kubernetes_address k) raw sent r h = h
  record_remote-IsAccounted c (ip_address host port) raw sent r h =
      record_raw-IsAccounted c c.rpc_connection.attachment c.socket.conn_track_resolved raw sent r h

  abbrev raw_with : Resolving → ℕ → ℕ
  raw_with (deleted c) n = if is_raw c.rpc_connection.remote then suc n else n
  raw_with reported n = n

  resolve_one-IsAccounted :
      (o : Resolving) (raw sent : ℕ) (r : Resolutions)
      → IsAccounted raw sent r
      → let (q, total) = resolve_one o (r, sent) in IsAccounted (raw_with o raw) total q
  unfolding record_connection_resolve_result drain_unresolved_remotes
  resolve_one-IsAccounted (deleted c) raw sent r h =
      record_remote-IsAccounted c c.rpc_connection.remote raw sent
        (record r { finalized = c ∷ r.finalized }) h
  resolve_one-IsAccounted reported raw sent r (all, by, bounded) =
      (all, omega (arith, by, total-sort_counts r.unresolved_by_reason), omega arith)

  raw_with-count :
      (o : Resolving) (os : List Resolving) (raw : ℕ)
      → raw_with o raw + raw_count os ≡ raw + raw_count (o ∷ os)
  raw_with-count (deleted c) os raw = ground arith
  raw_with-count reported os raw = refl

  -- After any deletions and reports, from counters that account for `raw` deleted connections: each
  -- deleted connection with a raw IP is counted once, as resolved by the correlation, resolved by the
  -- kernel's sessions or unresolved. The unresolved ones are those of the reports, with those that
  -- are counted by their reasons since the last one. At most 100 socket pairs are tracked.
  pub resolve_all-IsAccounted :
      (os : List Resolving) (raw sent : ℕ) (r : Resolutions)
      → IsAccounted raw sent r
      → let (q, total) = resolve_all os (r, sent) in IsAccounted (raw + raw_count os) total q
  unfolding resolve_all
  resolve_all-IsAccounted [] raw sent r (all, by, bounded) = (omega (arith, all), by, bounded)
  resolve_all-IsAccounted (o ∷ os) raw sent r h =
      let (q, total) = resolve_one o (r, sent) in
      subst (λ n. IsAccounted n (resolve_all os (q, total)).1 (resolve_all os (q, total)).0)
        (raw_with-count o os raw)
        (resolve_all-IsAccounted os (raw_with o raw) total q
          (resolve_one-IsAccounted o raw sent r h))
