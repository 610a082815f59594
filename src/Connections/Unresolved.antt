-- ===== src/Connections/Unresolved.antt =====
-- The results of resolving remote addresses in pkg/accesslog/common/connection.go. The answers of the
-- listeners that know about resolutions, and the text of a socket pair, are arguments. A string is
-- the list of its bytes. Locks and logs are left out.
pub mod Accounted
pub mod Top
use skywalking_rover.Common.{
  ℕ, suc, ◌+◌, Bool, true, false, ◌&&◌, ◌||◌, not, List, [], ◌∷◌, ◌++◌, Option, none, some, ltb,
  leb, ◌==◌, if◌then◌else◌, length, take,
}
use skywalking_rover.Processes.{bytes_equal}
use skywalking_rover.Processes.Report.{is_empty}
use skywalking_rover.Connections.Addresses.{ConnectionAddress, kubernetes_address, ip_address}
use skywalking_rover.Connections.Handling.{ConnectionInfo}

abbrev pub unresolved_remote_max_track : ℕ
unresolved_remote_max_track = 100

abbrev pub unresolved_remote_top_count : ℕ
unresolved_remote_top_count = 10

pub record Resolutions : Type 0 where
  pub unresolved_remote_count : ℕ
  pub ztunnel_resolved_remote_count : ℕ
  pub conntrack_resolved_remote_count : ℕ
  pub unresolved_remotes : List (List ℕ × ℕ)
  pub unresolved_by_reason : List (List ℕ × ℕ)
  -- The calls of FinalizeConnection, the last one first.
  pub finalized : List ConnectionInfo

abbrev pub has_count : List ℕ → List (List ℕ × ℕ) → Bool
has_count key [] = false
has_count key ((k, n) ∷ m) = bytes_equal k key || has_count key m

-- The increment of an entry, from 0 if there is none.
abbrev pub increment : List ℕ → List (List ℕ × ℕ) → List (List ℕ × ℕ)
increment key [] = (key, 1) ∷ []
increment key ((k, n) ∷ m) =
    let rest = increment key m in if bytes_equal k key then (k, suc n) ∷ m else (k, n) ∷ rest

unfoldable pub record_unresolved_remote : (reason socket_pair : List ℕ) → Resolutions → Resolutions
record_unresolved_remote reason socket_pair r =
    let key = reason ++ (b' ' ∷ socket_pair) in
    record r {
      unresolved_remote_count = suc r.unresolved_remote_count;
      unresolved_by_reason = increment reason r.unresolved_by_reason;
      unresolved_remotes =
          if not (has_count key r.unresolved_remotes)
            && leb unresolved_remote_max_track (length r.unresolved_remotes)
          then r.unresolved_remotes
          else increment key r.unresolved_remotes;
    }

-- "unresolved"
abbrev pub unresolved : List ℕ
unresolved = b'u' ∷ b'n' ∷ b'r' ∷ b'e' ∷ b's' ∷ b'o' ∷ b'l' ∷ b'v' ∷ b'e' ∷ b'd' ∷ []

-- The first answer that is not empty.
abbrev pub first_reason : List (List ℕ) → List ℕ
first_reason [] = unresolved
first_reason (a ∷ rest) = let later = first_reason rest in if is_empty a then later else a

module _ (reasons : ConnectionInfo → List (List ℕ)) (text : ConnectionInfo → List ℕ) where
  abbrev pub record_raw : ConnectionInfo → Option ℕ → Bool → Resolutions → Resolutions
  record_raw c (some a) tracked r = record r {
    ztunnel_resolved_remote_count = suc r.ztunnel_resolved_remote_count;
  }
  record_raw c none true r = record r {
    conntrack_resolved_remote_count = suc r.conntrack_resolved_remote_count;
  }
  record_raw c none false r = record_unresolved_remote (first_reason (reasons c)) (text c) r

  abbrev pub record_remote : ConnectionInfo → ConnectionAddress → Resolutions → Resolutions
  record_remote c (kubernetes_address k) r = r
  record_remote c (ip_address host port) r =
      record_raw c c.rpc_connection.attachment c.socket.conn_track_resolved r

  unfoldable pub record_connection_resolve_result : ConnectionInfo → Resolutions → Resolutions
  unfolding record_unresolved_remote
  record_connection_resolve_result c r =
      record_remote c c.rpc_connection.remote (record r { finalized = c ∷ r.finalized })

-- sortByCount, one of the orders that the sort may give to equal counts.
abbrev pub insert_count : List ℕ × ℕ → List (List ℕ × ℕ) → List (List ℕ × ℕ)
insert_count e [] = e ∷ []
insert_count e (x ∷ xs) =
    let rest = insert_count e xs in if ltb x.1 e.1 then e ∷ x ∷ xs else x ∷ rest

abbrev pub sort_counts : List (List ℕ × ℕ) → List (List ℕ × ℕ)
sort_counts [] = []
sort_counts (e ∷ es) = insert_count e (sort_counts es)

abbrev pub sort_by_count : List (List ℕ × ℕ) → ℕ → List (List ℕ × ℕ)
sort_by_count m top =
    let sorted = sort_counts m in
    if ltb 0 top && ltb top (length sorted) then take top sorted else sorted

-- What is reported, as entries in place of a text, and the maps that are reset.
unfoldable pub drain_unresolved_remotes :
    Resolutions → Resolutions × List (List ℕ × ℕ) × List (List ℕ × ℕ)
drain_unresolved_remotes r = (
  record r { unresolved_remotes = []; unresolved_by_reason = [] },
  sort_by_count r.unresolved_remotes unresolved_remote_top_count,
  sort_by_count r.unresolved_by_reason 0,
)
