-- ===== src/Connections/Table.antt =====
-- The end of connections in pkg/accesslog/common/connection.go: OnBuildConnectionLogFinished, which
-- follows each flush of the logs. The map of active connections of the kernel answers by an argument.
-- One reading of the clock stands for those of a call. Times are nanoseconds and do not go back.
pub mod Life
pub mod Timer
pub mod Deleted
use skywalking_rover.Common.{
  ℕ, ◌+◌, ◌-◌, Bool, true, false, ◌&&◌, ◌||◌, not, List, [], ◌∷◌, Option, none, some, ltb, ◌==◌,
  if◌then◌else◌, erase,
}
use skywalking_rover.AccessLog.Resolution.{connection_delete_delay_time}
use skywalking_rover.Connections.Handling.{ConnectionInfo, Event, connection_post_handle}
use skywalking_rover.Connections.Unresolved.{Resolutions, record_connection_resolve_result}

abbrev pub connection_check_exist_time : ℕ
connection_check_exist_time = 30_000_000_000

-- A lookup of an active connection; an active one has its random id.
pub data ActiveLookup : Type 0 where
  not_exist lookup_error : ActiveLookup
  active : (random_id : ℕ) → ActiveLookup

-- One call, and what it reads.
pub record Cycle : Type 0 where
  pub now : ℕ
  pub process_is_monitored : ℕ → Bool
  pub lookup_active : ℕ → ActiveLookup

abbrev pub mark : ConnectionInfo → ConnectionInfo
mark c = record c { mark_deletable = true }

-- Whether the connection exists, after the lookup.
abbrev pub looked_up : ActiveLookup → ConnectionInfo → ConnectionInfo × Bool
looked_up not_exist c = (mark c, false)
looked_up lookup_error c = (c, false)
looked_up (active random_id) c =
    if not (random_id == 0) && not (random_id == c.random_id) then (mark c, false) else (c, true)

unfoldable pub check_connection_is_exist : Cycle → ConnectionInfo → ConnectionInfo × Bool
check_connection_is_exist w c =
    if ltb (w.now - c.last_check_exist_time) connection_check_exist_time
    then (c, true)
    else looked_up (w.lookup_active c.connection_id) (record c { last_check_exist_time = w.now })

-- Whether the connection is to be deleted.
unfoldable pub should_delete : Cycle → ConnectionInfo → ConnectionInfo × Bool
unfolding check_connection_is_exist
should_delete w c =
    let (d, exists) = check_connection_is_exist w c in
    if c.mark_deletable || not (w.process_is_monitored c.connection_pid)
    then (c, true)
    else (d, not exists)

abbrev pub start_timer : ℕ → Option ℕ → ℕ
start_timer now none = now + connection_delete_delay_time
start_timer now (some d) = d

-- Whether it is deleted now.
abbrev pub after_timer : ℕ → ConnectionInfo × Bool → ConnectionInfo × Bool
after_timer now (c, false) = (c, false)
after_timer now (c, true) = (
  record c { delete_after = some (start_timer now c.delete_after) },
  ltb (start_timer now c.delete_after) now,
)

unfoldable pub finish_connection : Cycle → ConnectionInfo → ConnectionInfo × Bool
unfolding should_delete
finish_connection w c = after_timer w.now (should_delete w c)

-- The iteration: the connections after it, and those to delete.
unfoldable pub finish_all :
    Cycle → List (ℕ × ConnectionInfo) → List (ℕ × ConnectionInfo) × List (ℕ × ConnectionInfo)
unfolding finish_connection
finish_all w [] = ([], [])
finish_all w ((key, c) ∷ m) =
    let (rest, deletable) = finish_all w m in
    let (d, deleted) = finish_connection w c in
    ((key, d) ∷ rest, if deleted then (key, d) ∷ deletable else deletable)

module _ (reasons : ConnectionInfo → List (List ℕ)) (text : ConnectionInfo → List ℕ) where
  unfoldable pub delete_all :
      List (ℕ × ConnectionInfo)
      → List (ℕ × ConnectionInfo)
      → Resolutions
      → List (ℕ × ConnectionInfo) × Resolutions
  unfolding record_connection_resolve_result
  delete_all [] m r = (m, r)
  delete_all ((key, c) ∷ deletable) m r =
      delete_all deletable (erase key m) (record_connection_resolve_result reasons text c r)

  unfoldable pub on_build_connection_log_finished :
      Cycle → List (ℕ × ConnectionInfo) → Resolutions → List (ℕ × ConnectionInfo) × Resolutions
  unfolding finish_all delete_all
  on_build_connection_log_finished w m r =
      let (after, deletable) = finish_all w m in delete_all deletable after r

-- What happens to one connection.
pub data Happening : Type 0 where
  event : Event → (ConnectionInfo → Option ℕ) → Happening
  cycle : Cycle → Happening

abbrev pub kept : ConnectionInfo × Bool → Option ConnectionInfo
kept (c, true) = none
kept (c, false) = some c

abbrev pub live_one : Happening → ConnectionInfo → Option ConnectionInfo
live_one (event e ready) c = some (connection_post_handle ready c e)
live_one (cycle w) c = kept (finish_connection w c)

-- The connection after that, or none when it was deleted.
unfoldable pub live : List Happening → Option ConnectionInfo → Option ConnectionInfo
unfolding connection_post_handle finish_connection
live hs none = none
live [] (some c) = some c
live (h ∷ hs) (some c) = live hs (live_one h c)
