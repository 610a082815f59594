-- ===== src/Connections/Table/Life.antt =====
-- How long a connection of pkg/accesslog/common/connection.go lives.
use skywalking_rover.Common.{
  ℕ, ◌+◌, ◌≡◌, refl, ap, ◌∙◌, Bool, true, false, ◌||◌, List, [], ◌∷◌, Option, none, some, ltb,
  if◌then◌else◌, arith,
}
use skywalking_rover.AccessLog.Resolution.{connection_delete_delay_time}
use skywalking_rover.Connections.Handling.{
  ConnectionInfo, Event, close_event, other_event, socket_detail, connect_event,
  rebuild_rpc_connection, connection_post_handle,
}
use skywalking_rover.Connections.Table.{
  Cycle, should_delete, start_timer, after_timer, finish_connection, Happening, event, cycle, kept,
  live_one, live,
}

abbrev pub is_gone : Option ConnectionInfo → Bool
is_gone none = true
is_gone (some c) = false

-- Whether a cycle is later than a time.
abbrev pub any_after : ℕ → List Happening → Bool
any_after d [] = false
any_after d (event e ready ∷ hs) = any_after d hs
any_after d (cycle w ∷ hs) = ltb d w.now || any_after d hs

abbrev IsClosing : ℕ → ConnectionInfo → Type 0
IsClosing d c = (c.mark_deletable ≡ true) × (c.delete_after ≡ some d)

handled-IsClosing :
    (d : ℕ) (c : ConnectionInfo) (e : Event) (ready : ConnectionInfo → Option ℕ)
    → IsClosing d c
    → IsClosing d (connection_post_handle ready c e)
unfolding connection_post_handle rebuild_rpc_connection
handled-IsClosing d c close_event ready h = (refl, h.1)
handled-IsClosing d c other_event ready h = h
handled-IsClosing d c (socket_detail ssl protocol) ready h = h
handled-IsClosing d c (connect_event pid socket) ready h = h

finish-marked :
    (w : Cycle) (c : ConnectionInfo)
    → c.mark_deletable ≡ true
    → finish_connection w c ≡ after_timer w.now (c, true)
unfolding finish_connection should_delete
finish-marked w c e = rw e refl

abbrev timed : ConnectionInfo → ℕ → Bool → Option ConnectionInfo
timed c d deleted = if deleted then none else some (record c { delete_after = some d })

kept-timed :
    (c : ConnectionInfo) (d : ℕ) (deleted : Bool)
    → kept (record c { delete_after = some d }, deleted) ≡ timed c d deleted
kept-timed c d true = refl
kept-timed c d false = refl

cycle-marked :
    (w : Cycle) (c : ConnectionInfo) (o : Option ℕ)
    → c.mark_deletable ≡ true
    → c.delete_after ≡ o
    → live_one (cycle w) c ≡ timed c (start_timer w.now o) (ltb (start_timer w.now o) w.now)
cycle-marked w c o m e =
    ap kept (finish-marked w c m)
    ∙ kept-timed c (start_timer w.now c.delete_after) (ltb (start_timer w.now c.delete_after) w.now)
    ∙ ap (λ p. timed c (start_timer w.now p) (ltb (start_timer w.now p) w.now)) e

live-timed :
    (hs : List Happening) (c : ConnectionInfo) (d : ℕ) (deleted : Bool)
    → is_gone (live hs (some (record c { delete_after = some d }))) ≡ any_after d hs
    → is_gone (live hs (timed c d deleted)) ≡ (deleted || any_after d hs)
unfolding live
live-timed hs c d true h = refl
live-timed hs c d false h = h

live-closing :
    (d : ℕ) (hs : List Happening) (c : ConnectionInfo)
    → IsClosing d c
    → is_gone (live hs (some c)) ≡ any_after d hs
unfolding live
live-closing d [] c h = refl
live-closing d (event e ready ∷ hs) c h =
    live-closing d hs (connection_post_handle ready c e) (handled-IsClosing d c e ready h)
live-closing d (cycle w ∷ hs) c (m, e) =
    ap (λ o. is_gone (live hs o)) (cycle-marked w c (some d) m e)
    ∙ live-timed hs c d (ltb d w.now)
        (live-closing d hs (record c { delete_after = some d }) (m, refl))

-- A connection that is marked as deletable, without a timer yet: from the next cycle on, with any
-- events in between, it is deleted by the first cycle later than 25 s after that one, and not before.
pub live-deleted :
    (c : ConnectionInfo) (w : Cycle) (hs : List Happening)
    → c.mark_deletable ≡ true
    → c.delete_after ≡ none
    → is_gone (live (cycle w ∷ hs) (some c)) ≡ any_after (w.now + connection_delete_delay_time) hs
unfolding live
live-deleted c w hs m e =
    let d = w.now + connection_delete_delay_time in
    ap (λ o. is_gone (live hs o)) (cycle-marked w c none m e)
    ∙ live-timed hs c d (ltb d w.now)
        (live-closing d hs (record c { delete_after = some d }) (m, refl))
    ∙ ground arith
