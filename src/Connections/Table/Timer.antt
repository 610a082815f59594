-- ===== src/Connections/Table/Timer.antt =====
-- The timer of a connection of pkg/accesslog/common/connection.go before it is deleted.
use skywalking_rover.Common.{
  ℕ, ◌+◌, ◌-◌, ◌<◌, ◌≡◌, refl, sym, ap, ◌++◌, ◌∙◌, ◌⊎◌, inl, inr, Bool, true, false, ◌&&◌, ◌||◌,
  not, List, [], ◌∷◌, Option, none, some, ltb, ltb→lt, ◌==◌, arith, Bool-cases, some_injective,
  Option-cases,
}
use skywalking_rover.AccessLog.Resolution.{connection_delete_delay_time}
use skywalking_rover.Connections.Handling.{
  ConnectionInfo, Event, close_event, other_event, socket_detail, connect_event,
  rebuild_rpc_connection, connection_post_handle,
}
use skywalking_rover.Connections.Table.{
  ActiveLookup, not_exist, lookup_error, active, Cycle, looked_up, check_connection_is_exist,
  should_delete, start_timer, after_timer, finish_connection, Happening, event, cycle, kept,
  live_one, live, connection_check_exist_time,
}

-- In this history of a connection without a timer, a cycle that judged that the connection is to be
-- deleted came upon it while it still had none; the timer ends 25 s after that cycle.
abbrev pub Started : ConnectionInfo → List Happening → ℕ → Type 0
Started c hs x =
    (before : List Happening) × (w : Cycle) × (after : List Happening) × (k : ConnectionInfo) × (hs
      ≡ before ++ cycle w ∷ after)
    × (live before (some c) ≡ some k)
    × (k.delete_after ≡ none)
    × ((should_delete w k).1 ≡ true)
    × (x ≡ w.now + connection_delete_delay_time)

looked_up-delete_after :
    (l : ActiveLookup) (c : ConnectionInfo) → (looked_up l c).0.delete_after ≡ c.delete_after
looked_up-delete_after not_exist c = refl
looked_up-delete_after lookup_error c = refl
looked_up-delete_after (active random_id) c =
    elim (Bool-cases (not (random_id == 0) && not (random_id == c.random_id))) [
      | inl e ↦ rw e refl
      | inr e ↦ rw e refl
    ]

should_delete-delete_after :
    (w : Cycle) (c : ConnectionInfo) → (should_delete w c).0.delete_after ≡ c.delete_after
unfolding should_delete check_connection_is_exist
should_delete-delete_after w c =
    elim (Bool-cases (c.mark_deletable || not (w.process_is_monitored c.connection_pid))) [
      | inl e ↦ rw e refl
      | inr e ↦
          elim (Bool-cases (ltb (w.now - c.last_check_exist_time) connection_check_exist_time)) [
            | inl g ↦ rw (e, g) refl
            | inr g ↦
                rw (e, g)
                  (looked_up-delete_after (w.lookup_active c.connection_id)
                    (record c { last_check_exist_time = w.now }))
          ]
    ]

handled-delete_after :
    (c : ConnectionInfo) (e : Event) (ready : ConnectionInfo → Option ℕ)
    → (connection_post_handle ready c e).delete_after ≡ c.delete_after
unfolding connection_post_handle rebuild_rpc_connection
handled-delete_after c close_event ready = refl
handled-delete_after c other_event ready = refl
handled-delete_after c (socket_detail ssl protocol) ready = refl
handled-delete_after c (connect_event pid socket) ready = refl

kept-some :
    (c : ConnectionInfo) (deleted : Bool) (d : ConnectionInfo)
    → kept (c, deleted) ≡ some d
    → (deleted ≡ false) × (c ≡ d)
kept-some c true d e = cc
kept-some c false d e = (refl, some_injective e)

kept-none : (c : ConnectionInfo) (deleted : Bool) → kept (c, deleted) ≡ none → deleted ≡ true
kept-none c true e = refl
kept-none c false e = cc

started-or-kept :
    (now : ℕ) (o p : Option ℕ)
    → p ≡ some (start_timer now o)
    → (p ≡ o) ⊎ ((o ≡ none) × (true ≡ true) × (p ≡ some (now + connection_delete_delay_time)))
started-or-kept now none p e = inr (refl, refl, e)
started-or-kept now (some d) p e = inl e

-- A timer stays, and starts only for a connection that is to be deleted.
after_timer-kept :
    (now : ℕ) (c : ConnectionInfo) (judged : Bool) (d : ConnectionInfo) (o : Option ℕ)
    → kept (after_timer now (c, judged)) ≡ some d
    → c.delete_after ≡ o
    → (d.delete_after ≡ o)
      ⊎ ((o ≡ none)
          × (judged ≡ true)
          × (d.delete_after ≡ some (now + connection_delete_delay_time)))
after_timer-kept now c false d o e h = inl (sym (ap (λ k. k.delete_after) (some_injective e)) ∙ h)
after_timer-kept now c true d o e h =
    let end = start_timer now c.delete_after in
    let (stays, same) = kept-some (record c { delete_after = some end }) (ltb end now) d e in
    started-or-kept now o d.delete_after
      (sym (ap (λ k. k.delete_after) same) ∙ ap (λ p. some (start_timer now p)) h)

late :
    (now : ℕ) (o : Option ℕ)
    → ltb (start_timer now o) now ≡ true
    → (x : ℕ) × (o ≡ some x) × (x < now)
late now none e = absurd (ground (arith, e))
late now (some x) e = (x, refl, ltb→lt x now e)

after_timer-deleted :
    (now : ℕ) (c : ConnectionInfo) (judged : Bool)
    → kept (after_timer now (c, judged)) ≡ none
    → (x : ℕ) × (c.delete_after ≡ some x) × (x < now)
after_timer-deleted now c false e = cc
after_timer-deleted now c true e =
    let end = start_timer now c.delete_after in
    late now c.delete_after (kept-none (record c { delete_after = some end }) (ltb end now) e)

-- What one happening does to the timer.
abbrev Timed : Happening → ConnectionInfo → ConnectionInfo → Type 0
Timed (event e ready) c d = d.delete_after ≡ c.delete_after
Timed (cycle w) c d =
    (d.delete_after ≡ c.delete_after)
    ⊎ ((c.delete_after ≡ none)
        × ((should_delete w c).1 ≡ true)
        × (d.delete_after ≡ some (w.now + connection_delete_delay_time)))

live_one-Timed : (h : Happening) (c d : ConnectionInfo) → live_one h c ≡ some d → Timed h c d
unfolding finish_connection
live_one-Timed (event e ready) c d same =
    sym (ap (λ k. k.delete_after) (some_injective same)) ∙ handled-delete_after c e ready
live_one-Timed (cycle w) c d same =
    let (k, judged) = should_delete w c in
    after_timer-kept w.now k judged d c.delete_after same (should_delete-delete_after w c)

Timed-some :
    (h : Happening) (c d : ConnectionInfo) (y : ℕ)
    → Timed h c d
    → c.delete_after ≡ some y
    → d.delete_after ≡ some y
Timed-some (event e ready) c d y t h = t ∙ h
Timed-some (cycle w) c d y (inl t) h = t ∙ h
Timed-some (cycle w) c d y (inr (n, j, t)) h = cc

gone-live : (hs : List Happening) (d : ConnectionInfo) → live hs none ≡ some d → ⊥
unfolding live
gone-live hs d e = cc

-- A timer that runs is never changed.
live-some :
    (hs : List Happening) (y : ℕ) (c d : ConnectionInfo)
    → live hs (some c) ≡ some d
    → c.delete_after ≡ some y
    → d.delete_after ≡ some y
unfolding live
live-some [] y c d same h = sym (ap (λ k. k.delete_after) (some_injective same)) ∙ h
live-some (h ∷ hs) y c d same e = elim (Option-cases (live_one h c)) [
  | inl gone ↦ absurd (gone-live hs d (ap (live hs) (sym gone) ∙ same))
  | inr (k, stays) ↦
      live-some hs y k d (ap (live hs) (sym stays) ∙ same)
        (Timed-some h c k y (live_one-Timed h c k stays) e)
]

Started-later :
    (h : Happening) (hs : List Happening) (x : ℕ) (c k : ConnectionInfo)
    → live_one h c ≡ some k
    → Started k hs x
    → Started c (h ∷ hs) x
unfolding live
Started-later h hs x c k stays (before, w, after, d, same, lives, n, j, e) =
    (h ∷ before, w, after, d, ap (λ l. h ∷ l) same, ap (live before) stays ∙ lives, n, j, e)

Timed-Started :
    (h : Happening) (hs : List Happening) (x : ℕ) (c k d : ConnectionInfo)
    → c.delete_after ≡ none
    → live hs (some k) ≡ some d
    → d.delete_after ≡ some x
    → Timed h c k
    → (k.delete_after ≡ none) ⊎ Started c (h ∷ hs) x
unfolding live
Timed-Started (event e ready) hs x c k d fresh same timer t = inl (t ∙ fresh)
Timed-Started (cycle w) hs x c k d fresh same timer (inl t) = inl (t ∙ fresh)
Timed-Started (cycle w) hs x c k d fresh same timer (inr (n, judged, t)) =
    inr
      ([], w, hs, c, refl, refl, n, judged, some_injective (sym timer ∙ live-some hs _ k d same t))

live-Started :
    (hs : List Happening) (x : ℕ) (c d : ConnectionInfo)
    → c.delete_after ≡ none
    → live hs (some c) ≡ some d
    → d.delete_after ≡ some x
    → Started c hs x
unfolding live
live-Started [] x c d fresh same h = cc
live-Started (h ∷ hs) x c d fresh same e = elim (Option-cases (live_one h c)) [
  | inl gone ↦ absurd (gone-live hs d (ap (live hs) (sym gone) ∙ same))
  | inr (k, stays) ↦
      let rest = ap (live hs) (sym stays) ∙ same in
      elim (Timed-Started h hs x c k d fresh rest e (live_one-Timed h c k stays)) [
        | inl still ↦ Started-later h hs x c k stays (live-Started hs x k d still rest e)
        | inr now ↦ now
      ]
]

-- Whatever happens to a connection that has no timer: if a cycle deletes it, then an earlier cycle,
-- more than 25 s before, started its timer: that cycle came upon the connection, still without
-- a timer, and judged that it is to be deleted.
pub live-timed :
    (c d : ConnectionInfo) (hs : List Happening) (w : Cycle)
    → c.delete_after ≡ none
    → live hs (some c) ≡ some d
    → live_one (cycle w) d ≡ none
    → (x : ℕ) × Started c hs x × (x < w.now)
unfolding finish_connection
live-timed c d hs w fresh same gone =
    let (k, judged) = should_delete w d in
    let (x, e, late) = after_timer-deleted w.now k judged gone in
    (x, live-Started hs x c d fresh same (sym (should_delete-delete_after w d) ∙ e), late)
