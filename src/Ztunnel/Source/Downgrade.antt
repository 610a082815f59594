-- ===== src/Ztunnel/Source/Downgrade.antt =====
-- The source of pkg/accesslog/collector/ztunnel/ztunnel_identity_source.go gives up for good, when
-- enough events in a row cannot be decoded.
use skywalking_rover.Common.{
  ℕ, suc, ◌+◌, ◌≤◌, ◌<◌, ◌≡◌, ◌⊎◌, refl, sym, ap, ◌∙◌, inl, inr, true, false, List, [], ◌∷◌, Option,
  none, some, arith, leb, length, All, Bool-cases,
}
use skywalking_rover.Ztunnel.Offsets.{Offsets}
use skywalking_rover.Ztunnel.Strings.{Lru}
use skywalking_rover.Ztunnel.Decode.{DecodeError, failed, decode}
use skywalking_rover.Ztunnel.Compact.{decode_compact, compact_shipped_identity_pointer}
use skywalking_rover.Ztunnel.Source.{
  IdentitySource, Input, full, compact, failure_limit, downgrade, count_failure, handle_window,
  handle_event, handle_events,
}

module _ {C : Type 0} (lru : Lru C) where
  pub handle_event-downgraded :
      (i : Input C) (s : IdentitySource C)
      → s.downgraded ≡ true
      → handle_event lru i s ≡ record s { events = suc s.events }
  unfolding handle_event
  handle_event-downgraded i s h = rw h

  -- After the downgrade no event changes anything but the count of the events.
  handle_events-downgraded :
      (is : List (Input C)) (s : IdentitySource C)
      → s.downgraded ≡ true
      → handle_events lru is s ≡ record s { events = s.events + length is }
  unfolding handle_events
  handle_events-downgraded [] s h =
      let e : s.events + 0 ≡ s.events = omega arith in ap (λ n. record s { events = n }) (sym e)
  handle_events-downgraded (i ∷ is) s h =
      let t : IdentitySource C = record s { events = suc s.events } in
      let e : suc s.events + length is ≡ s.events + suc (length is) = omega arith in
      ap (handle_events lru is) (handle_event-downgraded i s h)
      ∙ handle_events-downgraded is t h
      ∙ ap (λ n. record s { events = n }) e

  -- An event that the offsets cannot decode, whatever the cache holds: a window with an error, or a
  -- compact event with a pointer and no sample.
  abbrev pub Fails : Offsets → Input C → Type 0
  Fails o (full u window) =
      (c : C) → (e : DecodeError) × ((decode lru u.mem o window c).1 ≡ failed e)
  Fails o (compact u e) =
      (compact_shipped_identity_pointer e ≡ true)
      × ((c : C) → (decode_compact lru u.mem (some o) e c).1 ≡ none)

  -- Either it has given up, or it has one more failure in a row.
  abbrev Counted : Option Offsets → ℕ → IdentitySource C → Type 0
  Counted decoder fails t =
      (t.downgraded ≡ true)
      ⊎ ((t.downgraded ≡ false)
          × (t.decoder ≡ decoder)
          × (t.consecutive_fails ≡ suc fails)
          × (t.consecutive_fails < failure_limit))

  count_failure-Counted :
      (s : IdentitySource C)
      → s.downgraded ≡ false
      → Counted s.decoder s.consecutive_fails (count_failure s)
  unfolding count_failure downgrade
  count_failure-Counted s h = elim (Bool-cases (leb failure_limit (suc s.consecutive_fails))) [
    | inl many ↦ rw (many, h) (inl refl)
    | inr few ↦ rw few (inr (h, refl, refl, ground arith))
  ]

  handle_event-Counted :
      (o : Offsets) (i : Input C) (s : IdentitySource C)
      → s.downgraded ≡ false
      → s.decoder ≡ some o
      → Fails o i
      → Counted (some o) s.consecutive_fails (handle_event lru i s)
  unfolding handle_event handle_window
  handle_event-Counted o (full u window) s h d f =
      let (e, g) = f s.strings in rw (h, d, g) (count_failure-Counted _ refl)
  handle_event-Counted o (compact u e) s h d f =
      rw (h, d, f.1 s.strings, f.0) (count_failure-Counted _ refl)

  -- Of events that the offsets in use cannot decode, so many in a row that the failures reach the
  -- limit end the path: the source is downgraded afterwards.
  pub handle_events-Fails :
      (o : Offsets) (is : List (Input C)) (s : IdentitySource C)
      → s.downgraded ≡ false
      → s.decoder ≡ some o
      → s.consecutive_fails < failure_limit
      → All (Fails o) is
      → failure_limit ≤ s.consecutive_fails + length is
      → (handle_events lru is s).downgraded ≡ true
  unfolding handle_events
  handle_events-Fails o [] s h d b f l = absurd (omega arith)
  handle_events-Fails o (i ∷ is) s h d b f l =
      let t = handle_event lru i s in
      elim (handle_event-Counted o i s h d f.0) [
        | inl gone ↦
            ap (λ (r : IdentitySource C). r.downgraded) (handle_events-downgraded is t gone) ∙ gone
        | inr (h', d', e, b') ↦ handle_events-Fails o is t h' d' b' f.1 (omega arith)
      ]
