-- ===== src/Ztunnel/Source/Invariant.antt =====
-- What always holds of the source of pkg/accesslog/collector/ztunnel/ztunnel_identity_source.go.
use skywalking_rover.Common.{
  ℕ, suc, ◌+◌, ◌≤◌, ◌<◌, ◌≡◌, refl, sym, ap, subst, ◌∙◌, inl, inr, Bool, true, false, ◌&&◌, not,
  List, [], ◌∷◌, Option, none, some, arith, leb, if◌then◌else◌, length, Bool-cases,
}
use skywalking_rover.Ztunnel.Integers.{ℤ, pos, ltb_int}
use skywalking_rover.Ztunnel.Offsets.{Offsets}
use skywalking_rover.Ztunnel.Strings.{Lru}
use skywalking_rover.Ztunnel.Decode.{Decoded, panicked, failed, decoded, decode, ProbeSample}
use skywalking_rover.Ztunnel.Compact.{decode_compact, compact_shipped_identity_pointer}
use skywalking_rover.Ztunnel.Calibration.{Calibrator, is_exhausted, observe}
use skywalking_rover.Ztunnel.Source.{
  IdentitySource, Surroundings, Input, full, compact, failure_limit, connection_result_window,
  apply_effects, mem_reader_for, has_reader, push_offsets_config, adopt, prepare,
  new_identity_source, downgrade, count_failure, take_sample, after_observe, calibrate,
  handle_window, handle_event, handle_events, after_decode, after_compact, read_memory,
  start_access_log_tailer,
}
use skywalking_rover.Ztunnel.Source.Downgrade.{handle_event-downgraded}
use skywalking_rover.Ztunnel.Source.Effects.{detaches, detaches-perform, apply_effects-detaches}

-- The offsets in use ask for no more bytes than the probe copies.
abbrev pub InWindow : Option Offsets → Type 0
InWindow none = Unit
InWindow (some o) = ltb_int connection_result_window o.window ≡ false

abbrev detached : Bool → ℕ
detached true = 1
detached false = 0

mem_reader_for_lem : (pid : ℤ) (ps : List ℤ) → length ps ≤ 1 → length (mem_reader_for pid ps) ≤ 1
unfolding mem_reader_for
mem_reader_for_lem pid ps h = elim (Bool-cases (has_reader pid ps)) [
  | inl old ↦ rw old h
  | inr new ↦ rw new (omega arith)
]

module _ {C : Type 0} where
  -- The failures in a row stay below the limit until the downgrade, which detaches the probe, once;
  -- an event is decoded or fails at most once; there is one reader at most.
  abbrev pub Inv : IdentitySource C → Type 0
  Inv s =
      (s.downgraded ≡ false → s.consecutive_fails < failure_limit)
      × (detaches s.effects ≡ detached s.downgraded)
      × (s.decoded_events + s.decode_failures ≤ s.events)
      × (length s.mem_readers ≤ 1)
      × InWindow s.decoder

  -- The same in the middle of an event, with the event in hand not counted as decoded or failed.
  abbrev Handling : IdentitySource C → Type 0
  Handling s =
      (s.downgraded ≡ false)
      × (s.consecutive_fails < failure_limit)
      × (detaches s.effects ≡ 0)
      × (s.decoded_events + s.decode_failures < s.events)
      × (length s.mem_readers ≤ 1)
      × InWindow s.decoder

  Handling-Inv : (s : IdentitySource C) → Handling s → Inv s
  Handling-Inv s (d, f, e, n, r, w) = (λ h. f, e ∙ ap detached (sym d), omega arith, r, w)

  downgrade-Inv : (s : IdentitySource C) → Handling s → Inv (downgrade s)
  unfolding downgrade
  downgrade-Inv s (d, f, e, n, r, w) = rw d ((λ h. cc), ap suc e, omega arith, r, w)

  count_failure-Inv : (s : IdentitySource C) → Handling s → Inv (count_failure s)
  unfolding count_failure downgrade
  count_failure-Inv s (d, f, e, n, r, w) =
      elim (Bool-cases (leb failure_limit (suc s.consecutive_fails))) [
        | inl many ↦ rw (many, d) ((λ h. cc), ap suc e, omega arith, r, w)
        | inr few ↦ rw (few) ((λ h. ground arith), e ∙ ap detached (sym d), omega arith, r, w)
      ]

  take_sample-Inv :
      (mapped : List ℕ → ℕ → Bool) (x : ProbeSample) (s : IdentitySource C)
      → Handling s
      → Inv (take_sample mapped x s)
  unfolding take_sample
  take_sample-Inv mapped x s (d, f, e, n, r, w) =
      let same =
        detaches-perform (apply_effects mapped x) s.effects (apply_effects-detaches mapped x) in
      ((λ h. omega arith), same ∙ e ∙ ap detached (sym d), omega arith, r, w)

  push_offsets_config-Handling :
      (o : Offsets) (s : IdentitySource C) → Handling s → Handling (push_offsets_config o s)
  unfolding push_offsets_config
  push_offsets_config-Handling o s h =
      elim (Bool-cases (s.has_config_map && ltb_int (pos 0) s.pid)) [
        | inl y ↦ rw y h
        | inr n ↦ rw n h
      ]

  adopt-Handling : (o : Offsets) (s : IdentitySource C) → Handling s → Handling (adopt o s).0
  unfolding adopt
  adopt-Handling o s (d, f, e, n, r, w) =
      elim (Bool-cases (ltb_int connection_result_window o.window)) [
        | inl wide ↦ rw wide (d, f, e, n, r, w)
        | inr fits ↦ rw fits (
            push_offsets_config-Handling o (record s { decoder = some o; consecutive_fails = 0 })
              (d, omega arith, e, n, r, fits))
      ]

  after_observe-Inv :
      (k : Calibrator) (offsets : Option Offsets) (s : IdentitySource C)
      → Handling s
      → Inv (after_observe k offsets s)
  unfolding after_observe
  after_observe-Inv k none s h = elim (Bool-cases (is_exhausted k)) [
    | inl done ↦ rw done (downgrade-Inv s h)
    | inr more ↦ rw more (Handling-Inv s h)
  ]
  after_observe-Inv k (some o) s h = elim (Bool-cases (adopt o s).1) [
    | inl covers ↦ rw covers (Handling-Inv (adopt o s).0 (adopt-Handling o s h))
    | inr misses ↦
        let t = (adopt o s).0 in
        rw misses (
          Handling-Inv (record t { effects = start_access_log_tailer ∷ t.effects })
            (adopt-Handling o s h))
  ]

  calibrate-Inv :
      (has_truth : Bool) (derive : C → C × Option Offsets) (k : Option Calibrator)
      (s : IdentitySource C)
      → Handling s
      → Inv (calibrate has_truth derive k s)
  unfolding calibrate
  calibrate-Inv has_truth derive none s h = Handling-Inv s h
  calibrate-Inv has_truth derive (some k) s h =
      let d : C × Option Offsets =
        if has_truth && not (is_exhausted k) then derive s.strings else (s.strings, none) in
      let b = observe has_truth d.1 k in
      after_observe-Inv b.0 b.1
        (record s {
          strings = d.0;
          calibrator = some b.0;
          calibration_tries = suc s.calibration_tries;
        })
        h

  after_decode-Inv :
      (mapped : List ℕ → ℕ → Bool) (r : Decoded) (s : IdentitySource C)
      → Handling s
      → Inv (after_decode mapped r s)
  after_decode-Inv mapped panicked s h = Handling-Inv s h
  after_decode-Inv mapped (failed e) s h = count_failure-Inv s h
  after_decode-Inv mapped (decoded x) s h = take_sample-Inv mapped x s h

  after_compact-Inv :
      (mapped : List ℕ → ℕ → Bool) (shipped : Bool) (r : Option ProbeSample) (s : IdentitySource C)
      → Handling s
      → Inv (after_compact mapped shipped r s)
  after_compact-Inv mapped true none s h = count_failure-Inv s h
  after_compact-Inv mapped false none s h = Handling-Inv s h
  after_compact-Inv mapped shipped (some x) s h = take_sample-Inv mapped x s h

  handle_window-Inv :
      (lru : Lru C) (u : Surroundings C) (window : List ℕ) (d : Option Offsets)
      (s : IdentitySource C)
      → Handling s
      → Inv (handle_window lru u window d s)
  unfolding handle_window
  handle_window-Inv lru u window none s h = calibrate-Inv u.has_truth u.derive s.calibrator s h
  handle_window-Inv lru u window (some o) s h =
      let (strings, result) = decode lru u.mem o window s.strings in
      after_decode-Inv u.mapped result (record s { strings = strings }) h

  -- The state that the handlers see.
  abbrev seen : Surroundings C → IdentitySource C → IdentitySource C
  seen u s = read_memory u (record s { events = suc s.events })

  seen-Handling :
      (u : Surroundings C) (s : IdentitySource C)
      → s.downgraded ≡ false
      → Inv s
      → Handling (seen u s)
  seen-Handling u s on (f, e, n, r, w) =
      (on, f on, e ∙ ap detached on, omega arith, mem_reader_for_lem u.event_pid s.mem_readers r, w)

  handle_event-seen :
      (lru : Lru C) (i : Input C) (s : IdentitySource C)
      → s.downgraded ≡ false
      → Inv s
      → Inv (handle_event lru i s)
  unfolding handle_event
  handle_event-seen lru (full u window) s on inv =
      let same : handle_event lru (full u window) s
          ≡ handle_window lru u window s.decoder (seen u s) =
        rw on in
      subst Inv (sym same)
        (handle_window-Inv lru u window s.decoder (seen u s) (seen-Handling u s on inv))
  handle_event-seen lru (compact u e) s on inv =
      let r = decode_compact lru u.mem s.decoder e s.strings in
      let t : IdentitySource C = record (seen u s) { strings = r.0 } in
      let same : handle_event lru (compact u e) s
          ≡ after_compact u.mapped (compact_shipped_identity_pointer e) r.1 t =
        rw on in
      subst Inv (sym same) (
        after_compact-Inv u.mapped (compact_shipped_identity_pointer e) r.1 t
          (seen-Handling u s on inv))

  handle_event-Inv :
      (lru : Lru C) (i : Input C) (s : IdentitySource C) → Inv s → Inv (handle_event lru i s)
  handle_event-Inv lru i s inv = elim (Bool-cases s.downgraded) [
    | inl gone ↦
        let (f, e, n, r, w) = inv in
        subst Inv (sym (handle_event-downgraded lru i s gone)) (f, e, omega arith, r, w)
    | inr on ↦ handle_event-seen lru i s on inv
  ]

  handle_events-Inv :
      (lru : Lru C) (is : List (Input C)) (s : IdentitySource C)
      → Inv s
      → Inv (handle_events lru is s)
  unfolding handle_events
  handle_events-Inv lru [] s inv = inv
  handle_events-Inv lru (i ∷ is) s inv =
      handle_events-Inv lru is (handle_event lru i s) (handle_event-Inv lru i s inv)

  prepare-Inv :
      (resolved : Option Offsets) (pid : ℤ) (strings : C) (has_config_map : Bool)
      → Inv (prepare resolved pid (new_identity_source strings has_config_map)).0
  unfolding prepare adopt push_offsets_config new_identity_source
  prepare-Inv none pid strings m = ((λ h. omega arith), refl, omega arith, omega arith, tt)
  prepare-Inv (some o) pid strings m =
      elim (Bool-cases (ltb_int connection_result_window o.window)) [
        | inl wide ↦ rw wide ((λ h. omega arith), refl, omega arith, omega arith, tt)
        | inr fits ↦ elim (Bool-cases (m && ltb_int (pos 0) pid)) [
          | inl y ↦ rw (fits, y) ((λ h. omega arith), refl, omega arith, omega arith, fits)
          | inr n ↦ rw (fits, n) ((λ h. omega arith), refl, omega arith, omega arith, fits)
        ]
      ]

  -- After Prepare on a new source, and any events on any memory: until the downgrade there are fewer
  -- failures in a row than the limit; the probe was detached once if the source is downgraded, and
  -- never else; no event counts twice, as decoded or failed; at most one reader of a memory is kept;
  -- the offsets in use ask for no more than the window that is copied.
  pub prepare-handle_events-Inv :
      (lru : Lru C) (resolved : Option Offsets) (pid : ℤ) (is : List (Input C)) (strings : C)
      (has_config_map : Bool)
      → Inv (
          handle_events lru is
            (prepare resolved pid (new_identity_source strings has_config_map)).0)
  prepare-handle_events-Inv lru resolved pid is strings m =
      handle_events-Inv lru is _ (prepare-Inv resolved pid strings m)
