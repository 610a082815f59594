-- ===== src/Ztunnel/Source.antt =====
-- pkg/accesslog/collector/ztunnel/ztunnel_identity_source.go: the source of the identities, which
-- decodes events of the probe, or gives up. The counters are natural numbers. The log of what it
-- does outside has the latest effect first; the caches of the collector and the map of the probe are
-- seen through it. Logging is left out.
pub mod Downgrade
pub mod Effects
pub mod Invariant
use skywalking_rover.Common.{
  ℕ, zero, suc, ◌+◌, Bool, true, false, ◌&&◌, ◌||◌, not, List, [], ◌∷◌, ◌++◌, Option, none, some,
  ltb, leb, ◌==◌, if◌then◌else◌,
}
use skywalking_rover.Ztunnel.Integers.{ℤ, pos, negsuc, ltb_int, equal_int}
use skywalking_rover.Ztunnel.Offsets.{Offsets, offset_absent}
use skywalking_rover.Ztunnel.Strings.{Lru}
use skywalking_rover.Ztunnel.Decode.{
  WorkloadIdentity, ProbeSample, DecodeError, Decoded, panicked, failed, decoded, decode, is_empty,
}
use skywalking_rover.Ztunnel.Compact.{
  OffsetsConfig, offsets_config, CompactEvent, decode_compact, compact_shipped_identity_pointer,
}
use skywalking_rover.Ztunnel.Calibration.{Calibrator, new_calibrator, is_exhausted, observe}

-- ZTunnelIdentityDecodeFailureLimit
abbrev pub failure_limit : ℕ
failure_limit = 50

-- ZTunnelConnectionResultWindow
abbrev pub connection_result_window : ℤ
connection_result_window = pos 512

-- Calls of apply on the caches of the collector, and the other calls of the source.
pub data Effect : Type 0 where
  cache_dst_identity : (ip : List ℕ) (port : ℕ) → Option WorkloadIdentity → Effect
  see_src : (ip : List ℕ) (port : ℕ) → Effect
  set_mapping : (ip : List ℕ) (port : ℕ) (pod_ip : List ℕ) (pod_port : ℕ) → Effect
  retro_resolve : (ip : List ℕ) (port : ℕ) → Effect
  cache_peer_identity : (ip : List ℕ) → Option WorkloadIdentity → Effect
  update_offsets_config : (pid : ℤ) → OffsetsConfig → Effect
  detach_probe start_access_log_tailer : Effect

-- The fields of the source; `has_config_map` says that the loader exposes the map of the offsets.
pub record IdentitySource (C : Type 0) : Type 0 where
  pub strings : C
  pub decoder : Option Offsets
  pub calibrator : Option Calibrator
  pub mem_readers : List ℤ
  pub probe_attached : Bool
  pub pid : ℤ
  pub has_config_map : Bool
  pub downgraded : Bool
  pub events : ℕ
  pub decoded_events : ℕ
  pub decode_failures : ℕ
  pub consecutive_fails : ℕ
  pub calibration_tries : ℕ
  pub effects : List Effect

-- apply: its calls in their order. `mapped` is what ipMappingCache.Get says of an address.
unfoldable pub apply_effects : (List ℕ → ℕ → Bool) → ProbeSample → List Effect
apply_effects mapped s =
    if not s.direction_known || s.outbound
    then (if s.mutual_tls || not s.direction_known
        then cache_dst_identity s.src_ip s.src_port s.destination ∷ []
        else [])
      ++ (see_src s.src_ip s.src_port ∷ [])
      ++ (if not (is_empty s.dst_ip) && not (mapped s.src_ip s.src_port)
          then set_mapping s.src_ip s.src_port s.dst_ip s.dst_port ∷ []
          else [])
      ++ (retro_resolve s.src_ip s.src_port ∷ [])
    else if s.mutual_tls
    then cache_peer_identity s.src_ip s.source ∷ []
    else []

-- Puts the effects in front of the log, the last one first.
unfoldable pub perform : List Effect → List Effect → List Effect
perform [] log = log
perform (e ∷ es) log = perform es (e ∷ log)

-- memReaderFor: the readers of other processes are closed.
abbrev pub has_reader : ℤ → List ℤ → Bool
has_reader pid [] = false
has_reader pid (p ∷ ps) = equal_int p pid || has_reader pid ps

unfoldable pub mem_reader_for : ℤ → List ℤ → List ℤ
mem_reader_for pid readers = if has_reader pid readers then readers else pid ∷ []

-- An event with what the collector and the memory say while it is handled.
pub record Surroundings (C : Type 0) : Type 0 where
  pub event_pid : ℤ
  pub mem : ℕ → ℕ → Option (List ℕ)
  pub mapped : List ℕ → ℕ → Bool
  pub has_truth : Bool
  pub derive : C → C × Option Offsets

pub data Input (C : Type 0) : Type 0 where
  full : Surroundings C → (window : List ℕ) → Input C
  compact : Surroundings C → CompactEvent → Input C

module _ {C : Type 0} where
  -- newZTunnelIdentitySource, with the probe attached.
  unfoldable pub new_identity_source : (strings : C) (has_config_map : Bool) → IdentitySource C
  new_identity_source strings has_config_map = record {
    strings = strings;
    decoder = none;
    calibrator = none;
    mem_readers = [];
    probe_attached = true;
    pid = pos 0;
    has_config_map = has_config_map;
    downgraded = false;
    events = 0;
    decoded_events = 0;
    decode_failures = 0;
    consecutive_fails = 0;
    calibration_tries = 0;
    effects = [];
  }

  unfoldable pub active : IdentitySource C → Bool
  active s = not s.downgraded && (elim s.decoder [ none ↦ false | some o ↦ true ])

  unfoldable pub push_offsets_config : Offsets → IdentitySource C → IdentitySource C
  push_offsets_config o s =
      if s.has_config_map && ltb_int (pos 0) s.pid
      then record s { effects = update_offsets_config s.pid (offsets_config o) ∷ s.effects }
      else s

  -- adopt, with its result.
  unfoldable pub adopt : Offsets → IdentitySource C → IdentitySource C × Bool
  unfolding push_offsets_config
  adopt o s = if ltb_int connection_result_window o.window then (s, false) else (
    push_offsets_config o (record s { decoder = some o; consecutive_fails = 0 }),
    not (equal_int o.source_principal offset_absent),
  )

  -- Prepare; `resolved` is what resolveStaticZTunnelOffsets finds.
  unfoldable pub prepare :
      (resolved : Option Offsets) → ℤ → IdentitySource C → IdentitySource C × Bool
  unfolding adopt
  prepare none pid s = (record s { pid = pid; calibrator = some new_calibrator }, false)
  prepare (some o) pid s = adopt o (record s { pid = pid })

  unfoldable pub downgrade : IdentitySource C → IdentitySource C
  downgrade s = if s.downgraded then s else record s {
    downgraded = true;
    probe_attached = false;
    effects = start_access_log_tailer ∷ detach_probe ∷ s.effects;
  }

  -- An event that could not be decoded, and one that could.
  unfoldable pub count_failure : IdentitySource C → IdentitySource C
  unfolding downgrade
  count_failure s =
      let s' = record s {
        decode_failures = suc s.decode_failures;
        consecutive_fails = suc s.consecutive_fails;
      } in
      if leb failure_limit s'.consecutive_fails then downgrade s' else s'

  unfoldable pub take_sample :
      (List ℕ → ℕ → Bool) → ProbeSample → IdentitySource C → IdentitySource C
  unfolding apply_effects perform
  take_sample mapped x s = record s {
    consecutive_fails = 0;
    decoded_events = suc s.decoded_events;
    effects = perform (apply_effects mapped x) s.effects;
  }

  abbrev pub after_decode : (List ℕ → ℕ → Bool) → Decoded → IdentitySource C → IdentitySource C
  after_decode mapped panicked s = s
  after_decode mapped (failed e) s = count_failure s
  after_decode mapped (decoded x) s = take_sample mapped x s

  abbrev pub after_compact :
      (List ℕ → ℕ → Bool)
      → (shipped : Bool) → Option ProbeSample
      → IdentitySource C
      → IdentitySource C
  after_compact mapped shipped none s = if shipped then count_failure s else s
  after_compact mapped shipped (some x) s = take_sample mapped x s

  -- calibrate behind Observe: the offsets that it returned, if any.
  unfoldable pub after_observe : Calibrator → Option Offsets → IdentitySource C → IdentitySource C
  unfolding adopt downgrade
  after_observe k none s = if is_exhausted k then downgrade s else s
  after_observe k (some o) s =
      let (s', covers_inbound) = adopt o s in
      if covers_inbound then s' else record s' { effects = start_access_log_tailer ∷ s'.effects }

  -- `derive` is deriveFromSample on the window of the event, `has_truth` says that there are
  -- workloads of the admin's dump to compare with.
  unfoldable pub calibrate :
      (has_truth : Bool) (derive : C → C × Option Offsets)
      → Option Calibrator
      → IdentitySource C
      → IdentitySource C
  unfolding after_observe observe
  calibrate has_truth derive none s = s
  calibrate has_truth derive (some k) s =
      let (strings, candidate) =
        if has_truth && not (is_exhausted k) then derive s.strings else (s.strings, none) in
      let (k', offsets) = observe has_truth candidate k in
      after_observe k' offsets (record s {
        strings = strings;
        calibrator = some k';
        calibration_tries = suc s.calibration_tries;
      })

  abbrev pub read_memory : Surroundings C → IdentitySource C → IdentitySource C
  read_memory u s = record s { mem_readers = mem_reader_for u.event_pid s.mem_readers }

  -- A window, with the decoder that is loaded.
  unfoldable pub handle_window :
      Lru C → Surroundings C → List ℕ → Option Offsets → IdentitySource C → IdentitySource C
  unfolding calibrate decode count_failure take_sample
  handle_window lru u window none s = calibrate u.has_truth u.derive s.calibrator s
  handle_window lru u window (some o) s =
      let (strings, result) = decode lru u.mem o window s.strings in
      after_decode u.mapped result (record s { strings = strings })

  -- HandleEvent and HandleCompactEvent.
  unfoldable pub handle_event : Lru C → Input C → IdentitySource C → IdentitySource C
  unfolding handle_window decode_compact compact_shipped_identity_pointer mem_reader_for
  handle_event lru input s =
      let s' = record s { events = suc s.events } in
      if s.downgraded then s' else elim input [
        | full u window ↦ handle_window lru u window s.decoder (read_memory u s')
        | compact u e ↦
            let (strings, result) = decode_compact lru u.mem s.decoder e s.strings in
            after_compact u.mapped (compact_shipped_identity_pointer e) result
              (record (read_memory u s') { strings = strings })
      ]

  unfoldable pub handle_events : Lru C → List (Input C) → IdentitySource C → IdentitySource C
  unfolding handle_event
  handle_events lru [] s = s
  handle_events lru (i ∷ is) s = handle_events lru is (handle_event lru i s)
