-- ===== src/Buffer/Ranges/Laws.antt =====
-- What DeleteDetails leaves, and expiry takes the oldest events, in pkg/tools/buffer/buffer.go.
use skywalking_rover.Common.{
  ℕ, suc, ◌+◌, ◌≡◌, refl, ap, Bool, true, false, ◌&&◌, ◌||◌, not, List, [], ◌∷◌, ◌++◌, ltb, ◌==◌,
  if◌then◌else◌, length, arith, All, Bool-cases, inl, inr,
}
use skywalking_rover.Buffer.Events.{SocketDataBuffer, SocketDataDetail, data_id, start_time}
use skywalking_rover.Buffer.Elements.{Element}
use skywalking_rover.Buffer.State.{Buffer}
use skywalking_rover.Buffer.Append.Sorted.{IsSorted}
use skywalking_rover.Buffer.Append.Order.{later}
use skywalking_rover.Buffer.Ranges.{
  DataIdRange, is_in, delete_details, delete_data_events, is_delete, delete_detail_events,
  delete_expire_events,
}

-- The details of the range; those of its last id only if that event was read to its end.
abbrev pub is_covered : DataIdRange → SocketDataDetail → Bool
is_covered i d =
    is_in i.from_id i.to_id d.data_id
    && (i.is_to_buffer_read_finished || not (d.data_id == i.to_id))

abbrev pub uncovered : DataIdRange → List SocketDataDetail → List SocketDataDetail
uncovered i [] = []
uncovered i (d ∷ ds) = if is_covered i d then uncovered i ds else d ∷ uncovered i ds

uncovered_late :
    (i : DataIdRange) (last : ℕ) (ds : List SocketDataDetail)
    → i.is_to_buffer_read_finished ≡ false
    → last ≡ i.to_id
    → All (λ (d : SocketDataDetail). ltb d.data_id last ≡ false) ds
    → uncovered i ds ≡ ds
uncovered_late i last [] f e a = refl
uncovered_late i last (d ∷ ds) f e a =
    let rest = uncovered_late i last ds f e a.1 in let here = a.0 in ground (arith, rest)

-- On details in order, DeleteDetails takes away exactly those of the range, where the details of
-- the range's last data id belong to it only if that data was read to its end.
delete_details-uncovered :
    (i : DataIdRange) (ds : List SocketDataDetail)
    → IsSorted later ds
    → delete_details i ds ≡ uncovered i ds
unfolding delete_details
delete_details-uncovered i [] s = refl
delete_details-uncovered i (d ∷ ds) s =
    let rest = delete_details-uncovered i ds s.1 in
    elim (Bool-cases (not i.is_to_buffer_read_finished && (d.data_id == i.to_id))) [
      | inl stop ↦
          let all = uncovered_late i d.data_id ds (ground arith) (ground arith) s.0 in
          ground (arith, all)
      | inr go ↦ ground (arith, rest)
    ]

-- A run of the list goes: those before pass the test, the first that stays does not.
abbrev pub FirstStays : {A : Type 0} → (A → Bool) → List A → Type 0
FirstStays check [] = Unit
FirstStays check (x ∷ xs) = check x ≡ false

pub record Cut {A : Type 0} (check : A → Bool) (before behind : List A) (count : ℕ) : Type 0 where
  pub gone : List A
  pub splits : before ≡ gone ++ behind
  pub all_pass : All (λ x. check x ≡ true) gone
  pub first_stays : FirstStays check behind
  pub counted : count ≡ length gone

delete_detail_events-Cut :
    (check : SocketDataDetail → Bool) (ds : List SocketDataDetail)
    → Cut check ds (delete_detail_events check ds).0 (delete_detail_events check ds).1
unfolding delete_detail_events
delete_detail_events-Cut check [] = record {
  gone = [];
  splits = refl;
  all_pass = tt;
  first_stays = tt;
  counted = refl;
}
delete_detail_events-Cut check (d ∷ ds) = elim (Bool-cases (check d)) [
  | inl old ↦
      let rest = delete_detail_events-Cut check ds in
      rw old (record {
        gone = d ∷ rest.gone;
        splits = ap (λ l. d ∷ l) rest.splits;
        all_pass = (old, rest.all_pass);
        first_stays = rest.first_stays;
        counted = ap suc rest.counted;
      })
  | inr new ↦
      rw new (record { gone = []; splits = refl; all_pass = tt; first_stays = new; counted = refl })
]

abbrev pub is_expired : (ℕ → ℕ) → ℕ → Element SocketDataBuffer → Bool
is_expired host_time expire_time e = ltb (host_time (start_time e.value)) expire_time

delete_data_events-Cut :
    (host_time : ℕ → ℕ) (expire_time : ℕ) (es : List (Element SocketDataBuffer)) (latest : ℕ)
    → Cut
        (is_expired host_time expire_time)
        es
        (delete_data_events host_time expire_time es latest).0
        (delete_data_events host_time expire_time es latest).2
unfolding delete_data_events
delete_data_events-Cut t x [] latest = record {
  gone = [];
  splits = refl;
  all_pass = tt;
  first_stays = tt;
  counted = refl;
}
delete_data_events-Cut t x (e ∷ es) latest = elim (Bool-cases (is_expired t x e)) [
  | inl old ↦
      let rest = delete_data_events-Cut t x es (data_id e.value) in
      rw old (record {
        gone = e ∷ rest.gone;
        splits = ap (λ l. e ∷ l) rest.splits;
        all_pass = (old, rest.all_pass);
        first_stays = rest.first_stays;
        counted = ap suc rest.counted;
      })
  | inr new ↦
      rw new (record { gone = []; splits = refl; all_pass = tt; first_stays = new; counted = refl })
]

-- DeleteExpireEvents takes the data events off the front of the list up to the first one that is
-- not expired, then the details up to the first one that neither is expired nor has a data id up to
-- that of the last data event that ever expired, and returns how many events it took.
delete_expire_events-Cut :
    (host_time : ℕ → ℕ) (expire_time : ℕ) (r : Buffer)
    → (m : ℕ) × (n : ℕ) × Cut
        (is_expired host_time expire_time)
        r.data_events
        (delete_expire_events host_time expire_time r).0.data_events
        m
      × Cut
          (is_delete host_time expire_time
            (delete_expire_events host_time expire_time r).0.latest_expired_data_id)
          r.detail_events
          (delete_expire_events host_time expire_time r).0.detail_events
          n
      × ((delete_expire_events host_time expire_time r).1 ≡ m + n)
unfolding delete_expire_events
delete_expire_events-Cut t x r =
    let d = delete_data_events t x r.data_events r.latest_expired_data_id in
    (
      d.2,
      (delete_detail_events (is_delete t x d.1) r.detail_events).1,
      delete_data_events-Cut t x r.data_events r.latest_expired_data_id,
      delete_detail_events-Cut (is_delete t x d.1) r.detail_events,
      refl,
    )
