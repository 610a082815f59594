-- ===== src/Ztunnel/Correlation/Entries.antt =====
-- The entries of the cache of pkg/accesslog/collector/ztunnel/ztunnel.go.
use skywalking_rover.Common.{
  ℕ, suc, ◌/◌, ◌%◌, ◌^◌, ◌≡◌, refl, sym, ap, subst, ◌⊎◌, inl, inr, Bool, true, false, ◌&&◌, not,
  List, [], ◌∷◌, Option, none, some, ◌==◌, ==_iff, if◌then◌else◌, All, All-map, arith, Bool-cases,
}
use skywalking_rover.Connections.Tracking.{
  ConnectionRole, role_unknown, role_client, role_server, SocketPair,
}
use skywalking_rover.Ztunnel.Correlation.{
  ztunnel_outbound_func, ztunnel_inbound_func, LoadBalanceAddress, CacheKey, ip_mapping_key,
  src_only_key, MappingEvent, Collector, is_plausible_src_only_mapping, is_plausible_lb_mapping,
  mark_seen, map_src_only, map_service, handle_mapping_event, tag_inbound, on_connect_event, Report,
  mapping_report, connect_report, sample_report, access_log_report, admin_report, access_log,
  fill_gap, apply_sample, handle_outbound_line, apply_admin_connection, handle_report,
  handle_reports,
}

abbrev pub Any : {A : Type 0} → (A → Type 0) → List A → Type 0
Any P [] = ⊥
Any P (x ∷ xs) = P x ⊎ Any P xs

pub Any-map :
    {A : Type 0} (P Q : A → Type 0) → ((a : A) → P a → Q a) → (xs : List A) → Any P xs → Any Q xs
Any-map P Q f [] p = absurd p
Any-map P Q f (x ∷ xs) (inl p) = inl (f x p)
Any-map P Q f (x ∷ xs) (inr p) = inr (Any-map P Q f xs p)

pub All-Any :
    {A : Type 0} (P : A → Type 0) (y : A) (xs : List A) → All P xs → Any (λ x. x ≡ y) xs → P y
All-Any P y [] a e = absurd e
All-Any P y (x ∷ xs) a (inl e) = subst P e a.0
All-Any P y (x ∷ xs) a (inr later) = All-Any P y xs a.1 later

-- A report made an entry of the cache.
abbrev pub Made : Report → CacheKey → LoadBalanceAddress → Type 0
Made (mapping_report e) (ip_mapping_key a b c d) m =
    (e.original_src_ip ≡ a)
    × (e.original_src_port ≡ b)
    × (e.original_dest_ip ≡ c)
    × (e.original_dest_port ≡ d)
    × (is_plausible_src_only_mapping e ≡ true)
    × (m.ip ≡ some e.load_balanced_dest_ip)
    × (m.from ≡ ztunnel_outbound_func)
Made (mapping_report e) (src_only_key a b) m =
    (e.original_src_ip ≡ a)
    × (e.original_src_port ≡ b)
    × (e.original_dest_ip ≡ 0)
    × (is_plausible_src_only_mapping e ≡ true)
    × (m.ip ≡ some e.load_balanced_dest_ip)
    × (m.from ≡ ztunnel_outbound_func)
Made (connect_report ztunnel pid t) (ip_mapping_key a b c d) m =
    (ztunnel ≡ some pid)
    × (t.role ≡ role_client)
    × (t.dest_ip ≡ a)
    × (t.dest_port ≡ b)
    × (t.src_ip ≡ c)
    × (t.src_port ≡ d)
    × (m.ip ≡ none)
    × (m.from ≡ ztunnel_inbound_func)
Made (connect_report ztunnel pid t) (src_only_key a b) m = ⊥
Made (sample_report exists outbound src sp dst dp) (ip_mapping_key a b c d) m = ⊥
Made (sample_report exists outbound src sp dst dp) (src_only_key a b) m =
    (outbound ≡ true)
    × (exists ≡ false)
    × (src ≡ a)
    × (sp ≡ b)
    × (i : ℕ) × (dst ≡ some i)
    × (m.ip ≡ some i)
    × (m.from ≡ ztunnel_outbound_func)
Made (access_log_report exists src sp pod pp) (ip_mapping_key a b c d) m = ⊥
Made (access_log_report exists src sp pod pp) (src_only_key a b) m =
    (exists ≡ false)
    × ((pod / 2 ^ 24 == 127) ≡ false)
    × (src ≡ a)
    × (sp ≡ b)
    × (m.ip ≡ some pod)
    × (m.from ≡ ztunnel_outbound_func)
Made (admin_report exists src sp orig op actual ap') (ip_mapping_key a b c d) m =
    (src ≡ a)
    × (sp ≡ b)
    × (orig ≡ c)
    × (op ≡ d)
    × (m.ip ≡ some actual)
    × (m.from ≡ ztunnel_outbound_func)
Made (admin_report exists src sp orig op actual ap') (src_only_key a b) m = ⊥

abbrev pub Entry : Type 0
Entry = CacheKey × LoadBalanceAddress

mark_seen-ip_mappings :
    (e : MappingEvent) (z : Collector) → (mark_seen e z).ip_mappings ≡ z.ip_mappings
mark_seen-ip_mappings e z =
    elim (Bool-cases (not (e.original_src_ip == 0) && not (e.original_src_port == 0))) [
      | inl t ↦ rw t refl
      | inr t ↦ rw t refl
    ]

lb-src_only :
    (e : MappingEvent) → is_plausible_lb_mapping e ≡ true → is_plausible_src_only_mapping e ≡ true
unfolding is_plausible_lb_mapping
lb-src_only e t = ground (arith, t)

module _ (P : Entry → Type 0) where
  map_src_only-All :
      (e : MappingEvent) (z : Collector)
      → (e.original_dest_ip == 0) ≡ true
      → ((x : Entry) → Made (mapping_report e) x.0 x.1 → P x)
      → All P z.ip_mappings
      → All P (map_src_only e z).ip_mappings
  unfolding map_src_only
  map_src_only-All e z d f a = elim (Bool-cases (is_plausible_src_only_mapping e)) [
    | inl t ↦ rw t (f _ (refl, refl, (==_iff e.original_dest_ip 0).0 d, t, refl, refl), a)
    | inr t ↦ rw t a
  ]

  map_service-All :
      (e : MappingEvent) (z : Collector)
      → ((x : Entry) → Made (mapping_report e) x.0 x.1 → P x)
      → All P z.ip_mappings
      → All P (map_service e z).ip_mappings
  unfolding map_service
  map_service-All e z f a = elim (Bool-cases (is_plausible_lb_mapping e)) [
    | inl t ↦ rw t (f _ (refl, refl, refl, refl, lb-src_only e t, refl, refl), a)
    | inr t ↦ rw t a
  ]

  if-All :
      (b : Bool) (y z : Collector)
      → (b ≡ true → All P y.ip_mappings)
      → All P z.ip_mappings
      → All P (if b then y else z).ip_mappings
  if-All true y z f a = f refl
  if-All false y z f a = a

  if-pair-All :
      (b : Bool) (y z : Collector × Bool)
      → (b ≡ true → All P y.0.ip_mappings)
      → All P z.0.ip_mappings
      → All P (if b then y else z).0.ip_mappings
  if-pair-All true y z f a = f refl
  if-pair-All false y z f a = a

  handle_mapping_event-All :
      (e : MappingEvent) (z : Collector)
      → ((x : Entry) → Made (mapping_report e) x.0 x.1 → P x)
      → All P z.ip_mappings
      → All P (handle_mapping_event e z).ip_mappings
  unfolding handle_mapping_event
  handle_mapping_event-All e z f a =
      let y = record z { mapping_event_count = suc z.mapping_event_count } in
      let b = subst (All P) (sym (mark_seen-ip_mappings e y)) a in
      if-All (e.original_dest_ip == 0) (map_src_only e (mark_seen e y))
        (map_service e (mark_seen e y)) (λ t. map_src_only-All e (mark_seen e y) t f b)
        (map_service-All e (mark_seen e y) f b)

  tag_inbound-All :
      (ztunnel : Option ℕ) (pid : ℕ) (s : SocketPair) (role : ConnectionRole) (z : Collector)
      → ztunnel ≡ some pid
      → s.role ≡ role
      → ((x : Entry) → Made (connect_report ztunnel pid s) x.0 x.1 → P x)
      → All P z.ip_mappings
      → All P (tag_inbound role s z).0.ip_mappings
  tag_inbound-All ztunnel pid s role_client z same e f a =
      (f _ (same, e, refl, refl, refl, refl, refl, refl), a)
  tag_inbound-All ztunnel pid s role_server z same e f a = a
  tag_inbound-All ztunnel pid s role_unknown z same e f a = a

  apply_sample-All :
      (exists outbound : Bool) (src sp : ℕ) (dst : Option ℕ) (dp : ℕ) (z : Collector)
      → ((x : Entry) → Made (sample_report exists outbound src sp dst dp) x.0 x.1 → P x)
      → All P z.ip_mappings
      → All P (apply_sample exists outbound src sp dst dp z).ip_mappings
  unfolding fill_gap
  apply_sample-All exists false src sp dst dp z f a = a
  apply_sample-All exists true src sp none dp z f a = a
  apply_sample-All true true src sp (some i) dp z f a = a
  apply_sample-All false true src sp (some i) dp z f a =
      (f _ (refl, refl, refl, refl, i, refl, refl, refl), a)

  fill_gap-All :
      (exists : Bool) (src sp pod pp : ℕ) (z : Collector)
      → (pod / 2 ^ 24 == 127) ≡ false
      → ((x : Entry) → Made (access_log_report exists src sp pod pp) x.0 x.1 → P x)
      → All P z.ip_mappings
      → All P (fill_gap exists access_log src sp pod (pp % 2 ^ 16) z).ip_mappings
  unfolding fill_gap
  fill_gap-All true src sp pod pp z e f a = a
  fill_gap-All false src sp pod pp z e f a = (f _ (refl, e, refl, refl, refl, refl), a)

  handle_outbound_line-All :
      (exists : Bool) (src sp pod pp : ℕ) (z : Collector)
      → ((x : Entry) → Made (access_log_report exists src sp pod pp) x.0 x.1 → P x)
      → All P z.ip_mappings
      → All P (handle_outbound_line exists src sp pod pp z).ip_mappings
  unfolding handle_outbound_line
  handle_outbound_line-All exists src sp pod pp z f a = elim (Bool-cases (pod / 2 ^ 24 == 127)) [
    | inl e ↦ rw e a
    | inr e ↦ rw e (
        fill_gap-All exists src sp pod pp
          (record z { access_log_parsed_count = suc z.access_log_parsed_count }) e f a)
  ]

  handle_report-All :
      (r : Report) (z : Collector)
      → ((x : Entry) → Made r x.0 x.1 → P x)
      → All P z.ip_mappings
      → All P (handle_report r z).ip_mappings
  unfolding handle_report on_connect_event apply_admin_connection
  handle_report-All (mapping_report e) z f a = handle_mapping_event-All e z f a
  handle_report-All (connect_report none pid s) z f a = a
  handle_report-All (connect_report (some ztunnel) pid s) z f a =
      let seen = record z { ztunnel_connect_event_seen = suc z.ztunnel_connect_event_seen } in
      if-pair-All (ztunnel == pid) (tag_inbound s.role s seen) (z, true)
        (λ t.
          tag_inbound-All (some ztunnel) pid s s.role seen (ap some ((==_iff ztunnel pid).0 t)) refl
            f a)
        a
  handle_report-All (sample_report exists outbound src sp dst dp) z f a =
      apply_sample-All exists outbound src sp dst dp z f a
  handle_report-All (access_log_report exists src sp pod pp) z f a =
      handle_outbound_line-All exists src sp pod pp z f a
  handle_report-All (admin_report exists src sp orig op actual ap') z f a =
      (f _ (refl, refl, refl, refl, refl, refl), a)

  pub handle_reports-All :
      (rs : List Report) (z : Collector)
      → All (λ r. (x : Entry) → Made r x.0 x.1 → P x) rs
      → All P z.ip_mappings
      → All P (handle_reports rs z).ip_mappings
  unfolding handle_reports
  handle_reports-All [] z f a = a
  handle_reports-All (r ∷ rs) z f a =
      handle_reports-All rs (handle_report r z) f.1 (handle_report-All r z f.0 a)

abbrev pub MadeBy : List Report → Entry → Type 0
MadeBy rs x = Any (λ r. Made r x.0 x.1) rs

pub reports-MadeBy : (rs : List Report) → All (λ r. (x : Entry) → Made r x.0 x.1 → MadeBy rs x) rs
reports-MadeBy [] = tt
reports-MadeBy (r ∷ rs) =
    ((λ x m. inl m), All-map _ _ (λ q f x m. inr (f x m)) rs (reports-MadeBy rs))
