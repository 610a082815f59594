-- ===== src/Ztunnel/Source/Effects.antt =====
-- How often the source of pkg/accesslog/collector/ztunnel/ztunnel_identity_source.go detaches its
-- probe.
use skywalking_rover.Common.{
  ℕ, suc, ◌+◌, ◌≡◌, refl, inl, inr, Bool, true, false, ◌&&◌, ◌||◌, not, List, [], ◌∷◌, ◌++◌, arith,
  if◌then◌else◌, Bool-cases,
}
use skywalking_rover.Ztunnel.Decode.{ProbeSample, is_empty}
use skywalking_rover.Ztunnel.Source.{
  Effect, detach_probe, perform, apply_effects, cache_dst_identity, see_src, set_mapping,
  retro_resolve, cache_peer_identity, update_offsets_config, start_access_log_tailer,
}

-- How often the probe was detached.
abbrev pub detaches : List Effect → ℕ
detaches [] = 0
detaches (detach_probe ∷ es) = suc (detaches es)
detaches (_ ∷ es) = detaches es

detaches-append : (es fs : List Effect) → detaches (es ++ fs) ≡ detaches es + detaches fs
detaches-append [] fs = omega arith
detaches-append (detach_probe ∷ es) fs = omega (arith, detaches-append es fs)
detaches-append (cache_dst_identity _ _ _ ∷ es) fs = detaches-append es fs
detaches-append (see_src _ _ ∷ es) fs = detaches-append es fs
detaches-append (set_mapping _ _ _ _ ∷ es) fs = detaches-append es fs
detaches-append (retro_resolve _ _ ∷ es) fs = detaches-append es fs
detaches-append (cache_peer_identity _ _ ∷ es) fs = detaches-append es fs
detaches-append (update_offsets_config _ _ ∷ es) fs = detaches-append es fs
detaches-append (start_access_log_tailer ∷ es) fs = detaches-append es fs

pub detaches-perform :
    (es log : List Effect) → detaches es ≡ 0 → detaches (perform es log) ≡ detaches log
unfolding perform
detaches-perform [] log h = refl
detaches-perform (detach_probe ∷ es) log h = absurd (omega arith)
detaches-perform (cache_dst_identity _ _ _ ∷ es) log h = detaches-perform es _ h
detaches-perform (see_src _ _ ∷ es) log h = detaches-perform es _ h
detaches-perform (set_mapping _ _ _ _ ∷ es) log h = detaches-perform es _ h
detaches-perform (retro_resolve _ _ ∷ es) log h = detaches-perform es _ h
detaches-perform (cache_peer_identity _ _ ∷ es) log h = detaches-perform es _ h
detaches-perform (update_offsets_config _ _ ∷ es) log h = detaches-perform es _ h
detaches-perform (start_access_log_tailer ∷ es) log h = detaches-perform es _ h

outbound-detaches :
    (a b : Bool) (s : ProbeSample)
    → detaches (
        (if a then cache_dst_identity s.src_ip s.src_port s.destination ∷ [] else [])
        ++ (see_src s.src_ip s.src_port ∷ [])
        ++ (if b then set_mapping s.src_ip s.src_port s.dst_ip s.dst_port ∷ [] else [])
        ++ (retro_resolve s.src_ip s.src_port ∷ []))
      ≡ 0
outbound-detaches true true s = refl
outbound-detaches true false s = refl
outbound-detaches false true s = refl
outbound-detaches false false s = refl

pub apply_effects-detaches :
    (mapped : List ℕ → ℕ → Bool) (s : ProbeSample) → detaches (apply_effects mapped s) ≡ 0
unfolding apply_effects
apply_effects-detaches mapped s = elim (Bool-cases (not s.direction_known || s.outbound)) [
  | inl out ↦ rw out (
      outbound-detaches (s.mutual_tls || not s.direction_known)
        (not (is_empty s.dst_ip) && not (mapped s.src_ip s.src_port)) s)
  | inr inbound ↦ elim (Bool-cases s.mutual_tls) [
    | inl m ↦ rw (inbound, m)
    | inr m ↦ rw (inbound, m)
  ]
]
