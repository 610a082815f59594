-- ===== src/Processes/Report/Invariant.antt =====
-- What always holds of the processes of pkg/process/finders/storage.go.
use skywalking_rover.Common.{
  ℕ, suc, ◌%◌, ◌≡◌, refl, sym, ap, subst, ◌∙◌, Bool, true, false, List, [], ◌∷◌, Option, none, some,
  ◌==◌, ==_iff, All, All-append, Bool-cases, inl, inr, some_injective, if_some,
}
use skywalking_rover.Processes.{
  DetectedProcess, ProcessContext, ProcessStorage, processes_of, store, send, bytes_equal,
  construct_new_process_context, find_same, Adding, add_one, add_loop, add_new_process_in_finder,
  Syncing, sync_one, sync_loop, sync_all_process_in_finder,
}
use skywalking_rover.Processes.Report.{
  is_there, both, each, with_processes, is_empty, is_reported, waits, update_process, keep_alive,
  first_id, report_process, and_then, report_finders, send_reported, report_with, report_list,
  report_all_processes, Operation, add, sync, report, run_operation, run_operations,
}

-- A reported process has an id; a process stands under the type of its finder, and has an entity.
abbrev pub IsGood : ℕ → ProcessContext → Type 0
IsGood finder c =
    (is_reported c.sync_status ≡ true → is_empty c.id ≡ false)
    × (c.detect_type ≡ finder)
    × (is_there c.detect_process.entity ≡ true)

-- The detected processes that are not nil have entities.
abbrev pub HaveEntities : List (Option DetectedProcess) → Type 0
HaveEntities [] = Unit
HaveEntities (none ∷ ps) = HaveEntities ps
HaveEntities (some p ∷ ps) = (is_there p.entity ≡ true) × HaveEntities ps

abbrev pub Detects : {R : Type 0} → Operation R → Type 0
Detects (add finder ps) = HaveEntities ps
Detects (sync finder ps) = HaveEntities ps
Detects (report reply) = Unit

abbrev pub AllGood : List (ℕ × List ProcessContext) → Type 0
AllGood = All (λ (e : ℕ × List ProcessContext). All (IsGood e.0) e.1)

processes_of-AllGood :
    (finder : ℕ) (m : List (ℕ × List ProcessContext))
    → AllGood m
    → All (IsGood finder) (processes_of finder m)
processes_of-AllGood finder [] h = tt
processes_of-AllGood finder ((f, cs) ∷ rest) h = elim (Bool-cases (f == finder)) [
  | inl e ↦ rw e (subst (λ k. All (IsGood k) cs) ((==_iff f finder).0 e) h.0)
  | inr e ↦ rw e (processes_of-AllGood finder rest h.1)
]

store-AllGood :
    (finder : ℕ) (cs : List ProcessContext) (m : List (ℕ × List ProcessContext))
    → AllGood m
    → All (IsGood finder) cs
    → AllGood (store finder cs m)
store-AllGood finder cs [] h g = (g, tt)
store-AllGood finder cs ((f, old) ∷ rest) h g = elim (Bool-cases (f == finder)) [
  | inl e ↦ rw e (subst (λ k. All (IsGood k) cs) (sym ((==_iff f finder).0 e)) g, h.1)
  | inr e ↦ rw e (h.0, store-AllGood finder cs rest h.1 g)
]

construct-IsGood :
    (ref finder : ℕ) (p : DetectedProcess)
    → is_there p.entity ≡ true
    → IsGood finder (construct_new_process_context ref finder p)
unfolding construct_new_process_context
construct-IsGood ref finder p e = ((λ h. cc), refl, e)

add_one-All :
    (finder : ℕ) (p : DetectedProcess) (o : Option ProcessContext) (a : Adding)
    → is_there p.entity ≡ true
    → All (IsGood finder) a.contexts
    → All (IsGood finder) (add_one finder p o a).contexts
unfolding add_one
add_one-All finder p (some c) a e h = h
add_one-All finder p none a e h =
    All-append (IsGood finder) a.contexts _ h (construct-IsGood a.next_ref finder p e, tt)

add_loop-All :
    (finder : ℕ) (ps : List (Option DetectedProcess)) (a : Adding)
    → HaveEntities ps
    → All (IsGood finder) a.contexts
    → All (IsGood finder) (add_loop finder ps a).contexts
unfolding add_loop
add_loop-All finder [] a e h = h
add_loop-All finder (none ∷ ps) a e h = add_loop-All finder ps a e h
add_loop-All finder (some p ∷ ps) a (e, es) h =
    add_loop-All finder ps (add_one finder p (find_same p a.contexts) a) es
      (add_one-All finder p (find_same p a.contexts) a e h)

find_same-IsGood :
    (finder : ℕ) (p : DetectedProcess) (cs : List ProcessContext) (c : ProcessContext)
    → All (IsGood finder) cs
    → find_same p cs ≡ some c
    → IsGood finder c
unfolding find_same
find_same-IsGood finder p [] c h e = cc
find_same-IsGood finder p (d ∷ ds) c h e = elim (if_some _ (some d) (find_same p ds) c e) [
  | inl (t, same) ↦ subst (IsGood finder) (some_injective same) h.0
  | inr (t, later) ↦ find_same-IsGood finder p ds c h.1 later
]

sync_one-All :
    (finder : ℕ) (p : DetectedProcess) (next : ℕ) (o : Option ProcessContext)
    (founded new : Syncing)
    → is_there p.entity ≡ true
    → ((c : ProcessContext) → o ≡ some c → IsGood finder c)
    → All (IsGood finder) founded.new_processes
    → All (IsGood finder) new.new_processes
    → All (IsGood finder) (sync_one finder p next o founded new).new_processes
sync_one-All finder p next (some c) founded new e g f n = (g c refl, f)
sync_one-All finder p next none founded new e g f n = (construct-IsGood next finder p e, n)

sync_loop-All :
    (finder : ℕ) (existing : List ProcessContext) (ps : List (Option DetectedProcess)) (next : ℕ)
    → HaveEntities ps
    → All (IsGood finder) existing
    → All (IsGood finder) (sync_loop finder existing ps next).new_processes
unfolding sync_loop
sync_loop-All finder existing [] next e h = tt
sync_loop-All finder existing (none ∷ ps) next e h = sync_loop-All finder existing ps next e h
sync_loop-All finder existing (some p ∷ ps) next (e, es) h =
    sync_one-All finder p next (find_same p existing) _ _ e
      (λ c same. find_same-IsGood finder p existing c h same)
      (sync_loop-All finder existing ps next es h)
      (sync_loop-All finder existing ps (suc next) es h)

-- A result that is good, and no panic.
abbrev Fine : {A : Type 0} → (A → Type 0) → Option A → Type 0
Fine P none = ⊥
Fine P (some a) = P a

keep_alive-Fine : (f : ℕ) (c : ProcessContext) → IsGood f c → Fine (IsGood f) (keep_alive c)
unfolding keep_alive
keep_alive-Fine f c g = elim (Bool-cases (is_reported c.sync_status)) [
  | inl e ↦ elim (Bool-cases (is_empty c.id)) [
    | inl empty ↦ rw (e, g.2, empty) ((λ h. cc), g.1, g.2)
    | inr filled ↦ rw (e, g.2, filled) ((λ h. filled), g.1, g.2)
  ]
  | inr e ↦ rw e g
]

both-Fine :
    {A B : Type 0} (P : A → Type 0) (Q : B → Type 0) (o : Option A) (r : Option (List B))
    (f : A → B)
    → ((a : A) → P a → Q (f a))
    → Fine P o
    → Fine (All Q) r
    → Fine (All Q) (both o r f)
both-Fine P Q (some a) (some bs) f g p q = (g a p, q)
both-Fine P Q none r f g p q = p
both-Fine P Q (some a) none f g p q = q

each-Fine :
    (f : ℕ) (h : ProcessContext → Option ProcessContext) (cs : List ProcessContext)
    → ((c : ProcessContext) → IsGood f c → Fine (IsGood f) (h c))
    → All (IsGood f) cs
    → Fine (All (IsGood f)) (each h cs)
each-Fine f h [] g a = tt
each-Fine f h (c ∷ cs) g a =
    both-Fine (IsGood f) (IsGood f) (h c) (each h cs) (λ d. d) (λ d k. k) (g c a.0)
      (each-Fine f h cs g a.1)

module _ {R : Type 0} (parse_process_id : ℕ → DetectedProcess → R → List ℕ) where
  first_id-nonempty :
      (c : ProcessContext) (rs : List R) (id : List ℕ)
      → first_id parse_process_id c rs ≡ some id
      → is_empty id ≡ false
  unfolding first_id
  first_id-nonempty c [] id e = cc
  first_id-nonempty c (r ∷ rs) id e =
      let found = parse_process_id c.detect_type c.detect_process r in
      elim (if_some (is_empty found) (first_id parse_process_id c rs) (some found) id e) [
        | inl (t, later) ↦ first_id-nonempty c rs id later
        | inr (filled, same) ↦ subst (λ i. is_empty i ≡ false) (some_injective same) filled
      ]

  update_process-Fine :
      (f : ℕ) (o : Option (List ℕ)) (c : ProcessContext)
      → ((id : List ℕ) → o ≡ some id → is_empty id ≡ false)
      → IsGood f c
      → Fine (IsGood f) (update_process o c)
  unfolding update_process
  update_process-Fine f (some id) c n g = elim (Bool-cases (bytes_equal c.id id)) [
    | inl e ↦ rw e ((λ h. n id refl), g.1, g.2)
    | inr e ↦ rw (e, g.2) ((λ h. n id refl), g.1, g.2)
  ]
  update_process-Fine f none c n g = ((λ h. cc), g.1, g.2)

  report_process-Fine :
      (f : ℕ) (force : Bool) (reply : Option (List R)) (c : ProcessContext)
      → IsGood f c
      → Fine (IsGood f) (report_process parse_process_id force reply c)
  unfolding report_process
  report_process-Fine f force none c g = elim (Bool-cases (waits force c.sync_status)) [
    | inl e ↦ rw e g
    | inr e ↦ rw e (keep_alive-Fine f c g)
  ]
  report_process-Fine f force (some rs) c g = elim (Bool-cases (waits force c.sync_status)) [
    | inl e ↦
        rw e (update_process-Fine f (first_id parse_process_id c rs) c (first_id-nonempty c rs) g)
    | inr e ↦ rw e (keep_alive-Fine f c g)
  ]

  report_finders-Fine :
      (force : Bool) (reply : Option (List R)) (m : List (ℕ × List ProcessContext))
      → AllGood m
      → Fine AllGood (report_finders parse_process_id force reply m)
  unfolding report_finders
  report_finders-Fine force reply [] h = tt
  report_finders-Fine force reply ((f, cs) ∷ rest) h =
      both-Fine (All (IsGood f)) (λ (e : ℕ × List ProcessContext). All (IsGood e.0) e.1)
        (each (report_process parse_process_id force reply) cs)
        (report_finders parse_process_id force reply rest) (λ ds. (f, ds)) (λ ds k. k)
        (each-Fine f (report_process parse_process_id force reply) cs
          (report_process-Fine f force reply) h.0)
        (report_finders-Fine force reply rest h.1)

  -- What a step leaves: processes that are good, and the factor.
  abbrev Left : ProcessStorage → ProcessStorage → Type 0
  Left s t = AllGood t.processes × (t.properties_report_factor ≡ s.properties_report_factor)

  send_reported-Left :
      (reply : Option (List R)) (waiting : List ProcessContext) (s : ProcessStorage)
      → AllGood s.processes
      → Left s (send_reported parse_process_id reply waiting s)
  unfolding send_reported send
  send_reported-Left none waiting s h = (h, refl)
  send_reported-Left (some rs) waiting s h = (h, refl)

  with_processes-Left :
      (reply : Option (List R)) (waiting : List ProcessContext) (s : ProcessStorage)
      (o : Option (List (ℕ × List ProcessContext)))
      → Fine AllGood o
      → Fine (Left s) (with_processes parse_process_id reply waiting s o)
  with_processes-Left reply waiting s none h = h
  with_processes-Left reply waiting s (some m) h =
      send_reported-Left reply waiting (record s { processes = m }) h

  report_list-Left :
      (m : List (ℕ × List ProcessContext)) (reply : Option (List R)) (s : ProcessStorage)
      → (s.properties_report_factor == 0) ≡ false
      → AllGood s.processes
      → Fine (Left s) (report_list parse_process_id m reply s)
  unfolding report_list report_with
  report_list-Left [] reply s p h = (h, refl)
  report_list-Left (x ∷ xs) reply s p h =
      let force = suc s.reported_count % s.properties_report_factor == 0 in
      rw p (
        with_processes-Left reply _ (record s { reported_count = suc s.reported_count })
          (report_finders parse_process_id force reply s.processes)
          (report_finders-Fine force reply s.processes h))

  run_operation-Left :
      (o : Operation R) (s : ProcessStorage)
      → Detects o
      → (s.properties_report_factor == 0) ≡ false
      → AllGood s.processes
      → Fine (Left s) (run_operation parse_process_id o s)
  unfolding run_operation report_all_processes add_new_process_in_finder sync_all_process_in_finder
      send
  run_operation-Left (add finder ps) s d p h = (
    store-AllGood finder _ s.processes h
        (add_loop-All finder ps _ d (processes_of-AllGood finder s.processes h)),
    refl,
  )
  run_operation-Left (sync finder ps) s d p h = (
    store-AllGood finder _ s.processes h (
        sync_loop-All finder (processes_of finder s.processes) ps s.next_ref d
          (processes_of-AllGood finder s.processes h)),
    refl,
  )
  run_operation-Left (report reply) s d p h = report_list-Left s.processes reply s p h

  and_then-Fine :
      (s : ProcessStorage) (o : Option ProcessStorage)
      (next : ProcessStorage → Option ProcessStorage)
      → Fine (Left s) o
      → ((t : ProcessStorage) → Left s t → Fine (λ u. AllGood u.processes) (next t))
      → Fine (λ u. AllGood u.processes) (and_then o next)
  and_then-Fine s none next h g = h
  and_then-Fine s (some t) next h g = g t h

  run_operations-Fine :
      (os : List (Operation R)) (s : ProcessStorage)
      → All Detects os
      → (s.properties_report_factor == 0) ≡ false
      → AllGood s.processes
      → Fine (λ u. AllGood u.processes) (run_operations parse_process_id os s)
  unfolding run_operations
  run_operations-Fine [] s d p h = h
  run_operations-Fine (o ∷ os) s d p h =
      and_then-Fine s (run_operation parse_process_id o s)
        (λ t. run_operations parse_process_id os t) (run_operation-Left o s d.0 p h)
        (λ t l. run_operations-Fine os t d.1 (ap (λ n. n == 0) l.1 ∙ p) l.0)

  Fine-some :
      (o : Option ProcessStorage)
      → Fine (λ u. AllGood u.processes) o
      → (t : ProcessStorage) × (o ≡ some t) × AllGood t.processes
  Fine-some none h = absurd h
  Fine-some (some t) h = (t, refl, h)

  -- With a factor that is not 0, from processes that are good (as none are): if the processes that
  -- the finders detect have entities, operations in a row do not panic, whatever the backend
  -- answers; and each process that is reported has an id, and each process stands under the type
  -- that it carries and has an entity.
  pub run_operations-AllGood :
      (os : List (Operation R)) (s : ProcessStorage)
      → All Detects os
      → (s.properties_report_factor == 0) ≡ false
      → AllGood s.processes
      → (t : ProcessStorage) × (run_operations parse_process_id os s ≡ some t) × AllGood t.processes
  run_operations-AllGood os s d p h =
      Fine-some (run_operations parse_process_id os s) (run_operations-Fine os s d p h)
