-- ===== src/Processes/Sync.antt =====
-- SyncAllProcessInFinder of pkg/process/finders/storage.go.
use skywalking_rover.Common.{
  ℕ, suc, ◌≡◌, refl, sym, subst, ◌⊎◌, inl, inr, Bool, true, false, ◌||◌, List, [], ◌∷◌, ◌++◌, ◌∙◌,
  ap, some_injective, map, Option, none, some, ◌==◌, All, All-map, Bool-cases, arith,
}
use skywalking_rover.Processes.{
  ProcessContext, DetectedProcess, ProcessStorage, not_report, processes_of, find_same, sync_loop,
  sync_one, store, Syncing, has_ref, dead_processes, construct_new_process_context,
  sync_all_process_in_finder, send, operate_add, operate_delete, ProcessEvent,
}
use skywalking_rover.Processes.Notices.{Tells, send-Tells}

-- The processes without the nil ones.
abbrev pub present : List (Option DetectedProcess) → List DetectedProcess
present [] = []
present (none ∷ ps) = present ps
present (some p ∷ ps) = p ∷ present ps

-- Each detected process keeps the first known one with its pid and entity, or is new and unreported;
-- the new ones are those that were added.
abbrev pub AllKept :
    (existing added : List ProcessContext) → List DetectedProcess → List ProcessContext → Type 0
AllKept existing added [] [] = added ≡ []
AllKept existing added [] (c ∷ cs) = ⊥
AllKept existing added (p ∷ ps) [] = ⊥
AllKept existing added (p ∷ ps) (c ∷ cs) =
    ((find_same p existing ≡ some c) × AllKept existing added ps cs)
    ⊎ ((rest : List ProcessContext) × (added ≡ c ∷ rest)
        × (find_same p existing ≡ none)
        × (c.detect_process ≡ p)
        × (c.sync_status ≡ not_report)
        × (c.id ≡ [])
        × AllKept existing rest ps cs)

sync_one-AllKept :
    (finder : ℕ) (existing : List ProcessContext) (p : DetectedProcess) (ps : List DetectedProcess)
    (next : ℕ) (o : Option ProcessContext) (founded new : Syncing)
    → find_same p existing ≡ o
    → AllKept existing founded.added ps founded.new_processes
    → AllKept existing new.added ps new.new_processes
    → let r = sync_one finder p next o founded new in
      AllKept existing r.added (p ∷ ps) r.new_processes
unfolding construct_new_process_context
sync_one-AllKept finder existing p ps next (some c) founded new e f n = inl (e, f)
sync_one-AllKept finder existing p ps next none founded new e f n =
    inr (new.added, refl, e, refl, refl, refl, n)

sync_loop-AllKept :
    (finder : ℕ) (existing : List ProcessContext) (ps : List (Option DetectedProcess)) (next : ℕ)
    → let r = sync_loop finder existing ps next in
      AllKept existing r.added (present ps) r.new_processes
unfolding sync_loop
sync_loop-AllKept finder existing [] next = refl
sync_loop-AllKept finder existing (none ∷ ps) next = sync_loop-AllKept finder existing ps next
sync_loop-AllKept finder existing (some p ∷ ps) next =
    sync_one-AllKept finder existing p (present ps) next (find_same p existing) _ _ refl
      (sync_loop-AllKept finder existing ps next) (sync_loop-AllKept finder existing ps (suc next))

abbrev pub refs : List ProcessContext → List ℕ
refs = map (λ (c : ProcessContext). c.ref)

-- The pointers that were found are those of processes that are kept.
abbrev Founded : Syncing → Type 0
Founded r = (ref : ℕ) → has_ref ref r.has_founded ≡ true → has_ref ref (refs r.new_processes) ≡ true

sync_one-Founded :
    (finder : ℕ) (p : DetectedProcess) (next : ℕ) (o : Option ProcessContext)
    (founded new : Syncing)
    → Founded founded
    → Founded new
    → Founded (sync_one finder p next o founded new)
sync_one-Founded finder p next (some c) founded new f n ref h = elim (Bool-cases (c.ref == ref)) [
  | inl here ↦ rw here
  | inr there ↦ rw there (f ref (ground (arith, there)))
]
sync_one-Founded finder p next none founded new f n ref h =
    elim (Bool-cases ((construct_new_process_context next finder p).ref == ref)) [
      | inl here ↦ rw here
      | inr there ↦ rw there (n ref h)
    ]

sync_loop-Founded :
    (finder : ℕ) (existing : List ProcessContext) (ps : List (Option DetectedProcess)) (next : ℕ)
    → Founded (sync_loop finder existing ps next)
unfolding sync_loop
sync_loop-Founded finder existing [] next ref h = h
sync_loop-Founded finder existing (none ∷ ps) next ref h =
    sync_loop-Founded finder existing ps next ref h
sync_loop-Founded finder existing (some p ∷ ps) next ref h =
    sync_one-Founded finder p next (find_same p existing) _ _
      (sync_loop-Founded finder existing ps next) (sync_loop-Founded finder existing ps (suc next))
      ref h

shuffle : (a b c : Bool) → ((a || b) || c) ≡ true → (b || (a || c)) ≡ true
shuffle true true c h = refl
shuffle true false c h = refl
shuffle false true c h = refl
shuffle false false c h = h

-- Each process is one that was seen, or a dead one.
abbrev pub Accounted : List ℕ → List ProcessContext → List ProcessContext → Type 0
Accounted seen dead cs =
    All (λ (c : ProcessContext). (has_ref c.ref seen || has_ref c.ref (refs dead)) ≡ true) cs

dead_processes-All :
    (seen : List ℕ) (cs : List ProcessContext) → Accounted seen (dead_processes seen cs) cs
unfolding dead_processes
dead_processes-All seen [] = tt
dead_processes-All seen (c ∷ cs) = elim (Bool-cases (has_ref c.ref seen)) [
  | inl old ↦
      let same : dead_processes seen (c ∷ cs) ≡ dead_processes seen cs = rw old in
      let here : (has_ref c.ref seen || has_ref c.ref (refs (dead_processes seen cs))) ≡ true =
        rw old in
      subst (λ d. Accounted seen d (c ∷ cs)) (sym same) (here, dead_processes-All seen cs)
  | inr new ↦
      let rest = dead_processes (c.ref ∷ seen) cs in
      let same : dead_processes seen (c ∷ cs) ≡ c ∷ rest = rw new in
      let itself : (c.ref == c.ref) ≡ true = ground arith in
      let here : (has_ref c.ref seen || has_ref c.ref (refs (c ∷ rest))) ≡ true =
        rw (new, itself) in
      subst (λ d. Accounted seen d (c ∷ cs)) (sym same)
        (
          here,
          All-map _ _
              (λ (x : ProcessContext) h.
                shuffle (c.ref == x.ref) (has_ref x.ref seen) (has_ref x.ref (refs rest)) h)
              cs (dead_processes-All (c.ref ∷ seen) cs),
        )
]

processes_of-store :
    (finder : ℕ) (cs : List ProcessContext) (m : List (ℕ × List ProcessContext))
    → processes_of finder (store finder cs m) ≡ cs
processes_of-store finder cs [] = let e : (finder == finder) ≡ true = ground arith in rw e
processes_of-store finder cs ((f, old) ∷ rest) = elim (Bool-cases (f == finder)) [
  | inl e ↦ rw (e, e)
  | inr e ↦ rw (e, e) (processes_of-store finder cs rest)
]

kept_or_dead : (a b c : Bool) → (a ≡ true → b ≡ true) → (a || c) ≡ true → (b || c) ≡ true
kept_or_dead true b c f h = rw (f refl)
kept_or_dead false true c f h = refl
kept_or_dead false false c f h = h

seen_later : (a b : Bool) → b ≡ true → (a || b) ≡ true
seen_later true b h = refl
seen_later false b h = h

unseen_before : (a b : Bool) → (a || b) ≡ false → b ≡ false
unseen_before true b h = cc
unseen_before false b h = h

-- The first known process of each detected one is among the seen pointers.
abbrev AllSeen : List ProcessContext → List DetectedProcess → List ℕ → Type 0
AllSeen existing ps seen =
    All (λ p. (c : ProcessContext) → find_same p existing ≡ some c → has_ref c.ref seen ≡ true) ps

sync_one-AllSeen :
    (finder : ℕ) (existing : List ProcessContext) (p : DetectedProcess) (ps : List DetectedProcess)
    (next : ℕ) (o : Option ProcessContext) (founded new : Syncing)
    → find_same p existing ≡ o
    → AllSeen existing ps founded.has_founded
    → AllSeen existing ps new.has_founded
    → AllSeen existing (p ∷ ps) (sync_one finder p next o founded new).has_founded
sync_one-AllSeen finder existing p ps next none founded new e f n = ((λ c h. cc), n)
sync_one-AllSeen finder existing p ps next (some c) founded new e f n = (
  λ d h.
      let same : c ≡ d = some_injective (sym e ∙ h) in
      subst (λ x. has_ref x.ref (c.ref ∷ founded.has_founded) ≡ true) same
        (let itself : (c.ref == c.ref) ≡ true = ground arith in rw itself),
  All-map _ _ (λ q g d h. seen_later (c.ref == d.ref) (has_ref d.ref founded.has_founded) (g d h))
      ps f,
)

sync_loop-AllSeen :
    (finder : ℕ) (existing : List ProcessContext) (ps : List (Option DetectedProcess)) (next : ℕ)
    → AllSeen existing (present ps) (sync_loop finder existing ps next).has_founded
unfolding sync_loop
sync_loop-AllSeen finder existing [] next = tt
sync_loop-AllSeen finder existing (none ∷ ps) next = sync_loop-AllSeen finder existing ps next
sync_loop-AllSeen finder existing (some p ∷ ps) next =
    sync_one-AllSeen finder existing p (present ps) next (find_same p existing) _ _ refl
      (sync_loop-AllSeen finder existing ps next) (sync_loop-AllSeen finder existing ps (suc next))

dead_processes-unseen :
    (seen : List ℕ) (cs : List ProcessContext)
    → All (λ (c : ProcessContext). has_ref c.ref seen ≡ false) (dead_processes seen cs)
unfolding dead_processes
dead_processes-unseen seen [] = tt
dead_processes-unseen seen (c ∷ cs) = elim (Bool-cases (has_ref c.ref seen)) [
  | inl old ↦ rw old (dead_processes-unseen seen cs)
  | inr new ↦ rw new (
    new,
    All-map _ _ (λ (d : ProcessContext) h. unseen_before (c.ref == d.ref) (has_ref d.ref seen) h)
        (dead_processes (c.ref ∷ seen) cs) (dead_processes-unseen (c.ref ∷ seen) cs),
  )
]

-- No detected process has it as its first known one.
abbrev pub IsGone : List ProcessContext → List DetectedProcess → ProcessContext → Type 0
IsGone existing ps c = All (λ p. find_same p existing ≡ some c → ⊥) ps

AllSeen-IsGone :
    (existing : List ProcessContext) (seen : List ℕ) (ps : List DetectedProcess)
    (c : ProcessContext)
    → AllSeen existing ps seen
    → has_ref c.ref seen ≡ false
    → IsGone existing ps c
AllSeen-IsGone existing seen ps c a h = All-map _ _ (λ p g e. cc (g c e, h)) ps a

-- After SyncAllProcessInFinder the processes of the finder are, in order, those of the detected ones
-- that are not nil: each the first known process with its pid and entity, or else a new one, not
-- reported and without an id. The events that are sent tell the listeners, each process at its pid
-- and in order, that the new ones were added, then that the dead ones were deleted. Every process known
-- before is among the finder's processes or among the dead ones; no detected process has a dead one
-- as the first known one with its pid and entity.
pub sync_all_process_in_finder-AllKept :
    (finder : ℕ) (ps : List (Option DetectedProcess)) (s : ProcessStorage)
    → let existing = processes_of finder s.processes in
      let t = sync_all_process_in_finder finder ps s in
      let after = processes_of finder t.processes in
      (dead : List ProcessContext) × (added : List ProcessContext) × (es : List ProcessEvent)
      × (fs : List ProcessEvent) × (t.events ≡ s.events ++ es ++ fs)
      × Tells operate_add added es
      × Tells operate_delete dead fs
      × AllKept existing added (present ps) after
      × Accounted (refs after) dead existing
      × All (IsGone existing (present ps)) dead
unfolding sync_all_process_in_finder
sync_all_process_in_finder-AllKept finder ps s =
    let existing = processes_of finder s.processes in
    let r = sync_loop finder existing ps s.next_ref in
    let same = processes_of-store finder r.new_processes s.processes in
    let dead = dead_processes r.has_founded existing in
    let all : Accounted (refs r.new_processes) dead existing =
      All-map _ _
        (λ (c : ProcessContext) h.
          kept_or_dead (has_ref c.ref r.has_founded) (has_ref c.ref (refs r.new_processes))
            (has_ref c.ref (refs dead)) (sync_loop-Founded finder existing ps s.next_ref c.ref) h)
        existing (dead_processes-All r.has_founded existing) in
    let (es, first, adds) = send-Tells operate_add r.added s in
    let u : ProcessStorage = record (send operate_add r.added s) {
      processes = store finder r.new_processes s.processes;
      next_ref = r.next_ref;
    } in
    let (fs, then', deletes) = send-Tells operate_delete dead u in
    (
      dead,
      r.added,
      es,
      fs,
      then' ∙ ap (λ l. l ++ fs) first,
      adds,
      deletes,
      subst (AllKept existing r.added (present ps)) (sym same)
          (sync_loop-AllKept finder existing ps s.next_ref),
      subst (λ a. Accounted (refs a) dead existing) (sym same) all,
      All-map _ _
          (λ (c : ProcessContext) h.
            AllSeen-IsGone existing r.has_founded (present ps) c
              (sync_loop-AllSeen finder existing ps s.next_ref) h)
          dead (dead_processes-unseen r.has_founded existing),
    )
