-- ===== src/Processes/Notices.antt =====
-- What processEventBuilder of pkg/process/finders/storage.go tells the listeners.
use skywalking_rover.Common.{
  ℕ, ◌≡◌, refl, sym, ap, ◌∙◌, true, false, List, [], ◌∷◌, ◌++◌, map, none, ◌==◌, if◌then◌else◌, All,
  Bool-cases, inl, inr, arith, lookup, IsUnique, append-nil, append_assoc,
}
use skywalking_rover.Processes.{
  ProcessContext, ProcessOperate, ProcessEvent, ProcessStorage, add_process, add_all, send,
}

-- The processes with a pid, and those that the listeners are told of at a pid.
abbrev pub with_pid : ℕ → List ProcessContext → List ProcessContext
with_pid pid [] = []
with_pid pid (c ∷ cs) =
    let rest = with_pid pid cs in if c.detect_process.pid == pid then c ∷ rest else rest

abbrev pub told : ℕ → List ProcessEvent → List ProcessContext
told pid [] = []
told pid (e ∷ es) =
    let rest = told pid es in if e.event_pid == pid then e.event_processes ++ rest else rest

-- Events of one kind, which tell the listeners at each pid of the processes with it.
abbrev pub Tells : ProcessOperate → List ProcessContext → List ProcessEvent → Type 0
Tells operate cs es =
    All (λ (e : ProcessEvent). e.operate ≡ operate) es × ((pid : ℕ) → told pid es ≡ with_pid pid cs)

abbrev built_at : ℕ → List (ℕ × List ProcessContext) → List ProcessContext
built_at pid [] = []
built_at pid ((j, cs) ∷ b) = let rest = built_at pid b in if j == pid then cs ++ rest else rest

add_process-lookup :
    (c : ProcessContext) (b : List (ℕ × List ProcessContext)) (pid : ℕ)
    → lookup pid b ≡ none
    → (c.detect_process.pid == pid) ≡ false
    → lookup pid (add_process c b) ≡ none
unfolding add_process
add_process-lookup c [] pid h d = rw d refl
add_process-lookup c ((j, cs) ∷ b) pid h d = elim (Bool-cases (j == pid)) [
  | inl e ↦ absurd (ground (arith, e, h))
  | inr e ↦ elim (Bool-cases (j == c.detect_process.pid)) [
    | inl g ↦ rw (g, e) (ground (arith, h, e))
    | inr g ↦ rw (g, e) (add_process-lookup c b pid (ground (arith, h, e)) d)
  ]
]

add_process-IsUnique :
    (c : ProcessContext) (b : List (ℕ × List ProcessContext))
    → IsUnique b
    → IsUnique (add_process c b)
unfolding add_process
add_process-IsUnique c [] u = (refl, tt)
add_process-IsUnique c ((j, cs) ∷ b) (h, u) = elim (Bool-cases (j == c.detect_process.pid)) [
  | inl e ↦ rw e (h, u)
  | inr e ↦ rw e (add_process-lookup c b j h (ground (arith, e)), add_process-IsUnique c b u)
]

absent-built_at :
    (pid : ℕ) (b : List (ℕ × List ProcessContext)) → lookup pid b ≡ none → built_at pid b ≡ []
absent-built_at pid [] h = refl
absent-built_at pid ((j, cs) ∷ b) h = elim (Bool-cases (j == pid)) [
  | inl e ↦ absurd (ground (arith, e, h))
  | inr e ↦ rw e (absent-built_at pid b (ground (arith, e, h)))
]

add_process-built_at :
    (c : ProcessContext) (b : List (ℕ × List ProcessContext)) (pid : ℕ)
    → IsUnique b
    → built_at pid (add_process c b) ≡ built_at pid b ++ with_pid pid (c ∷ [])
unfolding add_process
add_process-built_at c [] pid u = refl
add_process-built_at c ((j, cs) ∷ b) pid (h, u) = elim (Bool-cases (j == c.detect_process.pid)) [
  | inl e ↦ elim (Bool-cases (j == pid)) [
    | inl f ↦
        let g : (c.detect_process.pid == pid) ≡ true = ground (arith, e, f) in
        let last : built_at pid b ≡ [] = absent-built_at pid b (ground (arith, f, h)) in
        rw (e, f, g, last) (append-nil (cs ++ c ∷ []) ∙ ap (λ l. l ++ c ∷ []) (sym (append-nil cs)))
    | inr f ↦
        let g : (c.detect_process.pid == pid) ≡ false = ground (arith, e, f) in
        rw (e, f, g) (sym (append-nil (built_at pid b)))
  ]
  | inr e ↦ elim (Bool-cases (j == pid)) [
    | inl f ↦
        rw (e, f)
          (ap (λ l. cs ++ l) (add_process-built_at c b pid u)
            ∙ sym (append_assoc cs (built_at pid b) (with_pid pid (c ∷ []))))
    | inr f ↦ rw (e, f) (add_process-built_at c b pid u)
  ]
]

with_pid-first :
    (pid : ℕ) (c : ProcessContext) (cs : List ProcessContext)
    → with_pid pid (c ∷ cs) ≡ with_pid pid (c ∷ []) ++ with_pid pid cs
with_pid-first pid c cs = elim (Bool-cases (c.detect_process.pid == pid)) [
  | inl e ↦ rw e refl
  | inr e ↦ rw e refl
]

add_all-built_at :
    (cs : List ProcessContext) (b : List (ℕ × List ProcessContext)) (pid : ℕ)
    → IsUnique b
    → built_at pid (add_all cs b) ≡ built_at pid b ++ with_pid pid cs
unfolding add_all
add_all-built_at [] b pid u = sym (append-nil (built_at pid b))
add_all-built_at (c ∷ cs) b pid u =
    add_all-built_at cs (add_process c b) pid (add_process-IsUnique c b u)
    ∙ ap (λ l. l ++ with_pid pid cs) (add_process-built_at c b pid u)
    ∙ append_assoc (built_at pid b) (with_pid pid (c ∷ [])) (with_pid pid cs)
    ∙ ap (λ l. built_at pid b ++ l) (sym (with_pid-first pid c cs))

abbrev event_of : ProcessOperate → ℕ × List ProcessContext → ProcessEvent
event_of operate b = record { operate = operate; event_pid = b.0; event_processes = b.1 }

told-map :
    (operate : ProcessOperate) (b : List (ℕ × List ProcessContext)) (pid : ℕ)
    → told pid (map (event_of operate) b) ≡ built_at pid b
told-map operate [] pid = refl
told-map operate ((j, cs) ∷ b) pid =
    ap (λ l. if j == pid then cs ++ l else l) (told-map operate b pid)

operates :
    (operate : ProcessOperate) (b : List (ℕ × List ProcessContext))
    → All (λ (e : ProcessEvent). e.operate ≡ operate) (map (event_of operate) b)
operates operate [] = tt
operates operate (x ∷ b) = (refl, operates operate b)

pub send-Tells :
    (operate : ProcessOperate) (cs : List ProcessContext) (s : ProcessStorage)
    → (es : List ProcessEvent) × ((send operate cs s).events ≡ s.events ++ es) × Tells operate cs es
unfolding send
send-Tells operate cs s =
    let built = add_all cs [] in
    (
      map (event_of operate) built,
      refl,
      (operates operate built, λ pid. told-map operate built pid ∙ add_all-built_at cs [] pid tt),
    )
