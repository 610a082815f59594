-- ===== src/Boot/Order.antt =====
-- The resolution of pkg/boot/module.go puts every module behind the modules that it requires.
use skywalking_rover.Common.{
  ℕ, zero, suc, ◌<◌, ◌≡◌, refl, ap, ◌∙◌, true, false, List, [], ◌∷◌, ◌++◌, arith, ◌==◌, ==_iff, All,
  Bool-cases, Option-cases, inl, inr, subst,
}
use skywalking_rover.Boot.{
  Module, Resolution, Result, ok, missing, cyclic, fault, out_of_fuel, ◌>>=◌, has, names,
  module_map, append_required, append_to_resolve,
}
use skywalking_rover.Boot.Names.{
  has-snoc, module_map-name, OrderedFrom, OrderedFrom-snoc, unvisited, unvisited_mono,
  unvisited-visit,
}

abbrev pub ordered_names : Resolution → List ℕ
ordered_names s = names s.ordered_modules

-- The modules that were put in order were visited, and are in order.
pub record Inv (s : Resolution) : Type 0 where
  pub ordered : OrderedFrom [] s.ordered_modules
  pub visits : (q : ℕ) → has q (ordered_names s) ≡ true → has q s.visited ≡ true

-- What a call leaves of the state: names are only added, and no module that was begun before the
-- call is put in order by it.
pub record Grows (s s' : Resolution) : Type 0 where
  pub ordered : (q : ℕ) → has q (ordered_names s) ≡ true → has q (ordered_names s') ≡ true
  pub visited : (q : ℕ) → has q s.visited ≡ true → has q s'.visited ≡ true
  pub waits :
      (q : ℕ)
      → has q s.visited ≡ true
      → has q (ordered_names s) ≡ false
      → has q (ordered_names s') ≡ false

pub Grows-refl : (s : Resolution) → Grows s s
Grows-refl s = record { ordered = λ q h. h; visited = λ q h. h; waits = λ q h k. k }

Grows-trans : (s t u : Resolution) → Grows s t → Grows t u → Grows s u
Grows-trans s t u g h = record {
  ordered = λ q k. h.ordered q (g.ordered q k);
  visited = λ q k. h.visited q (g.visited q k);
  waits = λ q k l. h.waits q (g.visited q k) (g.waits q k l);
}

-- The names `qs` are in order afterwards; a call does not run out of fuel.
abbrev pub Post : List ℕ → Resolution → Result Resolution → Type 0
Post qs s (ok s') = Inv s' × Grows s s' × All (λ q. has q (ordered_names s') ≡ true) qs
Post qs s (missing n r) = ⊥
Post qs s (cyclic n) = Unit
Post qs s fault = Unit
Post qs s out_of_fuel = ⊥

pub Post-bind :
    (q : ℕ) (qs : List ℕ) (s : Resolution) (r : Result Resolution)
    (f : Resolution → Result Resolution)
    → Post (q ∷ []) s r
    → ((s' : Resolution) → Inv s' → Grows s s' → Post qs s' (f s'))
    → Post (q ∷ qs) s (r >>= f)
Post-bind q qs s (ok s') f p k = weaken (f s') (k s' p.0 p.1)
  where
    weaken : (r : Result Resolution) → Post qs s' r → Post (q ∷ qs) s r
    weaken (ok s'') h = (h.0, Grows-trans s s' s'' p.1 h.1, (h.1.ordered q p.2.0, h.2))
    weaken (missing n r) h = h
    weaken (cyclic n) h = tt
    weaken fault h = tt
    weaken out_of_fuel h = h
Post-bind q qs s (missing n r) f p k = p
Post-bind q qs s (cyclic n) f p k = tt
Post-bind q qs s fault f p k = tt
Post-bind q qs s out_of_fuel f p k = p

-- A visit that begins, and the module put in order when what it requires is.
abbrev begin : Module → Resolution → Resolution
begin m s = record s { visited = m.name ∷ s.visited }

abbrev close : Module → Resolution → Resolution
close m s = record s { ordered_modules = s.ordered_modules ++ m ∷ [] }

begin-Inv : (m : Module) (s : Resolution) → Inv s → Inv (begin m s)
unfolding has
begin-Inv m s i = record { ordered = i.ordered; visits = λ q h. ground (arith, i.visits q h) }

close-Inv :
    (m : Module) (s t : Resolution)
    → has m.name s.visited ≡ false
    → Inv s
    → Inv t
    → Grows (begin m s) t
    → All (λ q. has q (ordered_names t) ≡ true) m.required_modules
    → Inv (close m t)
unfolding has
close-Inv m s t new i j g r = record {
  ordered =
      let waits : has m.name (ordered_names t) ≡ false =
        g.waits m.name (ground arith) (ground (arith, i.visits m.name)) in
      OrderedFrom-snoc [] t.ordered_modules m j.ordered r waits;
  visits = λ q h.
      ground (arith, has-snoc q t.ordered_modules m, j.visits q, g.visited q, ==_iff m.name q);
}

close-Grows :
    (m : Module) (s t : Resolution)
    → has m.name s.visited ≡ false
    → Grows (begin m s) t
    → Grows s (close m t)
unfolding has
close-Grows m s t new g = record {
  ordered = λ q h. ground (arith, has-snoc q t.ordered_modules m, g.ordered q h);
  visited = λ q h. g.visited q (ground arith);
  waits = λ q h k. elim (Bool-cases (m.name == q)) [
    | inl same ↦
        let e : m.name ≡ q = (==_iff m.name q).0 same in
        let f : has m.name s.visited ≡ true = ap (λ z. has z s.visited) e ∙ h in ground arith
    | inr other ↦ ground (arith, has-snoc q t.ordered_modules m, g.waits q (ground arith) k)
  ];
}

close-has : (m : Module) (t : Resolution) → has m.name (ordered_names (close m t)) ≡ true
unfolding has
close-has m t = ground (arith, has-snoc m.name t.ordered_modules m, (==_iff m.name m.name).1 refl)

close-Post :
    (m : Module) (s : Resolution) (r : Result Resolution)
    → has m.name s.visited ≡ false
    → Inv s
    → Post m.required_modules (begin m s) r
    → Post (m.name ∷ []) s (r >>= λ t. ok (close m t))
close-Post m s (ok t) new i h =
    (close-Inv m s t new i h.0 h.1 h.2, close-Grows m s t new h.1, (close-has m t, tt))
close-Post m s (missing n r) new i h = h
close-Post m s (cyclic n) new i h = tt
close-Post m s fault new i h = tt
close-Post m s out_of_fuel new i h = h

module _ (all : List Module) where
  append_required-Post :
      (fuel : ℕ) (append : Module → Resolution → Result Resolution)
      → ((m : Module) (s : Resolution)
          → has m.name (names all) ≡ true
          → Inv s
          → unvisited s.visited all < fuel
          → Post (m.name ∷ []) s (append m s))
      → (qs : List ℕ) (s : Resolution) → Inv s
      → unvisited s.visited all < fuel
      → Post qs s (append_required all append qs s)
  unfolding append_required
  append_required-Post fuel append step [] s i b = (i, Grows-refl s, tt)
  append_required-Post fuel append step (q ∷ qs) s i b = elim (Option-cases (module_map all q)) [
    | inl absent ↦ rw (absent, append_required) tt
    | inr (m, found) ↦
        rw (found, append_required)
          (let named = module_map-name all q m found in
            Post-bind q qs s (append m s) (append_required all append qs)
              (subst (λ z. Post (z ∷ []) s (append m s)) named.0
                (step m s (ap (λ z. has z (names all)) named.0 ∙ named.1) i b))
              (λ s' j g.
                append_required-Post fuel append step qs s' j
                  (ground (arith, unvisited_mono s.visited s'.visited all g.visited))))
  ]

  pub append_to_resolve-Post :
      (fuel : ℕ) (m : Module) (s : Resolution)
      → has m.name (names all) ≡ true
      → Inv s
      → unvisited s.visited all < fuel
      → Post (m.name ∷ []) s (append_to_resolve fuel all m s)
  unfolding append_to_resolve
  append_to_resolve-Post zero m s k i b = absurd (omega arith)
  append_to_resolve-Post (suc fuel) m s k i b = elim (Bool-cases (has m.name s.visited)) [
    | inl old ↦ elim (Bool-cases (has m.name (ordered_names s))) [
      | inl done ↦ rw (old, done) (i, Grows-refl s, (done, tt))
      | inr begun ↦ rw (old, begun) tt
    ]
    | inr new ↦ rw new (
        close-Post m s
          (append_required all (append_to_resolve fuel all) m.required_modules (begin m s)) new i
          (append_required-Post fuel (append_to_resolve fuel all)
            (λ n t. append_to_resolve-Post fuel n t) m.required_modules (begin m s)
            (begin-Inv m s i) (ground (arith, unvisited-visit s.visited all m.name new k))))
  ]
