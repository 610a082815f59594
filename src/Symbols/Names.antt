-- ===== src/Symbols/Names.antt =====
-- FindSymbols of pkg/tools/profiling/api.go does not depend on what its cache holds.
use skywalking_rover.Common.{
  ℕ, zero, suc, ◌≡◌, refl, sym, ap, ◌∙◌, List, [], ◌∷◌, Option, none, some, arith, ◌==◌, ==_iff,
  Bool-cases, inl, inr, subst,
}
use skywalking_rover.Symbols.{
  Module, Info, cached, name_in, keep_name, use_cached, find_symbol_name, or_default, find_symbols,
  prepend, after_name,
}

module _ (filter : List ℕ → List ℕ) where
  -- A name of the cache is empty, or the name that the modules give to its address.
  abbrev pub IsSound : List Module → List (ℕ × List ℕ) → Type 0
  IsSound ms [] = Unit
  IsSound ms ((a, name) ∷ rest) = (name_in filter ms a ≡ some (some name)) × IsSound ms rest

  -- The names without a cache: the default for an address without a symbol or with an empty name.
  abbrev pub name_or_default : List ℕ → Option (Option (List ℕ)) → Option (List ℕ)
  name_or_default default none = none
  name_or_default default (some none) = some default
  name_or_default default (some (some name)) = some (or_default default name)

  abbrev pub join : Option (List ℕ) → Option (List (List ℕ)) → Option (List (List ℕ))
  join none ns = none
  join (some n) none = none
  join (some n) (some ns) = some (n ∷ ns)

  unfoldable pub symbols_of : List ℕ → List Module → List ℕ → Option (List (List ℕ))
  symbols_of default ms [] = some []
  symbols_of default ms (zero ∷ as') = symbols_of default ms as'
  symbols_of default ms (suc a ∷ as') =
      join (name_or_default default (name_in filter ms (suc a))) (symbols_of default ms as')

  cached-IsSound :
      (ms : List Module) (cache : List (ℕ × List ℕ)) (a c : ℕ) (cs : List ℕ)
      → IsSound ms cache
      → cached a cache ≡ c ∷ cs
      → name_in filter ms a ≡ some (some (c ∷ cs))
  unfolding cached
  cached-IsSound ms [] a c cs s e = cc
  cached-IsSound ms ((b, name) ∷ rest) a c cs s e = elim (Bool-cases (b == a)) [
    | inl here ↦
        let same : name ≡ c ∷ cs = ground arith in
        subst (λ k. name_in filter ms k ≡ some (some (c ∷ cs))) ((==_iff b a).0 here)
          (s.0 ∙ ap (λ n. some (some n)) same)
    | inr there ↦ cached-IsSound ms rest a c cs s.1 (ground arith)
  ]

  -- What one lookup leaves.
  abbrev Found : Info → Option (Option (List ℕ)) → Option (Info × List ℕ) → Type 0
  Found i spec none = spec ≡ none
  Found i spec (some (i', name)) =
      ((default : List ℕ) → name_or_default default spec ≡ some (or_default default name))
      × (i'.modules ≡ i.modules)
      × IsSound i'.modules i'.cache_addr_to_symbol

  keep_name-Found :
      (i : Info) (a : ℕ) (spec : Option (Option (List ℕ)))
      → name_in filter i.modules a ≡ spec
      → IsSound i.modules i.cache_addr_to_symbol
      → Found i spec (keep_name i a spec)
  keep_name-Found i a none e s = refl
  keep_name-Found i a (some none) e s = ((λ d. refl), refl, s)
  keep_name-Found i a (some (some name)) e s = ((λ d. refl), refl, (e, s))

  use_cached-Found :
      (i : Info) (a : ℕ) (names : List ℕ)
      → cached a i.cache_addr_to_symbol ≡ names
      → IsSound i.modules i.cache_addr_to_symbol
      → Found i
          (name_in filter i.modules a)
          (use_cached i names (keep_name i a (name_in filter i.modules a)))
  use_cached-Found i a [] e s = keep_name-Found i a (name_in filter i.modules a) refl s
  use_cached-Found i a (c ∷ cs) e s = (
    (λ d. ap (name_or_default d) (cached-IsSound i.modules i.cache_addr_to_symbol a c cs s e)),
    refl,
    s,
  )

  abbrev pub names_of : Option (Info × List (List ℕ)) → Option (List (List ℕ))
  names_of none = none
  names_of (some (i, ns)) = some ns

  names_of-prepend :
      (name : List ℕ) (r : Option (Info × List (List ℕ)))
      → names_of (prepend name r) ≡ join (some name) (names_of r)
  names_of-prepend name none = refl
  names_of-prepend name (some (i, ns)) = refl

  after_name_lem :
      (default : List ℕ) (i : Info) (spec : Option (Option (List ℕ)))
      (rest : Info → Option (Info × List (List ℕ))) (later : List Module → Option (List (List ℕ)))
      (r : Option (Info × List ℕ))
      → Found i spec r
      → ((j : Info)
          → IsSound j.modules j.cache_addr_to_symbol
          → names_of (rest j) ≡ later j.modules)
      → names_of (after_name default rest r) ≡ join (name_or_default default spec) (later i.modules)
  after_name_lem default i spec rest later none h ih = rw h
  after_name_lem default i spec rest later (some (j, name)) h ih =
      names_of-prepend (or_default default name) (rest j)
      ∙ ap (join (some (or_default default name))) (ih j h.2 ∙ ap later h.1)
      ∙ ap (λ n. join n (later i.modules)) (sym (h.0 default))

  -- Over a cache whose names are those of the modules, FindSymbols returns for each address that is
  -- not 0, in order, the name of the symbol of the first module that has one for it, or the default
  -- where there is none or its name is empty: the cache makes no difference.
  pub find_symbols-symbols_of :
      (default : List ℕ) (as' : List ℕ) (i : Info)
      → IsSound i.modules i.cache_addr_to_symbol
      → names_of (find_symbols filter default i as') ≡ symbols_of default i.modules as'
  unfolding find_symbols find_symbol_name symbols_of
  find_symbols-symbols_of default [] i s = refl
  find_symbols-symbols_of default (zero ∷ as') i s = find_symbols-symbols_of default as' i s
  find_symbols-symbols_of default (suc a ∷ as') i s =
      after_name_lem default i (name_in filter i.modules (suc a))
        (λ j. find_symbols filter default j as') (λ ms. symbols_of default ms as')
        (find_symbol_name filter i (suc a))
        (use_cached-Found i (suc a) (cached (suc a) i.cache_addr_to_symbol) refl s)
        (λ j t. find_symbols-symbols_of default as' j t)
