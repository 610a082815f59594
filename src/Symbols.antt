-- ===== src/Symbols.antt =====
-- pkg/tools/profiling/api.go: from the addresses of a stack to the names of the symbols. An address
-- is a uint64 below 2 ^ 64, a name the list of its bytes. The demangling of a name is a library's,
-- and a parameter `filter`.
pub mod Search
pub mod Names
use skywalking_rover.Common.{
  ℕ, zero, suc, ◌+◌, ◌-◌, ◌/◌, ◌%◌, ◌^◌, Bool, true, false, ◌&&◌, ◌||◌, List, [], ◌∷◌, ◌++◌, Option,
  none, some, ltb, leb, ◌==◌, if◌then◌else◌, length, get_elem?,
}

abbrev pub address_space : ℕ
address_space = 2 ^ 64

pub record Symbol : Type 0 where
  pub name : List ℕ
  pub location : ℕ

pub record ModuleRange : Type 0 where
  pub start_addr : ℕ
  pub end_addr : ℕ
  pub file_offset : ℕ

pub data ModuleType : Type 0 where
  exec so perf_map vdso unknown : ModuleType

pub record Module : Type 0 where
  pub ranges : List ModuleRange
  pub type : ModuleType
  pub so_offset : ℕ
  pub so_addr : ℕ
  pub symbols : List Symbol

abbrev pub is_shared : ModuleType → Bool
is_shared so = true
is_shared vdso = true
is_shared _ = false

-- The offset of an address that the first fitting range gives.
unfoldable pub offset_in : Module → ℕ → List ModuleRange → Option ℕ
offset_in m addr [] = none
offset_in m addr (r ∷ rs) =
    if leb r.start_addr addr && ltb addr r.end_addr
    then some (
        if is_shared m.type
        then (addr - r.start_addr + r.file_offset + m.so_addr + (address_space - m.so_offset))
          % address_space
        else addr)
    else offset_in m addr rs

unfoldable pub contains : Module → ℕ → Option ℕ
unfolding offset_in
contains m addr = offset_in m addr m.ranges

-- int64(a) - int64(b) below zero, and above: the difference wraps, and its top bit is the sign.
unfoldable pub is_negative : ℕ → ℕ → Bool
is_negative a b = leb (2 ^ 63) ((a + address_space - b) % address_space)

unfoldable pub is_positive : ℕ → ℕ → Bool
is_positive a b = let d = (a + address_space - b) % address_space in ltb 0 d && ltb d (2 ^ 63)

-- How the loop of findAddr ends: at a symbol, at an index, by an index out of range, or out of fuel.
pub data SearchEnd : Type 0 where
  hit : Symbol → SearchEnd
  stop : (start : ℕ) → SearchEnd
  fault out_of_fuel : SearchEnd

-- A round of the loop at the symbol in the middle, given the two searches that it may go on with.
unfoldable pub search_at : ℕ → Option Symbol → (left right : SearchEnd) → SearchEnd
unfolding is_negative is_positive
search_at offset none left right = fault
search_at offset (some s) left right =
    if is_negative offset s.location
    then left
    else if is_positive offset s.location
    then right
    else hit s

unfoldable pub search : ℕ → List Symbol → ℕ → (start end' : ℕ) → SearchEnd
unfolding search_at
search zero symbols offset start end' = out_of_fuel
search (suc fuel) symbols offset start end' =
    let mid = start + (end' - start) / 2 in
    let left = search fuel symbols offset start mid in
    let right = search fuel symbols offset (mid + 1) end' in
    if ltb start end' then search_at offset (get_elem? symbols mid) left right else stop start

-- The test behind the loop. In Go the first part of `&&` keeps the index in range.
unfoldable pub symbol_before : List Symbol → ℕ → ℕ → Option Symbol
symbol_before symbols offset zero = none
symbol_before symbols offset (suc k) = elim (get_elem? symbols k) [
  | none ↦ none
  | some before ↦ elim (get_elem? symbols (suc k)) [
    | none ↦ none
    | some here ↦
        if ltb before.location offset && ltb offset here.location then some before else none
  ]
]

unfoldable pub finish_search : List Symbol → ℕ → SearchEnd → Option (Option Symbol)
unfolding symbol_before
finish_search symbols offset (hit s) = some (some s)
finish_search symbols offset (stop k) = some (symbol_before symbols offset k)
finish_search symbols offset fault = none
finish_search symbols offset out_of_fuel = none

-- findAddr; the outer `none` is a panic or fuel that ran out. The range of the search shrinks in
-- each round, so as many rounds as there are symbols, and one, are enough. For no symbols `end` is
-- -1 in the source and 0 here; the loop does not start in either.
unfoldable pub find_addr : List Symbol → ℕ → Option (Option Symbol)
unfolding search finish_search
find_addr symbols offset =
    finish_search symbols offset
      (search (suc (length symbols)) symbols offset 0 (length symbols - 1))

-- processSymbolName
unfoldable pub process_symbol_name : (List ℕ → List ℕ) → List ℕ → List ℕ
process_symbol_name filter [] = []
process_symbol_name filter (c ∷ cs) = if c == b'.' || c == b'$' then filter cs else filter (c ∷ cs)

-- The cache cacheAddrToSymbol is an association list, its latest entry first.
pub record Info : Type 0 where
  pub modules : List Module
  pub cache_addr_to_symbol : List (ℕ × List ℕ)

-- cacheAddrToSymbol[address]: the empty name for a missing key.
unfoldable pub cached : ℕ → List (ℕ × List ℕ) → List ℕ
cached address [] = []
cached address ((a, name) ∷ rest) = if a == address then name else cached address rest

-- The loop over the modules: the name of the first symbol that is found, or `none` inside if there
-- is none.
unfoldable pub name_in : (List ℕ → List ℕ) → List Module → ℕ → Option (Option (List ℕ))
unfolding contains find_addr process_symbol_name
name_in filter [] address = some none
name_in filter (m ∷ ms) address =
    let rest = name_in filter ms address in
    elim (contains m address) [
      | none ↦ rest
      | some offset ↦ elim (find_addr m.symbols offset) [
        | none ↦ none
        | some none ↦ rest
        | some (some s) ↦ some (some (process_symbol_name filter s.name))
      ]
    ]

abbrev pub keep_name : Info → ℕ → Option (Option (List ℕ)) → Option (Info × List ℕ)
keep_name i address none = none
keep_name i address (some none) = some (i, [])
keep_name i address (some (some name)) =
    some (record i { cache_addr_to_symbol = (address, name) ∷ i.cache_addr_to_symbol }, name)

-- A name of the cache is used if it is not empty.
abbrev pub use_cached : Info → List ℕ → Option (Info × List ℕ) → Option (Info × List ℕ)
use_cached i [] found = found
use_cached i (c ∷ cs) found = some (i, c ∷ cs)

unfoldable pub find_symbol_name : (List ℕ → List ℕ) → Info → ℕ → Option (Info × List ℕ)
unfolding cached name_in
find_symbol_name filter i address =
    use_cached i (cached address i.cache_addr_to_symbol)
      (keep_name i address (name_in filter i.modules address))

abbrev pub or_default : List ℕ → List ℕ → List ℕ
or_default default [] = default
or_default default (c ∷ cs) = c ∷ cs

abbrev pub prepend : List ℕ → Option (Info × List (List ℕ)) → Option (Info × List (List ℕ))
prepend name none = none
prepend name (some (i, names)) = some (i, name ∷ names)

-- What follows the lookup of a name: `rest` is the loop over the other addresses.
abbrev pub after_name :
    List ℕ
    → (Info → Option (Info × List (List ℕ)))
    → Option (Info × List ℕ)
    → Option (Info × List (List ℕ))
after_name default rest none = none
after_name default rest (some (i, name)) = prepend (or_default default name) (rest i)

-- FindSymbols; the address 0 is passed over.
unfoldable pub find_symbols :
    (List ℕ → List ℕ) → List ℕ → Info → List ℕ → Option (Info × List (List ℕ))
unfolding find_symbol_name
find_symbols filter default i [] = some (i, [])
find_symbols filter default i (zero ∷ as') = find_symbols filter default i as'
find_symbols filter default i (suc a ∷ as') =
    after_name default (λ i'. find_symbols filter default i' as')
      (find_symbol_name filter i (suc a))

abbrev bytes_equal : List ℕ → List ℕ → Bool
bytes_equal [] [] = true
bytes_equal (x ∷ xs) (y ∷ ys) = x == y && bytes_equal xs ys
bytes_equal _ _ = false

unfoldable pub address_in : List ℕ → List Symbol → Option ℕ
address_in name [] = none
address_in name (s ∷ ss) = if bytes_equal s.name name then some s.location else address_in name ss

unfoldable pub find_symbol_address : List ℕ → List Module → ℕ
unfolding address_in
find_symbol_address name [] = 0
find_symbol_address name (m ∷ ms) = elim (address_in name m.symbols) [
  | none ↦ find_symbol_address name ms
  | some location ↦ location
]

-- FindMultipleSymbolByRegex, over the test of the compiled expression.
unfoldable pub matching_symbols : (List ℕ → Bool) → List Symbol → List (List ℕ)
matching_symbols test [] = []
matching_symbols test (s ∷ ss) =
    if test s.name then s.name ∷ matching_symbols test ss else matching_symbols test ss

unfoldable pub matching_modules : (List ℕ → Bool) → List Module → List (List ℕ)
unfolding matching_symbols
matching_modules test [] = []
matching_modules test (m ∷ ms) = matching_symbols test m.symbols ++ matching_modules test ms

-- `none` is the error that nothing matches.
unfoldable pub find_multiple_symbol_by_regex :
    (List ℕ → Bool) → List Module → Option (List (List ℕ))
unfolding matching_modules
find_multiple_symbol_by_regex test ms = elim (matching_modules test ms) [
  | [] ↦ none
  | n ∷ ns ↦ some (n ∷ ns)
]
