-- ===== src/Examples/Names.antt =====
-- Runs of the theorems on the symbols of a process: a at 16, b at 32, c at 48.
use skywalking_rover.Common.{◌≡◌, ◌+◌, ◌^◌, refl, arith, List, [], ◌∷◌, none, some}
use skywalking_rover.Symbols.{Symbol, Module, exec, Info, find_addr, find_symbols, name_in}
use skywalking_rover.Symbols.Search.{covering, find_addr-covering}
use skywalking_rover.Symbols.Names.{names_of, symbols_of, find_symbols-symbols_of}

abbrev program : List Symbol
program =
    record { name = b'a' ∷ []; location = 16 }
    ∷ record { name = b'b' ∷ []; location = 32 }
    ∷ record { name = b'c' ∷ []; location = 48 }
    ∷ []

abbrev binary : Module
binary = record {
  ranges = record { start_addr = 0; end_addr = 64; file_offset = 0 } ∷ [];
  type = exec;
  so_offset = 0;
  so_addr = 0;
  symbols = program;
}

abbrev binary_info : Info
binary_info = record { modules = binary ∷ []; cache_addr_to_symbol = (20, b'a' ∷ []) ∷ [] }

find_addr_test : find_addr program 40 ≡ some (some (record { name = b'b' ∷ []; location = 32 }))
unfolding find_addr
find_addr_test = refl

-- Not even the address of the last symbol is found.
find_addr-last_test : find_addr program 48 ≡ some none
unfolding find_addr
find_addr-last_test = refl

-- The difference to c does not fit into an int64, so the search goes the wrong way and misses t.
abbrev kernel : List Symbol
kernel =
    record { name = b'b' ∷ []; location = 32 }
    ∷ record { name = b'c' ∷ []; location = 64 }
    ∷ record { name = b't' ∷ []; location = 2 ^ 63 + 192 }
    ∷ record { name = b'u' ∷ []; location = 2 ^ 63 + 256 }
    ∷ []

find_addr-far_test : find_addr kernel (2 ^ 63 + 200) ≡ some none
unfolding find_addr
find_addr-far_test = refl

find_addr_example : find_addr program 40 ≡ some (covering 40 program)
find_addr_example =
    find_addr-covering program 40 ((omega arith, (omega arith, tt)), ((omega arith, tt), (tt, tt)))
      (omega arith)
      (
        (omega arith, omega arith, omega arith),
        ((omega arith, omega arith, omega arith), ((omega arith, omega arith, omega arith), tt)),
      )

entry : name_in (λ n. n) (binary ∷ []) 20 ≡ some (some (b'a' ∷ []))
unfolding name_in
entry = refl

find_symbols_example :
    names_of (λ n. n) (find_symbols (λ n. n) (b'?' ∷ []) binary_info (20 ∷ 0 ∷ 40 ∷ 48 ∷ []))
    ≡ symbols_of (λ n. n) (b'?' ∷ []) (binary ∷ []) (20 ∷ 0 ∷ 40 ∷ 48 ∷ [])
find_symbols_example =
    find_symbols-symbols_of (λ n. n) (b'?' ∷ []) (20 ∷ 0 ∷ 40 ∷ 48 ∷ []) binary_info (entry, tt)
