-- ===== src/Containers/LookupTable/Tests.antt =====
-- The theorems of threadsafe_lookup_table.hpp at a table with numbers for keys, which std::hash
-- may leave as they are.

use playground_cpp.Common.{ℕ, ◌≡◌, refl, some, List, arith, ℕ_discrete}
use playground_cpp.Containers.LookupTable.{init, add_or_update, value_for, get_map}
use playground_cpp.Containers.LookupTable.Laws.{Changed, init-Inv, table_is_map}

abbrev same : ℕ → ℕ
same k = k

abbrev Table : Type 0
Table = List (List (ℕ × ℕ))

abbrev empty_table : Table
empty_table = init ℕ_discrete same 19

-- Keys 1 and 20 share a bucket of 19.
collide :
    (t u : Table) × (add_or_update ℕ_discrete same 1 100 empty_table ≡ some t)
    × (add_or_update ℕ_discrete same 20 200 t ≡ some u)
    × (value_for ℕ_discrete same 1 0 u ≡ some 100)
    × (value_for ℕ_discrete same 20 0 u ≡ some 200)
    × (value_for ℕ_discrete same 39 7 u ≡ some 7)
    × (get_map ℕ_discrete u 20 ≡ some 200)
unfolding add_or_update value_for get_map ℕ_discrete
collide = (_, _, refl, refl, refl, refl, refl, refl)

table_is_map_example :
    (t : Table) × (add_or_update ℕ_discrete same 5 50 empty_table ≡ some t)
    × Changed ℕ_discrete same empty_table 5 (some 50) t
table_is_map_example =
    (table_is_map ℕ_discrete same empty_table 5 (init-Inv ℕ_discrete same 19 (omega arith))).1 50
