-- ===== src/SymbolMap.antt =====
-- The maps of the code generator, map_get, map_contains_key and map_put of
-- toolchain/epc_bootstrap.c: two lists of the runtime, of keys and of values, searched in order.
pub mod Laws
mod Tests
use ern_os.Base.{
  ℕ, zero, suc, ◌+◌, Bool, true, false, Option, none, some, List, [], ◌∷◌, ◌++◌, if◌then◌else◌,
  get_or, set, length,
}
use ern_os.Base.Int.{ℤ, pos}
use ern_os.Bytes.{Bytes}
use ern_os.Bytes.Compare.{same_text}

pub record SymbolMap : Type 0 where
  pub keys : List Bytes
  pub values : List ℤ

-- The loop, from an index on: the first key that is equal.
unfoldable pub find_key : Bytes → List Bytes → ℕ → Option ℕ
unfolding same_text
find_key key [] idx = none
find_key key (k ∷ ks) idx = if same_text key k then some idx else find_key key ks (idx + 1)

unfoldable pub map_get : SymbolMap → Bytes → ℤ
unfolding find_key
map_get m key = elim (find_key key m.keys 0) [ none ↦ pos 0 | some i ↦ get_or m.values i (pos 0) ]

unfoldable pub map_contains_key : SymbolMap → Bytes → Bool
unfolding find_key
map_contains_key m key = elim (find_key key m.keys 0) [ none ↦ false | some i ↦ true ]

unfoldable pub map_put : SymbolMap → Bytes → ℤ → SymbolMap
unfolding find_key
map_put m key val = elim (find_key key m.keys 0) [
  | none ↦ record { keys = m.keys ++ key ∷ []; values = m.values ++ val ∷ [] }
  | some i ↦ record m { values = set m.values i val }
]
