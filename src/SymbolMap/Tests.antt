-- ===== src/SymbolMap/Tests.antt =====
-- The maps of the code generator at a concrete input.
use ern_os.Base.{◌≡◌, refl, [], ◌∷◌}
use ern_os.Base.Int.{pos}
use ern_os.Bytes.{codes}
use ern_os.SymbolMap.{SymbolMap, map_put}
use ern_os.SymbolMap.Laws.{Remembers, map_put-Remembers}

abbrev types : SymbolMap
types = record { keys = codes "n" ∷ codes "name" ∷ []; values = pos 1 ∷ pos 3 ∷ [] }

map_put-twice : map_put (map_put types (codes "name") (pos 4)) (codes "m") (pos 5) ≡ record {
  keys = codes "n" ∷ codes "name" ∷ codes "m" ∷ [];
  values = pos 1 ∷ pos 4 ∷ pos 5 ∷ [];
}
unfolding map_put
map_put-twice = refl

map_put-Remembers_example :
    Remembers types (codes "name") (pos 4) (map_put types (codes "name") (pos 4))
map_put-Remembers_example = map_put-Remembers types (codes "name") (pos 4) refl
