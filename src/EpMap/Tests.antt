-- ===== src/EpMap/Tests.antt =====
-- The map at concrete inputs.
use ern_os.Base.{◌≡◌, refl, true, some, List, [], ◌∷◌}
use ern_os.Base.Int.{ℤ, pos, negsuc}
use ern_os.Bytes.{Bytes, codes}
use ern_os.EpMap.{
  EpMap, create_map, address, is_text, is_pointer, insert_text, map_keys, map_values, map_size,
  home,
}
use ern_os.EpMap.Insert.{Good, Inserted, insert_text-Good}
use ern_os.EpMap.Spec.{Op, insert, get, contains, delete, size, nothing, run_map, run_finite}
use ern_os.EpMap.Refines.{create_map-Good, run_map-run_finite}
use ern_os.EpMap.Listing.{Lists, map_keys-Lists}

-- A number's text, as far as the tests need it.
abbrev decimal : ℤ → Bytes
decimal (pos n) = codes "7"
decimal (negsuc n) = codes "-7"

abbrev strdup : Bytes → ℤ
strdup s = pos 2000000

decimal-is_text : (n : ℤ) → is_text (decimal n) ≡ true
unfolding is_text
decimal-is_text (pos n) = refl
decimal-is_text (negsuc n) = refl

strdup-is_pointer : (s : Bytes) → is_pointer (strdup s) ≡ true
unfolding is_pointer
strdup-is_pointer s = refl

-- `a` and `q` have one home, and `b` has the next one: the deletion moves two entries.
abbrev calls : List Op
calls =
    insert (address (codes "a") (pos 2000000)) (pos 1)
    ∷ insert (address (codes "q") (pos 2000001)) (pos 2)
    ∷ insert (address (codes "b") (pos 2000002)) (pos 3)
    ∷ insert (address [] (pos 5)) (pos 4)
    ∷ delete (address (codes "a") (pos 2000003))
    ∷ get (address (codes "q") (pos 2000004))
    ∷ get (address (codes "b") (pos 2000005))
    ∷ contains (address (codes "a") (pos 2000006))
    ∷ get (address [] (pos 5))
    ∷ size
    ∷ []

homes : home 16 (codes "a") ≡ home 16 (codes "q")
unfolding home
homes = refl

replies :
    run_map decimal strdup create_map calls
    ≡ some (pos 1 ∷ pos 2 ∷ pos 3 ∷ pos 4 ∷ pos 1 ∷ pos 2 ∷ pos 3 ∷ pos 0 ∷ pos 4 ∷ pos 3 ∷ [])
unfolding run_map create_map
replies = refl

run_map-run_finite_example :
    run_map decimal strdup create_map calls ≡ some (run_finite decimal strdup nothing calls)
run_map-run_finite_example =
    run_map-run_finite decimal strdup decimal-is_text strdup-is_pointer calls

one_stored :
    (n : EpMap) × (insert_text create_map (codes "one") (pos 1) ≡ some n)
    × Good n
    × Inserted create_map (codes "one") (pos 1) n
one_stored =
    insert_text-Good create_map (codes "one") (pos 1) create_map-Good (unfold is_text in refl)

map_keys-Lists_example :
    Lists one_stored.0.entries
      (map_size one_stored.0)
      (map_keys one_stored.0.entries)
      (map_values one_stored.0.entries)
map_keys-Lists_example = map_keys-Lists one_stored.0 one_stored.2
