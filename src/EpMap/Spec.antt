-- ===== src/EpMap/Spec.antt =====
-- The finite map that a table stands for, and runs of calls on both.
use ern_os.Base.{ℕ, ◌+◌, ◌-◌, Bool, Option, none, some, List, [], ◌∷◌, if◌then◌else◌}
use ern_os.Base.Int.{ℤ, pos}
use ern_os.Bytes.{Bytes}
use ern_os.Bytes.Compare.{same_text}
use ern_os.EpMap.{
  EpMap, Key, ep_map_key_str, map_insert, map_get_val, map_contains, map_delete, map_size,
}

-- The value of each text that has one, and how many have one.
pub record Finite : Type 0 where
  pub find : Bytes → Option ℤ
  pub number : ℕ

abbrev pub nothing : Finite
nothing = record { find = λ k. none; number = 0 }

abbrev pub put : Finite → Bytes → ℤ → Finite
put s k v = record {
  find = λ k'. if same_text k' k then some v else s.find k';
  number = elim (s.find k) [ none ↦ s.number + 1 | some w ↦ s.number ];
}

abbrev pub remove : Finite → Bytes → Finite
remove s k = record {
  find = λ k'. if same_text k' k then none else s.find k';
  number = elim (s.find k) [ none ↦ s.number | some w ↦ s.number - 1 ];
}

pub data Op : Type 0 where
  insert : Key → ℤ → Op
  get : Key → Op
  contains : Key → Op
  delete : Key → Op
  size : Op

abbrev pub bit : Bool → ℤ
bit b = if b then pos 1 else pos 0

module _ (decimal : ℤ → Bytes) (strdup : Bytes → ℤ) where
  -- A call's reply and the map behind it; `none` where the call does not end.
  unfoldable pub step_map : EpMap → Op → Option (ℤ × EpMap)
  unfolding map_insert map_get_val map_contains map_delete map_size
  step_map m (insert k v) = elim (map_insert decimal strdup m k v) [
    | none ↦ none
    | some n ↦ some (v, n)
  ]
  step_map m (get k) = some (map_get_val decimal strdup m k, m)
  step_map m (contains k) = some (bit (map_contains decimal strdup m k), m)
  step_map m (delete k) = elim (map_delete decimal strdup m k) [
    | none ↦ none
    | some (n, b) ↦ some (bit b, n)
  ]
  step_map m size = some (pos (map_size m), m)

  unfoldable pub run_map : EpMap → List Op → Option (List ℤ)
  unfolding step_map
  run_map m [] = some []
  run_map m (o ∷ os) = elim (step_map m o) [
    | none ↦ none
    | some (r, n) ↦ elim (run_map n os) [ none ↦ none | some rs ↦ some (r ∷ rs) ]
  ]

  unfoldable pub step_finite : Finite → Op → ℤ × Finite
  unfolding ep_map_key_str
  step_finite s (insert k v) = (v, put s (ep_map_key_str decimal strdup k) v)
  step_finite s (get k) =
      (elim (s.find (ep_map_key_str decimal strdup k)) [ none ↦ pos 0 | some v ↦ v ], s)
  step_finite s (contains k) =
      (elim (s.find (ep_map_key_str decimal strdup k)) [ none ↦ pos 0 | some v ↦ pos 1 ], s)
  step_finite s (delete k) =
      let key = ep_map_key_str decimal strdup k in
      (elim (s.find key) [ none ↦ pos 0 | some v ↦ pos 1 ], remove s key)
  step_finite s size = (pos s.number, s)

  unfoldable pub run_finite : Finite → List Op → List ℤ
  unfolding step_finite
  run_finite s [] = []
  run_finite s (o ∷ os) = let (r, t) = step_finite s o in r ∷ run_finite t os
