-- ===== src/EpMap/Listing.antt =====
-- map_keys and map_values list what the table holds.
use ern_os.Base.{
  ℕ, zero, suc, ◌<◌, ◌≡◌, refl, sym, ap, subst, Option, none, some, List, [], ◌∷◌, arith, length,
  get_or,
}
use ern_os.Base.Int.{ℤ, pos}
use ern_os.Bytes.{Bytes}
use ern_os.EpMap.{Entry, EpMap, slot, map_keys, map_values, map_size}
use ern_os.EpMap.Slots.{some-not-none, count}
use ern_os.EpMap.Table.{Holds}
use ern_os.EpMap.Insert.{Good}

-- Two lists that hold the keys and the values of a table, one under the other.
pub record Lists (es : List (Option Entry)) (n : ℕ) (ks : List Bytes) (vs : List ℤ) : Type 0 where
  pub keys : length ks ≡ n
  pub values : length vs ≡ n
  pub listed :
      (k : Bytes) (v : ℤ)
      → Holds es k v
      → (j : ℕ) × (j < n) × (get_or ks j [] ≡ k) × (get_or vs j (pos 0) ≡ v)
  pub held : (j : ℕ) → j < n → Holds es (get_or ks j []) (get_or vs j (pos 0))

count-Lists : (es : List (Option Entry)) → Lists es (count es) (map_keys es) (map_values es)
unfolding map_keys map_values
count-Lists [] = record {
  keys = refl;
  values = refl;
  listed = λ k v (i, h). absurd (some-not-none (sym h));
  held = λ j l. elim l [ ];
}
count-Lists (none ∷ es) =
    let r = count-Lists es in
    record {
      keys = r.keys;
      values = r.values;
      listed = λ k v (i, h). shift k v i h r;
      held = λ j l. let (i, h) = r.held j l in (suc i, h);
    }
  where
    shift :
        (k : Bytes) (v : ℤ) (i : ℕ)
        → slot (none ∷ es) i ≡ some (k, v)
        → Lists es (count es) (map_keys es) (map_values es)
        → (j : ℕ) × (j < count es)
          × (get_or (map_keys es) j [] ≡ k)
          × (get_or (map_values es) j (pos 0) ≡ v)
    shift k v zero h r = absurd (some-not-none (sym h))
    shift k v (suc i) h r = r.listed k v (i, h)
count-Lists (some (key, value) ∷ es) =
    let r = count-Lists es in
    record {
      keys = ap suc r.keys;
      values = ap suc r.values;
      listed = λ k v (i, h). find k v i h r;
      held = λ j l. at j l r;
    }
  where
    find :
        (k : Bytes) (v : ℤ) (i : ℕ)
        → slot (some (key, value) ∷ es) i ≡ some (k, v)
        → Lists es (count es) (map_keys es) (map_values es)
        → (j : ℕ) × (j < suc (count es))
          × (get_or (key ∷ map_keys es) j [] ≡ k)
          × (get_or (value ∷ map_values es) j (pos 0) ≡ v)
    find k v zero h r =
        let same_key : key ≡ k = cc in
        let same_value : value ≡ v = cc in (0, omega arith, same_key, same_value)
    find k v (suc i) h r = let (j, l, a, b) = r.listed k v (i, h) in (suc j, omega (arith, l), a, b)

    at :
        (j : ℕ)
        → j < suc (count es)
        → Lists es (count es) (map_keys es) (map_values es)
        → Holds
            (some (key, value) ∷ es)
            (get_or (key ∷ map_keys es) j [])
            (get_or (value ∷ map_values es) j (pos 0))
    at zero l r = (0, refl)
    at (suc j) l r = let (i, h) = r.held j (omega arith) in (suc i, h)

-- For a table in order, map_keys and map_values have map_size places, and list one under the other
-- exactly the keys that the table holds with their values.
pub map_keys-Lists :
    (m : EpMap) → Good m → Lists m.entries (map_size m) (map_keys m.entries) (map_values m.entries)
unfolding map_size
map_keys-Lists m good =
    subst (λ n. Lists m.entries n (map_keys m.entries) (map_values m.entries)) good.inv.counted
      (count-Lists m.entries)
