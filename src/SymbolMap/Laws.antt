-- ===== src/SymbolMap/Laws.antt =====
-- A map of the code generator remembers the last value of each key.
use ern_os.Base.{
  ℕ, suc, ◌+◌, ◌≤◌, ◌<◌, ◌≡◌, ◌≢◌, refl, sym, ◌∙◌, ap, inl, inr, true, Option-cases, none, some,
  List, [], ◌∷◌, ◌++◌, arith, Bool-cases, get_or, set, length, length-set, length-append, ◌-◌,
  get_or-set_self, get_or-set_ne, get_or-append_left, get_or-append_right,
}
use ern_os.Base.Int.{ℤ, pos}
use ern_os.Bytes.{Bytes}
use ern_os.Bytes.Compare.{same_text, same_text_refl, same_text_eq, different}
use ern_os.SymbolMap.{SymbolMap, find_key, map_get, map_contains_key, map_put}

-- Where a key is found.
find_key-bounds :
    (key : Bytes) (ks : List Bytes) (n i : ℕ)
    → find_key key ks n ≡ some i
    → (n ≤ i) × (i < n + length ks)
unfolding find_key
find_key-bounds key [] n i h = absurd (let z : none ≡ some i = h in cc)
find_key-bounds key (k ∷ ks) n i h = elim (Bool-cases (same_text key k)) [
  | inl e ↦ let z : n ≡ i = (let g = rw e at h in cc) in (omega arith, omega arith)
  | inr e ↦
      let b = find_key-bounds key ks (n + 1) i (rw e at h) in
      (omega (arith, b.0), omega (arith, b.1))
]

-- A key that is appended is found behind the others; other keys are found where they were.
find_key-append_self :
    (key : Bytes) (ks : List Bytes) (n : ℕ)
    → find_key key ks n ≡ none
    → find_key key (ks ++ key ∷ []) n ≡ some (n + length ks)
unfolding find_key
find_key-append_self key [] n h = rw (same_text_refl key) (ap some (omega arith))
find_key-append_self key (k ∷ ks) n h = elim (Bool-cases (same_text key k)) [
  | inl e ↦ absurd (let z : some n ≡ none = rw e at h in cc)
  | inr e ↦ rw e (find_key-append_self key ks (n + 1) (rw e at h) ∙ ap some (omega arith))
]

find_key-append_other :
    (key other : Bytes) (ks : List Bytes) (n : ℕ)
    → other ≢ key
    → find_key other (ks ++ key ∷ []) n ≡ find_key other ks n
unfolding find_key
find_key-append_other key other [] n h = rw (different other key h) refl
find_key-append_other key other (k ∷ ks) n h = elim (Bool-cases (same_text other k)) [
  | inl e ↦ rw e refl
  | inr e ↦ rw e (find_key-append_other key other ks (n + 1) h)
]

-- What stands where a key is found is the key.
find_key-at :
    (key : Bytes) (ks : List Bytes) (n i : ℕ)
    → find_key key ks n ≡ some i
    → key ≡ get_or ks (i - n) []
unfolding find_key
find_key-at key [] n i h = absurd (let z : none ≡ some i = h in cc)
find_key-at key (k ∷ ks) n i h = elim (Bool-cases (same_text key k)) [
  | inl e ↦
      let z : n ≡ i = (let g = rw e at h in cc) in
      same_text_eq key k e ∙ ap (λ j. get_or (k ∷ ks) j []) (let y : 0 ≡ i - n = omega arith in y)
  | inr e ↦
      let g = rw e at h in
      let b = find_key-bounds key ks (n + 1) i g in
      find_key-at key ks (n + 1) i g
      ∙ ap (λ j. get_or (k ∷ ks) j []) (let y : suc (i - (n + 1)) ≡ i - n = omega (arith, b.0) in y)
]

-- Two keys that are found at one place are equal.
find_key-injective :
    (a b : Bytes) (ks : List Bytes) (n i : ℕ)
    → find_key a ks n ≡ some i
    → find_key b ks n ≡ some i
    → a ≡ b
find_key-injective a b ks n i h k = find_key-at a ks n i h ∙ sym (find_key-at b ks n i k)

-- As many values as keys.
abbrev pub IsAligned : SymbolMap → Type 0
IsAligned m = length m.values ≡ length m.keys

-- What `m'` remembers: `val` for the key, and what `m` does for every other one.
pub record Remembers (m : SymbolMap) (key : Bytes) (val : ℤ) (m' : SymbolMap) : Type 0 where
  pub aligned : IsAligned m'
  pub here : map_get m' key ≡ val
  pub contained : map_contains_key m' key ≡ true
  pub elsewhere : (other : Bytes) → other ≢ key → map_get m' other ≡ map_get m other
  pub others : (other : Bytes) → other ≢ key → map_contains_key m' other ≡ map_contains_key m other

-- A key that is there: its value is overwritten.
put_found :
    (m : SymbolMap) (key : Bytes) (val : ℤ) (i : ℕ)
    → IsAligned m
    → find_key key m.keys 0 ≡ some i
    → Remembers m key val (record m { values = set m.values i val })
unfolding map_get map_contains_key
put_found m key val i al e = record {
  aligned = length-set m.values i val ∙ al;
  here =
      let inside : i < length m.values = omega (arith, al, (find_key-bounds key m.keys 0 i e).1) in
      rw (e, map_get) (get_or-set_self m.values i val (pos 0) inside);
  contained = rw (e, map_contains_key) refl;
  elsewhere = λ other n. elim (Option-cases (find_key other m.keys 0)) [
    | inl g ↦ rw (g, map_get) refl
    | inr (j, g) ↦
        rw (g, map_get)
          (get_or-set_ne m.values i j val (pos 0)
            λ same. n (find_key-injective other key m.keys 0 i (g ∙ ap some (sym same)) e))
  ];
  others = λ other n. refl;
}

-- A key that is not there: it is appended with its value.
put_new :
    (m : SymbolMap) (key : Bytes) (val : ℤ)
    → IsAligned m
    → find_key key m.keys 0 ≡ none
    → Remembers m key val (record { keys = m.keys ++ key ∷ []; values = m.values ++ val ∷ [] })
unfolding map_get map_contains_key
put_new m key val al e =
    let found = find_key-append_self key m.keys 0 e in
    record {
      aligned =
          omega (arith, length-append m.values (val ∷ []), length-append m.keys (key ∷ []), al);
      here =
          rw (found, map_get)
            (ap (λ j. get_or (m.values ++ val ∷ []) j (pos 0))
                (let y : 0 + length m.keys ≡ length m.values + 0 = omega (arith, al) in y)
              ∙ get_or-append_right m.values (val ∷ []) 0 (pos 0));
      contained = rw (found, map_contains_key) refl;
      elsewhere = λ other n.
          let same = find_key-append_other key other m.keys 0 n in
          elim (Option-cases (find_key other m.keys 0)) [
            | inl g ↦ rw (map_get, same, g) refl
            | inr (j, g) ↦
                let inside : j < length m.values =
                  omega (arith, al, (find_key-bounds other m.keys 0 j g).1) in
                rw (map_get, same, g) (get_or-append_left m.values (val ∷ []) j (pos 0) inside)
          ];
      others = λ other n. rw (map_contains_key, find_key-append_other key other m.keys 0 n) refl;
    }

-- After `map_put` on a map with as many values as keys, `map_get` gives the new value for the
-- key and the old one for every other key, `map_contains_key` tells the key and no other new one,
-- and there are as many values as keys.
pub map_put-Remembers :
    (m : SymbolMap) (key : Bytes) (val : ℤ) → IsAligned m → Remembers m key val (map_put m key val)
unfolding map_put
map_put-Remembers m key val al = elim (Option-cases (find_key key m.keys 0)) [
  | inl e ↦ rw (e, map_put) (put_new m key val al e)
  | inr (i, e) ↦ rw (e, map_put) (put_found m key val i al e)
]
