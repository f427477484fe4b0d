-- ===== src/EpMap/Resize.antt =====
-- map_resize moves every entry to the larger table.
use ern_os.Base.{
  ℕ, zero, suc, ◌+◌, ◌<◌, ◌≡◌, ◌⊎◌, refl, sym, ap, ap₂, ◌∙◌, subst, inl, inr, true, Option, none,
  some, List, [], ◌∷◌, arith, length, length-replicate, set, replicate,
}
use ern_os.Base.Int.{ℤ}
use ern_os.Bytes.{Bytes}
use ern_os.EpMap.{Entry, EpMap, slot, home, is_text, rehash, map_resize}
use ern_os.EpMap.Slots.{count, room-free, count-replicate, slot-replicate, some-not-none}
use ern_os.EpMap.Probe.{free_slot-FirstFree}
use ern_os.EpMap.Table.{Inv, Holds, Absent, home-lt, slot-set_entry, place-Inv, place-Stores}

-- The entries of a part of a table, which stand once and are not in another table.
record Fresh (old es : List (Option Entry)) : Type 0 where
  alone :
      (i j : ℕ) (k : Bytes) (v w : ℤ) → slot old i ≡ some (k, v) → slot old j ≡ some (k, w) → i ≡ j
  texts : (i : ℕ) (k : Bytes) (v : ℤ) → slot old i ≡ some (k, v) → is_text k ≡ true
  apart : (i : ℕ) (k : Bytes) (v : ℤ) → slot old i ≡ some (k, v) → Absent es k

-- A table with the entries of another one and of a part.
record Joins (old : List (Option Entry)) (m n : EpMap) : Type 0 where
  inv : Inv n.entries n.capacity n.size
  same_capacity : n.capacity ≡ m.capacity
  sizes : n.size ≡ count old + m.size
  moved : (k : Bytes) (v : ℤ) → Holds old k v ⊎ Holds m.entries k v → Holds n.entries k v
  only : (k : Bytes) (v : ℤ) → Holds n.entries k v → Holds old k v ⊎ Holds m.entries k v

Fresh-tail : {o : Option Entry} {old es : List (Option Entry)} → Fresh (o ∷ old) es → Fresh old es
Fresh-tail f = record {
  alone = λ i j k v w h g. let e = f.alone (suc i) (suc j) k v w h g in omega arith;
  texts = λ i k v h. f.texts (suc i) k v h;
  apart = λ i k v h. f.apart (suc i) k v h;
}

rehash-Joins :
    (old : List (Option Entry)) (m : EpMap)
    → Inv m.entries m.capacity m.size
    → Fresh old m.entries
    → count old + m.size < m.capacity
    → (n : EpMap) × (rehash old m ≡ some n) × Joins old m n
unfolding rehash
rehash-Joins [] m inv f room = (
  m,
  refl,
  record {
    inv = inv;
    same_capacity = refl;
    sizes = omega arith;
    moved = λ k v. elim [ inl (i, h) ↦ absurd (some-not-none (sym h)) | inr h ↦ h ];
    only = λ k v h. inr h;
  },
)
rehash-Joins (none ∷ old) m inv f room =
    let (n, e, j) = rehash-Joins old m inv (Fresh-tail f) room in
    (
      n,
      e,
      record {
        inv = j.inv;
        same_capacity = j.same_capacity;
        sizes = j.sizes;
        moved = λ k v h. j.moved k v (shift k v h);
        only = λ k v h. elim (j.only k v h) [ inl (i, g) ↦ inl (suc i, g) | inr g ↦ inr g ];
      },
    )
  where
    shift :
        (k : Bytes) (v : ℤ)
        → Holds (none ∷ old) k v ⊎ Holds m.entries k v
        → Holds old k v ⊎ Holds m.entries k v
    shift k v (inl (zero, h)) = absurd (some-not-none (sym h))
    shift k v (inl (suc i, h)) = inl (i, h)
    shift k v (inr h) = inr h
rehash-Joins (some (key, value) ∷ old) m inv f room =
    let (t, ht, target) = room-free m.entries (omega (arith, inv.counted, inv.len)) in
    let start = home-lt m.capacity key inv.positive in
    let (y, g, first) =
      free_slot-FirstFree m.entries m.capacity (home m.capacity key) t start
        (omega (arith, ht, inv.len)) target in
    let gone = f.apart 0 key value refl in
    let placed = place-Inv inv y t key value first gone (f.texts 0 key value refl) in
    let m' = record m { entries = set m.entries y (some (key, value)); size = m.size + 1 } in
    let more : suc m.size ≡ m.size + 1 = omega arith in
    let stores = place-Stores inv y t key value first gone in
    let inside : y < length m.entries = omega (arith, first.inside, inv.len) in
    let (n, e, j) =
      rehash-Joins old m' (subst (Inv m'.entries m.capacity) more placed) (fresh y inside)
        (omega arith) in
    (
      n,
      rw (g, rehash) e,
      record {
        inv = j.inv;
        same_capacity = j.same_capacity;
        sizes = omega (arith, j.sizes);
        moved = λ k v. elim [
          | inl (zero, h) ↦
              let same : ◌≡◌ {A = Option Entry} (some (key, value)) (some (k, v)) = h in
              let same_key : key ≡ k = cc in
              let same_value : value ≡ v = cc in
              j.moved k v (
                inr (
                  subst (λ x. Holds m'.entries x v) same_key
                    (subst (Holds m'.entries key) same_value stores.here)))
          | inl (suc i, h) ↦ j.moved k v (inl (i, h))
          | inr (i, h) ↦
              j.moved k v
                (inr (stores.kept k v (λ s. gone i v (h ∙ ap (λ x. some (x, v)) s)) (i, h)))
        ];
        only = λ k v h. elim (j.only k v h) [
          | inl (i, g) ↦ inl (suc i, g)
          | inr g ↦ elim (stores.only k v g) [
            | inl (s, w) ↦ inl (0, ap₂ (λ x z. some (x, z)) (sym s) (sym w))
            | inr (_, h) ↦ inr h
          ]
        ];
      },
    )
  where
    fresh : (y : ℕ) → y < length m.entries → Fresh old (set m.entries y (some (key, value)))
    fresh y inside = record {
      alone = Fresh.alone (Fresh-tail f);
      texts = Fresh.texts (Fresh-tail f);
      apart = λ i k v h j w g. elim (slot-set_entry m.entries y key k value w j inside g) [
        | inl (_, s, _) ↦
            let zero_is : suc i ≡ 0 =
              f.alone (suc i) 0 key v value (h ∙ ap (λ x. some (x, v)) s) refl in
            let no : ⊥ = omega arith in no
        | inr (_, g') ↦ f.apart (suc i) k v h j w g'
      ];
    }

-- The larger table holds what the smaller one held.
pub record Resized (m n : EpMap) : Type 0 where
  pub inv : Inv n.entries n.capacity n.size
  pub sizes : n.size ≡ m.size
  pub moved : (k : Bytes) (v : ℤ) → Holds m.entries k v → Holds n.entries k v
  pub only : (k : Bytes) (v : ℤ) → Holds n.entries k v → Holds m.entries k v

pub map_resize-Resized :
    (m : EpMap) (wide : ℕ)
    → Inv m.entries m.capacity m.size
    → m.size < wide
    → (n : EpMap) × (map_resize m wide ≡ some n) × (n.capacity ≡ wide) × Resized m n
unfolding map_resize
map_resize-Resized m wide inv room =
    let empty : EpMap = record { entries = replicate wide none; capacity = wide; size = 0 } in
    let (n, e, j) = rehash-Joins m.entries empty new fresh (omega (arith, inv.counted)) in
    (
      n,
      e,
      j.same_capacity,
      record {
        inv = j.inv;
        sizes = omega (arith, j.sizes, inv.counted);
        moved = λ k v h. j.moved k v (inl h);
        only = λ k v h. elim (j.only k v h) [ inl g ↦ g | inr (i, g) ↦ absurd (nothing i g) ];
      },
    )
  where
    nothing : (i : ℕ) {x : Entry} → slot (replicate wide none) i ≡ some x → ⊥
    nothing i h = some-not-none (sym h ∙ slot-replicate wide i)

    new : Inv (replicate wide none) wide 0
    new = record {
      len = length-replicate wide none;
      positive = omega arith;
      path = λ i k v h. absurd (nothing i h);
      alone = λ i j k v w h. absurd (nothing i h);
      counted = count-replicate wide;
      texts = λ i k v h. absurd (nothing i h);
    }

    fresh : Fresh m.entries (replicate wide none)
    fresh = record { alone = inv.alone; texts = inv.texts; apart = λ i k v h j w g. nothing j g }
