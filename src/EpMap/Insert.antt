-- ===== src/EpMap/Insert.antt =====
-- map_insert stores a value, after the table has grown where it is half full.
use ern_os.Base.{
  ℕ, zero, suc, ◌+◌, ◌*◌, ◌≤◌, ◌<◌, ◌≡◌, ◌⊎◌, refl, sym, ap, ◌∙◌, subst, inl, inr, true, false,
  Option, none, some, List, [], ◌∷◌, arith, leb, leb→gt, Bool-cases, set,
}
use ern_os.Base.Int.{ℤ, pos, negsuc}
use ern_os.Bytes.{Bytes}
use ern_os.Bytes.Compare.{same_text, same_text_refl, same_text_eq}
use ern_os.EpMap.{
  Entry, EpMap, slot, home, is_text, probe, hit, address, is_null, is_pointer, ep_map_key_str,
  insert_key, insert_text,
}
use ern_os.EpMap.Slots.{Used-lt, room-free, some-not-none}
use ern_os.EpMap.Probe.{probe-FirstFree, probe-found}
use ern_os.EpMap.Resize.{Resized, map_resize-Resized}
use ern_os.EpMap.Table.{
  Inv, Holds, Absent, Stores, home-lt, place-Inv, place-Stores, overwrite-Inv, overwrite-Stores,
}

-- The invariant between two calls: at most half of the slots are used.
pub record Good (m : EpMap) : Type 0 where
  pub inv : Inv m.entries m.capacity m.size
  pub even : (c : ℕ) × (m.capacity ≡ c * 2)
  pub room : m.size * 2 ≤ m.capacity

-- A key is there, or it is absent.
pub Holds-or-Absent :
    (es : List (Option Entry)) (key : Bytes) → ((v : ℤ) × Holds es key v) ⊎ Absent es key
Holds-or-Absent [] key = inr (λ i v h. some-not-none (sym h))
Holds-or-Absent (o ∷ es) key = elim (Holds-or-Absent es key) [
  | inl (v, (i, h)) ↦ inl (v, (suc i, h))
  | inr absent ↦ first o absent
]
  where
    first :
        (o : Option Entry) → Absent es key → ((v : ℤ) × Holds (o ∷ es) key v) ⊎ Absent (o ∷ es) key
    first none absent = inr nowhere
      where
        nowhere : Absent (none ∷ es) key
        nowhere zero v h = some-not-none (sym h)
        nowhere (suc i) v h = absent i v h
    first (some (k, w)) absent = elim (Bool-cases (same_text k key)) [
      | inl e ↦ inl (w, (0, ap (λ x. some (x, w)) (same_text_eq k key e)))
      | inr e ↦ inr (elsewhere e)
    ]
      where
        elsewhere : same_text k key ≡ false → Absent (some (k, w) ∷ es) key
        elsewhere e zero v h =
            let same : k ≡ key = cc in
            let z : true ≡ false =
              sym (same_text_refl key) ∙ ap (λ x. same_text x key) (sym same) ∙ e in
            cc
        elsewhere e (suc i) v h = absent i v h

-- What an insertion does: it stores, and the size grows by a key that was absent.
pub record Inserted (m : EpMap) (key : Bytes) (v : ℤ) (n : EpMap) : Type 0 where
  pub inv : Inv n.entries n.capacity n.size
  pub stores : Stores m.entries key v n.entries
  pub sizes :
      (Absent m.entries key × (n.size ≡ m.size + 1))
      ⊎ (((w : ℤ) × Holds m.entries key w) × (n.size ≡ m.size))

pub probe-Holds :
    {es : List (Option Entry)} {cap size : ℕ} (key : Bytes) (w : ℤ) (i : ℕ)
    → Inv es cap size
    → slot es i ≡ some (key, w)
    → probe cap es cap key (home cap key) ≡ hit i
probe-Holds {es} {cap} key w i inv h =
    probe-found es cap (home cap key) i key w (home-lt cap key inv.positive)
      (omega (arith, Used-lt es i ((key, w), h), inv.len)) (inv.path i key w h) h
      (λ j u g. inv.alone j i key u w g h)

pub insert_key-Inserted :
    (m : EpMap) (key : Bytes) (v : ℤ)
    → Inv m.entries m.capacity m.size
    → m.size < m.capacity
    → is_text key ≡ true
    → (n : EpMap) × (insert_key m key v ≡ some n) × (n.capacity ≡ m.capacity) × Inserted m key v n
unfolding insert_key
insert_key-Inserted m key v inv room text = elim (Holds-or-Absent m.entries key) [
  | inl (w, (i, h)) ↦ (
    record m { entries = set m.entries i (some (key, v)) },
    rw (probe-Holds key w i inv h, insert_key) refl,
    refl,
    record {
      inv = overwrite-Inv inv i w key v h;
      stores = overwrite-Stores inv i w key v h;
      sizes = inr ((w, (i, h)), refl);
    },
  )
  | inr absent ↦
      let (t, ht, target) = room-free m.entries (omega (arith, inv.counted, inv.len)) in
      let (y, g, first) =
        probe-FirstFree m.entries m.capacity (home m.capacity key) t
          (home-lt m.capacity key inv.positive) (omega (arith, ht, inv.len)) target key absent in
      let more : suc m.size ≡ m.size + 1 = omega arith in
      (
        record m { entries = set m.entries y (some (key, v)); size = m.size + 1 },
        rw (g, insert_key) refl,
        refl,
        record {
          inv =
              subst (Inv (set m.entries y (some (key, v))) m.capacity) more
                (place-Inv inv y t key v first absent text);
          stores = place-Stores inv y t key v first absent;
          sizes = inl (absent, refl);
        },
      )
]

-- What is stored in a table that holds the same is stored in the first one.
after_resize :
    {m n p : EpMap} {key : Bytes} {v : ℤ} → Resized m n → Inserted n key v p → Inserted m key v p
after_resize {m} {n} {p} {key} {v} r s = record {
  inv = s.inv;
  stores = record {
    here = s.stores.here;
    kept = λ k w d h. s.stores.kept k w d (r.moved k w h);
    only =
        λ k w h. elim (s.stores.only k w h) [ inl e ↦ inl e | inr (d, g) ↦ inr (d, r.only k w g) ];
  };
  sizes = elim s.sizes [
    | inl (absent, e) ↦
        inl
          ((λ i w h. let (j, g) = r.moved key w (i, h) in absent j w g), omega (arith, e, r.sizes))
    | inr ((w, h), e) ↦ inr ((w, r.only key w h), omega (arith, e, r.sizes))
  ];
}

-- A table that is less than half full does not grow.
pub insert_text-insert_key :
    (m : EpMap) (key : Bytes) (v : ℤ)
    → leb m.capacity (m.size * 2) ≡ false
    → insert_text m key v ≡ insert_key m key v
unfolding insert_text
insert_text-insert_key m key v e = rw (e, insert_text) refl

-- What lies in the range of the pointers is not NULL.
pub is_pointer-is_null : (n : ℤ) → is_pointer n ≡ true → is_null n ≡ false
unfolding is_pointer is_null
is_pointer-is_null (pos zero) h = let z : false ≡ true = h in cc
is_pointer-is_null (pos (suc n)) h = ground arith
is_pointer-is_null (negsuc n) h = refl

-- A text that passes the test is read as itself.
pub ep_map_key_str-is_text :
    (decimal : ℤ → Bytes) (strdup : Bytes → ℤ) (k : Bytes) (n : ℤ)
    → is_pointer n ≡ true
    → is_text k ≡ true
    → ep_map_key_str decimal strdup (address k n) ≡ k
unfolding ep_map_key_str
ep_map_key_str-is_text decimal strdup k n h e =
    rw (is_pointer-is_null n h, h, e, ep_map_key_str) refl

-- An insertion keeps the invariant and stores, whether the table grows or not.
pub insert_text-Good :
    (m : EpMap) (key : Bytes) (v : ℤ)
    → Good m
    → is_text key ≡ true
    → (n : EpMap) × (insert_text m key v ≡ some n) × Good n × Inserted m key v n
unfolding insert_text
insert_text-Good m key v good text = elim (Bool-cases (leb m.capacity (m.size * 2))) [
  | inl e ↦
      let (r, g, c, resized) =
        map_resize-Resized m (m.capacity * 2) good.inv
          (omega (arith, good.room, good.inv.positive)) in
      let (n, h, c', done) =
        insert_key-Inserted r key v resized.inv
          (omega (arith, c, resized.sizes, good.room, good.inv.positive)) text in
      (
        n,
        rw (e, g, insert_text) h,
        record {
          inv = done.inv;
          even = (m.capacity, c' ∙ c);
          room = elim done.sizes [
            | inl (_, s) ↦ omega (arith, s, c, c', resized.sizes, good.room, good.inv.positive)
            | inr (_, s) ↦ omega (arith, s, c, c', resized.sizes, good.room)
          ];
        },
        after_resize resized done,
      )
  | inr e ↦
      let less = leb→gt m.capacity (m.size * 2) e in
      let (n, h, c', done) = insert_key-Inserted m key v good.inv (omega (arith, less)) text in
      let (c, half) = good.even in
      (
        n,
        rw (e, insert_text) h,
        record {
          inv = done.inv;
          even = (c, c' ∙ half);
          room = elim done.sizes [
            | inl (_, s) ↦ omega (arith, s, c', half, less)
            | inr (_, s) ↦ omega (arith, s, c', less)
          ];
        },
        done,
      )
]
