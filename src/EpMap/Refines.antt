-- ===== src/EpMap/Refines.antt =====
-- The calls on the table reply as a finite map does.
use ern_os.Base.{
  ◌≡◌, ◌≢◌, refl, sym, ap, ◌∙◌, subst, inl, inr, true, false, Option-cases, none, some, List, [],
  ◌∷◌, ◌&&◌, arith, Bool-cases,
}
use ern_os.Base.Int.{ℤ, pos}
use ern_os.Bytes.{Bytes}
use ern_os.Bytes.Compare.{same_text, same_text_refl, same_text_eq, different}
use ern_os.EpMap.{
  EpMap, create_map, home, is_text, Key, is_null, is_pointer, ep_map_key_str, map_insert,
  map_get_val, map_contains, map_delete, map_size,
}
use ern_os.EpMap.Slots.{some-not-none, slot-replicate}
use ern_os.EpMap.Probe.{probe-absent}
use ern_os.EpMap.Table.{Holds, Absent}
use ern_os.EpMap.Insert.{Good, Inserted, Holds-or-Absent, probe-Holds, insert_text-Good}
use ern_os.EpMap.Delete.{Deleted, reinsert-Deleted}
use ern_os.EpMap.Spec.{
  Finite, nothing, put, remove, Op, insert, get, contains, delete, size, step_map, run_map,
  step_finite, run_finite,
}

pub create_map-Good : Good create_map
unfolding create_map
create_map-Good = record {
  inv = record {
    len = refl;
    positive = omega arith;
    path = λ i k v h. absurd (some-not-none (sym h ∙ slot-replicate 16 i));
    alone = λ i j k v w h. absurd (some-not-none (sym h ∙ slot-replicate 16 i));
    counted = refl;
    texts = λ i k v h. absurd (some-not-none (sym h ∙ slot-replicate 16 i));
  };
  even = (8, refl);
  room = omega arith;
}

-- A table that stands for a finite map.
pub record StandsFor (m : EpMap) (s : Finite) : Type 0 where
  pub good : Good m
  pub sizes : m.size ≡ s.number
  pub found : (k : Bytes) (v : ℤ) → Holds m.entries k v → s.find k ≡ some v
  pub there : (k : Bytes) (v : ℤ) → s.find k ≡ some v → Holds m.entries k v

some-is : {A : Type 0} {a b : A} → some a ≡ some b → a ≡ b
some-is h = cc

module _ {m : EpMap} {s : Finite} (r : StandsFor m s) where
  -- A text that the finite map does not find is absent.
  Absent-find : (k : Bytes) → Absent m.entries k → s.find k ≡ none
  Absent-find k a = elim (Option-cases (s.find k)) [
    | inl e ↦ e
    | inr (v, e) ↦ let (i, h) = r.there k v e in absurd (a i v h)
  ]

  insert-StandsFor :
      (key : Bytes) (v : ℤ) (n : EpMap) → Good n → Inserted m key v n → StandsFor n (put s key v)
  insert-StandsFor key v n good ins = record {
    good = good;
    sizes = elim ins.sizes [
      | inl (a, e) ↦ rw (Absent-find key a) (omega (arith, e, r.sizes))
      | inr ((w, h), e) ↦ rw (r.found key w h) (omega (arith, e, r.sizes))
    ];
    found = λ k w h. elim (ins.stores.only k w h) [
      | inl (same, value) ↦
          rw (ap (λ x. same_text x key) same ∙ same_text_refl key) (ap some (sym value))
      | inr (other, g) ↦ rw (different k key other) (r.found k w g)
    ];
    there = λ k w h. elim (Bool-cases (same_text k key)) [
      | inl e ↦
          let value : v ≡ w = some-is (rw e at h) in
          subst (λ x. Holds n.entries x w) (sym (same_text_eq k key e))
            (subst (Holds n.entries key) value ins.stores.here)
      | inr e ↦
          let other : k ≢ key = λ q.
            let z : true ≡ false =
              sym (same_text_refl key) ∙ ap (λ x. same_text x key) (sym q) ∙ e in
            cc in
          ins.stores.kept k w other (r.there k w (rw e at h))
    ];
  }

  delete-StandsFor :
      (key : Bytes) (w : ℤ) (n : EpMap)
      → Holds m.entries key w
      → Deleted m key n
      → StandsFor n (remove s key)
  delete-StandsFor key w n h del = record {
    good = del.good;
    sizes = rw (r.found key w h) (omega (arith, del.sizes, r.sizes));
    found =
        λ k v g. let (other, g') = del.only k v g in rw (different k key other) (r.found k v g');
    there = λ k v g. elim (Bool-cases (same_text k key)) [
      | inl e ↦ absurd (let z : none ≡ some v = rw e at g in cc)
      | inr e ↦
          let other : k ≢ key = λ q.
            let z : true ≡ false =
              sym (same_text_refl key) ∙ ap (λ x. same_text x key) (sym q) ∙ e in
            cc in
          del.kept k v other (r.there k v (rw e at g))
    ];
  }

  -- Taking out a text that is not there changes nothing.
  delete-Absent-StandsFor : (key : Bytes) → Absent m.entries key → StandsFor m (remove s key)
  delete-Absent-StandsFor key a = record {
    good = r.good;
    sizes = rw (Absent-find key a) r.sizes;
    found = λ k v (i, h).
        rw (different k key (λ e. a i v (h ∙ ap (λ x. some (x, v)) e))) (r.found k v (i, h));
    there = λ k v g. elim (Bool-cases (same_text k key)) [
      | inl e ↦ absurd (let z : none ≡ some v = rw e at g in cc)
      | inr e ↦ r.there k v (rw e at g)
    ];
  }

module _ (decimal : ℤ → Bytes) (strdup : Bytes → ℤ)
    (decimal_text : (n : ℤ) → is_text (decimal n) ≡ true)
    (heap : (s : Bytes) → is_pointer (strdup s) ≡ true) where
  -- Every key is compared and stored as a text that passes the test of the first byte.
  ep_map_key_str-text : (k : Key) → is_text (ep_map_key_str decimal strdup k) ≡ true
  unfolding ep_map_key_str
  ep_map_key_str-text k = elim (Bool-cases (is_null k.value)) [
    | inl e ↦ rw e (unfold is_text in refl)
    | inr e ↦ elim (Bool-cases (is_pointer k.value && is_text k.text)) [
      | inl g ↦ rw (e, g) (grind arith)
      | inr g ↦ rw (e, g) (decimal_text k.value)
    ]
  ]

  -- The reply of a call, and what its table stands for.
  abbrev Follows : EpMap → Finite → Op → Type 0
  Follows m s o =
      let (reply, t) = step_finite decimal strdup s o in
      (n : EpMap) × (step_map decimal strdup m o ≡ some (reply, n)) × StandsFor n t

  module _ {m : EpMap} {s : Finite} (r : StandsFor m s) where
    insert-Follows : (k : Key) (v : ℤ) → Follows m s (insert k v)
    unfolding step_map step_finite map_insert
    insert-Follows k v =
        let key = ep_map_key_str decimal strdup k in
        let (n, e, good, ins) = insert_text-Good m key v r.good (ep_map_key_str-text k) in
        (n, rw (e, step_map) refl, insert-StandsFor r key v n good ins)

    get-Follows : (k : Key) → Follows m s (get k)
    unfolding step_map step_finite map_get_val
    get-Follows k =
        let key = ep_map_key_str decimal strdup k in
        elim (Holds-or-Absent m.entries key) [
          | inl (v, (i, h)) ↦ (
            m,
            rw (step_map, map_get_val, probe-Holds key v i r.good.inv h, h, r.found key v (i, h))
                refl,
            r,
          )
          | inr a ↦
              elim (probe-absent m.entries m.capacity key a m.capacity (home m.capacity key)) [
                | inl e ↦ (m, rw (step_map, map_get_val, e, Absent-find r key a) refl, r)
                | inr (y, e) ↦ (m, rw (step_map, map_get_val, e, Absent-find r key a) refl, r)
              ]
        ]

    contains-Follows : (k : Key) → Follows m s (contains k)
    unfolding step_map step_finite map_contains
    contains-Follows k =
        let key = ep_map_key_str decimal strdup k in
        elim (Holds-or-Absent m.entries key) [
          | inl (v, (i, h)) ↦ (
            m,
            rw (step_map, map_contains, probe-Holds key v i r.good.inv h, r.found key v (i, h))
                refl,
            r,
          )
          | inr a ↦
              elim (probe-absent m.entries m.capacity key a m.capacity (home m.capacity key)) [
                | inl e ↦ (m, rw (step_map, map_contains, e, Absent-find r key a) refl, r)
                | inr (y, e) ↦ (m, rw (step_map, map_contains, e, Absent-find r key a) refl, r)
              ]
        ]

    delete-Follows : (k : Key) → Follows m s (delete k)
    unfolding step_map step_finite map_delete
    delete-Follows k =
        let key = ep_map_key_str decimal strdup k in
        elim (Holds-or-Absent m.entries key) [
          | inl (v, (i, h)) ↦
              let (n, e, del) = reinsert-Deleted r.good i key v h decimal strdup heap in
              (
                n,
                rw (step_map, map_delete, probe-Holds key v i r.good.inv h, e, r.found key v (i, h))
                    refl,
                delete-StandsFor r key v n (i, h) del,
              )
          | inr a ↦
              elim (probe-absent m.entries m.capacity key a m.capacity (home m.capacity key)) [
                | inl e ↦ (
                  m,
                  rw (step_map, map_delete, e, Absent-find r key a) refl,
                  delete-Absent-StandsFor r key a,
                )
                | inr (y, e) ↦ (
                  m,
                  rw (step_map, map_delete, e, Absent-find r key a) refl,
                  delete-Absent-StandsFor r key a,
                )
              ]
        ]

    step-Follows : (o : Op) → Follows m s o
    unfolding step_map step_finite map_size
    step-Follows (insert k v) = insert-Follows k v
    step-Follows (get k) = get-Follows k
    step-Follows (contains k) = contains-Follows k
    step-Follows (delete k) = delete-Follows k
    step-Follows size = (m, ap (λ n. some (pos n, m)) r.sizes, r)

  run-Follows :
      (os : List Op) (m : EpMap) (s : Finite)
      → StandsFor m s
      → run_map decimal strdup m os ≡ some (run_finite decimal strdup s os)
  unfolding run_map run_finite
  run-Follows [] m s r = refl
  run-Follows (o ∷ os) m s r =
      let (n, e, r') = step-Follows r o in
      rw (e, run_map, run-Follows os n (step_finite decimal strdup s o).1 r') refl

  -- From create_map on, any calls of map_insert, map_get_val, map_contains, map_delete and map_size
  -- end, and reply as a finite map from texts to values that starts empty, with a key read as
  -- ep_map_key_str reads it, the text behind an address where it is above 0x100000: probing, growth
  -- and the deletion's moves are not seen. `snprintf` is taken to write a text that begins with a
  -- printable character, and strdup to give addresses above 0x100000.
  pub run_map-run_finite :
      (os : List Op)
      → run_map decimal strdup create_map os ≡ some (run_finite decimal strdup nothing os)
  run_map-run_finite os = run-Follows os create_map nothing (record {
    good = create_map-Good;
    sizes = unfold create_map in refl;
    found = λ k v (i, h). absurd (some-not-none (sym h ∙ unfold create_map in slot-replicate 16 i));
    there = λ k v h. absurd (let z : none ≡ some v = h in cc);
  })
