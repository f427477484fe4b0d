-- ===== src/EpMap/Cluster.antt =====
-- The loop of map_delete that inserts the rest of a cluster again. The circle is cut at the free
-- slot `e` at which the cluster ends.
use ern_os.Base.{
  ℕ, zero, suc, ◌+◌, ◌-◌, ◌*◌, ◌≤◌, ◌<◌, ◌≡◌, ◌≢◌, ◌⊎◌, refl, sym, ap, ap₂, ◌∙◌, subst, inl, inr,
  true, false, Option, none, some, List, arith, ◌==◌, ==→ne, leb, Bool-cases, length, length-set,
  set, get_or-set_self, get_or-set_ne,
}
use ern_os.Base.Int.{ℤ}
use ern_os.Bytes.{Bytes}
use ern_os.EpMap.{
  Entry, EpMap, slot, next, home, is_text, is_pointer, probe, insert_key, insert_text, map_insert,
  reinsert, address, free,
}
use ern_os.EpMap.Circle.{
  next-lt, rank, rank-next, rank-before, rank_injective, rank-Between, Between-rank,
}
use ern_os.EpMap.Slots.{
  Used, Used-or-free, Used-lt, not_free, some-not-none, count, count-clear, count-set_free,
}
use ern_os.EpMap.Probe.{FirstFree, probe-FirstFree}
use ern_os.EpMap.Insert.{insert_text-insert_key, ep_map_key_str-is_text}
use ern_os.EpMap.Table.{Inv, Holds, Absent, home-lt, slot-set, slot-set_entry, Used-set}

-- What stands in a table of which one slot was cleared stood there before, elsewhere.
pub slot-clear :
    (es : List (Option Entry)) (p i : ℕ) (e : Entry)
    → p < length es
    → slot (set es p none) i ≡ some e
    → (i ≢ p) × (slot es i ≡ some e)
slot-clear es p i e l h = elim (slot-set es p none i l) [
  | inl (_, g) ↦ absurd (some-not-none (sym h ∙ g))
  | inr (n, g) ↦ (n, sym g ∙ h)
]

pub Used-clear : (es : List (Option Entry)) (p z : ℕ) → z ≢ p → Used es z → Used (set es p none) z
Used-clear es p z n (e, h) = (e, get_or-set_ne es p z none none (λ s. n (sym s)) ∙ h)

-- The state of the loop at a position `q`: the slots from there up to `e` are used, and what
-- stands before it is found from its home on.
pub record Loop (e q : ℕ) (m : EpMap) : Type 0 where
  pub len : length m.entries ≡ m.capacity
  pub end_inside : e < m.capacity
  pub inside : q < m.capacity
  pub empty : slot m.entries e ≡ none
  pub rest :
      (z : ℕ)
      → z < m.capacity
      → z ≢ e
      → rank m.capacity e q ≤ rank m.capacity e z
      → Used m.entries z
  pub up :
      (i : ℕ) (k : Bytes) (v : ℤ)
      → slot m.entries i ≡ some (k, v)
      → rank m.capacity e (home m.capacity k) ≤ rank m.capacity e i
  pub path :
      (i : ℕ) (k : Bytes) (v : ℤ)
      → slot m.entries i ≡ some (k, v)
      → rank m.capacity e i < rank m.capacity e q
      → (z : ℕ) → z < m.capacity
      → rank m.capacity e (home m.capacity k) ≤ rank m.capacity e z
      → rank m.capacity e z < rank m.capacity e i
      → Used m.entries z
  pub alone :
      (i j : ℕ) (k : Bytes) (v w : ℤ)
      → slot m.entries i ≡ some (k, v)
      → slot m.entries j ≡ some (k, w)
      → i ≡ j
  pub counted : count m.entries ≡ m.size
  pub texts : (i : ℕ) (k : Bytes) (v : ℤ) → slot m.entries i ≡ some (k, v) → is_text k ≡ true
  pub room : m.size * 2 ≤ m.capacity

-- Two tables that hold the same.
pub record Same (m n : EpMap) : Type 0 where
  pub same_capacity : n.capacity ≡ m.capacity
  pub same_size : n.size ≡ m.size
  pub moved : (k : Bytes) (v : ℤ) → Holds m.entries k v → Holds n.entries k v
  pub only : (k : Bytes) (v : ℤ) → Holds n.entries k v → Holds m.entries k v

-- At its end the loop has restored the invariant.
Loop-end : {e : ℕ} {m : EpMap} → Loop e e m → Inv m.entries m.capacity m.size
Loop-end {e} {m} l = record {
  len = l.len;
  positive = omega (arith, l.end_inside);
  path = λ i k v h z hz b.
      let hi : i < m.capacity = omega (arith, Used-lt m.entries i ((k, v), h), l.len) in
      let hh = home-lt m.capacity k (omega (arith, l.end_inside)) in
      let away : i ≢ e = λ s. not_free ((k, v), h) (ap (slot m.entries) s ∙ l.empty) in
      let r = Between-rank l.end_inside hh hz hi (l.up i k v h) b in
      l.path i k v h (rank-before l.end_inside hi away) z hz r.0 r.1;
  alone = l.alone;
  counted = l.counted;
  texts = l.texts;
}

-- A round: the entry at `q` is taken out, and put at `y` on the way from its home to `q`.
module _ {e q : ℕ} {m : EpMap} (l : Loop e q m) (k : Bytes) (v : ℤ)
    (at : slot m.entries q ≡ some (k, v)) where
  abbrev cleared : List (Option Entry)
  cleared = set m.entries q none

  in_table : q < length m.entries
  in_table = Used-lt m.entries q ((k, v), at)

  not_end : q ≢ e
  not_end s = not_free ((k, v), at) (ap (slot m.entries) s ∙ l.empty)

  cleared-Absent : Absent cleared k
  cleared-Absent i w h =
      let (n, g) = slot-clear m.entries q i (k, w) in_table h in n (l.alone i q k w v g at)

  reached :
      (y : ℕ) × (probe m.capacity cleared m.capacity k (home m.capacity k) ≡ free y)
      × FirstFree cleared m.capacity (home m.capacity k) q y
  reached =
      probe-FirstFree cleared m.capacity (home m.capacity k) q
        (home-lt m.capacity k (omega (arith, l.end_inside))) l.inside
        (get_or-set_self m.entries q none none in_table) k cleared-Absent

  module _ {y : ℕ} (f : FirstFree cleared m.capacity (home m.capacity k) q y) where
    abbrev placed : EpMap
    placed = record m { entries = set cleared y (some (k, v)); size = m.size - 1 + 1 }

    y_inside : y < length cleared
    y_inside = omega (arith, length-set m.entries q none, l.len, f.inside)

    ranks :
        (rank m.capacity e (home m.capacity k) ≤ rank m.capacity e y)
        × (rank m.capacity e y ≤ rank m.capacity e q)
    ranks =
        let hh = home-lt m.capacity k (omega (arith, l.end_inside)) in
        let goal = l.up q k v at in
        elim f.on_way [
          | inl b ↦
              let r = Between-rank l.end_inside hh f.inside l.inside goal b in
              (r.0, omega (arith, r.1))
          | inr s ↦
              subst
                (λ x.
                  (rank m.capacity e (home m.capacity k) ≤ rank m.capacity e x)
                  × (rank m.capacity e x ≤ rank m.capacity e q))
                (sym s) (goal, omega arith)
        ]

    -- An entry after the round stood there before, or is the one that was put.
    before :
        (i : ℕ) (k' : Bytes) (v' : ℤ)
        → slot placed.entries i ≡ some (k', v')
        → ((i ≡ y) × (k' ≡ k) × (v' ≡ v)) ⊎ ((i ≢ y) × (i ≢ q) × (slot m.entries i ≡ some (k', v')))
    before i k' v' h = elim (slot-set_entry cleared y k k' v v' i y_inside h) [
      | inl s ↦ inl s
      | inr (n, g) ↦ let (d, g') = slot-clear m.entries q i (k', v') in_table g in inr (n, d, g')
    ]

    -- Used slots but `q` stay used.
    stays : (z : ℕ) → z ≢ q → Used m.entries z → Used placed.entries z
    stays z n u = Used-set cleared y (k, v) z y_inside (Used-clear m.entries q z n u)

    rank_apart : {a b : ℕ} → rank m.capacity e a < rank m.capacity e b → a ≢ b
    rank_apart {a} {b} h s =
        let z : rank m.capacity e a ≡ rank m.capacity e b = ap (rank m.capacity e) s in omega arith

    round-Loop : Loop e (next m.capacity q) placed
    round-Loop =
        let step = rank-next m.capacity e q l.end_inside l.inside not_end in
        let last = rank-before l.end_inside l.inside not_end in
        record {
          len = length-set cleared y _ ∙ length-set m.entries q none ∙ l.len;
          end_inside = l.end_inside;
          inside = next-lt m.capacity q l.inside;
          empty =
              let not_y : y ≢ e = rank_apart (omega (arith, ranks.1, last)) in
              get_or-set_ne cleared y e _ none not_y
              ∙ get_or-set_ne m.entries q e none none not_end
              ∙ l.empty;
          rest = λ z hz n h.
              stays z
                (let d = rank_apart {a = q} {b = z} (omega (arith, h, step)) in λ s. d (sym s))
                (l.rest z hz n (omega (arith, h, step)));
          up = λ i k' v' h. elim (before i k' v' h) [
            | inl (s, w, _) ↦
                subst (λ x. rank m.capacity e (home m.capacity k') ≤ rank m.capacity e x) (sym s)
                  (subst (λ x. rank m.capacity e (home m.capacity x) ≤ rank m.capacity e y) (sym w)
                    ranks.0)
            | inr (_, _, g) ↦ l.up i k' v' g
          ];
          path = λ i k' v' h lower z hz from to. elim (before i k' v' h) [
            | inl (s, w, _) ↦
                let hh = home-lt m.capacity k (omega (arith, l.end_inside)) in
                let from' =
                  subst (λ x. rank m.capacity e (home m.capacity x) ≤ rank m.capacity e z) w from in
                let to' = subst (λ x. rank m.capacity e z < rank m.capacity e x) s to in
                Used-set cleared y (k, v) z y_inside
                  (f.full z hz (rank-Between l.end_inside hh hz f.inside from' to'))
            | inr (_, d, g) ↦
                let hi : i < m.capacity = omega (arith, Used-lt m.entries i ((k', v'), g), l.len) in
                let differ : rank m.capacity e i ≢ rank m.capacity e q =
                  λ s. d (rank_injective l.end_inside hi l.inside s) in
                let below : rank m.capacity e i < rank m.capacity e q =
                  omega (arith, lower, step, differ) in
                stays z (rank_apart (omega (arith, to, below)))
                  (l.path i k' v' g below z hz from to)
          ];
          alone = λ i j k' v' w' h g. elim (before i k' v' h) [
            | inl (s, w, _) ↦ elim (before j k' w' g) [
              | inl (s', _, _) ↦ s ∙ sym s'
              | inr (_, d, g') ↦ absurd (d (l.alone j q k w' v (g' ∙ ap (λ x. some (x, w')) w) at))
            ]
            | inr (_, d, h') ↦ elim (before j k' w' g) [
              | inl (_, w, _) ↦ absurd (d (l.alone i q k v' v (h' ∙ ap (λ x. some (x, v')) w) at))
              | inr (_, _, g') ↦ l.alone i j k' v' w' h' g'
            ]
          ];
          counted =
              count-set_free cleared y (k, v) y_inside f.empty
              ∙ omega (arith, count-clear m.entries q ((k, v), at), l.counted);
          texts = λ i k' v' h. elim (before i k' v' h) [
            | inl (_, w, _) ↦ ap is_text w ∙ l.texts q k v at
            | inr (_, _, g) ↦ l.texts i k' v' g
          ];
          room = omega (arith, l.room, l.counted, count-clear m.entries q ((k, v), at));
        }

    round-Same : Same m placed
    round-Same = record {
      same_capacity = refl;
      same_size = omega (arith, l.counted, count-clear m.entries q ((k, v), at));
      moved = λ k' v' (i, h). elim (Bool-cases (i == q)) [
        | inl b ↦
            let s : i ≡ q = ground (arith, b) in
            let both : ◌≡◌ {A = Option Entry} (some (k, v)) (some (k', v')) =
              sym at ∙ ap (slot m.entries) (sym s) ∙ h in
            (y, get_or-set_self cleared y _ none y_inside ∙ both)
        | inr b ↦
            let g : slot cleared i ≡ some (k', v') =
              get_or-set_ne m.entries q i none none (λ s. ==→ne i q b (sym s)) ∙ h in
            (
              i,
              get_or-set_ne cleared y i _ none
                    (λ s. not_free ((k', v'), g) (ap (slot cleared) (sym s) ∙ f.empty))
                  ∙ g,
            )
      ];
      only = λ k' v' (i, h). elim (before i k' v' h) [
        | inl (_, w, u) ↦ (q, at ∙ ap₂ (λ x z. some (x, z)) (sym w) (sym u))
        | inr (_, _, g) ↦ (i, g)
      ];
    }

Same-trans : {m n p : EpMap} → Same m n → Same n p → Same m p
Same-trans a b = record {
  same_capacity = b.same_capacity ∙ a.same_capacity;
  same_size = b.same_size ∙ a.same_size;
  moved = λ k v h. b.moved k v (a.moved k v h);
  only = λ k v h. a.only k v (b.only k v h);
}

module _ (decimal : ℤ → Bytes) (strdup : Bytes → ℤ)
    (heap : (s : Bytes) → is_pointer (strdup s) ≡ true) where
  -- The round of the code: the table does not grow, and the key is read back as itself.
  round-code :
      {e q : ℕ} {m : EpMap} (l : Loop e q m) (k : Bytes) (v : ℤ)
      (at : slot m.entries q ≡ some (k, v))
      → map_insert decimal strdup
          (record m { entries = set m.entries q none; size = m.size - 1 })
          (address k (strdup k))
          v
        ≡ some (placed l k v at (reached l k v at).2)
  unfolding map_insert insert_key
  round-code {e} {q} {m} l k v at =
      let (y, g, f) = reached l k v at in
      let small : leb m.capacity ((m.size - 1) * 2) ≡ false =
        ground (arith, l.room, l.counted, count-clear m.entries q ((k, v), at)) in
      let bare : EpMap = record m { entries = set m.entries q none; size = m.size - 1 } in
      let put : insert_key bare k v ≡ some (placed l k v at f) = rw (g, insert_key) refl in
      ap (λ x. insert_text bare x v)
        (ep_map_key_str-is_text decimal strdup k (strdup k) (heap k) (l.texts q k v at))
      ∙ insert_text-insert_key bare k v small
      ∙ put

  pub reinsert-Inv :
      (f e q : ℕ) (m : EpMap)
      → Loop e q m
      → rank m.capacity e e < rank m.capacity e q + f
      → (n : EpMap) × (reinsert decimal strdup f q m ≡ some n)
        × Inv n.entries n.capacity n.size
        × Same m n
  unfolding reinsert
  reinsert-Inv zero e q m l h = absurd (omega (arith, below))
    where
      below : rank m.capacity e q ≤ rank m.capacity e e
      below = ground (arith, l.inside, l.end_inside)
  reinsert-Inv (suc f) e q m l h = elim (Used-or-free m.entries q) [
    | inl ((k, v), at) ↦
        let (y, g, first) = reached l k v at in
        let step = rank-next m.capacity e q l.end_inside l.inside (not_end l k v at) in
        let (n, r, inv, same) =
          reinsert-Inv f e (next m.capacity q) (placed l k v at first) (round-Loop l k v at first)
            (omega (arith, h, step)) in
        (
          n,
          rw (at, round-code l k v at, reinsert) r,
          inv,
          Same-trans (round-Same l k v at first) same,
        )
    | inr free_q ↦
        let ends : q ≡ e = here free_q in
        (
          m,
          rw (free_q, reinsert) refl,
          Loop-end (subst (λ x. Loop e x m) ends l),
          record { same_capacity = refl; same_size = refl; moved = λ k v h. h; only = λ k v h. h },
        )
  ]
    where
      here : slot m.entries q ≡ none → q ≡ e
      here free_q = elim (Bool-cases (q == e)) [
        | inl b ↦ ground (arith, b)
        | inr b ↦ absurd (not_free (l.rest q l.inside (==→ne q e b) (omega arith)) free_q)
      ]
