-- ===== src/EpMap/Table.antt =====
-- The invariant of a table, and what a write to one slot does to it.
use ern_os.Base.{
  ℕ, suc, ◌<◌, ◌≡◌, ◌≢◌, ◌⊎◌, sym, ap, ◌∙◌, subst, inl, inr, true, Option, none, some, List, arith,
  length, ◌==◌, ==→ne, Bool-cases, set, length-set, get_or-set_self, get_or-set_ne,
}
use native.Mathlib.Nat.{mod-lt}
use ern_os.Base.Int.{ℤ}
use ern_os.Bytes.{Bytes}
use ern_os.EpMap.{Entry, slot, home, is_text}
use ern_os.EpMap.Circle.{Between}
use ern_os.EpMap.Slots.{Used, Used-lt, not_free, count, count-set_free, count-set-Used}
use ern_os.EpMap.Probe.{FirstFree}

-- A key stands at most once, with used slots from its home on, and is a text by the test of
-- ep_map_key_str; the size is the number of used slots.
pub record Inv (es : List (Option Entry)) (cap size : ℕ) : Type 0 where
  pub len : length es ≡ cap
  pub positive : 0 < cap
  pub path :
      (i : ℕ) (k : Bytes) (v : ℤ)
      → slot es i ≡ some (k, v)
      → (z : ℕ) → z < cap
      → Between (home cap k) z i
      → Used es z
  pub alone :
      (i j : ℕ) (k : Bytes) (v w : ℤ) → slot es i ≡ some (k, v) → slot es j ≡ some (k, w) → i ≡ j
  pub counted : count es ≡ size
  pub texts : (i : ℕ) (k : Bytes) (v : ℤ) → slot es i ≡ some (k, v) → is_text k ≡ true

abbrev pub Holds : List (Option Entry) → Bytes → ℤ → Type 0
Holds es k v = (i : ℕ) × (slot es i ≡ some (k, v))

-- No value stands under the key.
abbrev pub Absent : List (Option Entry) → Bytes → Type 0
Absent es key = (i : ℕ) (v : ℤ) → ¬ (slot es i ≡ some (key, v))

-- What a table holds after a value is stored under a key.
pub record Stores (es : List (Option Entry)) (k : Bytes) (v : ℤ) (es' : List (Option Entry))
    : Type 0 where
  pub here : Holds es' k v
  pub kept : (k' : Bytes) (v' : ℤ) → k' ≢ k → Holds es k' v' → Holds es' k' v'
  pub only :
      (k' : Bytes) (v' : ℤ) → Holds es' k' v' → ((k' ≡ k) × (v' ≡ v)) ⊎ ((k' ≢ k) × Holds es k' v')

pub home-lt : (cap : ℕ) (k : Bytes) → 0 < cap → home cap k < cap
unfolding home
home-lt cap k h = mod-lt _ h

-- A slot after a write.
pub slot-set :
    (es : List (Option Entry)) (y : ℕ) (o : Option Entry) (i : ℕ)
    → y < length es
    → ((i ≡ y) × (slot (set es y o) i ≡ o)) ⊎ ((i ≢ y) × (slot (set es y o) i ≡ slot es i))
slot-set es y o i l = elim (Bool-cases (i == y)) [
  | inl b ↦
      let e : i ≡ y = ground (arith, b) in
      inl (e, ap (slot (set es y o)) e ∙ get_or-set_self es y o none l)
  | inr b ↦ let n = ==→ne i y b in inr (n, get_or-set_ne es y i o none (λ e. n (sym e)))
]

-- An entry after a write of an entry.
pub slot-set_entry :
    (es : List (Option Entry)) (y : ℕ) (k k' : Bytes) (v v' : ℤ) (i : ℕ)
    → y < length es
    → slot (set es y (some (k, v))) i ≡ some (k', v')
    → ((i ≡ y) × (k' ≡ k) × (v' ≡ v)) ⊎ ((i ≢ y) × (slot es i ≡ some (k', v')))
slot-set_entry es y k k' v v' i l h = elim (slot-set es y (some (k, v)) i l) [
  | inl (e, g) ↦
      let same : ◌≡◌ {A = Option Entry} (some (k', v')) (some (k, v)) = sym h ∙ g in inl (e, cc, cc)
  | inr (n, g) ↦ inr (n, sym g ∙ h)
]

-- Used slots stay used.
pub Used-set :
    (es : List (Option Entry)) (y : ℕ) (e : Entry) (z : ℕ)
    → y < length es
    → Used es z
    → Used (set es y (some e)) z
Used-set es y e z l (x, h) = elim (slot-set es y (some e) z l) [
  | inl (s, g) ↦ (e, g)
  | inr (n, g) ↦ (x, g ∙ h)
]

module _ {es : List (Option Entry)} {cap size : ℕ} (inv : Inv es cap size) where
  -- A new key is written to a free slot that its way reaches.
  module _ (y t : ℕ) (k : Bytes) (v : ℤ) (f : FirstFree es cap (home cap k) t y)
      (absent : Absent es k) where
    in_range : y < length es
    in_range = omega (arith, f.inside, inv.len)

    pub place-Inv : is_text k ≡ true → Inv (set es y (some (k, v))) cap (suc size)
    place-Inv text = record {
      len = length-set es y _ ∙ inv.len;
      positive = inv.positive;
      path = λ i k' v' h z hz b. elim (slot-set_entry es y k k' v v' i in_range h) [
        | inl (e, s, _) ↦
            Used-set es y (k, v) z in_range
              (f.full z hz (
                subst (λ j. Between (home cap k) z j) e
                  (subst (λ n. Between (home cap n) z i) s b)))
        | inr (n, g) ↦ Used-set es y (k, v) z in_range (inv.path i k' v' g z hz b)
      ];
      alone = λ i j k' v' w' h g. elim (slot-set_entry es y k k' v v' i in_range h) [
        | inl (e, s, _) ↦ elim (slot-set_entry es y k k' v w' j in_range g) [
          | inl (e', _, _) ↦ e ∙ sym e'
          | inr (n', g') ↦ absurd (absent j w' (g' ∙ ap (λ n. some (n, w')) s))
        ]
        | inr (n, h') ↦ elim (slot-set_entry es y k k' v w' j in_range g) [
          | inl (e', s, _) ↦ absurd (absent i v' (h' ∙ ap (λ n. some (n, v')) s))
          | inr (n', g') ↦ inv.alone i j k' v' w' h' g'
        ]
      ];
      counted = count-set_free es y (k, v) in_range f.empty ∙ ap suc inv.counted;
      texts = λ i k' v' h. elim (slot-set_entry es y k k' v v' i in_range h) [
        | inl (e, s, _) ↦ ap is_text s ∙ text
        | inr (n, g) ↦ inv.texts i k' v' g
      ];
    }

    pub place-Stores : Stores es k v (set es y (some (k, v)))
    place-Stores = record {
      here = (y, get_or-set_self es y _ none in_range);
      kept = λ k' v' n (i, h). (
        i,
        get_or-set_ne es y i _ none (λ e. not_free ((k', v'), h) (ap (slot es) (sym e) ∙ f.empty))
            ∙ h,
      );
      only = λ k' v' (i, h). elim (slot-set_entry es y k k' v v' i in_range h) [
        | inl (e, s, w) ↦ inl (s, w)
        | inr (n, g) ↦ inr ((λ s. absent i v' (g ∙ ap (λ n. some (n, v')) s)), (i, g))
      ];
    }

  -- The value of a key that is there is overwritten.
  module _ (i : ℕ) (old : ℤ) (k : Bytes) (v : ℤ) (at : slot es i ≡ some (k, old)) where
    inside : i < length es
    inside = Used-lt es i ((k, old), at)

    pub overwrite-Inv : Inv (set es i (some (k, v))) cap size
    overwrite-Inv = record {
      len = length-set es i _ ∙ inv.len;
      positive = inv.positive;
      path = λ j k' v' h z hz b.
          let (w, g) = before j k' v' h in Used-set es i (k, v) z inside (inv.path j k' w g z hz b);
      alone = λ j l k' v' w' h g.
          let (a, h') = before j k' v' h in
          let (b, g') = before l k' w' g in inv.alone j l k' a b h' g';
      counted = count-set-Used es i (k, v) ((k, old), at) ∙ inv.counted;
      texts = λ j k' v' h. let (w, g) = before j k' v' h in inv.texts j k' w g;
    }
      where
        before :
            (j : ℕ) (k' : Bytes) (v' : ℤ)
            → slot (set es i (some (k, v))) j ≡ some (k', v')
            → (w : ℤ) × (slot es j ≡ some (k', w))
        before j k' v' h = elim (slot-set_entry es i k k' v v' j inside h) [
          | inl (e, s, _) ↦ (old, ap (slot es) e ∙ at ∙ ap (λ n. some (n, old)) (sym s))
          | inr (n, g) ↦ (v', g)
        ]

    pub overwrite-Stores : Stores es k v (set es i (some (k, v)))
    overwrite-Stores = record {
      here = (i, get_or-set_self es i _ none inside);
      kept = λ k' v' n (j, h). (
        j,
        get_or-set_ne es i j _ none (λ e.
              let both : ◌≡◌ {A = Option Entry} (some (k', v')) (some (k, old)) =
                sym h ∙ ap (slot es) (sym e) ∙ at in
              let same : k' ≡ k = cc in n same)
            ∙ h,
      );
      only = λ k' v' (j, h). elim (slot-set_entry es i k k' v v' j inside h) [
        | inl (e, s, w) ↦ inl (s, w)
        | inr (n, g) ↦
            inr ((λ s. n (inv.alone j i k v' old (g ∙ ap (λ x. some (x, v')) s) at)), (j, g))
      ];
    }
