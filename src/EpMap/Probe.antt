-- ===== src/EpMap/Probe.antt =====
-- What the probing loops find.
use ern_os.Base.{
  ℕ, zero, suc, ◌<◌, ◌≡◌, ◌≢◌, ◌⊎◌, refl, sym, ap, ◌∙◌, subst, inl, inr, true, false, Option, none,
  some, List, arith, Bool-cases,
}
use ern_os.Base.Int.{ℤ}
use ern_os.Bytes.{Bytes}
use ern_os.Bytes.Compare.{same_text, same_text_refl, same_text_eq, different}
use ern_os.EpMap.{Entry, slot, next, free_slot, hit, free, around, probe}
use ern_os.EpMap.Circle.{Between, next-lt, dist, dist-lt, dist-next, Between-next, on_way-next}
use ern_os.EpMap.Slots.{Used, Used-or-free, not_free}

-- The first free slot on the way from `a` to a free one `t`.
pub record FirstFree (es : List (Option Entry)) (cap a t y : ℕ) : Type 0 where
  pub inside : y < cap
  pub empty : slot es y ≡ none
  pub full : (z : ℕ) → z < cap → Between a z y → Used es z
  pub on_way : Between a y t ⊎ (y ≡ t)

module _ (es : List (Option Entry)) (cap a t : ℕ) (ha : a < cap) (ht : t < cap)
    (target : slot es t ≡ none) where
  -- A state of the walk from `a`: every slot behind it is used, and `t` lies ahead.
  record Walk (x : ℕ) : Type 0 where
    inside : x < cap
    full : (z : ℕ) → z < cap → Between a z x → Used es z
    on_way : Between a x t ⊎ (x ≡ t)

  walk-next : (x : ℕ) → Walk x → Used es x → Walk (next cap x)
  walk-next x w u = record {
    inside = next-lt cap x w.inside;
    full = λ z hz b. elim (Between-next cap a x z ha w.inside hz b) [
      | inl c ↦ w.full z hz c
      | inr e ↦ subst (Used es) (sym e) u
    ];
    on_way = elim w.on_way [
      | inl b ↦ on_way-next cap a x t ha w.inside ht b
      | inr e ↦ absurd (not_free (subst (Used es) e u) target)
    ];
  }

  not_target : (x : ℕ) → Used es x → x ≢ t
  not_target x u e = not_free (subst (Used es) e u) target

  start : Walk a
  start = record { inside = ha; full = λ z hz b. absurd (omega arith); on_way = omega arith }

  free_slot-walk :
      (f x : ℕ)
      → Walk x
      → dist cap x t < f
      → (y : ℕ) × (free_slot f es cap x ≡ some y) × FirstFree es cap a t y
  unfolding free_slot
  free_slot-walk zero x w l = absurd (omega arith)
  free_slot-walk (suc f) x w l = elim (Used-or-free es x) [
    | inl (e, h) ↦
        let d = dist-next cap x t w.inside ht (not_target x (e, h)) in
        let (y, g, first) =
          free_slot-walk f (next cap x) (walk-next x w (e, h)) (omega (arith, d)) in
        (y, rw (h, free_slot) g, first)
    | inr h ↦ (
      x,
      rw (h, free_slot) refl,
      record { inside = w.inside; empty = h; full = w.full; on_way = w.on_way },
    )
  ]

  -- The loop that compares finds the same slot for a key that is not there.
  probe-walk :
      (key : Bytes)
      → ((i : ℕ) (v : ℤ) → ¬ (slot es i ≡ some (key, v)))
      → (f x : ℕ) → Walk x
      → dist cap x t < f
      → (y : ℕ) × (probe f es cap key x ≡ free y) × FirstFree es cap a t y
  unfolding probe
  probe-walk key absent zero x w l = absurd (omega arith)
  probe-walk key absent (suc f) x w l = elim (Used-or-free es x) [
    | inl ((k, v), h) ↦
        let d = dist-next cap x t w.inside ht (not_target x ((k, v), h)) in
        let (y, g, first) =
          probe-walk key absent f (next cap x) (walk-next x w ((k, v), h)) (omega (arith, d)) in
        let other : same_text k key ≡ false =
          different k key (λ e. absent x v (h ∙ ap (λ n. some (n, v)) e)) in
        (y, rw (h, other, probe) g, first)
    | inr h ↦ (
      x,
      rw (h, probe) refl,
      record { inside = w.inside; empty = h; full = w.full; on_way = w.on_way },
    )
  ]

  -- From the start, as many rounds as the circle has positions are enough.
  pub free_slot-FirstFree : (y : ℕ) × (free_slot cap es cap a ≡ some y) × FirstFree es cap a t y
  free_slot-FirstFree = free_slot-walk cap a start (dist-lt cap a t ha ht)

  pub probe-FirstFree :
      (key : Bytes)
      → ((i : ℕ) (v : ℤ) → ¬ (slot es i ≡ some (key, v)))
      → (y : ℕ) × (probe cap es cap key a ≡ free y) × FirstFree es cap a t y
  probe-FirstFree key absent = probe-walk key absent cap a start (dist-lt cap a t ha ht)

-- A key that is there, with used slots between its start and its place, is hit at its place.
module _ (es : List (Option Entry)) (cap a i : ℕ) (key : Bytes) (v : ℤ) (ha : a < cap)
    (hi : i < cap) (full : (z : ℕ) → z < cap → Between a z i → Used es z)
    (at : slot es i ≡ some (key, v))
    (alone : (j : ℕ) (w : ℤ) → slot es j ≡ some (key, w) → j ≡ i) where
  probe-hit :
      (f x : ℕ)
      → x < cap
      → Between a x i ⊎ (x ≡ i)
      → dist cap x i < f
      → probe f es cap key x ≡ hit i
  unfolding probe
  probe-hit zero x hx o l = absurd (omega arith)
  probe-hit (suc f) x hx (inl b) l =
      let ((k, w), h) = full x hx b in
      elim (Bool-cases (same_text k key)) [
        | inl s ↦
            let e : k ≡ key = same_text_eq k key s in
            let same : x ≡ i = alone x w (h ∙ ap (λ n. some (n, w)) e) in
            rw (h, s, probe) (ap hit same)
        | inr s ↦
            let away : x ≢ i = λ e.
              let k_is : ◌≡◌ {A = Option Entry} (some (k, w)) (some (key, v)) =
                sym h ∙ ap (slot es) e ∙ at in
              let names : k ≡ key = cc in
              let z : true ≡ false =
                sym (same_text_refl key) ∙ ap (λ n. same_text n key) (sym names) ∙ s in
              cc in
            let d = dist-next cap x i hx hi away in
            rw (h, s, probe)
              (probe-hit f (next cap x) (next-lt cap x hx) (on_way-next cap a x i ha hx hi b)
                (omega (arith, d)))
      ]
  probe-hit (suc f) x hx (inr e) l =
      let h : slot es x ≡ some (key, v) = ap (slot es) e ∙ at in
      rw (h, same_text_refl key, probe) (ap hit e)

  pub probe-found : probe cap es cap key a ≡ hit i
  probe-found = probe-hit cap a ha (omega arith) (dist-lt cap a i ha hi)

-- A key that is not there is not hit.
pub probe-absent :
    (es : List (Option Entry)) (cap : ℕ) (key : Bytes)
    → ((i : ℕ) (v : ℤ) → ¬ (slot es i ≡ some (key, v)))
    → (f x : ℕ) → (probe f es cap key x ≡ around) ⊎ ((y : ℕ) × (probe f es cap key x ≡ free y))
unfolding probe
probe-absent es cap key absent zero x = inl refl
probe-absent es cap key absent (suc f) x = elim (Used-or-free es x) [
  | inl ((k, v), h) ↦
      let other : same_text k key ≡ false =
        different k key (λ e. absent x v (h ∙ ap (λ n. some (n, v)) e)) in
      rw (h, other, probe) (probe-absent es cap key absent f (next cap x))
  | inr h ↦ inr (x, rw (h, probe) refl)
]
