-- ===== src/EpMap/Circle.antt =====
-- Positions on a circle: the next one, the ones from one to another, and the distance.
use ern_os.Base.{
  ℕ, suc, ◌+◌, ◌-◌, ◌%◌, ◌≤◌, ◌<◌, ◌≡◌, ◌≢◌, ◌⊎◌, inl, inr, ap, ◌∙◌, arith, ltb, if◌then◌else◌,
}
use native.Mathlib.Nat.{mod-eq_of_lt, mod_self}
use native.Mathlib.Decide.{dec_lt}
use Prim.{yes, no}
use ern_os.EpMap.{next}

-- From `a` on, and before `b`.
abbrev pub Between : ℕ → ℕ → ℕ → Type 0
Between a x b = ((a ≤ x) × (x < b)) ⊎ ((b < a) × ((a ≤ x) ⊎ (x < b)))

pub next-cases :
    (cap i : ℕ)
    → i < cap
    → ((i + 1 < cap) × (next cap i ≡ i + 1)) ⊎ ((i + 1 ≡ cap) × (next cap i ≡ 0))
unfolding next
next-cases cap i h = elim (dec_lt (i + 1) cap) [
  | yes l ↦ inl (l, mod-eq_of_lt l)
  | no g ↦ let e : i + 1 ≡ cap = omega arith in inr (e, ap (λ k. k % cap) e ∙ mod_self cap)
]

pub next-lt : (cap i : ℕ) → i < cap → next cap i < cap
next-lt cap i h = elim (next-cases cap i h) [ inl (l, e) ↦ omega arith | inr (l, e) ↦ omega arith ]

-- The steps that lead from a position to another one.
abbrev pub dist : ℕ → ℕ → ℕ → ℕ
dist cap x t = if ltb t x then cap - x + t else t - x

pub dist-next :
    (cap x t : ℕ) → x < cap → t < cap → x ≢ t → dist cap x t ≡ suc (dist cap (next cap x) t)
dist-next cap x t h k n = elim (next-cases cap x h) [
  | inl (l, e) ↦ ground (arith, e)
  | inr (l, e) ↦ ground (arith, e)
]

pub dist-lt : (cap x t : ℕ) → x < cap → t < cap → dist cap x t < cap
dist-lt cap x t h k = ground arith

-- A step on the way from `a` adds the position that is left.
pub Between-next :
    (cap a x z : ℕ)
    → a < cap
    → x < cap
    → z < cap
    → Between a z (next cap x)
    → Between a z x ⊎ (z ≡ x)
Between-next cap a x z ha hx hz b = elim (next-cases cap x hx) [
  | inl (l, e) ↦ omega arith
  | inr (l, e) ↦ omega arith
]

-- A step on the way to `t` stays on it.
pub on_way-next :
    (cap a x t : ℕ)
    → a < cap
    → x < cap
    → t < cap
    → Between a x t
    → Between a (next cap x) t ⊎ (next cap x ≡ t)
on_way-next cap a x t ha hx ht b = elim (next-cases cap x hx) [
  | inl (l, e) ↦ omega arith
  | inr (l, e) ↦ omega arith
]

-- The rank of a position when the circle is cut behind `e`, which comes last.
abbrev pub rank : ℕ → ℕ → ℕ → ℕ
rank cap e i = if ltb e i then i - e - 1 else i + cap - e - 1

pub rank-next :
    (cap e x : ℕ) → e < cap → x < cap → x ≢ e → rank cap e (next cap x) ≡ suc (rank cap e x)
rank-next cap e x he hx n = elim (next-cases cap x hx) [
  | inl (l, p) ↦ ground (arith, p)
  | inr (l, p) ↦ ground (arith, p)
]

module _ {cap e : ℕ} (he : e < cap) where
  pub rank-before : {x : ℕ} → x < cap → x ≢ e → rank cap e x < rank cap e e
  rank-before {x} hx n = ground arith

  pub rank_injective : {x y : ℕ} → x < cap → y < cap → rank cap e x ≡ rank cap e y → x ≡ y
  rank_injective {x} {y} hx hy h = ground arith

  -- A way that does not pass `e` goes up.
  pub rank-le :
      {a b : ℕ} → a < cap → b < cap → ¬ Between a e b → e ≢ b → rank cap e a ≤ rank cap e b
  rank-le {a} {b} ha hb n k = ground arith

  pub rank-Between :
      {a x b : ℕ}
      → a < cap
      → x < cap
      → b < cap
      → rank cap e a ≤ rank cap e x
      → rank cap e x < rank cap e b
      → Between a x b
  rank-Between {a} {x} {b} ha hx hb h k = ground arith

  pub Between-rank :
      {a x b : ℕ}
      → a < cap
      → x < cap
      → b < cap
      → rank cap e a ≤ rank cap e b
      → Between a x b
      → (rank cap e a ≤ rank cap e x) × (rank cap e x < rank cap e b)
  Between-rank {a} {x} {b} ha hx hb h k = ground arith

-- The whole circle but one position leads back to it.
pub not-around : (cap p t : ℕ) → p < cap → t < cap → p ≢ t → ¬ Between (next cap p) p t
not-around cap p t hp ht n b = elim (next-cases cap p hp) [
  | inl (l, e) ↦ omega arith
  | inr (l, e) ↦ omega arith
]
