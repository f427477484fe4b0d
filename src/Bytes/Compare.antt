-- ===== src/Bytes/Compare.antt =====
-- strcmp, as far as the code asks it whether two texts are equal.
use ern_os.Base.{
  ◌≡◌, ◌≢◌, refl, ap₂, inl, inr, Bool, true, false, ◌&&◌, [], ◌∷◌, arith, ◌==◌, Bool-cases,
}
use ern_os.Bytes.{Bytes}

-- `strcmp(a, b) == 0`
unfoldable pub same_text : Bytes → Bytes → Bool
same_text [] [] = true
same_text [] (d ∷ b) = false
same_text (c ∷ a) [] = false
same_text (c ∷ a) (d ∷ b) = c == d && same_text a b

-- `strcmp` is 0 for equal texts alone.
pub same_text_refl : (a : Bytes) → same_text a a ≡ true
unfolding same_text
same_text_refl [] = refl
same_text_refl (c ∷ a) = let e : (c == c) ≡ true = ground arith in rw (e, same_text_refl a)

pub same_text_eq : (a b : Bytes) → same_text a b ≡ true → a ≡ b
unfolding same_text
same_text_eq [] [] h = refl
same_text_eq [] (d ∷ b) h = cc
same_text_eq (c ∷ a) [] h = cc
same_text_eq (c ∷ a) (d ∷ b) h = elim (Bool-cases (c == d)) [
  | inl e ↦
      ap₂ (λ x xs. x ∷ xs) (let z : c ≡ d = ground (arith, e) in z) (same_text_eq a b (rw e at h))
  | inr e ↦ absurd (let z : false ≡ true = rw e at h in cc)
]

pub different : (a b : Bytes) → a ≢ b → same_text a b ≡ false
different a b n = elim (Bool-cases (same_text a b)) [
  | inl e ↦ absurd (n (same_text_eq a b e))
  | inr e ↦ e
]
