-- ===== src/EpList/SpecLaws.antt =====
-- Reads of a sequence after each of its operations.
use ern_os.Base.{
  ℕ, zero, suc, ◌-◌, ◌≤◌, ◌<◌, ◌≡◌, refl, ◌∙◌, ap, List, [], ◌∷◌, ◌++◌, arith, length, get_or,
}
use ern_os.Base.Int.{ℤ, pos}
use ern_os.EpList.Spec.{init, last, erase_at}

pub get_or-snoc : (xs : List ℤ) (v : ℤ) → get_or (xs ++ v ∷ []) (length xs) (pos 0) ≡ v
get_or-snoc [] v = refl
get_or-snoc (x ∷ xs) v = get_or-snoc xs v

pub length-init : (xs : List ℤ) → length (init xs) ≡ length xs - 1
length-init [] = omega arith
length-init (x ∷ []) = omega arith
length-init (x ∷ y ∷ xs) = omega (arith, length-init (y ∷ xs))

pub get_or-init :
    (xs : List ℤ) (i : ℕ) → suc i < length xs → get_or (init xs) i (pos 0) ≡ get_or xs i (pos 0)
get_or-init [] i h = absurd (omega arith)
get_or-init (x ∷ []) i h = absurd (omega arith)
get_or-init (x ∷ y ∷ xs) zero h = refl
get_or-init (x ∷ y ∷ xs) (suc i) h = get_or-init (y ∷ xs) i (omega arith)

pub last_lem : (xs : List ℤ) → last xs ≡ get_or xs (length xs - 1) (pos 0)
last_lem [] = refl
last_lem (x ∷ []) = let e : 0 ≡ 1 - 1 = omega arith in ap (λ k. get_or (x ∷ []) k (pos 0)) e
last_lem (x ∷ y ∷ xs) =
    let e : suc (length (y ∷ xs) - 1) ≡ length (x ∷ y ∷ xs) - 1 = omega arith in
    last_lem (y ∷ xs) ∙ ap (λ k. get_or (x ∷ y ∷ xs) k (pos 0)) e

pub length-erase_at : (xs : List ℤ) (i : ℕ) → i < length xs → length (erase_at xs i) ≡ length xs - 1
length-erase_at [] i h = absurd (omega arith)
length-erase_at (x ∷ xs) zero h = omega arith
length-erase_at (x ∷ xs) (suc i) h = omega (arith, length-erase_at xs i)

pub get_or-erase_at_below :
    (xs : List ℤ) (i j : ℕ) → j < i → get_or (erase_at xs i) j (pos 0) ≡ get_or xs j (pos 0)
get_or-erase_at_below [] i j h = refl
get_or-erase_at_below (x ∷ xs) zero j h = elim h [ ]
get_or-erase_at_below (x ∷ xs) (suc i) zero h = refl
get_or-erase_at_below (x ∷ xs) (suc i) (suc j) h = get_or-erase_at_below xs i j (omega arith)

pub get_or-erase_at_above :
    (xs : List ℤ) (i j : ℕ) → i ≤ j → get_or (erase_at xs i) j (pos 0) ≡ get_or xs (suc j) (pos 0)
get_or-erase_at_above [] i j h = refl
get_or-erase_at_above (x ∷ xs) zero j h = refl
get_or-erase_at_above (x ∷ xs) (suc i) zero h = absurd (omega arith)
get_or-erase_at_above (x ∷ xs) (suc i) (suc j) h = get_or-erase_at_above xs i j (omega arith)
