-- ===== src/EpList/Shift.antt =====
-- The loop of `remove_list`, cell by cell.
use ern_os.Base.{
  ℕ, zero, suc, ◌+◌, ◌≤◌, ◌<◌, ◌≡◌, refl, ◌∙◌, List, arith, length, get_or, set, length-set,
  get_or-set_self, get_or-set_ne,
}
use native.Mathlib.Decide.{dec_lt}
use ern_os.Base.Int.{ℤ, pos}
use ern_os.EpList.{shift_down}

pub length-shift_down : (k i : ℕ) (c : List ℤ) → length (shift_down k i c) ≡ length c
unfolding shift_down
length-shift_down zero i c = refl
length-shift_down (suc k) i c =
    length-shift_down k (suc i) (set c i (get_or c (suc i) (pos 0))) ∙ length-set c i _

-- Below the start nothing moves.
pub shift_down_below :
    (k i : ℕ) (c : List ℤ) (j : ℕ)
    → j < i
    → get_or (shift_down k i c) j (pos 0) ≡ get_or c j (pos 0)
unfolding shift_down
shift_down_below zero i c j h = refl
shift_down_below (suc k) i c j h =
    shift_down_below k (suc i) (set c i (get_or c (suc i) (pos 0))) j (omega arith)
    ∙ get_or-set_ne c i j (get_or c (suc i) (pos 0)) (pos 0) (omega arith)

-- Each of the `k` cells from the start on takes its neighbour's value.
pub shift_down_moved :
    (k i : ℕ) (c : List ℤ) (j : ℕ)
    → i ≤ j
    → j < i + k
    → i + k < length c
    → get_or (shift_down k i c) j (pos 0) ≡ get_or c (suc j) (pos 0)
unfolding shift_down
shift_down_moved zero i c j h p b = absurd (omega arith)
shift_down_moved (suc k) i c j h p b = elim (dec_lt i j) [
  | yes q ↦
      shift_down_moved k (suc i) (set c i (get_or c (suc i) (pos 0))) j (omega arith) (omega arith)
        (omega (arith, length-set c i (get_or c (suc i) (pos 0))))
      ∙ get_or-set_ne c i (suc j) (get_or c (suc i) (pos 0)) (pos 0) (omega arith)
  | no q ↦
      let e : i ≡ j = omega arith in
      rw (← e) (
        shift_down_below k (suc i) (set c i (get_or c (suc i) (pos 0))) i (omega arith)
        ∙ get_or-set_self c i (get_or c (suc i) (pos 0)) (pos 0) (omega arith))
]
