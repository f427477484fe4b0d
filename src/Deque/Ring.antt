-- ===== src/Deque/Ring.antt =====
-- Positions in a ring, and the loop of `deque_resize`.
use ern_os.Base.{
  ℕ, zero, suc, ◌+◌, ◌-◌, ◌%◌, ◌≤◌, ◌<◌, ◌≡◌, ◌≢◌, refl, ◌∙◌, ◌⊎◌, inl, inr, List, arith, length,
  get_or, set, length-set, get_or-set_self, get_or-set_ne,
}
use native.Mathlib.Decide.{dec_lt}
use native.Mathlib.Nat.{mod-eq_of_lt, mod-eq-sub-mod}
use ern_os.Base.Int.{ℤ, pos}
use ern_os.Deque.{EpDeque, copy_cells}

-- The remainder of a number below twice the modulus.
pub mod_split : (a c : ℕ) → a < c + c → ((a < c) × (a % c ≡ a)) ⊎ ((c ≤ a) × (a % c + c ≡ a))
mod_split a c h = elim (dec_lt a c) [
  | yes p ↦ inl (p, mod-eq_of_lt p)
  | no p ↦
      let e : a % c ≡ a - c = mod-eq-sub-mod (omega arith) ∙ mod-eq_of_lt (omega arith) in
      inr (omega arith, omega (arith, e))
]

pub mod_below : (a c : ℕ) → a < c → a % c ≡ a
mod_below a c h = mod-eq_of_lt h

module _ (head c : ℕ) (inside : head < c) where
  -- Two offsets below the capacity are two cells.
  pub ring_ne : (i j : ℕ) → i < c → j < c → i ≢ j → (head + i) % c ≢ (head + j) % c
  ring_ne i j p q d =
      omega (arith, mod_split (head + i) c (omega arith), mod_split (head + j) c (omega arith))

  pub ring_lt : (i : ℕ) → i < c → (head + i) % c < c
  ring_lt i p = omega (arith, mod_split (head + i) c (omega arith))

  -- One step on from the cell at an offset.
  pub ring_next : (i : ℕ) → i < c → ((head + i) % c + 1) % c ≡ (head + suc i) % c
  ring_next i p = omega (
    arith,
    mod_split (head + i) c (omega arith),
    mod_split ((head + i) % c + 1) c (omega (arith, ring_lt i p)),
    mod_split (head + suc i) c (omega arith),
  )

  -- One step back from the cell at an offset.
  pub ring_back : (i : ℕ) → i < c → ((head + suc i) % c + c - 1) % c ≡ (head + i) % c
  ring_back i p = elim (mod_split (head + suc i) c (omega arith)) [
    | inl s ↦ omega (
      arith,
      mod_split (head + i) c (omega arith),
      mod_split ((head + suc i) % c + c - 1) c (omega arith),
    )
    | inr s ↦ omega (
      arith,
      mod_split (head + i) c (omega arith),
      mod_split ((head + suc i) % c + c - 1) c (omega arith),
    )
  ]

  -- The cell before the head is the free one that a push at the front takes.
  pub before_lt : (head + c - 1) % c < c
  before_lt = omega (arith, mod_split (head + c - 1) c (omega arith))

  pub before_next : (j : ℕ) → j < c → ((head + c - 1) % c + suc j) % c ≡ (head + j) % c
  before_next j p = omega (
    arith,
    mod_split (head + c - 1) c (omega arith),
    mod_split (head + j) c (omega arith),
    mod_split ((head + c - 1) % c + suc j) c (omega (arith, before_lt)),
  )

  pub before_ne : (j : ℕ) → suc j < c → (head + c - 1) % c ≢ (head + j) % c
  before_ne j p =
      omega (arith, mod_split (head + c - 1) c (omega arith), mod_split (head + j) c (omega arith))

pub length-copy_cells :
    (k i : ℕ) (dq : EpDeque) (fresh : List ℤ) → length (copy_cells k i dq fresh) ≡ length fresh
unfolding copy_cells
length-copy_cells zero i dq fresh = refl
length-copy_cells (suc k) i dq fresh = length-copy_cells k (suc i) dq _ ∙ length-set fresh i _

copy_cells_below :
    (k i : ℕ) (dq : EpDeque) (fresh : List ℤ) (j : ℕ)
    → j < i
    → get_or (copy_cells k i dq fresh) j (pos 0) ≡ get_or fresh j (pos 0)
unfolding copy_cells
copy_cells_below zero i dq fresh j h = refl
copy_cells_below (suc k) i dq fresh j h =
    copy_cells_below k (suc i) dq _ j (omega arith)
    ∙ get_or-set_ne fresh i j (get_or dq.cells ((dq.head + i) % dq.capacity) (pos 0)) (pos 0)
        (omega arith)

-- The cells from `i` on receive the queue's values in their order.
pub copy_cells_moved :
    (k i : ℕ) (dq : EpDeque) (fresh : List ℤ) (j : ℕ)
    → i ≤ j
    → j < i + k
    → i + k ≤ length fresh
    → get_or (copy_cells k i dq fresh) j (pos 0)
      ≡ get_or dq.cells ((dq.head + j) % dq.capacity) (pos 0)
unfolding copy_cells
copy_cells_moved zero i dq fresh j h p b = absurd (omega arith)
copy_cells_moved (suc k) i dq fresh j h p b =
    let v = get_or dq.cells ((dq.head + i) % dq.capacity) (pos 0) in
    elim (dec_lt i j) [
      | yes q ↦
          copy_cells_moved k (suc i) dq (set fresh i v) j (omega arith) (omega arith)
            (omega (arith, length-set fresh i v))
      | no q ↦
          let e : i ≡ j = omega arith in
          rw (← e) (
            copy_cells_below k (suc i) dq (set fresh i v) i (omega arith)
            ∙ get_or-set_self fresh i v (pos 0) (omega arith))
    ]
