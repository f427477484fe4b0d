-- ===== src/Deque.antt =====
-- The double-ended queue of the C runtime, `EpDeque` of toolchain/epc_bootstrap.c: a ring buffer
-- that doubles. `data` is the list `cells`, as long as what was allocated; `junk` is what a cell
-- that was never written holds. Allocation succeeds, and a handle is `none` for the null pointer.
pub mod Spec
pub mod Ring
pub mod Refines
mod Tests
use ern_os.Base.{
  ℕ, zero, suc, ◌+◌, ◌-◌, ◌*◌, ◌%◌, Option, none, some, List, leb, ◌==◌, if◌then◌else◌, get_or, set,
  replicate,
}
use ern_os.Base.Int.{ℤ, pos}

pub record EpDeque : Type 0 where
  pub cells : List ℤ
  pub capacity : ℕ
  pub head : ℕ
  pub tail : ℕ
  pub size : ℕ

abbrev pub Handle : Type 0
Handle = Option EpDeque

-- The loop of `deque_resize` from `i` on, with the rounds that are left.
unfoldable pub copy_cells : ℕ → ℕ → EpDeque → List ℤ → List ℤ
copy_cells zero i dq fresh = fresh
copy_cells (suc k) i dq fresh =
    copy_cells k (suc i) dq (set fresh i (get_or dq.cells ((dq.head + i) % dq.capacity) (pos 0)))

module _ (junk : ℤ) where
  unfoldable pub create_deque : Handle
  create_deque =
      some (record { cells = replicate 16 junk; capacity = 16; head = 0; tail = 0; size = 0 })

  unfoldable pub deque_resize : EpDeque → ℕ → EpDeque
  deque_resize dq new_capacity = record {
    cells = copy_cells dq.size 0 dq (replicate new_capacity junk);
    capacity = new_capacity;
    head = 0;
    tail = dq.size;
    size = dq.size;
  }

  -- The test at the head of the two pushes.
  unfoldable pub make_room : EpDeque → EpDeque
  make_room dq = if leb dq.capacity dq.size then deque_resize dq (dq.capacity * 2) else dq

  unfoldable pub deque_push_back : Handle → ℤ → ℤ × Handle
  deque_push_back none v = (pos 0, none)
  deque_push_back (some dq) v =
      let r = make_room dq in
      (
        v,
        some (record r {
          cells = set r.cells r.tail v;
          tail = (r.tail + 1) % r.capacity;
          size = r.size + 1;
        }),
      )

  -- `head - 1 + capacity`, where the capacity is at least 1.
  unfoldable pub deque_push_front : Handle → ℤ → ℤ × Handle
  deque_push_front none v = (pos 0, none)
  deque_push_front (some dq) v =
      let r = make_room dq in
      let h = (r.head + r.capacity - 1) % r.capacity in
      (v, some (record r { cells = set r.cells h v; head = h; size = r.size + 1 }))

unfoldable pub deque_pop_back : Handle → ℤ × Handle
deque_pop_back none = (pos 0, none)
deque_pop_back (some dq) =
    if dq.size == 0
    then (pos 0, some dq)
    else (let t = (dq.tail + dq.capacity - 1) % dq.capacity in
        (get_or dq.cells t (pos 0), some (record dq { tail = t; size = dq.size - 1 })))

unfoldable pub deque_pop_front : Handle → ℤ × Handle
deque_pop_front none = (pos 0, none)
deque_pop_front (some dq) = if dq.size == 0 then (pos 0, some dq) else (
  get_or dq.cells dq.head (pos 0),
  some (record dq { head = (dq.head + 1) % dq.capacity; size = dq.size - 1 }),
)

unfoldable pub deque_length : Handle → ℕ
deque_length none = 0
deque_length (some dq) = dq.size
