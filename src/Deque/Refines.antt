-- ===== src/Deque/Refines.antt =====
-- The ring buffer refines the double-ended sequence: one step, then any run of calls.
use ern_os.Base.{
  ℕ, zero, suc, ◌+◌, ◌-◌, ◌*◌, ◌%◌, ◌≤◌, ◌<◌, ◌≡◌, refl, sym, ◌∙◌, ap, ap₂, inl, inr, Bool-cases,
  true, false, some, List, [], ◌∷◌, ◌++◌, arith, leb, leb→gt, ◌==◌, length, get_or, set, replicate,
  length-set, length-append, length-replicate, get_or-set_self, get_or-set_ne, get_or-append_left,
}
use native.Mathlib.Decide.{dec_lt}
use native.Mathlib.Nat.{mod-add-mod}
use ern_os.Base.Int.{ℤ, pos}
use ern_os.EpList.Spec.{init}
use ern_os.EpList.SpecLaws.{get_or-snoc, length-init, get_or-init, last_lem}
use ern_os.Deque.{
  EpDeque, Handle, create_deque, deque_resize, make_room, deque_push_back, deque_push_front,
  deque_pop_back, deque_pop_front, deque_length,
}
use ern_os.Deque.Spec.{
  Op, push_back, push_front, pop_back, pop_front, count, step_seq, step_deque, run_deque, run_seq,
}
use ern_os.Deque.Ring.{
  mod_below, ring_ne, ring_lt, ring_next, ring_back, before_lt, before_next, before_ne,
  length-copy_cells, copy_cells_moved,
}

-- The sequence stands in the ring from `head` on, and `tail` is one past its last cell.
pub record Models (q : EpDeque) (xs : List ℤ) : Type 0 where
  pub allocated : length q.cells ≡ q.capacity
  pub inside : q.head < q.capacity
  pub fits : q.size ≤ q.capacity
  pub ends : q.tail ≡ (q.head + q.size) % q.capacity
  pub counted : q.size ≡ length xs
  pub reads :
      (i : ℕ)
      → i < length xs
      → get_or q.cells ((q.head + i) % q.capacity) (pos 0) ≡ get_or xs i (pos 0)

pub create_deque-Models : (junk : ℤ) → (q : EpDeque) × (create_deque junk ≡ some q) × Models q []
unfolding create_deque
create_deque-Models junk = (
  record { cells = replicate 16 junk; capacity = 16; head = 0; tail = 0; size = 0 },
  refl,
  record {
    allocated = refl;
    inside = omega arith;
    fits = omega arith;
    ends = refl;
    counted = refl;
    reads = λ i h. elim h [ ];
  },
)

-- A resize to more than the size keeps the sequence.
deque_resize-Models :
    (junk : ℤ) (q : EpDeque) (xs : List ℤ) (n : ℕ)
    → Models q xs
    → q.size < n
    → Models (deque_resize junk q n) xs
unfolding deque_resize
deque_resize-Models junk q xs n m h =
    let fresh = replicate n junk in
    let wide = length-replicate n junk in
    record {
      allocated = length-copy_cells q.size 0 q fresh ∙ wide;
      inside = omega arith;
      fits = omega arith;
      ends = sym (mod_below (0 + q.size) n (omega arith) ∙ omega arith);
      counted = m.counted;
      reads = λ i p.
          let e : (0 + i) % n ≡ i = mod_below (0 + i) n (omega (arith, m.counted)) ∙ omega arith in
          rw e (
            copy_cells_moved q.size 0 q fresh i (omega arith) (omega (arith, m.counted))
              (omega (arith, wide))
            ∙ m.reads i p);
    }

-- After `make_room` a cell is free.
make_room-Models :
    (junk : ℤ) (q : EpDeque) (xs : List ℤ)
    → Models q xs
    → Models (make_room junk q) xs × ((make_room junk q).size < (make_room junk q).capacity)
unfolding make_room
make_room-Models junk q xs m = elim (Bool-cases (leb q.capacity q.size)) [
  | inr e ↦ rw e (m, leb→gt _ _ e)
  | inl e ↦
      let full : q.size < q.capacity * 2 = omega (arith, m.fits, m.inside) in
      rw e (deque_resize-Models junk q xs (q.capacity * 2) m full, unfold deque_resize in full)
]

-- The cell that a push at the front takes.
abbrev front_cell : EpDeque → ℕ
front_cell q = (q.head + q.capacity - 1) % q.capacity

module _ (q : EpDeque) (xs : List ℤ) (v : ℤ) (m : Models q xs) (room : q.size < q.capacity) where
  at_tail : q.tail ≡ (q.head + length xs) % q.capacity
  at_tail = m.ends ∙ ap (λ k. (q.head + k) % q.capacity) m.counted

  few : length xs < q.capacity
  few = omega (arith, m.counted, room)

  pub push_back-Models :
      Models
        (record q {
          cells = set q.cells q.tail v;
          tail = (q.tail + 1) % q.capacity;
          size = q.size + 1;
        })
        (xs ++ v ∷ [])
  push_back-Models = record {
    allocated = length-set q.cells q.tail v ∙ m.allocated;
    inside = m.inside;
    fits = omega (arith, room);
    ends =
        ap (λ k. (k + 1) % q.capacity) m.ends
        ∙ ring_next q.head q.capacity m.inside q.size room
        ∙ ap (λ k. (q.head + k) % q.capacity) (let e : suc q.size ≡ q.size + 1 = omega arith in e);
    counted = omega (arith, m.counted, length-append xs (v ∷ []));
    reads = λ i h. elim (dec_lt i (length xs)) [
      | yes p ↦
          get_or-set_ne q.cells q.tail ((q.head + i) % q.capacity) v (pos 0) (
            rw at_tail (
              ring_ne q.head q.capacity m.inside (length xs) i few (omega (arith, few))
                (omega arith)))
          ∙ m.reads i p
          ∙ sym (get_or-append_left xs (v ∷ []) i (pos 0) p)
      | no p ↦
          let e : i ≡ length xs = omega (arith, length-append xs (v ∷ [])) in
          rw (e, ← at_tail)
            (get_or-set_self q.cells q.tail v (pos 0) (
                omega
                  (arith, m.allocated, at_tail, ring_lt q.head q.capacity m.inside (length xs) few))
              ∙ sym (get_or-snoc xs v))
    ];
  }

  push_front-Models :
      Models
        (record q {
          cells = set q.cells (front_cell q) v;
          head = (front_cell q);
          size = q.size + 1;
        })
        (v ∷ xs)
  push_front-Models =
      let c = q.capacity in
      let lt = before_lt q.head c m.inside in
      record {
        allocated = length-set q.cells (front_cell q) v ∙ m.allocated;
        inside = lt;
        fits = omega (arith, room);
        ends =
            m.ends
            ∙ sym (before_next q.head c m.inside q.size room)
            ∙ ap (λ k. ((front_cell q) + k) % c)
                (let e : suc q.size ≡ q.size + 1 = omega arith in e);
        counted = omega (arith, m.counted);
        reads = λ i h. push_front_reads i h;
      }
    where
      push_front_reads :
          (i : ℕ)
          → i < length (v ∷ xs)
          → get_or (set q.cells (front_cell q) v) (((front_cell q) + i) % q.capacity) (pos 0)
            ≡ get_or (v ∷ xs) i (pos 0)
      push_front_reads zero h =
          let lt = before_lt q.head q.capacity m.inside in
          let e : ((front_cell q) + zero) % q.capacity ≡ (front_cell q) =
            ap (λ k. k % q.capacity)
              (let z : (front_cell q) + zero ≡ (front_cell q) = omega arith in z)
            ∙ mod_below (front_cell q) q.capacity lt in
          ap (λ k. get_or (set q.cells (front_cell q) v) k (pos 0)) e
          ∙ get_or-set_self q.cells (front_cell q) v (pos 0) (omega (arith, lt, m.allocated))
      push_front_reads (suc j) h =
          ap (λ k. get_or (set q.cells (front_cell q) v) k (pos 0))
            (before_next q.head q.capacity m.inside j (omega (arith, few)))
          ∙ get_or-set_ne q.cells (front_cell q) ((q.head + j) % q.capacity) v (pos 0)
              (before_ne q.head q.capacity m.inside j (omega (arith, few)))
          ∙ m.reads j (omega arith)

pop_back-Models :
    (q : EpDeque) (xs : List ℤ) (n : ℕ)
    → Models q xs
    → q.size ≡ suc n
    → Models
        (record q { tail = (q.tail + q.capacity - 1) % q.capacity; size = q.size - 1 })
        (init xs)
      × ((q.tail + q.capacity - 1) % q.capacity ≡ (q.head + n) % q.capacity)
pop_back-Models q xs n m e =
    let c = q.capacity in
    let back : (q.tail + c - 1) % c ≡ (q.head + n) % c =
      ap (λ k. (k + c - 1) % c) (m.ends ∙ ap (λ k. (q.head + k) % c) e)
      ∙ ring_back q.head c m.inside n (omega (arith, m.fits)) in
    let less : n ≡ q.size - 1 = omega arith in
    (
      record {
        allocated = m.allocated;
        inside = m.inside;
        fits = omega (arith, m.fits);
        ends = back ∙ ap (λ k. (q.head + k) % c) less;
        counted = omega (arith, m.counted, length-init xs);
        reads = λ i h.
            m.reads i (omega (arith, length-init xs))
            ∙ sym (get_or-init xs i (omega (arith, length-init xs)));
      },
      back,
    )

pub pop_front-Models :
    (q : EpDeque) (x : ℤ) (xs : List ℤ)
    → Models q (x ∷ xs)
    → Models (record q { head = (q.head + 1) % q.capacity; size = q.size - 1 }) xs
      × (get_or q.cells q.head (pos 0) ≡ x)
pop_front-Models q x xs m =
    let c = q.capacity in
    let lt : (q.head + 1) % c < c = grind (arith, m.inside) in
    let one : q.size ≡ suc (q.size - 1) = omega (arith, m.counted) in
    let next = λ (i : ℕ).
      (mod-add-mod (q.head + 1) c i
        ∙ ap (λ k. k % c) (let z : q.head + 1 + i ≡ q.head + suc i = omega arith in z)) in
    (
      record {
        allocated = m.allocated;
        inside = lt;
        fits = omega (arith, m.fits);
        ends = m.ends ∙ ap (λ k. (q.head + k) % c) one ∙ sym (next (q.size - 1));
        counted = omega (arith, m.counted);
        reads = λ i h. ap (λ k. get_or q.cells k (pos 0)) (next i) ∙ m.reads (suc i) (omega arith);
      },
      ap (λ k. get_or q.cells k (pos 0))
            (sym (
              ap (λ k. k % c) (let z : q.head + 0 ≡ q.head = omega arith in z)
              ∙ mod_below q.head c m.inside))
          ∙ m.reads 0 (omega arith),
    )

-- A reply and a state of the ring that agree with those of the sequence.
abbrev pub Agrees : ℤ × Handle → ℤ × List ℤ → Type 0
Agrees r s = (r.0 ≡ s.0) × ((q : EpDeque) × (r.1 ≡ some q) × Models q s.1)

step_pop_back :
    (q : EpDeque) (xs : List ℤ)
    → Models q xs
    → Agrees (deque_pop_back (some q)) (step_seq xs pop_back)
unfolding deque_pop_back step_seq
step_pop_back q [] m =
    let e : (q.size == 0) ≡ true = ground (arith, m.counted) in rw e (refl, (q, refl, m))
step_pop_back q (x ∷ xs) m =
    let e : (q.size == 0) ≡ false = ground (arith, m.counted) in
    let (m', at) = pop_back-Models q (x ∷ xs) (length xs) m m.counted in
    let z : length xs ≡ length (x ∷ xs) - 1 = omega arith in
    rw e (
      ap (λ k. get_or q.cells k (pos 0)) at
          ∙ m.reads (length xs) (omega arith)
          ∙ ap (λ k. get_or (x ∷ xs) k (pos 0)) z
          ∙ sym (last_lem (x ∷ xs)),
      (_, refl, m'),
    )

step_pop_front :
    (q : EpDeque) (xs : List ℤ)
    → Models q xs
    → Agrees (deque_pop_front (some q)) (step_seq xs pop_front)
unfolding deque_pop_front step_seq
step_pop_front q [] m =
    let e : (q.size == 0) ≡ true = ground (arith, m.counted) in rw e (refl, (q, refl, m))
step_pop_front q (x ∷ xs) m =
    let e : (q.size == 0) ≡ false = ground (arith, m.counted) in
    let (m', at) = pop_front-Models q x xs m in rw e (at, (_, refl, m'))

-- Every call on a ring that models a sequence replies as the sequence does, and leaves a ring
-- that models the sequence after the call.
pub step_deque-step_seq :
    (junk : ℤ) (q : EpDeque) (xs : List ℤ) (o : Op)
    → Models q xs
    → Agrees (step_deque junk (some q) o) (step_seq xs o)
unfolding step_deque step_seq deque_push_back deque_push_front deque_length
step_deque-step_seq junk q xs (push_back v) m =
    let (m', room) = make_room-Models junk q xs m in
    (refl, (_, refl, push_back-Models (make_room junk q) xs v m' room))
step_deque-step_seq junk q xs (push_front v) m =
    let (m', room) = make_room-Models junk q xs m in
    (refl, (_, refl, push_front-Models (make_room junk q) xs v m' room))
step_deque-step_seq junk q xs pop_back m = step_pop_back q xs m
step_deque-step_seq junk q xs pop_front m = step_pop_front q xs m
step_deque-step_seq junk q xs count m = (ap pos m.counted, (q, refl, m))

run_from :
    (junk : ℤ) (q : EpDeque) (xs : List ℤ) (os : List Op)
    → Models q xs
    → run_deque junk (some q) os ≡ run_seq xs os
unfolding run_deque run_seq
run_from junk q xs [] m = refl
run_from junk q xs (o ∷ os) m =
    let (same, (q', e, m')) = step_deque-step_seq junk q xs o m in
    ap₂ (λ r rs. r ∷ rs) same
      (ap (λ h. run_deque junk h os) e ∙ run_from junk q' (step_seq xs o).1 os m')

-- From create_deque on, any sequence of pushes, pops and calls of deque_length gets the replies of
-- a double-ended sequence that starts empty: wrap-around, growth in the middle of a wrapped ring
-- and the cells that were never written are not seen.
pub run_deque-run_seq :
    (junk : ℤ) (os : List Op) → run_deque junk (create_deque junk) os ≡ run_seq [] os
run_deque-run_seq junk os =
    let (q, e, m) = create_deque-Models junk in
    ap (λ h. run_deque junk h os) e ∙ run_from junk q [] os m
