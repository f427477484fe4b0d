-- ===== src/EpList/Refines.antt =====
-- The C list refines the sequence: one step, then any run of calls.
use ern_os.Base.{
  ℕ, suc, ◌+◌, ◌-◌, ◌*◌, ◌≤◌, ◌<◌, ◌≡◌, refl, sym, ◌∙◌, ap, ap₂, inl, inr, Bool-cases, Bool, true,
  false, some, List, [], ◌∷◌, ◌++◌, arith, leb, leb→gt, if◌then◌else◌, length, get_or, set,
  replicate, length-set, length-append, get_or-set_self, get_or-set_ne, get_or-append_left,
}
use native.Mathlib.Decide.{dec_lt, ℕ_discrete}
use ern_os.Base.Memory.{length-realloc, get_or-realloc}
use ern_os.Base.Int.{ℤ, pos, negsuc}
use ern_os.EpList.{
  EpList, Handle, out_of_range, offset, reserve, create_list, append_list, get_list, set_list,
  length_list, pop_list, remove_list, shift_down,
}
use ern_os.EpList.Spec.{
  Op, append, get, put, count, pop, remove, init, erase_at, step_seq, step_list, run_list, run_seq,
}
use ern_os.EpList.SpecLaws.{
  get_or-snoc, length-init, get_or-init, last_lem, length-erase_at, get_or-erase_at_below,
  get_or-erase_at_above,
}
use ern_os.EpList.Shift.{length-shift_down, shift_down_below, shift_down_moved}

-- The allocated cells are `capacity`, one at least, and hold the sequence in their first `len`.
pub record Models (l : EpList) (xs : List ℤ) : Type 0 where
  pub allocated : length l.cells ≡ l.capacity
  pub fits : l.len ≤ l.capacity
  pub roomy : 1 ≤ l.capacity
  pub counted : l.len ≡ length xs
  pub reads : (i : ℕ) → i < length xs → get_or l.cells i (pos 0) ≡ get_or xs i (pos 0)

-- After `reserve` there is a free cell, and the sequence is what it was.
reserve-Models :
    (junk : ℤ) (l : EpList) (xs : List ℤ)
    → Models l xs
    → Models (reserve junk l) xs
      × (length xs < length (reserve junk l).cells)
      × ((reserve junk l).len ≡ l.len)
unfolding reserve
reserve-Models junk l xs m = elim (Bool-cases (leb l.capacity l.len)) [
  | inr e ↦ rw e (m, omega (arith, leb→gt _ _ e, m.allocated, m.counted), refl)
  | inl e ↦
      let n = l.capacity * 2 in
      let small : length l.cells ≤ n = omega (arith, m.allocated) in
      let len = length-realloc junk l.cells n small in
      rw e (
        record {
          allocated = len;
          fits = omega (arith, m.fits);
          roomy = omega (arith, m.roomy);
          counted = m.counted;
          reads = λ i h.
              get_or-realloc junk l.cells n i (pos 0) small
                (omega (arith, m.allocated, m.fits, m.counted))
              ∙ m.reads i h;
        },
        omega (arith, m.fits, m.roomy, m.counted, len),
        refl,
      )
]

create_list-Models : (junk : ℤ) → (l : EpList) × (create_list junk ≡ some l) × Models l []
unfolding create_list
create_list-Models junk = (
  record { cells = replicate 4 junk; capacity = 4; len = 0 },
  refl,
  record {
    allocated = refl;
    fits = omega arith;
    roomy = omega arith;
    counted = refl;
    reads = λ i h. elim h [ ];
  },
)

append-Models :
    (junk : ℤ) (l : EpList) (xs : List ℤ) (v : ℤ)
    → Models l xs
    → Models
        (let r = reserve junk l in record r { cells = set r.cells r.len v; len = r.len + 1 })
        (xs ++ v ∷ [])
append-Models junk l xs v m =
    let (k, room, same) = reserve-Models junk l xs m in
    let r = reserve junk l in
    let at : r.len ≡ length xs = k.counted in
    let grown = length-append xs (v ∷ []) in
    record {
      allocated = length-set r.cells r.len v ∙ k.allocated;
      fits = omega (arith, k.allocated, at, room);
      roomy = k.roomy;
      counted = omega (arith, at, grown);
      reads = λ i h. elim (dec_lt i (length xs)) [
        | yes p ↦
            get_or-set_ne r.cells r.len i v (pos 0) (omega arith)
            ∙ k.reads i p
            ∙ sym (get_or-append_left xs (v ∷ []) i (pos 0) p)
        | no p ↦
            let e : i ≡ length xs = omega (arith, grown) in
            rw (e, at) (get_or-set_self r.cells (length xs) v (pos 0) room ∙ sym (get_or-snoc xs v))
      ];
    }

-- A write inside the sequence is a write to its cell.
set-Models :
    (l : EpList) (xs : List ℤ) (i : ℕ) (v : ℤ)
    → Models l xs
    → i < length xs
    → Models (record l { cells = set l.cells i v }) (set xs i v)
set-Models l xs i v m h = record {
  allocated = length-set l.cells i v ∙ m.allocated;
  fits = m.fits;
  roomy = m.roomy;
  counted = m.counted ∙ sym (length-set xs i v);
  reads = λ j p. elim (ℕ_discrete i j) [
    | yes e ↦ rw (← e) (
        get_or-set_self l.cells i v (pos 0) (omega (arith, m.allocated, m.fits, m.counted))
        ∙ sym (get_or-set_self xs i v (pos 0) h))
    | no d ↦
        get_or-set_ne l.cells i j v (pos 0) d
        ∙ m.reads j (omega (arith, length-set xs i v))
        ∙ sym (get_or-set_ne xs i j v (pos 0) d)
  ];
}

pop-Models :
    (l : EpList) (xs : List ℤ)
    → Models l xs
    → 0 < length xs
    → Models (record l { len = l.len - 1 }) (init xs)
pop-Models l xs m h = record {
  allocated = m.allocated;
  fits = omega (arith, m.fits);
  roomy = m.roomy;
  counted = omega (arith, m.counted, length-init xs);
  reads = λ i p.
      m.reads i (omega (arith, length-init xs))
      ∙ sym (get_or-init xs i (omega (arith, length-init xs)));
}

-- The loop moves every later value one cell down.
remove-Models :
    (l : EpList) (xs : List ℤ) (i : ℕ)
    → Models l xs
    → i < length xs
    → Models
        (record l { cells = shift_down (l.len - 1 - i) i l.cells; len = l.len - 1 })
        (erase_at xs i)
remove-Models l xs i m h =
    let k = l.len - 1 - i in
    let short = length-erase_at xs i h in
    record {
      allocated = length-shift_down k i l.cells ∙ m.allocated;
      fits = omega (arith, m.fits);
      roomy = m.roomy;
      counted = omega (arith, m.counted, short);
      reads = λ j p. elim (dec_lt j i) [
        | yes q ↦
            shift_down_below k i l.cells j q
            ∙ m.reads j (omega arith)
            ∙ sym (get_or-erase_at_below xs i j q)
        | no q ↦
            shift_down_moved k i l.cells j (omega arith) (omega (arith, m.counted, short))
              (omega (arith, m.counted, m.allocated, m.fits))
            ∙ m.reads (suc j) (omega (arith, short))
            ∙ sym (get_or-erase_at_above xs i j (omega arith))
      ];
    }

-- A reply and a state of the C list that agree with those of the sequence.
abbrev pub Agrees : ℤ × Handle → ℤ × List ℤ → Type 0
Agrees r s = (r.0 ≡ s.0) × ((l : EpList) × (r.1 ≡ some l) × Models l s.1)

in_range :
    {b : Bool} (l : EpList) (xs : List ℤ) (i : ℕ)
    → Models l xs
    → leb (length xs) i ≡ b
    → leb l.len i ≡ b
in_range l xs i m e = rw m.counted e

step_get :
    (l : EpList) (xs : List ℤ) (i : ℤ)
    → Models l xs
    → get_list (some l) i
      ≡ (if out_of_range i (length xs) then pos 0 else get_or xs (offset i) (pos 0))
unfolding get_list
step_get l xs (negsuc i) m = refl
step_get l xs (pos i) m = rw m.counted (elim (Bool-cases (leb (length xs) i)) [
  | inl e ↦ rw e
  | inr e ↦ rw e (m.reads i (leb→gt _ _ e))
])

step_put :
    (l : EpList) (xs : List ℤ) (i v : ℤ)
    → Models l xs
    → Agrees (set_list (some l) i v) (step_seq xs (put i v))
unfolding set_list step_seq
step_put l xs (negsuc i) v m = (refl, (l, refl, m))
step_put l xs (pos i) v m = elim (Bool-cases (leb (length xs) i)) [
  | inl e ↦ rw (in_range l xs i m e, e) (refl, (l, refl, m))
  | inr e ↦ rw (in_range l xs i m e, e) (refl, (_, refl, set-Models l xs i v m (leb→gt _ _ e)))
]

step_pop : (l : EpList) (xs : List ℤ) → Models l xs → Agrees (pop_list (some l)) (step_seq xs pop)
unfolding pop_list step_seq
step_pop l [] m =
    let e : leb l.len 0 ≡ true = ground (arith, m.counted) in rw e (refl, (l, refl, m))
step_pop l (x ∷ xs) m =
    let e : leb l.len 0 ≡ false = ground (arith, m.counted) in
    rw e (
      m.reads (l.len - 1) (omega (arith, m.counted))
          ∙ ap (λ k. get_or (x ∷ xs) (k - 1) (pos 0)) m.counted
          ∙ sym (last_lem (x ∷ xs)),
      (_, refl, pop-Models l (x ∷ xs) m (omega arith)),
    )

step_remove :
    (l : EpList) (xs : List ℤ) (i : ℤ)
    → Models l xs
    → Agrees (remove_list (some l) i) (step_seq xs (remove i))
unfolding remove_list step_seq
step_remove l xs (negsuc i) m = (refl, (l, refl, m))
step_remove l xs (pos i) m = elim (Bool-cases (leb (length xs) i)) [
  | inl e ↦ rw (in_range l xs i m e, e) (refl, (l, refl, m))
  | inr e ↦
      rw (in_range l xs i m e, e)
        (m.reads i (leb→gt _ _ e), (_, refl, remove-Models l xs i m (leb→gt _ _ e)))
]

-- Every call on a list that models a sequence replies as the sequence does, and leaves a list
-- that models the sequence after the call.
pub step_list-step_seq :
    (junk : ℤ) (l : EpList) (xs : List ℤ) (o : Op)
    → Models l xs
    → Agrees (step_list junk (some l) o) (step_seq xs o)
unfolding step_list step_seq append_list length_list
step_list-step_seq junk l xs (append v) m = (refl, (_, refl, append-Models junk l xs v m))
step_list-step_seq junk l xs (get i) m = (step_get l xs i m, (l, refl, m))
step_list-step_seq junk l xs (put i v) m = step_put l xs i v m
step_list-step_seq junk l xs count m = (ap pos m.counted, (l, refl, m))
step_list-step_seq junk l xs pop m = step_pop l xs m
step_list-step_seq junk l xs (remove i) m = step_remove l xs i m

run_from :
    (junk : ℤ) (l : EpList) (xs : List ℤ) (os : List Op)
    → Models l xs
    → run_list junk (some l) os ≡ run_seq xs os
unfolding run_list run_seq
run_from junk l xs [] m = refl
run_from junk l xs (o ∷ os) m =
    let (same, (l', e, m')) = step_list-step_seq junk l xs o m in
    ap₂ (λ r rs. r ∷ rs) same
      (ap (λ h. run_list junk h os) e ∙ run_from junk l' (step_seq xs o).1 os m')

-- From create_list on, any sequence of calls of append_list, get_list, set_list, length_list,
-- pop_list and remove_list, with any indices, gets the replies of a sequence that starts empty:
-- growth, the loop of remove_list and the cells that were never written are not seen.
pub run_list-run_seq :
    (junk : ℤ) (os : List Op) → run_list junk (create_list junk) os ≡ run_seq [] os
run_list-run_seq junk os =
    let (l, e, m) = create_list-Models junk in
    ap (λ h. run_list junk h os) e ∙ run_from junk l [] os m
