-- ===== src/EpList/Spec.antt =====
-- What the list promises: a finite sequence, indexed from 0, that answers 0 out of range.
use ern_os.Base.{ℕ, zero, suc, List, [], ◌∷◌, ◌++◌, if◌then◌else◌, length, get_or, set}
use ern_os.Base.Int.{ℤ, pos}
use ern_os.EpList.{
  Handle, out_of_range, offset, append_list, get_list, set_list, length_list, pop_list, remove_list,
}

pub data Op : Type 0 where
  append : ℤ → Op
  get : ℤ → Op
  put : ℤ → ℤ → Op
  count : Op
  pop : Op
  remove : ℤ → Op

abbrev pub init : List ℤ → List ℤ
init [] = []
init (x ∷ []) = []
init (x ∷ y ∷ xs) = x ∷ init (y ∷ xs)

abbrev pub last : List ℤ → ℤ
last [] = pos 0
last (x ∷ []) = x
last (x ∷ y ∷ xs) = last (y ∷ xs)

abbrev pub erase_at : List ℤ → ℕ → List ℤ
erase_at [] i = []
erase_at (x ∷ xs) zero = xs
erase_at (x ∷ xs) (suc i) = x ∷ erase_at xs i

-- A step of the sequence, with its reply.
unfoldable pub step_seq : List ℤ → Op → ℤ × List ℤ
step_seq xs (append v) = (v, xs ++ v ∷ [])
step_seq xs (get i) =
    (if out_of_range i (length xs) then pos 0 else get_or xs (offset i) (pos 0), xs)
step_seq xs (put i v) = if out_of_range i (length xs) then (pos 0, xs) else (v, set xs (offset i) v)
step_seq xs count = (pos (length xs), xs)
step_seq xs pop = (last xs, init xs)
step_seq xs (remove i) =
    if out_of_range i (length xs)
    then (pos 0, xs)
    else (get_or xs (offset i) (pos 0), erase_at xs (offset i))

-- The same calls on the C structure.
module _ (junk : ℤ) where
  unfoldable pub step_list : Handle → Op → ℤ × Handle
  step_list l (append v) = append_list junk l v
  step_list l (get i) = (get_list l i, l)
  step_list l (put i v) = set_list l i v
  step_list l count = (pos (length_list l), l)
  step_list l pop = pop_list l
  step_list l (remove i) = remove_list l i

  unfoldable pub run_list : Handle → List Op → List ℤ
  run_list l [] = []
  run_list l (o ∷ os) = let (r, l') = step_list l o in r ∷ run_list l' os

unfoldable pub run_seq : List ℤ → List Op → List ℤ
run_seq xs [] = []
run_seq xs (o ∷ os) = let (r, xs') = step_seq xs o in r ∷ run_seq xs' os
