-- ===== src/Deque/Spec.antt =====
-- What the queue promises: a sequence with pushes and pops at both ends, that answers 0 when it
-- is empty.
use ern_os.Base.{List, [], ◌∷◌, ◌++◌, length}
use ern_os.Base.Int.{ℤ, pos}
use ern_os.EpList.Spec.{init, last}
use ern_os.Deque.{
  Handle, deque_push_back, deque_push_front, deque_pop_back, deque_pop_front, deque_length,
}

pub data Op : Type 0 where
  push_back : ℤ → Op
  push_front : ℤ → Op
  pop_back : Op
  pop_front : Op
  count : Op

unfoldable pub step_seq : List ℤ → Op → ℤ × List ℤ
step_seq xs (push_back v) = (v, xs ++ v ∷ [])
step_seq xs (push_front v) = (v, v ∷ xs)
step_seq xs pop_back = (last xs, init xs)
step_seq [] pop_front = (pos 0, [])
step_seq (x ∷ xs) pop_front = (x, xs)
step_seq xs count = (pos (length xs), xs)

module _ (junk : ℤ) where
  unfoldable pub step_deque : Handle → Op → ℤ × Handle
  step_deque q (push_back v) = deque_push_back junk q v
  step_deque q (push_front v) = deque_push_front junk q v
  step_deque q pop_back = deque_pop_back q
  step_deque q pop_front = deque_pop_front q
  step_deque q count = (pos (deque_length q), q)

  unfoldable pub run_deque : Handle → List Op → List ℤ
  run_deque q [] = []
  run_deque q (o ∷ os) = let (r, q') = step_deque q o in r ∷ run_deque q' os

unfoldable pub run_seq : List ℤ → List Op → List ℤ
run_seq xs [] = []
run_seq xs (o ∷ os) = let (r, xs') = step_seq xs o in r ∷ run_seq xs' os
