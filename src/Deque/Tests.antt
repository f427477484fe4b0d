-- ===== src/Deque/Tests.antt =====
-- Runs of the queue at concrete inputs.
use ern_os.Base.{◌≡◌, refl, List, [], ◌∷◌, ◌++◌, replicate}
use ern_os.Base.Int.{pos}
use ern_os.Deque.{
  copy_cells, create_deque, deque_resize, make_room, deque_push_back, deque_push_front,
  deque_pop_back, deque_pop_front, deque_length,
}
use ern_os.Deque.Spec.{
  Op, push_back, push_front, pop_back, pop_front, count, step_deque, run_deque, run_seq,
}
use ern_os.Deque.Refines.{run_deque-run_seq}

-- Seventeen values in a ring that has wrapped make it grow.
abbrev calls : List Op
calls =
    push_front (pos 1) ∷ replicate 15 (push_back (pos 2))
    ++ push_front (pos 3) ∷ pop_back ∷ pop_front ∷ pop_front ∷ pop_front ∷ count ∷ []

run_deque-run_seq_example : run_deque (pos 7) (create_deque (pos 7)) calls ≡ run_seq [] calls
run_deque-run_seq_example = run_deque-run_seq (pos 7) calls

empty_pops :
    run_deque (pos 7) (create_deque (pos 7)) (pop_back ∷ push_front (pos 5) ∷ pop_back ∷ count ∷ [])
    ≡ pos 0 ∷ pos 5 ∷ pos 5 ∷ pos 0 ∷ []
unfolding run_deque step_deque create_deque make_room deque_resize copy_cells deque_push_back
    deque_push_front deque_pop_back deque_pop_front deque_length
empty_pops = refl
