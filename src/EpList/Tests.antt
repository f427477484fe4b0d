-- ===== src/EpList/Tests.antt =====
-- Runs of the list at concrete inputs.
use ern_os.Base.{◌≡◌, refl, List, [], ◌∷◌}
use ern_os.Base.Int.{pos, negsuc}
use ern_os.EpList.{create_list}
use ern_os.EpList.{
  reserve, append_list, get_list, set_list, length_list, pop_list, remove_list, shift_down,
}
use ern_os.EpList.Spec.{Op, append, get, put, count, pop, remove, step_list, run_list, run_seq}
use ern_os.EpList.Refines.{run_list-run_seq}

-- Five appends make the list grow; the other calls read, write and remove in and out of range.
abbrev calls : List Op
calls =
    append (pos 10)
    ∷ append (pos 20)
    ∷ append (pos 30)
    ∷ append (pos 40)
    ∷ append (pos 50)
    ∷ remove (pos 1)
    ∷ get (pos 1)
    ∷ get (negsuc 0)
    ∷ put (pos 9) (pos 1)
    ∷ pop
    ∷ count
    ∷ []

run_list-run_seq_example : run_list (pos 7) (create_list (pos 7)) calls ≡ run_seq [] calls
run_list-run_seq_example = run_list-run_seq (pos 7) calls

replies :
    run_list (pos 7) (create_list (pos 7)) calls
    ≡ pos 10
      ∷ pos 20
      ∷ pos 30
      ∷ pos 40
      ∷ pos 50
      ∷ pos 20
      ∷ pos 30
      ∷ pos 0
      ∷ pos 0
      ∷ pos 50
      ∷ pos 3
      ∷ []
unfolding run_list step_list create_list reserve append_list get_list set_list length_list pop_list
    remove_list shift_down
replies = refl
