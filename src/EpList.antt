-- ===== src/EpList.antt =====
-- The growable list of the C runtime, `EpList` of toolchain/epc_bootstrap.c: create_list,
-- append_list, get_list, set_list, length_list, pop_list, remove_list.
-- `data` is the list `cells` of the allocated cells, so `length cells` is what was allocated; a
-- cell that was never written holds `junk`, about which nothing is known. Allocation succeeds.
-- A handle is `none` where EP_BADPTR holds of the pointer, and the operations then return 0.
pub mod Shift
pub mod Spec
pub mod SpecLaws
pub mod Refines
mod Tests
use ern_os.Base.{
  ℕ, zero, suc, ◌+◌, ◌-◌, ◌*◌, Bool, true, false, ◌||◌, Option, none, some, List, [], ◌∷◌, ◌++◌,
  ltb, leb, if◌then◌else◌, length, get_or, set, replicate,
}
use ern_os.Base.Int.{ℤ, pos, negsuc}
use ern_os.Base.Memory.{realloc}

pub record EpList : Type 0 where
  pub cells : List ℤ
  pub capacity : ℕ
  pub len : ℕ

abbrev pub Handle : Type 0
Handle = Option EpList

-- `index < 0 || index >= list->length`
abbrev pub out_of_range : ℤ → ℕ → Bool
out_of_range (pos i) n = leb n i
out_of_range (negsuc i) n = true

-- The offset of an index that was tested to be in range.
abbrev pub offset : ℤ → ℕ
offset (pos i) = i
offset (negsuc i) = 0

-- `for (i = index; i < length - 1; i++) data[i] = data[i + 1]`, with the rounds that are left.
unfoldable pub shift_down : ℕ → ℕ → List ℤ → List ℤ
shift_down zero i c = c
shift_down (suc k) i c = shift_down k (suc i) (set c i (get_or c (suc i) (pos 0)))

module _ (junk : ℤ) where
  unfoldable pub create_list : Handle
  create_list = some (record { cells = replicate 4 junk; capacity = 4; len = 0 })

  -- The test at the head of `append_list`.
  unfoldable pub reserve : EpList → EpList
  reserve l =
      if leb l.capacity l.len
      then record l { cells = realloc junk l.cells (l.capacity * 2); capacity = l.capacity * 2 }
      else l

  unfoldable pub append_list : Handle → ℤ → ℤ × Handle
  append_list none v = (pos 0, none)
  append_list (some l) v =
      let r = reserve l in (v, some (record r { cells = set r.cells r.len v; len = r.len + 1 }))

unfoldable pub get_list : Handle → ℤ → ℤ
get_list none i = pos 0
get_list (some l) i = if out_of_range i l.len then pos 0 else get_or l.cells (offset i) (pos 0)

unfoldable pub set_list : Handle → ℤ → ℤ → ℤ × Handle
set_list none i v = (pos 0, none)
set_list (some l) i v =
    if out_of_range i l.len
    then (pos 0, some l)
    else (v, some (record l { cells = set l.cells (offset i) v }))

unfoldable pub length_list : Handle → ℕ
length_list none = 0
length_list (some l) = l.len

-- `list->length` is decremented first, and the cell above the new length is returned.
unfoldable pub pop_list : Handle → ℤ × Handle
pop_list none = (pos 0, none)
pop_list (some l) =
    if leb l.len 0
    then (pos 0, some l)
    else (get_or l.cells (l.len - 1) (pos 0), some (record l { len = l.len - 1 }))

unfoldable pub remove_list : Handle → ℤ → ℤ × Handle
remove_list none i = (pos 0, none)
remove_list (some l) i = if out_of_range i l.len then (pos 0, some l) else (
  get_or l.cells (offset i) (pos 0),
  some (record l { cells = shift_down (l.len - 1 - offset i) (offset i) l.cells; len = l.len - 1 }),
)
