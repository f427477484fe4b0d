-- ===== src/Channel.antt =====
-- The channels of the runtime, `EpChannel` of toolchain/epc_bootstrap.c: a ring of 1024 values
-- that threads send to and receive from. What a call does between ep_mutex_lock and
-- ep_mutex_unlock is one step; where it waits on a condition variable, that step is not enabled
-- and the result is `none`. `junk` is what a cell that was never written holds.
pub mod Fifo
mod Tests
use ern_os.Base.{
  ℕ, ◌+◌, ◌-◌, ◌%◌, ◌≡◌, Option, none, some, List, [], ◌∷◌, ◌++◌, ltb, leb, if◌then◌else◌, get_or,
  set, replicate,
}
use ern_os.Base.Int.{ℤ, pos}

pub record EpChannel : Type 0 where
  pub cells : List ℤ
  pub capacity : ℕ
  pub head : ℕ
  pub tail : ℕ
  pub size : ℕ

unfoldable pub create_channel : ℤ → EpChannel
create_channel junk = record {
  cells = replicate 1024 junk;
  capacity = 1024;
  head = 0;
  tail = 0;
  size = 0;
}

-- `while (chan->size >= chan->capacity)` waits.
unfoldable pub send_channel : EpChannel → ℤ → Option EpChannel
send_channel c value =
    if leb c.capacity c.size
    then none
    else some (record c {
      cells = set c.cells c.tail value;
      tail = (c.tail + 1) % c.capacity;
      size = c.size + 1;
    })

-- The value at the head, and the channel without it.
unfoldable pub take_value : EpChannel → ℤ × EpChannel
take_value c = (
  get_or c.cells c.head (pos 0),
  record c { head = (c.head + 1) % c.capacity; size = c.size - 1 },
)

-- `while (chan->size <= 0)` waits.
unfoldable pub receive_channel : EpChannel → Option (ℤ × EpChannel)
receive_channel c = if leb c.size 0 then none else some (take_value c)

-- What channel_try_recv returns, and what it writes to its out parameter.
unfoldable pub channel_try_recv : EpChannel → ℕ × Option ℤ × EpChannel
channel_try_recv c =
    if leb c.size 0 then (0, none, c) else (let (value, d) = take_value c in (1, some value, d))

unfoldable pub channel_has_data : EpChannel → ℕ
channel_has_data c = if ltb 0 c.size then 1 else 0

-- The channels that threads bring about, with the values sent to them and received from them, in
-- the order of the steps.
pub data Reached (junk : ℤ) : EpChannel → List ℤ → List ℤ → Type 0 where
  opened : Reached junk (create_channel junk) [] []
  sent :
      {c d : EpChannel} {sends receipts : List ℤ} (value : ℤ)
      → Reached junk c sends receipts
      → send_channel c value ≡ some d
      → Reached junk d (sends ++ value ∷ []) receipts
  received :
      {c d : EpChannel} {sends receipts : List ℤ} (value : ℤ)
      → Reached junk c sends receipts
      → receive_channel c ≡ some (value, d)
      → Reached junk d sends (receipts ++ value ∷ [])
  tried :
      {c d : EpChannel} {sends receipts : List ℤ} (value : ℤ)
      → Reached junk c sends receipts
      → channel_try_recv c ≡ (1, some value, d)
      → Reached junk d sends (receipts ++ value ∷ [])
