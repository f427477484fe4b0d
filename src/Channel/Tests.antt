-- ===== src/Channel/Tests.antt =====
-- A channel at a concrete run.
use ern_os.Base.{◌≡◌, refl, ◌≤◌, none, List, [], ◌∷◌, ◌++◌, length, set}
use ern_os.Base.Int.{ℤ, pos}
use ern_os.Channel.{EpChannel, create_channel, send_channel, receive_channel, opened, sent}
use ern_os.Channel.Fifo.{Reached-Fifo}

abbrev sent_one : EpChannel
unfolding create_channel
sent_one = record (create_channel (pos 9)) {
  cells = set (create_channel (pos 9)).cells 0 (pos 5);
  tail = 1;
  size = 1;
}

Reached-Fifo_example :
    (queue : List ℤ) × (pos 5 ∷ [] ≡ [] ++ queue)
    × (sent_one.size ≡ length queue)
    × (length queue ≤ 1024)
    × (receive_channel sent_one ≡ none → pos 5 ∷ [] ≡ [])
    × ((value : ℤ) → send_channel sent_one value ≡ none → length queue ≡ 1024)
unfolding send_channel create_channel
Reached-Fifo_example = Reached-Fifo (pos 9) sent_one (pos 5 ∷ []) [] (sent (pos 5) opened refl)
