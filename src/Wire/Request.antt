-- ===== src/Wire/Request.antt =====
-- What the codecs of SUBSCRIBE, UNSUBSCRIBE and their acknowledgements (subscribe.go, unsubscribe.go,
-- suback.go and unsuback.go of corev5/v2/message) share: the front of a packet.
pub mod Laws
use simq.Base.{ℕ, ◌+◌, ◌%◌, ◌^◌, List, ◌==◌, if◌then◌else◌, Outcome, ok, err, panic, stuck, ◌>>=◌}
use simq.Wire.Slice.{Slice, sub, copy_len}
use simq.Wire.Header.{
  Header, packet_id_of, set_packet_id, set_remaining_length, encode_header_to_buf, with_flags,
  decode_header,
}

-- The fixed header and the packet identifier: the indices behind them.
unfoldable pub open_packet : Header → Slice → Outcome (ℕ × ℕ × Header)
open_packet r src = do
  (hn, h) ← decode_header r src
  id ← sub src hn (hn + 2)
  ok (hn, hn + 2, record h { packet_id = copy_len id 2 })

-- The fixed header of a message whose lengths are built, and the header that it leaves.
unfoldable pub write_top : Header → Outcome (List ℕ × Header)
write_top h = do
  h' ← set_remaining_length h (h.remlen % 2 ^ 32)
  top ← encode_header_to_buf h'
  ok (top, with_flags h')

-- `if PacketId() == 0 { SetPacketId(…) }`: `next` is the next of the global counter.
unfoldable pub assign_id : Header → ℕ → Header
assign_id h next = if packet_id_of h == 0 then set_packet_id h (next % 2 ^ 16) else h
