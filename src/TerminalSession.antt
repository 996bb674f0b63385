-- ===== src/TerminalSession.antt =====
-- TerminalSession.cpp: the blocking connection to another server. Winsock is the sequence of its
-- answers; `none` of them is left where a call does not return.
pub mod OnRecv
pub mod Connect
pub mod SendPacket
use iocp_chat_server.Base.{
  ℕ, ◌+◌, ◌-◌, ◌^◌, Bool, ◌&&◌, List, [], ◌∷◌, ◌++◌, ◌==◌, Option, none, ltb, if◌then◌else◌, length,
  take, drop,
}
use iocp_chat_server.Base.Bytes.{write_at, bytes_of_int32, int32_of_bytes}
use iocp_chat_server.Base.Machine.{int32}
use iocp_chat_server.Network.{PacketObfuscation}
use iocp_chat_server.Network.IoData.{socket_buf_size, packet_header_size}

-- What `::recv` answers: bytes, 0 for a connection that the peer has closed, or SOCKET_ERROR.
pub data Answer : Type 0 where
  received : List ℕ → Answer
  closed : Answer
  failed : Answer

-- How the loop of `OnRecv` ends: `rowData` and the answers that are left; it waits for an answer; or
-- `ret`, which takes SOCKET_ERROR in as -1, is negative and `::recv` gets an address before the array.
pub data Reception : Type 0 where
  complete : List ℕ → List Answer → Reception
  waits : Reception
  underruns : Reception

-- `ret < (int) packetLen[0]`
abbrev pub asks_more : ℕ → ℕ → Bool
asks_more ret packet_len = ltb ret packet_len && ltb packet_len (2 ^ 31)

unfoldable pub receive_rest : ℕ → List ℕ → ℕ → List Answer → Reception
receive_rest packet_len row_data ret [] =
    if asks_more ret packet_len then waits else complete row_data []
receive_rest packet_len row_data ret (received bs ∷ later) =
    let rest = receive_rest packet_len (write_at row_data ret bs) (ret + length bs) later in
    if asks_more ret packet_len then rest else complete row_data (received bs ∷ later)
receive_rest packet_len row_data ret (closed ∷ later) =
    let rest = receive_rest packet_len row_data ret later in
    if asks_more ret packet_len then rest else complete row_data (closed ∷ later)
receive_rest packet_len row_data ret (failed ∷ later) =
    let rest = receive_rest packet_len row_data (ret - 1) later in
    if asks_more ret packet_len
    then if ret == 0 then underruns else rest
    else complete row_data (failed ∷ later)

-- What `OnRecv` does: it returns a packet or `nullptr`, with the answers that are left; it does not
-- return; or it passes a range that leaves the array.
pub data Received (Packet : Type 0) : Type 0 where
  returns : Option Packet → List Answer → Received Packet
  blocks : Received Packet
  leaves_array : Received Packet

module _ (o : PacketObfuscation) {Packet : Type 0} (analyzer : List ℕ → Option Packet) where
  open o use {decoding_header, decoding_data}

  -- The analyzer gets `packetLen[0]` as its size, from behind the header.
  unfoldable pub analyze : ℕ → Reception → Received Packet
  analyze packet_len waits = blocks
  analyze packet_len underruns = leaves_array
  analyze packet_len (complete row_data later) =
      let offset = packet_header_size in
      let decoded = decoding_data (take (packet_len - offset) (drop offset row_data)) in
      let row_data' = write_at row_data offset decoded in
      if ltb packet_len offset
      then leaves_array
      else if ltb socket_buf_size (offset + packet_len)
      then leaves_array
      else returns (analyzer (take packet_len (drop offset row_data'))) later

  -- `memory` is what the array on the stack holds before.
  unfoldable pub on_recv : List ℕ → List Answer → Received Packet
  unfolding receive_rest analyze
  on_recv memory [] = blocks
  on_recv memory (closed ∷ later) = returns none later
  on_recv memory (failed ∷ later) = returns none later
  on_recv memory (received bs ∷ later) =
      let row_data = write_at memory 0 bs in
      let packet_len = int32_of_bytes (decoding_header (take packet_header_size row_data)) in
      analyze packet_len (receive_rest packet_len row_data (length bs) later)

-- What `SendPacket` passes to `::send`; or a `memcpy_s` writes past the array; or it refuses.
pub data Sent : Type 0 where
  sends : List ℕ → Sent
  overruns : Sent
  refuses : Sent

module _ (o : PacketObfuscation) where
  open o use {encoding_header, encoding_data}

  -- `stream` is what `Stream::data` and `Stream::size` show, `after` the memory behind it, from which
  -- the second `memcpy_s` reads, since its size is `packetLen[0]`. `memory` is the array.
  unfoldable pub send_packet : (memory stream after : List ℕ) → Sent
  send_packet memory stream after =
      let packet_len = int32 (packet_header_size + int32 (length stream)) in
      let header = encoding_header (bytes_of_int32 packet_len) in
      let encoded = encoding_data stream in
      let source = take packet_len (encoded ++ after) in
      let buffer = write_at (write_at memory 0 header) packet_header_size source in
      if ltb socket_buf_size packet_len
      then refuses
      else if ltb socket_buf_size (packet_header_size + packet_len)
      then overruns
      else sends (take (packet_header_size + length stream) buffer)
