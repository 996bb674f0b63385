-- ===== src/Network/IocpSession.antt =====
-- IOCPSession.cpp and IOCPSession.h, class `IOCPSession`. A method returns the new session with the
-- calls that it makes, in order. `OnRecv` reports an invalid packet; the server then closes the
-- session, as `OnRecv` does by `OnClose(true)` (IocpServer.antt).
pub mod OnRecv
pub mod Reassembly
pub mod Sending
pub mod SendPacket
pub mod Buffers
use iocp_chat_server.Base.{
  ℕ, ◌+◌, ◌-◌, ◌^◌, Bool, List, [], ◌∷◌, ◌++◌, Option, none, some, ◌==◌, ◌&&◌, ◌||◌, not,
  if◌then◌else◌, length, take, drop,
}
use iocp_chat_server.Base.Bytes.{write_at}
use iocp_chat_server.Base.Machine.{size_t, ulong, int32, is_negative}
use iocp_chat_server.Session
use iocp_chat_server.Session.{Session}
use iocp_chat_server.Network.{PacketObfuscation, WsaBuf, IoResult, Winsock}
use iocp_chat_server.Network.IoData
use iocp_chat_server.Network.IoData.{
  IoData, SetDataResult, socket_buf_size, packet_header_size, clear, set_type, need_more_io, wsabuf,
  setup_total_bytes, set_data, io_read, io_write, outside_array,
}

-- `ioData_[IO_READ]` and `ioData_[IO_WRITE]` are the fields `read` and `write`. `posted` is what Windows
-- knows of the session: the `WSABUF` of the last `WSARecv`, while no bytes have come for it.
pub record IocpSession : Type 0 where
  pub session : Session
  pub open session use *
  pub read : IoData
  pub write : IoData
  pub posted : Option WsaBuf

-- `SetId` of the base class.
unfoldable pub set_id : IocpSession → ℕ → IocpSession
unfolding Session.set_id
set_id s id = record s { session = Session.set_id s.session id }

pub data Event : Type 0 where
  wsa_recv : WsaBuf → Event
  wsa_send : WsaBuf → Event
  socket_error_logged : Event
  too_big_logged : Event
  invalid_packet_logged : Event

abbrev pub socket_error : ℕ
socket_error = 2 ^ 32 - 1

abbrev pub error_io_pending : ℕ
error_io_pending = 997

-- `memory` is what stood in the storage; `Initialize` zeroes the socket data.
unfoldable pub make : Session → ℕ → IocpSession
unfolding set_type
make memory now = record {
  session = record (Session.make memory now) { socket = 0; address = 0 };
  read = set_type IoData.make io_read;
  write = set_type IoData.make io_write;
  posted = none;
}

unfoldable pub check_error_io : IoResult → List Event
check_error_io r =
    if r.ret == socket_error && not (r.last_error == error_io_pending)
    then socket_error_logged ∷ []
    else []

-- What Windows has to receive into after these calls, if there is a `WSARecv` among them.
abbrev pub posted_by : List Event → Option WsaBuf → Option WsaBuf
posted_by [] before = before
posted_by (wsa_recv b ∷ es) before = some b
posted_by (wsa_send b ∷ es) before = posted_by es before
posted_by (socket_error_logged ∷ es) before = posted_by es before
posted_by (too_big_logged ∷ es) before = posted_by es before
posted_by (invalid_packet_logged ∷ es) before = posted_by es before

-- The `Package` that `OnRecv` returns, or why it returns none.
pub data Received (Packet : Type 0) : Type 0 where
  needs_more : Received Packet
  packaged : Packet → Received Packet
  invalid_packet : Received Packet
  overreads : Received Packet

module _ (net : Winsock) where
  unfoldable pub recv : WsaBuf → List Event
  unfolding check_error_io
  recv b = wsa_recv b ∷ check_error_io (net.wsa_recv b)

  unfoldable pub send : WsaBuf → List Event
  unfolding check_error_io
  send b = wsa_send b ∷ check_error_io (net.wsa_send b)

  unfoldable pub is_recving : IocpSession → ℕ → IocpSession × List Event × Bool
  unfolding need_more_io wsabuf recv
  is_recving s transfer_size =
      let (d, more) = need_more_io s.read transfer_size in
      let events = if more then recv (wsabuf d) else [] in
      (record s { read = d; posted = posted_by events s.posted }, events, more)

  unfoldable pub recv_stand_by : IocpSession → IocpSession × List Event
  unfolding clear recv
  recv_stand_by s =
      let events = recv (record { buf = 0; len = socket_buf_size }) in
      (record s { read = clear s.read; posted = posted_by events s.posted }, events)

  unfoldable pub on_send : IocpSession → ℕ → IocpSession × List Event
  unfolding need_more_io wsabuf send
  on_send s transfer_size =
      let (d, more) = need_more_io s.write transfer_size in
      (record s { write = d }, if more then send (wsabuf d) else [])

module _ (net : Winsock) (o : PacketObfuscation) where
  -- The rest of `SendPacket` after `SetData`, for a stream of this size.
  unfoldable pub start_send : IocpSession → ℕ → SetDataResult → Option (IocpSession × List Event)
  unfolding send recv_stand_by
  start_send s size (SetDataResult.returns_false d) =
      some (record s { write = d }, too_big_logged ∷ [])
  start_send s size (SetDataResult.returns_true d) =
      let (t, events) = recv_stand_by net (record s { write = d }) in
      some (t, send net (record { buf = 0; len = ulong size }) ++ events)
  start_send s size SetDataResult.overruns = none

  -- `stream` is what `packet->Encode` wrote. `none`: `SetData` wrote past its buffer.
  unfoldable pub send_packet : IocpSession → List ℕ → Option (IocpSession × List Event)
  unfolding start_send
  send_packet s stream = start_send s (length stream) (set_data o s.write stream)

module _ (net : Winsock) (o : PacketObfuscation) {Packet : Type 0} where
  unfoldable pub finish_recv :
      (List ℕ → Option Packet) → IocpSession → ℕ → ℕ → IocpSession × List Event × Received Packet
  unfolding recv_stand_by
  finish_recv analyzer s offset size =
      let body = o.decoding_data (take size (drop offset s.read.buffer)) in
      let decoded = record s.read { buffer = write_at s.read.buffer offset body } in
      let (t, events) = recv_stand_by net s in
      elim (analyzer body) [
        | none ↦ (record s { read = decoded }, invalid_packet_logged ∷ [], invalid_packet)
        | some packet ↦ (t, events, packaged packet)
      ]

  -- `analyzer` is `PacketAnalyzer::Analyzer`, with `none` for `nullptr`. The bytes that `DecodingData`
  -- is told to decode may not all lie in the array: undefined behaviour.
  unfoldable pub on_recv :
      (List ℕ → Option Packet) → IocpSession → ℕ → IocpSession × List Event × Received Packet
  unfolding setup_total_bytes is_recving finish_recv
  on_recv analyzer s transfer_size =
      let (d, offset) = setup_total_bytes o s.read in
      let (t, events, receiving) = is_recving net (record s { read = d }) transfer_size in
      let size = int32 (size_t (t.read.total_bytes + 2 ^ 64 - packet_header_size)) in
      if receiving
      then (t, events, needs_more)
      else if is_negative size || outside_array offset size
      then (t, [], overreads)
      else finish_recv analyzer t offset size
