-- ===== src/Network/IocpSession/OnRecv.antt =====
-- IOCPSession.cpp, `OnRecv` on a packet in transit: the two ways in which a completion can end.
use iocp_chat_server.Base.{
  ℕ, ◌+◌, ◌-◌, ◌^◌, ◌≤◌, ◌<◌, ◌≡◌, ap, ◌⊎◌, List, ◌++◌, Option, some, arith, length, take, drop,
}
use iocp_chat_server.Base.Bytes.{int32_of_bytes}
use iocp_chat_server.Network.{PacketObfuscation, Decodes, Winsock, WsaBuf}
use iocp_chat_server.Network.IoData.{socket_buf_size}
use iocp_chat_server.Network.Frame.{header, frame, int32_of_bytes-header, decode-body}
use iocp_chat_server.Network.IocpSession.{
  IocpSession, needs_more, packaged, on_recv, recv_stand_by, recv, overreads,
}

module _ (net : Winsock) (o : PacketObfuscation) (decodes : Decodes o) {Packet : Type 0}
    (analyzer : List ℕ → Option Packet) (body : List ℕ) (fits : 4 + length body ≤ socket_buf_size)
    (s : IocpSession) (starts : take 4 s.read.buffer ≡ header o body)
    (known : (s.read.total_bytes ≡ 0) ⊎ (s.read.total_bytes ≡ 4 + length body)) where
  pub on_recv_partial :
      (k : ℕ)
      → s.read.current_bytes + k < 4 + length body
      → ((on_recv net o analyzer s k).0 ≡ record s {
        read = record s.read {
          total_bytes = 4 + length body;
          current_bytes = s.read.current_bytes + k;
        };
        posted = some (record {
          buf = s.read.current_bytes + k;
          len = 4 + length body - (s.read.current_bytes + k);
        });
      })
        × ((on_recv net o analyzer s k).2 ≡ needs_more)
  unfolding on_recv
  on_recv_partial k h = ground (
    arith,
    int32_of_bytes-header o decodes body (omega arith),
    ap (λ (bs : List ℕ). int32_of_bytes (o.decoding_header bs)) starts,
  )

  pub on_recv_complete :
      (k : ℕ) (tail : List ℕ) (packet : Packet)
      → 4 + length body ≤ s.read.current_bytes + k
      → s.read.current_bytes + k ≤ socket_buf_size
      → s.read.buffer ≡ frame o body ++ tail
      → analyzer body ≡ some packet
      → ((on_recv net o analyzer s k).0 ≡ (recv_stand_by net s).0)
        × ((on_recv net o analyzer s k).2 ≡ packaged packet)
  unfolding on_recv recv_stand_by
  on_recv_complete k tail packet h small e found = ground (
    arith,
    int32_of_bytes-header o decodes body (omega arith),
    ap (λ (bs : List ℕ). int32_of_bytes (o.decoding_header bs)) starts,
    ap (λ (bs : List ℕ). o.decoding_data (take (length body) (drop 4 bs))) e,
    decode-body o decodes body tail,
  )

module _ (net : Winsock) (o : PacketObfuscation) {Packet : Type 0}
    (analyzer : List ℕ → Option Packet) (s : IocpSession) (k v : ℕ)
    (unknown : s.read.total_bytes ≡ 0)
    (announced : int32_of_bytes (o.decoding_header (take 4 s.read.buffer)) ≡ v) where
  -- A new packet whose header announces more bytes than the buffer has is not refused: `OnRecv` asks
  -- Windows to receive the rest into a range that ends `v` bytes behind the start of the buffer, so
  -- past its end.
  pub on_recv_too_long :
      socket_buf_size < v
      → v < 2 ^ 31
      → s.read.current_bytes + k ≤ socket_buf_size
      → let r = on_recv net o analyzer s k in
        let b : WsaBuf = record {
          buf = s.read.current_bytes + k;
          len = v - (s.read.current_bytes + k);
        } in
        (r.2 ≡ needs_more) × (r.1 ≡ recv net b) × (socket_buf_size < b.buf + b.len)
  unfolding on_recv
  on_recv_too_long h j c = ground arith

  -- A new packet whose header announces fewer bytes than a header has, and no more than arrived,
  -- makes the size of the body negative: `OnRecv` reads out of bounds.
  pub on_recv_too_short :
      v < 4
      → v ≤ s.read.current_bytes + k
      → s.read.current_bytes + k ≤ socket_buf_size
      → (on_recv net o analyzer s k).2 ≡ overreads
  unfolding on_recv
  on_recv_too_short h e c = ground arith
