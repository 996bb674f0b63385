-- ===== src/Network/IocpSession/Buffers.antt =====
-- IOCPSession.cpp: what `OnSend` and `OnRecv` leave alone: the size of the two buffers, which are an
-- `array<char, SOCKET_BUF_SIZE>`, and what the base class keeps.
use iocp_chat_server.Base.{
  ℕ, ◌+◌, ◌-◌, ◌^◌, ◌≤◌, ◌≡◌, refl, ◌∙◌, inl, inr, List, Option, ◌||◌, ◌==◌, arith, length, take,
  drop, length-take, Bool-cases, Option-cases,
}
use iocp_chat_server.Base.Bytes.{length-write_at, length-zeroed}
use iocp_chat_server.Base.Machine.{size_t, int32, is_negative}
use iocp_chat_server.Session.{Session}
use iocp_chat_server.Network.{PacketObfuscation, Winsock}
use iocp_chat_server.Network.IoData.{
  IoData, clear, set_type, socket_buf_size, packet_header_size, outside_array, setup_total_bytes,
}
use iocp_chat_server.Network.IoData
use iocp_chat_server.Network.IocpSession.{
  IocpSession, on_send, on_recv, recv_stand_by, is_recving, finish_recv,
}
use iocp_chat_server.Network.IocpSession

pub record Full (s : IocpSession) : Type 0 where
  pub reads : length s.read.buffer ≡ socket_buf_size
  pub writes : length s.write.buffer ≡ socket_buf_size

pub make-Full : (memory : Session) (now : ℕ) → Full (IocpSession.make memory now)
unfolding IocpSession.make set_type IoData.make clear
make-Full memory now = record {
  reads = length-zeroed socket_buf_size;
  writes = length-zeroed socket_buf_size;
}

pub recv_stand_by-Full : (net : Winsock) (s : IocpSession) → Full s → Full (recv_stand_by net s).0
unfolding recv_stand_by clear
recv_stand_by-Full net s f = record { reads = length-zeroed socket_buf_size; writes = f.writes }

pub on_send-Full : (net : Winsock) (s : IocpSession) (n : ℕ) → Full s → Full (on_send net s n).0
unfolding on_send
on_send-Full net s n f = record { reads = f.reads; writes = f.writes }

module _ (net : Winsock) (o : PacketObfuscation) {Packet : Type 0}
    (analyzer : List ℕ → Option Packet) where
  finish_recv-Full :
      (s : IocpSession) (offset size : ℕ)
      → Full s
      → offset + size ≤ socket_buf_size
      → Full (finish_recv net o analyzer s offset size).0
  unfolding finish_recv
  finish_recv-Full s offset size f h =
      let bytes = take size (drop offset s.read.buffer) in
      elim (Option-cases (analyzer (o.decoding_data bytes))) [
        | inl e ↦
            rw (finish_recv, e)
              (record {
                reads =
                    length-write_at s.read.buffer offset (o.decoding_data bytes) (
                      omega (
                        arith,
                        o.length-decoding_data bytes,
                        length-take size (drop offset s.read.buffer),
                        f.reads,
                        h,
                      ))
                    ∙ f.reads;
                writes = f.writes;
              })
        | inr (packet, e) ↦ rw (finish_recv, e) (recv_stand_by-Full net s f)
      ]

  setup-Full :
      (s : IocpSession) → Full s → Full (record s { read = (setup_total_bytes o s.read).0 })
  unfolding setup_total_bytes
  setup-Full s f = elim (Bool-cases (s.read.total_bytes == 0)) [
    | inl e ↦ record { reads = rw e (f.reads); writes = f.writes }
    | inr e ↦ record { reads = rw e (f.reads); writes = f.writes }
  ]

  is_recving-Full : (s : IocpSession) (n : ℕ) → Full s → Full (is_recving net s n).0
  unfolding is_recving
  is_recving-Full s n f = record { reads = f.reads; writes = f.writes }

  -- On every branch `OnRecv` keeps both arrays at their size.
  pub on_recv-Full : (s : IocpSession) (n : ℕ) → Full s → Full (on_recv net o analyzer s n).0
  unfolding on_recv
  on_recv-Full s n f =
      let (d, offset) = setup_total_bytes o s.read in
      let r = is_recving net (record s { read = d }) n in
      let size = int32 (size_t (r.0.read.total_bytes + 2 ^ 64 - packet_header_size)) in
      let full = is_recving-Full (record s { read = d }) n (setup-Full s f) in
      elim (Bool-cases r.2) [
        | inl more ↦ rw (on_recv, more) (record { reads = full.reads; writes = full.writes })
        | inr all ↦ elim (Bool-cases (is_negative size || outside_array offset size)) [
          | inl bad ↦ rw (on_recv, all, bad) (record { reads = full.reads; writes = full.writes })
          | inr fits ↦
              rw (on_recv, all, fits)
                (finish_recv-Full (record r.0 { posted = s.posted }) offset size
                  (record { reads = full.reads; writes = full.writes }) (ground arith))
        ]
      ]

-- Neither touches what the base class keeps.
module _ (net : Winsock) (o : PacketObfuscation) {Packet : Type 0}
    (analyzer : List ℕ → Option Packet) where
  pub on_send-session : (s : IocpSession) (n : ℕ) → (on_send net s n).0.session ≡ s.session
  unfolding on_send
  on_send-session s n = refl

  finish_recv-session :
      (s : IocpSession) (offset size : ℕ)
      → (finish_recv net o analyzer s offset size).0.session ≡ s.session
  unfolding finish_recv
  finish_recv-session s offset size =
      elim (Option-cases (analyzer (o.decoding_data (take size (drop offset s.read.buffer))))) [
        | inl e ↦ rw (finish_recv, e) refl
        | inr (packet, e) ↦ rw (finish_recv, e) refl
      ]

  pub on_recv-session :
      (s : IocpSession) (n : ℕ) → (on_recv net o analyzer s n).0.session ≡ s.session
  unfolding on_recv is_recving
  on_recv-session s n =
      let (d, offset) = setup_total_bytes o s.read in
      let r = is_recving net (record s { read = d }) n in
      let size = int32 (size_t (r.0.read.total_bytes + 2 ^ 64 - packet_header_size)) in
      elim (Bool-cases r.2) [
        | inl more ↦ rw (on_recv, more) refl
        | inr all ↦ elim (Bool-cases (is_negative size || outside_array offset size)) [
          | inl bad ↦ rw (on_recv, all, bad) refl
          | inr fits ↦
              rw (on_recv, all, fits)
                (finish_recv-session (record r.0 { posted = s.posted }) offset size)
        ]
      ]
