-- ===== src/Network/IocpSession/SendPacket.antt =====
-- IOCPSession.cpp, `SendPacket` with the `OnSend`s that follow it: what goes out.
use iocp_chat_server.Base.{
  ℕ, ◌+◌, ◌≤◌, ◌<◌, ◌≡◌, refl, ap, ◌∙◌, ◌↔◌, List, ◌++◌, none, some, arith, length, take,
}
use iocp_chat_server.Base.Bytes.{take-append_le}
use iocp_chat_server.Base.Machine.{ulong}
use iocp_chat_server.Network.{PacketObfuscation, Winsock, WsaBuf}
use iocp_chat_server.Network.IoData.{socket_buf_size}
use iocp_chat_server.Network.IoData.SetData.{
  loaded, loaded-Loaded, set_data_fits, set_data_overruns,
}
use iocp_chat_server.Network.Frame.{frame, length-frame}
use iocp_chat_server.Network.IocpSession.{IocpSession, Event, send_packet, recv_stand_by, send}
use iocp_chat_server.Network.IocpSession.Reassembly.{IsFresh, recv_stand_by-IsFresh}
use iocp_chat_server.Network.IocpSession.Sending.{posted, sum, transmit, Completes, transmit-Sent}

module _ (net : Winsock) (o : PacketObfuscation) (s : IocpSession) (stream : List ℕ) where
  -- The session after `SendPacket`.
  abbrev pub sending : IocpSession
  sending = (recv_stand_by net (record s { write = loaded o s.write stream })).0

  -- The first send that `SendPacket` starts: `wsaBuf.len` is the size of the stream.
  abbrev pub first : WsaBuf
  first = record { buf = 0; len = length stream }

  pub send_packet_fits :
      4 + length stream ≤ socket_buf_size
      → (events : List Event) × (send_packet net o s stream ≡ some (sending, events))
        × (posted events ≡ some first)
  unfolding send_packet
  send_packet_fits h = (
    send net (record { buf = 0; len = ulong (length stream) }) ++ (recv_stand_by net s).1,
    rw (set_data_fits o s.write stream h) refl,
    ground arith,
  )

  -- A stream that is shorter than the buffer and does not fit behind the header makes `SendPacket`
  -- write past the end of the buffer.
  pub send_packet_overruns :
      length stream < socket_buf_size
      → socket_buf_size < 4 + length stream
      → send_packet net o s stream ≡ none
  unfolding send_packet
  send_packet_overruns h k = rw (set_data_overruns o s.write stream h k)

  transmit-sending :
      (ks : List ℕ)
      → 4 + length stream ≤ socket_buf_size
      → Completes net sending (some first) ks
      → let r = transmit net sending (some first) ks in
        (r.0 ≡ take (sum ks) (frame o stream))
        × (sum ks ≤ length (frame o stream))
        × ((r.1 ≡ none) ↔ (sum ks ≡ length (frame o stream)))
  unfolding recv_stand_by loaded
  transmit-sending ks h c =
      let d = loaded-Loaded o s.write stream h in
      let r =
        transmit-Sent net (sending) (first) ks
          (record {
            bounded = omega (arith, d.total);
            aimed = refl;
            inside = omega arith;
            unfinished = omega arith;
          })
          c in
      let out = within (sum ks) (omega (arith, r.1)) in
      (
        r.0 ∙ ap (take (sum ks)) d.filled ∙ take-append_le (sum ks) (frame o stream) d.rest out,
        out,
        (
          (λ e. omega (arith, r.2.0 e, length-frame o stream)),
          (λ e. r.2.1 (omega (arith, e, length-frame o stream))),
        ),
      )
    where
      within : (n : ℕ) → 0 + n ≤ 4 + length stream → n ≤ length (frame o stream)
      within n e = omega (arith, e, length-frame o stream)

  -- The stream fits behind the header, and Windows completes the send that `SendPacket` starts and
  -- those that `OnSend` starts, each with at least a byte: the bytes that went out are the first
  -- bytes of the frame, no more than the frame has, and no send is in flight exactly when the whole
  -- frame is out.
  pub transmit-frame :
      (t : IocpSession) (events : List Event) (ks : List ℕ)
      → 4 + length stream ≤ socket_buf_size
      → send_packet net o s stream ≡ some (t, events)
      → Completes net t (posted events) ks
      → let r = transmit net t (posted events) ks in
        (r.0 ≡ take (sum ks) (frame o stream))
        × (sum ks ≤ length (frame o stream))
        × ((r.1 ≡ none) ↔ (sum ks ≡ length (frame o stream)))
  transmit-frame t events ks h e c =
      let f = send_packet_fits h in
      let t≡ : t ≡ sending = cc in
      let same : events ≡ f.0 = cc in
      let posts : posted events ≡ some first = ap posted same ∙ f.2 in
      rw (t≡, posts) (transmit-sending ks h (rw (t≡, posts) at c))

  pub sending-IsFresh : IsFresh sending
  sending-IsFresh = recv_stand_by-IsFresh net (record s { write = loaded o s.write stream })

  -- A stream that fits behind the header: `SendPacket` succeeds, and it leaves the session as if no
  -- byte had arrived, also if a part of a packet had.
  pub send_packet-forgets :
      4 + length stream ≤ socket_buf_size
      → (t : IocpSession) × ((events : List Event) × (send_packet net o s stream
            ≡ some (t, events)))
        × IsFresh t
  send_packet-forgets h = let r = send_packet_fits h in (sending, (r.0, r.1), sending-IsFresh)
