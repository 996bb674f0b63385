-- ===== src/Peers.antt =====
-- IOCPSession.cpp and TerminalSession.cpp: the two ends of a connection between two servers. The one that
-- accepts it has an `IOCPSession`, and the one that connects a `TerminalSession`.
use iocp_chat_server.Base.{
  ℕ, ◌+◌, ◌≤◌, ◌≡◌, ◌∙◌, List, ◌∷◌, ◌++◌, [], Option, none, some, arith, length, take, drop,
  replicate,
}
use iocp_chat_server.Base.Bytes.{take-all}
use iocp_chat_server.Network.{PacketObfuscation, Decodes, Winsock}
use iocp_chat_server.Network.IoData.{socket_buf_size}
use iocp_chat_server.Network.Frame.{frame}
use iocp_chat_server.Network.IocpSession.{IocpSession, Event, needs_more, packaged, recv_stand_by}
use iocp_chat_server.Network.IocpSession
use iocp_chat_server.Network.IocpSession.Reassembly.{
  IsFresh, joined, NonEmpty, arrive_all, arrive_all-frame,
}
use iocp_chat_server.Network.IocpSession.Sending.{transmit, Completes, posted, sum}
use iocp_chat_server.Network.IocpSession.SendPacket.{transmit-frame}
use iocp_chat_server.TerminalSession
use iocp_chat_server.TerminalSession.{Answer, received, returns, sends}
use iocp_chat_server.TerminalSession.OnRecv.{pieces, on_recv-frame}
use iocp_chat_server.TerminalSession.SendPacket.{send_packet-frame}

-- The server that accepted sends: the stream leaves eight bytes of the buffer, and Windows completes the
-- sends of `SendPacket` and `OnSend`, each with at least a byte, until none is in flight. The terminal
-- gets the bytes that went out in pieces, the first of at least four bytes and none empty, and decoding
-- undoes encoding: its `OnRecv` returns what its analyzer makes of the stream with the next four bytes of
-- its array behind it.
pub transmit-on_recv :
    (net : Winsock) (o : PacketObfuscation) {Packet : Type 0} (analyzer : List ℕ → Option Packet)
    (s t : IocpSession) (stream : List ℕ) (events : List Event) (ks memory : List ℕ) (c : List ℕ)
    (cs : List (List ℕ)) (later : List Answer)
    → Decodes o
    → 8 + length stream ≤ socket_buf_size
    → IocpSession.send_packet net o s stream ≡ some (t, events)
    → Completes net t (posted events) ks
    → (transmit net t (posted events) ks).1 ≡ none
    → c ++ joined cs ≡ (transmit net t (posted events) ks).0
    → 4 ≤ length c
    → NonEmpty cs
    → TerminalSession.on_recv o analyzer memory (received c ∷ pieces cs later)
      ≡ returns (analyzer (stream ++ take 4 (drop (4 + length stream) memory))) later
transmit-on_recv net o analyzer s t stream events ks memory c cs later decodes h sends_it done ended
      e four ne =
    let r = transmit-frame net o s stream t events ks (omega (arith, h)) sends_it done in
    let whole = r.0 ∙ take-all (sum ks) (frame o stream) (omega (arith, r.2.0 ended)) in
    on_recv-frame o decodes analyzer stream memory c cs later (e ∙ whole) four ne h

-- The terminal sends: the stream leaves eight bytes of the buffer, and four bytes can be read behind it. The
-- session, which waits, gets the bytes that went out in pieces, the first of at least four bytes and none
-- empty; decoding undoes encoding, and its analyzer knows the stream. `OnRecv` asks for more at every
-- piece but the last, and hands over the packet at the last one; the session waits again, with a
-- receive into its whole array.
pub send_packet-arrive_all :
    (net : Winsock) (o : PacketObfuscation) {Packet : Type 0} (analyzer : List ℕ → Option Packet)
    (memory stream after bytes : List ℕ) (s : IocpSession) (c : List ℕ) (cs : List (List ℕ))
    (packet : Packet)
    → Decodes o
    → 8 + length stream ≤ socket_buf_size
    → 4 ≤ length after
    → TerminalSession.send_packet o memory stream after ≡ sends bytes
    → IsFresh s
    → c ++ joined cs ≡ bytes
    → 4 ≤ length c
    → NonEmpty cs
    → analyzer stream ≡ some packet
    → (arrive_all net o analyzer s (c ∷ cs)
        ≡ ((recv_stand_by net s).0, replicate (length cs) needs_more ++ packaged packet ∷ []))
      × IsFresh (recv_stand_by net s).0
send_packet-arrive_all net o analyzer memory stream after bytes s c cs packet decodes h four sent f
      e head ne known =
    let framed = send_packet-frame o memory stream after h four in
    let same : bytes ≡ frame o stream = cc in
    arrive_all-frame net o decodes analyzer stream (omega (arith, h)) c cs s packet f (e ∙ same)
      head ne known
