-- ===== src/Examples/Network.antt =====
-- IOCPSession.cpp: a packet of two bytes on its way, under an obfuscation that reverses each range.
use mathlib.Core.List.{reverse, reverse-reverse}
use iocp_chat_server.Base.{ℕ, ◌≡◌, refl, List, [], ◌∷◌, ◌++◌, Option, some, arith, ◌<◌}
use iocp_chat_server.Base.Bytes.{length-reverse, bytes_of_int32, int32_of_bytes, write_at}
use iocp_chat_server.Session.{Session, session_type_client}
use iocp_chat_server.Network.{PacketObfuscation, Decodes, Winsock}
use iocp_chat_server.Network.IoData.SetData.{loaded}
use iocp_chat_server.Network.IoData.{set_data}
use iocp_chat_server.Network.Frame.{frame}
use iocp_chat_server.Peers.{transmit-on_recv}
use iocp_chat_server.TerminalSession
use iocp_chat_server.TerminalSession.{received, returns}
use iocp_chat_server.Network.IocpSession
use iocp_chat_server.Network.IocpSession.{
  IocpSession, recv_stand_by, needs_more, packaged, on_recv, recv, send, Event, send_packet,
  on_send,
}
use iocp_chat_server.Network.IocpSession.OnRecv.{on_recv_too_long}
use iocp_chat_server.Network.IocpSession.Reassembly.{
  IsFresh, arrive, arrive_all, arrive_all-frame, arrive-frame_and_more, recv_stand_by-IsFresh,
}
use iocp_chat_server.Network.IocpSession.Sending.{transmit}
use iocp_chat_server.Network.IocpSession.SendPacket.{sending}

abbrev reversing : PacketObfuscation
reversing = record {
  encoding_header = reverse;
  decoding_header = reverse;
  encoding_data = reverse;
  decoding_data = reverse;
  length-encoding_header = length-reverse;
  length-encoding_data = length-reverse;
  length-decoding_data = length-reverse;
}

reversing-Decodes : Decodes reversing
reversing-Decodes = record { header = reverse-reverse; body = reverse-reverse }

abbrev pub quiet : Winsock
quiet = record {
  wsa_recv = λ b. record { ret = 0; last_error = 0 };
  wsa_send = λ b. record { ret = 0; last_error = 0 };
}

abbrev memory : Session
memory = record { socket = 0; address = 0; id = 0; type = session_type_client; last_heart_beat = 0 }

-- A session that waits for a packet.
abbrev pub waiting : IocpSession
waiting = (recv_stand_by quiet (IocpSession.make memory 100)).0

pub waiting-IsFresh : IsFresh waiting
waiting-IsFresh = recv_stand_by-IsFresh quiet (IocpSession.make memory 100)

abbrev body : List ℕ
body = 7 ∷ 8 ∷ []

-- The packet object is the number 40.
abbrev analyzer : List ℕ → Option ℕ
analyzer bytes = some 40

abbrev head_piece : List ℕ
head_piece = 0 ∷ 0 ∷ 0 ∷ 6 ∷ []

abbrev other_pieces : List (List ℕ)
other_pieces = (8 ∷ []) ∷ (7 ∷ []) ∷ []

arrive_all-frame_example :
    (arrive_all quiet reversing analyzer waiting (head_piece ∷ other_pieces)
      ≡ ((recv_stand_by quiet waiting).0, needs_more ∷ needs_more ∷ packaged 40 ∷ []))
    × IsFresh (recv_stand_by quiet waiting).0
unfolding bytes_of_int32
arrive_all-frame_example =
    arrive_all-frame quiet reversing reversing-Decodes analyzer body (omega arith) head_piece
      other_pieces waiting 40 waiting-IsFresh refl (omega arith) (omega arith) refl

arrive-frame_and_more_example :
    arrive quiet reversing analyzer waiting (frame reversing body ++ frame reversing body)
    ≡ ((recv_stand_by quiet waiting).0, packaged 40)
unfolding bytes_of_int32
arrive-frame_and_more_example =
    arrive-frame_and_more quiet reversing reversing-Decodes analyzer body (omega arith)
      (frame reversing body) waiting 40 waiting-IsFresh (omega arith) refl

abbrev sent : List Event
sent =
    Event.wsa_send (record { buf = 0; len = 2 })
    ∷ Event.wsa_recv (record { buf = 0; len = 10240 })
    ∷ []

-- Windows takes the two bytes that `SendPacket` offers, and then the four that `OnSend` offers.
sends : send_packet quiet reversing waiting body ≡ some (sending quiet reversing waiting body, sent)
unfolding send_packet set_data loaded recv_stand_by send recv
sends = refl

abbrev array : List ℕ
array = 1 ∷ 1 ∷ 1 ∷ 1 ∷ 1 ∷ 1 ∷ 21 ∷ 22 ∷ 23 ∷ 24 ∷ 25 ∷ []

transmit-on_recv_example :
    TerminalSession.on_recv reversing
      (λ b. some b)
      array
      (received head_piece ∷ received (8 ∷ []) ∷ received (7 ∷ []) ∷ [])
    ≡ returns (some (7 ∷ 8 ∷ 21 ∷ 22 ∷ 23 ∷ 24 ∷ [])) []
unfolding bytes_of_int32 write_at on_send loaded recv_stand_by transmit
transmit-on_recv_example =
    transmit-on_recv quiet reversing (λ b. some b) waiting (sending quiet reversing waiting body)
      body sent (2 ∷ 4 ∷ []) array head_piece other_pieces [] reversing-Decodes (omega arith) sends
      (omega arith) refl refl (omega arith) (omega arith)

-- Eight bytes of a packet for which the header announces 20000 bytes, or 2.
abbrev announcing : ℕ → IocpSession
announcing v = record waiting {
  read = record waiting.read {
    buffer = write_at waiting.read.buffer 0 (reverse (bytes_of_int32 v));
    current_bytes = 0;
  };
}

on_recv_too_long_example :
    let r = on_recv quiet reversing analyzer (announcing 20000) 8 in
    (r.2 ≡ needs_more) × (r.1 ≡ recv quiet (record { buf = 8; len = 19992 })) × (10240 < 20000)
unfolding bytes_of_int32 int32_of_bytes write_at recv_stand_by
on_recv_too_long_example =
    on_recv_too_long quiet reversing analyzer (announcing 20000) 8 20000 refl refl (omega arith)
      (omega arith) (omega arith)
