-- ===== src/Examples/Terminals.antt =====
-- TerminalSession.cpp, Terminal.cpp and `RunCommand`: a packet of two bytes, with the bytes as they are on the wire.
use iocp_chat_server.Base.{
  ℕ, ◌≡◌, refl, List, [], ◌∷◌, Option, some, arith, replicate, Bool, false, none,
}
use iocp_chat_server.Base.Bytes.{bytes_of_int32}
use iocp_chat_server.Network.{PacketObfuscation, Decodes}
use iocp_chat_server.Terminal
use iocp_chat_server.Terminal.{terminal_ready, serving, Finds, connect_process, sends_packet}
use iocp_chat_server.Terminal.Status.{connect_process-ready}
use iocp_chat_server.TerminalSession.{
  received, closed, on_recv, returns, blocks, send_packet, sends,
}
use iocp_chat_server.TerminalSession.OnRecv.{on_recv-frame, on_recv-all_closed}
use iocp_chat_server.TerminalSession.SendPacket.{send_packet-frame}
use iocp_chat_server.Network.IocpSession.{recv_stand_by, needs_more, packaged}
use iocp_chat_server.Network.IocpSession.Reassembly.{arrive_all, IsFresh}
use iocp_chat_server.Peers.{send_packet-arrive_all}
use iocp_chat_server.Examples.Network.{quiet, waiting, waiting-IsFresh}

abbrev plain : PacketObfuscation
plain = record {
  encoding_header = λ b. b;
  decoding_header = λ b. b;
  encoding_data = λ b. b;
  decoding_data = λ b. b;
  length-encoding_header = λ b. refl;
  length-encoding_data = λ b. refl;
  length-decoding_data = λ b. refl;
}

plain-Decodes : Decodes plain
plain-Decodes = record { header = λ b. refl; body = λ b. refl }

abbrev body : List ℕ
body = 7 ∷ 8 ∷ []

abbrev array : List ℕ
array = 1 ∷ 1 ∷ 1 ∷ 1 ∷ 1 ∷ 1 ∷ 21 ∷ 22 ∷ 23 ∷ 24 ∷ 25 ∷ []

-- The analyzer returns the bytes that it gets: four of them are not of the packet.
on_recv-frame_example :
    on_recv plain
      (λ b. some b)
      array
      (received (6 ∷ 0 ∷ 0 ∷ 0 ∷ 7 ∷ []) ∷ received (8 ∷ []) ∷ closed ∷ [])
    ≡ returns (some (7 ∷ 8 ∷ 21 ∷ 22 ∷ 23 ∷ 24 ∷ [])) (closed ∷ [])
unfolding bytes_of_int32
on_recv-frame_example =
    on_recv-frame plain plain-Decodes (λ b. some b) body array (6 ∷ 0 ∷ 0 ∷ 0 ∷ 7 ∷ [])
      ((8 ∷ []) ∷ []) (closed ∷ []) refl (omega arith) (omega arith) (omega arith)

on_recv-all_closed_example :
    on_recv plain (λ b. some b) array (received (6 ∷ 0 ∷ 0 ∷ 0 ∷ 7 ∷ []) ∷ replicate 99 closed)
    ≡ blocks
unfolding bytes_of_int32
on_recv-all_closed_example =
    on_recv-all_closed plain plain-Decodes (λ b. some b) body array (6 ∷ 0 ∷ 0 ∷ 0 ∷ 7 ∷ [])
      (8 ∷ []) 99 refl (omega arith) (omega arith) (omega arith)

sends_body :
    send_packet plain array body (90 ∷ 91 ∷ 92 ∷ 93 ∷ []) ≡ sends (6 ∷ 0 ∷ 0 ∷ 0 ∷ 7 ∷ 8 ∷ [])
unfolding bytes_of_int32
sends_body = send_packet-frame plain array body (90 ∷ 91 ∷ 92 ∷ 93 ∷ []) (omega arith) (omega arith)

send_packet-arrive_all_example :
    (arrive_all quiet plain (λ b. some b) waiting ((6 ∷ 0 ∷ 0 ∷ 0 ∷ 7 ∷ []) ∷ (8 ∷ []) ∷ [])
      ≡ ((recv_stand_by quiet waiting).0, needs_more ∷ packaged body ∷ []))
    × IsFresh (recv_stand_by quiet waiting).0
send_packet-arrive_all_example =
    send_packet-arrive_all quiet plain (λ b. some b) array body (90 ∷ 91 ∷ 92 ∷ 93 ∷ [])
      (6 ∷ 0 ∷ 0 ∷ 0 ∷ 7 ∷ 8 ∷ []) waiting (6 ∷ 0 ∷ 0 ∷ 0 ∷ 7 ∷ []) ((8 ∷ []) ∷ []) body
      plain-Decodes (omega arith) (omega arith) sends_body waiting-IsFresh refl (omega arith)
      (omega arith) refl

-- The connection is lost and the next attempt fails.
abbrev finds : Bool → Option ℕ → Finds
finds connected package_ = record { shutdown = false; connected = connected; received = package_ }

connect_process-ready_example :
    let t =
      connect_process
        (record { status = terminal_ready; place = serving })
        (finds false (some 5) ∷ finds false none ∷ finds false none ∷ []) in
    (t.0.status ≡ terminal_ready) × (Terminal.send_packet t.0.status ≡ sends_packet ∷ [])
connect_process-ready_example =
    connect_process-ready (record { status = terminal_ready; place = serving })
      (finds false (some 5) ∷ finds false none ∷ finds false none ∷ []) refl

-- The line "/kick 7".
abbrev kick_7 : List ℕ
kick_7 = 47 ∷ 107 ∷ 105 ∷ 99 ∷ 107 ∷ 32 ∷ 55 ∷ []
