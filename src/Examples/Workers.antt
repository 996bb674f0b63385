-- ===== src/Examples/Workers.antt =====
-- IOCPServer.cpp and IOCPSession.cpp: two clients and several workers, some of which are slow to put what
-- they have got.
use mathlib.Core.List.{Perm}
use iocp_chat_server.Base.{ℕ, ◌≡◌, refl, List, [], ◌∷◌, ◌++◌, some, arith, length}
use iocp_chat_server.Base.Bytes.{bytes_of_int32}
use iocp_chat_server.Network.IocpSession.Reassembly.{recv_stand_by-IsFresh}
use iocp_chat_server.SessionManager.Memory.{Pointer, World, done}
use iocp_chat_server.IocpServer.Packets.{packages}
use iocp_chat_server.IocpServer.Packets.Stream.{Shipment, Ships, standing_by}
use iocp_chat_server.IocpServer.Packets.Clients.{packages_of}
use iocp_chat_server.IocpServer.Workers.{Act, receives, puts, act_each}
use iocp_chat_server.IocpServer.Workers.Streams.{act_each-streams, act_each-swapped}
use iocp_chat_server.Examples.Sessions.{quiet, plain, plain-Decodes, client, shipments}
use iocp_chat_server.Examples.Clients.{waiting, two_waiting, streams, mixed-cut, both_wait}

-- The pieces of `mixed`; the last package is put first, and one is still in hands at the end.
abbrev mixed_acts : List Act
mixed_acts =
    receives 5 (6 ∷ 0 ∷ 0 ∷ 0 ∷ [])
    ∷ receives 9 (5 ∷ 0 ∷ 0 ∷ 0 ∷ [])
    ∷ receives 5 (7 ∷ [])
    ∷ receives 5 (8 ∷ [])
    ∷ receives 9 (9 ∷ [])
    ∷ receives 5 (5 ∷ 0 ∷ 0 ∷ 0 ∷ 9 ∷ [])
    ∷ puts 0
    ∷ puts 1
    ∷ []

act_each-streams_example :
    (hands : List (Pointer × ℕ)) × (w : World) × (act_each quiet plain
        (λ b. some (length b))
        2
        mixed_acts
        []
        two_waiting
      ≡ done hands w)
    × (w.session_list ≡ 5 ∷ 9 ∷ [])
    × (w.heap 5 ≡ some (standing_by quiet shipments (waiting 50 1)))
    × Perm (packages_of 5 (packages w.effects ++ hands)) (1 ∷ 2 ∷ [])
unfolding packages packages_of
act_each-streams_example =
    act_each-streams quiet plain (λ b. some (length b)) 2 streams mixed_acts two_waiting 5
      (waiting 50 1) plain-Decodes mixed-cut both_wait refl

-- Two packets, each in a single piece.
abbrev long : Shipment
long = record { body = 7 ∷ 8 ∷ []; first = 6 ∷ 0 ∷ 0 ∷ 0 ∷ 7 ∷ 8 ∷ []; others = []; packet = 2 }

abbrev short : Shipment
short = record { body = 9 ∷ []; first = 5 ∷ 0 ∷ 0 ∷ 0 ∷ 9 ∷ []; others = []; packet = 1 }

long-Ships : Ships plain (λ b. some (length b)) long
unfolding bytes_of_int32
long-Ships = record {
  fits = omega arith;
  whole = refl;
  four = omega arith;
  non_empty = tt;
  known = refl;
}

short-Ships : Ships plain (λ b. some (length b)) short
unfolding bytes_of_int32
short-Ships = record {
  fits = omega arith;
  whole = refl;
  four = omega arith;
  non_empty = tt;
  known = refl;
}

act_each-swapped_example :
    (w : World) × (act_each quiet plain
        (λ b. some (length b))
        2
        (receives 5 long.first ∷ receives 5 short.first ∷ puts 0 ∷ puts 0 ∷ [])
        []
        two_waiting
      ≡ done [] w)
    × (packages w.effects ≡ (5, 2) ∷ (5, 1) ∷ [])
unfolding packages
act_each-swapped_example =
    act_each-swapped quiet plain (λ b. some (length b)) 2 5 long short (waiting 50 1) two_waiting
      plain-Decodes refl (recv_stand_by-IsFresh quiet (client 50 1 40000)) long-Ships short-Ships
      refl refl
