-- ===== src/Examples/Clients.antt =====
-- IOCPServer.cpp and IOCPSession.cpp: two clients whose packets arrive in pieces, one between the other's.
use iocp_chat_server.Base.{
  ℕ, false, ◌≡◌, ◌⊎◌, refl, subst, List, [], ◌∷◌, some, none, inl, inr, arith, length, ◌==◌,
  if◌then◌else◌, Bool-cases,
}
use iocp_chat_server.Base.Bytes.{bytes_of_int32}
use iocp_chat_server.Network.IoData.{clear, set_type, io_read}
use iocp_chat_server.Network.IocpSession
use iocp_chat_server.Network.IocpSession.{IocpSession, recv_stand_by}
use iocp_chat_server.Network.IocpSession.Reassembly.{recv_stand_by-IsFresh}
use iocp_chat_server.SessionManager.Memory.{Pointer, World, done, update}
use iocp_chat_server.IocpServer.Packets.{packages}
use iocp_chat_server.IocpServer.Packets.Stream.{Shipment, AllShip, standing_by}
use iocp_chat_server.IocpServer.Packets.Clients.{Arrivals, pieces_of, packages_of, arrive_from}
use iocp_chat_server.IocpServer.Packets.Clients.Streams.{Waits, pieces_in, arrive_from-streams}
use iocp_chat_server.Examples.Sessions.{
  quiet, plain, plain-Decodes, client, two_sessions, shipments, shipments-AllShip,
}

abbrev pub waiting : ℕ → ℕ → IocpSession
waiting socket id = (recv_stand_by quiet (client socket id 40000)).0

abbrev pub two_waiting : World
two_waiting = record two_sessions {
  heap = update (update (λ p. none) 5 (some (waiting 50 1))) 9 (some (waiting 90 2));
}

abbrev single : List Shipment
single =
    record { body = 9 ∷ []; first = 5 ∷ 0 ∷ 0 ∷ 0 ∷ []; others = (9 ∷ []) ∷ []; packet = 1 } ∷ []

single-AllShip : AllShip plain (λ b. some (length b)) single
unfolding bytes_of_int32
single-AllShip = (
  record {
    fits = omega arith;
    whole = refl;
    four = omega arith;
    non_empty = omega arith;
    known = refl;
  },
  tt,
)

abbrev pub streams : Pointer → List Shipment
streams q = if 5 == q then shipments else if 9 == q then single else []

abbrev pub mixed : Arrivals
mixed =
    (5, 6 ∷ 0 ∷ 0 ∷ 0 ∷ [])
    ∷ (9, 5 ∷ 0 ∷ 0 ∷ 0 ∷ [])
    ∷ (5, 7 ∷ [])
    ∷ (5, 8 ∷ [])
    ∷ (9, 9 ∷ [])
    ∷ (5, 5 ∷ 0 ∷ 0 ∷ 0 ∷ 9 ∷ [])
    ∷ []

pub mixed-cut : (q : Pointer) → pieces_of q mixed ≡ pieces_in (streams q)
unfolding pieces_of
mixed-cut q = elim (Bool-cases (5 == q)) [
  | inl y ↦ let other : (9 == q) ≡ false = ground arith in rw (y, other) refl
  | inr n ↦ elim (Bool-cases (9 == q)) [ inl y ↦ rw (n, y) refl | inr m ↦ rw (n, m) refl ]
]

waiting-reads : (socket id : ℕ) → (waiting socket id).read.io_type ≡ io_read
unfolding recv_stand_by IocpSession.make clear set_type
waiting-reads socket id = refl

five-Waits : Waits two_waiting 5
five-Waits = record {
  session = waiting 50 1;
  there = refl;
  not_null = λ e. omega arith;
  fresh = recv_stand_by-IsFresh quiet (client 50 1 40000);
  reads = waiting-reads 50 1;
}

nine-Waits : Waits two_waiting 9
nine-Waits = record {
  session = waiting 90 2;
  there = refl;
  not_null = λ e. omega arith;
  fresh = recv_stand_by-IsFresh quiet (client 90 2 40000);
  reads = waiting-reads 90 2;
}

pub both_wait :
    (q : Pointer)
    → (streams q ≡ []) ⊎ (Waits two_waiting q × AllShip plain (λ b. some (length b)) (streams q))
both_wait q = elim (Bool-cases (5 == q)) [
  | inl y ↦
      let same : 5 ≡ q = ground arith in
      rw y (inr (subst (λ (x : Pointer). Waits two_waiting x) same five-Waits, shipments-AllShip))
  | inr n ↦ elim (Bool-cases (9 == q)) [
    | inl y ↦
        let same : 9 ≡ q = ground arith in
        rw (n, y)
          (inr (subst (λ (x : Pointer). Waits two_waiting x) same nine-Waits, single-AllShip))
    | inr m ↦ rw (n, m) (inl refl)
  ]
]

arrive_from-streams_example :
    (w : World) × (arrive_from quiet plain (λ b. some (length b)) 2 mixed two_waiting ≡ done tt w)
    × (w.session_list ≡ 5 ∷ 9 ∷ [])
    × (w.heap 5 ≡ some (standing_by quiet shipments (waiting 50 1)))
    × (packages_of 5 (packages w.effects) ≡ 1 ∷ 2 ∷ [])
unfolding packages packages_of
arrive_from-streams_example =
    arrive_from-streams quiet plain (λ b. some (length b)) 2 streams mixed two_waiting 5
      (waiting 50 1) plain-Decodes mixed-cut both_wait refl
