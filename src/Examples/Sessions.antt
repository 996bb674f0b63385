-- ===== src/Examples/Sessions.antt =====
-- SessionManager.cpp, SessionMonitor.cpp and IOCPServer.cpp: a manager with room for three sessions
-- that holds two, a client that has been silent for long and one that has not.
use iocp_chat_server.Base.{
  ℕ, ◌≡◌, refl, List, [], ◌∷◌, ap, ◌∙◌, length, Option, some, none, true, arith, if◌then◌else◌,
}
use iocp_chat_server.Base.Int.{pos, ◌+ℤ◌}
use iocp_chat_server.Session.{session_type_client}
use iocp_chat_server.Network.{Winsock, WsaBuf, PacketObfuscation, Decodes}
use iocp_chat_server.Network.IocpSession
use iocp_chat_server.Network.IocpSession.{IocpSession}
use iocp_chat_server.Network.IocpSession.Reassembly.{deliver}
use iocp_chat_server.SessionManager.Memory.{
  Pointer, World, done, fault, double_free, out_of_bounds, update,
}
use iocp_chat_server.SessionManager.{make, contains, close_session, get_session, destroy_manager}
use iocp_chat_server.SessionManager.Invariant.{make-Inv, Inv, Keeps, close_session-Inv}
use iocp_chat_server.SessionManager.Reaping.{is_closed}
use iocp_chat_server.SessionManager.Teardown.{destroy_manager_lem}
use iocp_chat_server.IocpServer.{Accepting, on_accept}
use iocp_chat_server.IocpServer.Accept.{on_accept_no_handle}
use iocp_chat_server.IocpServer.Worker.{Completion, reading}
use iocp_chat_server.SessionManager.Changes.{Sound}
use iocp_chat_server.IocpServer.Sound.{SoundOr}
use iocp_chat_server.IocpServer.Receipts.{windows_receives, receive_at, lies_within}
use iocp_chat_server.IocpServer.History.{
  accepts, completes, receives, start, after, Reachable, perform, Fails, perform-Reachable,
}
use iocp_chat_server.IocpServer.Packets.Stream.{Shipment, AllShip}
use iocp_chat_server.Base.Bytes.{bytes_of_int32}
use iocp_chat_server.IocpServer.Identifiers.{happened, get_session-Reachable}
use iocp_chat_server.IocpServer.Serve.{Serves, on_accept-Serves}

abbrev pub quiet : Winsock
quiet = record {
  wsa_recv = λ b. record { ret = 0; last_error = 0 };
  wsa_send = λ b. record { ret = 0; last_error = 0 };
}

abbrev pub client : ℕ → ℕ → ℕ → IocpSession
client socket id beat =
    IocpSession.make
      (record {
        socket = socket;
        address = 0;
        id = id;
        type = session_type_client;
        last_heart_beat = beat;
      })
      beat

abbrev heap : Pointer → Option IocpSession
heap =
    update (update (update (λ p. none) 5 (some (client 50 1 10))) 9 (some (client 90 2 40000))) 12
      (some (client 0 0 40001))

abbrev pub two_sessions : World
two_sessions = record {
  session_list = 5 ∷ 9 ∷ [];
  session_count = pos 2;
  max_connection = pos 3;
  session_seed = 3;
  heap = heap;
  effects = [];
}

pub two_sessions-Inv : Inv two_sessions
unfolding contains ◌+ℤ◌
two_sessions-Inv = record {
  live = (
    (λ e. omega arith),
    (client 50 1 10, refl),
    ((λ e. omega arith), (client 90 2 40000, refl), tt),
  );
  distinct = (refl, (refl, tt));
  counted = refl;
  capacity = omega arith;
}

close_session-Inv_example : Keeps (close_session 2 77 two_sessions)
close_session-Inv_example = close_session-Inv 0 77 two_sessions two_sessions-Inv

destroy_manager_lem_example :
    (w : World) × (destroy_manager 2 two_sessions ≡ done tt w)
    × (w.session_list ≡ [])
    × ((q : Pointer) → w.heap q ≡ (if contains q (5 ∷ 9 ∷ []) then none else heap q))
    × ((q : Pointer) (s : IocpSession)
        → contains q (5 ∷ 9 ∷ []) ≡ true
        → heap q ≡ some s
        → is_closed s.socket w.effects ≡ true)
destroy_manager_lem_example = destroy_manager_lem 0 two_sessions two_sessions-Inv

-- The answers of Windows to a connection for which the object at 20 is allocated.
abbrev pub answers : ℕ → ℕ → Accepting
answers ioctl handle = record {
  pointer = 20;
  memory = record {
    socket = 0;
    address = 0;
    id = 0;
    type = session_type_client;
    last_heart_beat = 0;
  };
  now = 40005;
  ioctl = ioctl;
  handle = handle;
}

on_accept-Serves_example :
    (w : World) × (on_accept quiet 1 (answers 0 8) 70 1 two_sessions ≡ done tt w)
    × Serves 20 70 two_sessions w
unfolding contains
on_accept-Serves_example =
    on_accept-Serves quiet 0 (answers 0 8) 70 1 two_sessions two_sessions-Inv (λ e. omega arith)
      refl refl refl (λ e. omega arith)

on_accept_no_handle_example : on_accept quiet 2 (answers 0 0) 70 1 two_sessions ≡ fault double_free
unfolding contains
on_accept_no_handle_example =
    on_accept_no_handle quiet 0 (answers 0 0) 70 1 two_sessions (λ e. omega arith) refl refl refl
      refl

abbrev pub plain : PacketObfuscation
plain = record {
  encoding_header = λ b. b;
  decoding_header = λ b. b;
  encoding_data = λ b. b;
  decoding_data = λ b. b;
  length-encoding_header = λ b. refl;
  length-encoding_data = λ b. refl;
  length-decoding_data = λ b. refl;
}

-- Eight bytes have come for the session at 9.
abbrev pub received : Pointer → Completion
received p = record { ret = true; session = p; transfer_size = 8; io_data = reading }

-- A connection to a new manager, and then eight bytes for its session.
pub served :
    (w : World) × (on_accept quiet 2 (answers 0 8) 70 1 (make (pos 3)) ≡ done tt w)
    × Serves 20 70 (make (pos 3)) w
unfolding contains make
served =
    on_accept-Serves quiet 1 (answers 0 8) 70 1 (make (pos 3)) (make-Inv 3) (λ e. omega arith) refl
      refl refl (λ e. omega arith)

served-listed : contains 20 served.0.session_list ≡ true
unfolding contains make
served-listed = rw (served.2.list) refl

pub served_lem :
    perform quiet plain (λ b. some (length b)) 0 (accepts (answers 0 8) 70 1) (make (pos 3))
    ≡ done tt served.0
unfolding make perform
served_lem = served.1

unfoldable pub reached : Reachable quiet plain (λ b. none) 0 served.0
unfolding make perform
reached = after (accepts (answers 0 8) 70 1) (start 3) refl served.1

-- Windows puts the bytes of a packet into its buffer.
abbrev pub packet_bytes : List ℕ
packet_bytes = 8 ∷ 0 ∷ 0 ∷ 0 ∷ 1 ∷ 2 ∷ 3 ∷ 4 ∷ []

abbrev pub analyzer : List ℕ → Option ℕ
analyzer b = some (length b)

abbrev pub filled : World
filled = record (served.0) {
  heap = update served.0.heap 20 (some (deliver served.2.session packet_bytes));
}

pub filled_lem : perform quiet plain analyzer 0 (receives 20 packet_bytes) served.0 ≡ done tt filled
unfolding perform windows_receives
filled_lem =
    ap (λ (h : Option IocpSession). receive_at h 20 packet_bytes served.0) served.2.there
    ∙ ap
        (λ (r : Option WsaBuf).
          if lies_within r packet_bytes then done tt filled else fault out_of_bounds)
        served.2.waits.receives

unfoldable pub filled_reached : Reachable quiet plain analyzer 0 filled
unfolding make
filled_reached =
    after (receives 20 packet_bytes) (after (accepts (answers 0 8) 70 1) (start 3) refl served_lem)
      tt filled_lem

perform-Reachable_example :
    Sound filled
    × SoundOr
        (Fails (completes (received 20)) filled)
        (perform quiet plain analyzer 0 (completes (received 20)) filled)
perform-Reachable_example =
    perform-Reachable quiet plain analyzer 0 (completes (received 20)) filled filled_reached tt

get_session-Reachable_example : get_session served.2.session.id served.0 ≡ done 20 served.0
unfolding happened reached
get_session-Reachable_example =
    get_session-Reachable reached 20 served.2.session (omega arith) served-listed served.2.there

pub plain-Decodes : Decodes plain
plain-Decodes = record { header = λ b. refl; body = λ b. refl }

-- A packet in three pieces, and one in a single piece; the analyzer knows a packet by its length.
abbrev pub shipments : List Shipment
shipments =
    record {
      body = 7 ∷ 8 ∷ [];
      first = 6 ∷ 0 ∷ 0 ∷ 0 ∷ [];
      others = (7 ∷ []) ∷ (8 ∷ []) ∷ [];
      packet = 2;
    }
    ∷ record { body = 9 ∷ []; first = 5 ∷ 0 ∷ 0 ∷ 0 ∷ 9 ∷ []; others = []; packet = 1 }
    ∷ []

pub shipments-AllShip : AllShip plain (λ b. some (length b)) shipments
unfolding bytes_of_int32
shipments-AllShip = (
  record {
    fits = omega arith;
    whole = refl;
    four = omega arith;
    non_empty = omega arith;
    known = refl;
  },
  (
    record { fits = omega arith; whole = refl; four = omega arith; non_empty = tt; known = refl },
    tt,
  ),
)
