-- ===== src/IocpServer/Start.antt =====
-- IOCPServer.cpp, `Run`, `CreateListenSocket` and `AcceptThread`, with the status of Server.h.
use iocp_chat_server.Base.{
  ℕ, ◌≡◌, ◌≤◌, refl, ap, length, Bool, true, false, not, ◌&&◌, List, [], ◌∷◌, ◌++◌, Option, none,
  some, ltb, ◌==◌, if◌then◌else◌, arith, ◌⊎◌,
}
use iocp_chat_server.Server.{
  ServerStatus, server_stop, server_initialize, server_ready, Server, Closing, closes_listen_socket,
  destroy_server,
}
use iocp_chat_server.SessionManager.RunCommand.{run_command}

abbrev pub max_iocp_thread : ℕ
max_iocp_thread = 64

-- What Windows answers while the server starts; 0 is NULL for `iocp`.
pub record Answers : Type 0 where
  pub iocp : ℕ
  pub socket_made : Bool
  pub bound : Bool
  pub listens : Bool

-- `SErrLog` ends the process.
pub data Started : Type 0 where
  exits : Started
  returns_false : Started
  runs : (status : ServerStatus) (worker_threads : ℕ) → Started

-- True if `CreateListenSocket` returns.
unfoldable pub create_listen_socket : Answers → Bool
create_listen_socket a =
    if not a.socket_made then false else if not a.bound then false else a.listens

-- `Run`, up to its loop over the console, for a number of threads that is not negative.
unfoldable pub run : ℕ → Answers → Started
unfolding create_listen_socket
run worker_thread_count a =
    if ltb max_iocp_thread worker_thread_count
    then exits
    else if a.iocp == 0
    then returns_false
    else if create_listen_socket a
    then runs server_ready worker_thread_count
    else exits

-- The server runs exactly where the number of threads is at most 64 and Windows grants the completion
-- port and the listening socket; then it is ready and has all its workers. `Run` returns false where
-- the number is at most 64 and the port is missing, and the process ends otherwise.
pub run-runs :
    (n : ℕ) (a : Answers)
    → run n a ≡ (
        if not (ltb 64 n) && not (a.iocp == 0) && a.socket_made && a.bound && a.listens
        then runs server_ready n
        else if not (ltb 64 n) && a.iocp == 0
        then returns_false
        else exits)
unfolding run create_listen_socket
run-runs n a = ground arith

-- What a round of the accept thread finds: `_shutdown`; the socket, `none` for SOCKET_ERROR; the
-- status when an error is looked at, and at the end of the round.
pub record Round : Type 0 where
  pub shutdown : Bool
  pub accepted : Option ℕ
  pub status : ServerStatus
  pub status_after : ServerStatus

abbrev pub is_stop : ServerStatus → Bool
is_stop server_stop = true
is_stop server_initialize = false
is_stop server_ready = false

abbrev pub is_ready : ServerStatus → Bool
is_ready server_stop = false
is_ready server_initialize = false
is_ready server_ready = true

abbrev pub is_error : Option ℕ → Bool
is_error none = true
is_error (some s) = false

-- The sockets that are passed to `OnAccept`. (`!server->Status () == SERVER_STOP` holds where the
-- status is not SERVER_STOP.)
unfoldable pub accept_thread : List Round → List (Option ℕ)
accept_thread [] = []
accept_thread (r ∷ rs) =
    let rest = accept_thread rs in
    if r.shutdown
    then []
    else if is_error r.accepted && not (is_stop r.status)
    then []
    else if is_ready r.status_after
    then r.accepted ∷ rest
    else r.accepted ∷ []

-- While the server is ready and does not shut down: these sockets came, one after another.
abbrev pub serving : List ℕ → List Round
serving [] = []
serving (s ∷ ss) =
    record {
      shutdown = false;
      accepted = some s;
      status = server_ready;
      status_after = server_ready;
    }
    ∷ serving ss

abbrev pub somes : List ℕ → List (Option ℕ)
somes [] = []
somes (s ∷ ss) = some s ∷ somes ss

-- A server that is ready passes the sockets that come to `OnAccept`, in order; a round at whose end it
-- is not ready still passes its socket on, and none after it. (`Run` starts the accept thread before
-- it sets SERVER_READY.)
pub accept_thread-stops :
    (ss : List ℕ) (r : Round) (s : ℕ) (rs : List Round)
    → r.shutdown ≡ false
    → r.accepted ≡ some s
    → is_ready r.status_after ≡ false
    → accept_thread (serving ss ++ (r ∷ rs)) ≡ somes ss ++ (some s ∷ [])
unfolding accept_thread
accept_thread-stops [] r s rs d e n = rw (n, d, e) refl
accept_thread-stops (t ∷ ss) r s rs d e n = rw (accept_thread-stops ss r s rs d e n) refl

-- A server that is ready passes the sockets that come to `OnAccept`, in order, and none after the
-- shutdown or after a failure of `WSAAccept` while the status is not SERVER_STOP.
pub accept_thread-serves :
    (ss : List ℕ) (r : Round) (rs : List Round)
    → (r.shutdown ≡ true) ⊎ ((r.accepted ≡ none) × (is_stop r.status ≡ false))
    → accept_thread (serving ss ++ (r ∷ rs)) ≡ somes ss
unfolding accept_thread
accept_thread-serves [] r rs e = ground arith
accept_thread-serves (t ∷ ss) r rs e = rw (accept_thread-serves ss r rs e) refl

-- The loop of `Run` over the console, for the lines that are read and whether `_shutdown` is set before
-- each: the commands that are called.
unfoldable pub console_loop : List (List ℕ × ℕ) → List (Bool × List ℕ) → List (ℕ × List ℕ)
unfolding run_command
console_loop table [] = []
console_loop table ((shutdown, line) ∷ lines) =
    let rest = console_loop table lines in
    if shutdown then [] else elim (run_command table line) [ none ↦ rest | some call ↦ call ∷ rest ]

-- `~IOCPServer`, and the destructor of its base class behind it.
unfoldable pub destroy_iocp_server : (listen_socket contents : ℕ) → Server → Server × List Closing
unfolding destroy_server
destroy_iocp_server listen_socket contents s =
    let (t, closing) = destroy_server contents s in
    (t, closes_listen_socket listen_socket ∷ closing)

-- `CommandFuncInitialize` leaves the table of commands empty, so no line of the console calls anything.
pub console_loop-no_commands : (lines : List (Bool × List ℕ)) → console_loop [] lines ≡ []
unfolding console_loop
console_loop-no_commands [] = refl
console_loop-no_commands ((true, line) ∷ lines) = refl
console_loop-no_commands ((false, line) ∷ lines) = console_loop-no_commands lines

-- A server that has been destroyed serves no more: its accept thread, if it still runs, ends after the
-- round in which it is.
pub destroy_iocp_server-stops :
    (listen_socket contents : ℕ) (s : Server) (r : Round) (rs : List Round)
    → r.status_after ≡ (destroy_iocp_server listen_socket contents s).0.status
    → length (accept_thread (r ∷ rs)) ≤ 1
unfolding destroy_iocp_server accept_thread
destroy_iocp_server-stops listen_socket contents s r rs e =
    let stopped : is_ready r.status_after ≡ false = ap is_ready e in ground (arith, stopped)
