-- ===== src/Examples/Steps.antt =====
-- IOCPServer.cpp: what its threads do one after the other to a server that holds sessions.
use iocp_chat_server.Base.{[], ◌∷◌, ◌≡◌, refl, none, some, true, arith, List, ℕ, Option}
use iocp_chat_server.SessionManager.Memory.{fault, use_after_free, ◌>>◌, ◌>>=◌}
use iocp_chat_server.SessionManager.{contains, tick, is_expired, check_each, make}
use iocp_chat_server.Session
use iocp_chat_server.Network.IocpSession
use iocp_chat_server.IocpServer.Worker.{Completion, worker_step, reading}
use iocp_chat_server.IocpServer.Identifiers.{happened}
use iocp_chat_server.IocpServer.History.{accepts, completes, receives, perform}
use iocp_chat_server.SessionManager.Changes.{Sound}
use iocp_chat_server.IocpServer.Sound.{SoundOr}
use iocp_chat_server.IocpServer.Interleavings.{
  Round, Interleaved, starts, later, handles, copies, turn, TurnFails, turn-Interleaved,
}
use iocp_chat_server.IocpServer.Directory.{MeetsOrFails, perform-directory}
use iocp_chat_server.IocpServer.Races.{
  tick-worker_step, worker_step-worker_step, worker_step-check_each,
}
use iocp_chat_server.Examples.Sessions.{
  quiet, plain, client, two_sessions, two_sessions-Inv, answers, received, served, filled,
  filled_reached, filled_lem, served_lem, packet_bytes, analyzer,
}

perform-directory_example :
    MeetsOrFails
      (completes (received 20))
      filled
      (perform quiet plain analyzer 0 (completes (received 20)) filled)
unfolding happened filled_reached
perform-directory_example =
    perform-directory filled_reached (completes (received 20)) (omega arith) tt

tick-worker_step_example :
    (do tick 2 40005; worker_step quiet plain (λ b. none) 2 (received 5)) two_sessions
    ≡ fault use_after_free
unfolding contains is_expired IocpSession.make Session.make
tick-worker_step_example =
    tick-worker_step quiet plain (λ b. none) 0 (received 5) (client 50 1 10) two_sessions
      two_sessions-Inv refl refl refl 40005 refl

-- The client of the session at 9 has ended its connection.
abbrev ended : Completion
ended = record { ret = true; session = 9; transfer_size = 0; io_data = reading }

worker_step-worker_step_example :
    (do
      worker_step quiet plain (λ b. none) 2 ended
      worker_step quiet plain (λ b. none) 2 (received 9))
      two_sessions
    ≡ fault use_after_free
unfolding contains
worker_step-worker_step_example =
    worker_step-worker_step quiet plain (λ b. none) 0 (received 9) (client 90 2 40000) two_sessions
      two_sessions-Inv refl refl refl ended refl refl refl

abbrev one : List ℕ → Option ℕ
one b = some 1

-- The monitor has copied the list, and comes to the session at 9.
worker_step-check_each_example :
    (do worker_step quiet plain (λ b. none) 2 ended; check_each 2 40005 (9 ∷ [])) two_sessions
    ≡ fault use_after_free
unfolding contains
worker_step-check_each_example =
    worker_step-check_each quiet plain (λ b. none) 0 40005 ended (client 90 2 40000) [] two_sessions
      two_sessions-Inv refl refl refl refl

-- The monitor has checked no session yet when eight bytes come for the new one.
began :
    Interleaved quiet plain analyzer 0 (record { now = 40010; rest = served.0.session_list }) filled
unfolding make turn
began =
    let idle : Round = record { now = 0; rest = [] } in
    let copied : Round = record { now = 40010; rest = served.0.session_list } in
    later {r = copied} {r' = copied} {w = served.0} (handles (receives 20 packet_bytes))
      (later {r = idle} (copies 40010)
        (later {r' = idle} (handles (accepts (answers 0 8) 70 1)) (starts 3) refl
          (rw (served_lem, ◌>>=◌) refl))
        refl refl)
      tt (rw (filled_lem, ◌>>=◌) refl)

-- A worker gets the completion of these bytes.
turn-Interleaved_example :
    Sound filled
    × SoundOr
        (TurnFails
          (handles (completes (received 20)))
          (record { now = 40010; rest = served.0.session_list })
          filled)
        (turn quiet plain analyzer 0
          (handles (completes (received 20)))
          (record { now = 40010; rest = served.0.session_list })
          filled)
turn-Interleaved_example = turn-Interleaved began (handles (completes (received 20))) tt
