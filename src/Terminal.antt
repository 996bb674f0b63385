-- ===== src/Terminal.antt =====
-- Terminal.cpp: the thread that keeps the connection to another server.
pub mod Status
pub mod Manager
use iocp_chat_server.Base.{
  ℕ, ◌+◌, Bool, true, false, List, [], ◌∷◌, ◌++◌, Option, none, some, if◌then◌else◌,
}

pub data TerminalStatus : Type 0 where
  terminal_stop terminal_ready : TerminalStatus

-- Where `ConnectProcess` stands, with `tryCount`.
pub data Place : Type 0 where
  connecting : ℕ → Place
  serving : Place
  ended : Place

pub record Terminal : Type 0 where
  pub status : TerminalStatus
  pub place : Place

-- `~Terminal`
unfoldable pub destroy_terminal : Terminal → Terminal
destroy_terminal t = record t { status = terminal_stop }

-- What the thread finds at its next check: `_shutdown` is set; or what `ConnectTo` answers, or what
-- `OnRecv` returns, a package by its number. Each place takes the answer that it asks for.
pub record Finds : Type 0 where
  pub shutdown : Bool
  pub connected : Bool
  pub received : Option ℕ

pub data Effect : Type 0 where
  logs_try : ℕ → Effect
  sends_packet : Effect
  puts_package : ℕ → Effect
  closes_session : Effect

-- `SendPacket`
unfoldable pub send_packet : TerminalStatus → List Effect
send_packet terminal_stop = []
send_packet terminal_ready = sends_packet ∷ []

-- The lines behind the first loop.
abbrev pub ready : Bool → Terminal → Terminal × List Effect
ready ends t = (
  record t { status = terminal_ready; place = if ends then ended else serving },
  send_packet terminal_ready,
)

unfoldable pub step : Terminal → Finds → Terminal × List Effect
unfolding send_packet
step t f = elim t.place [
  | connecting tries ↦
      if f.shutdown
      then ready true t
      else if f.connected
      then ready false t
      else (record t { place = connecting (tries + 1) }, logs_try tries ∷ [])
  | serving ↦ if f.shutdown then (record t { place = ended }, []) else elim f.received [
    | none ↦ (record t { place = connecting 0 }, closes_session ∷ [])
    | some p ↦ (t, puts_package p ∷ [])
  ]
  | ended ↦ (t, [])
]

unfoldable pub connect_process : Terminal → List Finds → Terminal × List Effect
connect_process t [] = (t, [])
connect_process t (f ∷ fs) =
    let (u, effects) = step t f in let (v, more) = connect_process u fs in (v, effects ++ more)
