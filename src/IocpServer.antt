-- ===== src/IocpServer.antt =====
-- IOCPServer.cpp: what the accept thread and the worker threads do with the sessions. A step runs to
-- its end before another one starts, but in `Interleavings` and `Workers`.
pub mod Accept
pub mod Serve
pub mod Worker
pub mod Start
pub mod Ends
pub mod Sound
pub mod History
pub mod Races
pub mod Interleavings
pub mod Identifiers
pub mod Entries
pub mod Directory
pub mod Packets
pub mod Receipts
pub mod Workers
use iocp_chat_server.Base.{ℕ, List, [], ◌∷◌, ◌==◌, if◌then◌else◌}
use iocp_chat_server.Session
use iocp_chat_server.Session.{Session}
use iocp_chat_server.Network.{Winsock}
use iocp_chat_server.Network.IoData.{clear}
use iocp_chat_server.Network.IocpSession.{IocpSession, Event, recv_stand_by}
use iocp_chat_server.Network.IocpSession
use iocp_chat_server.SessionManager.Memory.{
  Pointer, M, done, ◌>>=◌, ◌>>◌, load, store, emit, socket_io, associates, logs_accept,
  logs_accept_fail,
}
use iocp_chat_server.SessionManager.{add_session, close_session, destroy}

-- What the run-time system and Windows answer while a connection is accepted.
pub record Accepting : Type 0 where
  pub pointer : Pointer  -- of `new IOCPSession ()`
  pub memory : Session  -- what that storage held
  pub now : ℕ  -- CLOCK.SystemTick ()
  pub ioctl : ℕ  -- WSAIoctl (…)
  pub handle : ℕ  -- CreateIoCompletionPort (…), 0 for NULL

unfoldable pub emit_all : Pointer → List Event → M (Unit {0})
unfolding emit
emit_all p [] w = done tt w
emit_all p (e ∷ es) w = let rest = emit_all p es in (do emit (socket_io p e); rest) w

-- `SAFE_DELETE (session)`
unfoldable pub safe_delete : ℕ → Pointer → M (Unit {0})
unfolding destroy
safe_delete fuel p w = if p == 0 then done tt w else destroy (close_session fuel) p w

module _ (net : Winsock) (fuel : ℕ) where
  unfoldable pub start_recv : Pointer → M (Unit {0})
  unfolding load store emit_all
  start_recv p w =
      (do s ← load p; store p (recv_stand_by net s).0; emit_all p (recv_stand_by net s).1) w

  -- From `ioData_[IO_READ].clear ()` on.
  unfoldable pub associate : Accepting → Pointer → M (Unit {0})
  unfolding load store emit
  associate a p w =
      let failed = safe_delete fuel p in
      let started : M (Unit {0}) = (do emit (associates p); emit (logs_accept p); start_recv p) in
      (do
        s ← load p
        store p (record s { read = clear s.read })
        if a.handle == 0 then failed else started)
        w

  unfoldable pub register : Accepting → Pointer → M (Unit {0})
  register a p w = (do b ← add_session p; if b then associate a p else safe_delete fuel p) w

  -- `OnAccept (accepter, addrInfo)`
  unfoldable pub on_accept : Accepting → ℕ → ℕ → M (Unit {0})
  unfolding load store emit
  on_accept a accepter address w =
      let p = a.pointer in
      let made = IocpSession.make a.memory a.now in
      let (base, ok) = Session.on_accept made.session accepter address a.ioctl in
      let accepted = (do
        store p (record made { session = base })
        if ok then register a p else safe_delete fuel p) in
      if p == 0 then emit logs_accept_fail w else accepted w
