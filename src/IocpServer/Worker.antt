-- ===== src/IocpServer/Worker.antt =====
-- IOCPServer.cpp, `WorkerThread`: what a worker does with each completion.
pub mod Safety
use iocp_chat_server.Base.{ℕ, Option, Bool, true, false, List, [], ◌∷◌, ◌==◌, if◌then◌else◌}
use iocp_chat_server.Network.{PacketObfuscation, Winsock}
use iocp_chat_server.Network.IoData.{IoOperation, io_read, io_write, io_error}
use iocp_chat_server.Network.IocpSession.{
  IocpSession, Received, needs_more, packaged, invalid_packet, overreads, on_recv, on_send,
}
use iocp_chat_server.SessionManager.Memory.{
  Pointer, M, done, fault, out_of_bounds, pure, ◌>>=◌, ◌>>◌, load, store, emit, puts_package,
  logs_close, logs_broken,
}
use iocp_chat_server.SessionManager.{close_session, on_close}
use iocp_chat_server.IocpServer.{emit_all}

-- Which of a session's two `IoData` the completion names.
pub data Slot : Type 0 where
  reading writing : Slot

-- What `GetQueuedCompletionStatus` returns and stores.
pub record Completion : Type 0 where
  pub ret : Bool
  pub session : Pointer
  pub transfer_size : ℕ
  pub io_data : Slot

-- `ioData->Type ()`
abbrev pub type_of : IocpSession → Slot → IoOperation
type_of s reading = s.read.io_type
type_of s writing = s.write.io_type

module _ (net : Winsock) (o : PacketObfuscation) (analyzer : List ℕ → Option ℕ) (fuel : ℕ) where
  -- What becomes of the result of `OnRecv`: `PutPackage`, and `OnClose (true)` on an invalid packet.
  unfoldable pub take_received : Pointer → Received ℕ → M (Unit {0})
  unfolding emit
  take_received p needs_more w = done tt w
  take_received p (packaged packet) w = emit (puts_package p packet) w
  take_received p invalid_packet w = on_close fuel p true w
  take_received p overreads w = fault out_of_bounds

  -- The `switch` on the type.
  unfoldable pub dispatch : IoOperation → Pointer → IocpSession → ℕ → M (Unit {0})
  unfolding load store emit
  dispatch io_write p s n w =
      let (t, events) = on_send net s n in (do store p t; emit_all p events) w
  dispatch io_read p s n w =
      let (t, events, received) = on_recv net o analyzer s n in
      (do store p t; emit_all p events; take_received p received) w
  dispatch io_error p s n w = (do emit (logs_close p); close_session fuel p; pure tt) w

  -- One round of the loop; false if the thread ends.
  unfoldable pub worker_step : Completion → M Bool
  unfolding load emit
  worker_step c w =
      let p = c.session in
      let closed : M Bool = (do load p; emit (logs_close p); close_session fuel p; pure true) in
      let served : M Bool = (do
        s ← load p
        dispatch (type_of s c.io_data) p s c.transfer_size
        pure true) in
      if c.ret
      then if p == 0
        then (do emit logs_broken; pure false) w
        else if c.transfer_size == 0
        then closed w
        else served w
      else done true w

  -- The loop over the completions that arrive before the shutdown.
  unfoldable pub worker_thread : List Completion → M (Unit {0})
  worker_thread [] w = done tt w
  worker_thread (c ∷ cs) w =
      let rest = worker_thread cs in (do more ← worker_step c; if more then rest else pure tt) w
