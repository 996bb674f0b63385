-- ===== src/IocpServer/History.antt =====
-- IOCPServer.cpp and SessionMonitor.cpp together: whatever connections, completions and rounds of the
-- monitor follow one another.
use iocp_chat_server.Base.{ℕ, suc, ◌≡◌, refl, ◌⊎◌, inl, inr, none, List, Option}
use iocp_chat_server.Base.Int.{pos}
use iocp_chat_server.Network.{PacketObfuscation, Winsock}
use iocp_chat_server.SessionManager.Memory.{
  Pointer, World, M, Fault, Outcome, done, fault, pure, ◌>>=◌, ◌>>◌, Outcome-cases, out_of_bounds,
  use_after_free, double_free,
}
use iocp_chat_server.SessionManager.{make, tick}
use iocp_chat_server.SessionManager.Changes.{Sound, make-Sound, Changes-Sound, ChangesOrOverreads}
use iocp_chat_server.IocpServer.{Accepting, on_accept}
use iocp_chat_server.IocpServer.Worker.{Completion, worker_step}
use iocp_chat_server.IocpServer.Receipts.{windows_receives, windows_receives-Changes}
use iocp_chat_server.IocpServer.Sound.{
  SoundOr, Stale, on_accept-Sound, worker_step-Sound, tick-Sound,
}

-- What the accept thread, a worker, the monitor, and Windows with bytes for a session do next.
pub data Happening : Type 0 where
  accepts : Accepting → (accepter address : ℕ) → Happening
  completes : Completion → Happening
  receives : Pointer → List ℕ → Happening
  reaps : (now : ℕ) → Happening

-- `new` gives memory that is free.
abbrev pub Admitted : Happening → World → Type 0
Admitted (accepts a accepter address) w = w.heap a.pointer ≡ none
Admitted (completes c) w = Unit {0}
Admitted (receives p bytes) w = Unit {0}
Admitted (reaps now) w = Unit {0}

-- The faults that can come, and where: Windows does not associate the socket of a new session; a
-- completion is read out of bounds, or its session has been freed; a receive is to end past the array.
-- The monitor meets none.
abbrev pub Fails : Happening → World → Fault → Type 0
Fails (accepts a accepter address) w e = (e ≡ double_free) × (a.handle ≡ 0)
Fails (completes c) w e = (e ≡ out_of_bounds) ⊎ ((e ≡ use_after_free) × Stale c w)
Fails (receives p bytes) w e = e ≡ out_of_bounds
Fails (reaps now) w e = ⊥

pub SoundOr-then :
    {A B : Type 0} (P : Fault → Type 0) (m : M A) (b : B) (w : World)
    → SoundOr P (m w)
    → SoundOr P ((do m; pure b) w)
SoundOr-then P m b w k = elim (Outcome-cases (m w)) [
  | inl (a, w', e) ↦ rw (e, ◌>>=◌) (rw e at k)
  | inr (x, e) ↦ rw (e, ◌>>=◌) (rw e at k)
]

SoundOr-weaken :
    {A : Type 0} (P Q : Fault → Type 0) (r : Outcome A)
    → ((e : Fault) → P e → Q e)
    → SoundOr P r
    → SoundOr Q r
SoundOr-weaken P Q (done a w) h k = k
SoundOr-weaken P Q (fault e) h k = h e k

ChangesOrOverreads-Sound :
    {A : Type 0} (p : Pointer) (w : World) (r : Outcome A)
    → Sound w
    → ChangesOrOverreads p w r
    → SoundOr (λ e. e ≡ out_of_bounds) r
ChangesOrOverreads-Sound p w (done a w') i c = Changes-Sound c i
ChangesOrOverreads-Sound p w (fault e) i c = c

module _ (net : Winsock) (o : PacketObfuscation) (analyzer : List ℕ → Option ℕ) (fuel : ℕ) where
  unfoldable pub perform : Happening → M (Unit {0})
  perform (accepts a accepter address) w = on_accept net (suc (suc fuel)) a accepter address w
  perform (completes c) w = (do worker_step net o analyzer (suc (suc fuel)) c; pure tt) w
  perform (receives p bytes) w = windows_receives p bytes w
  perform (reaps now) w = tick (suc (suc fuel)) now w

  pub perform-Sound :
      (h : Happening) (w : World) → Sound w → Admitted h w → SoundOr (Fails h w) (perform h w)
  unfolding perform
  perform-Sound (accepts a accepter address) w i d =
      on_accept-Sound net fuel w i a accepter address d
  perform-Sound (completes c) w i d =
      SoundOr-then (Fails (completes c) w) (worker_step net o analyzer (suc (suc fuel)) c) tt w
        (elim (worker_step-Sound net fuel w i o analyzer c) [
          | inl (stale, e) ↦ rw e (inr (refl, stale))
          | inr k ↦
              SoundOr-weaken (λ e. e ≡ out_of_bounds) (Fails (completes c) w)
                (worker_step net o analyzer (suc (suc fuel)) c w) (λ e x. inl x) k
        ])
  perform-Sound (receives p bytes) w i d =
      ChangesOrOverreads-Sound p w (windows_receives p bytes w) i
        (windows_receives-Changes p bytes w i)
  perform-Sound (reaps now) w i d =
      SoundOr-weaken (λ e. ⊥) (Fails (reaps now) w) (tick (suc (suc fuel)) now w) (λ e x. x)
        (tick-Sound net fuel w i now)

-- The worlds that a server can get to, with room for any number of sessions.
pub data Reachable (net : Winsock) (o : PacketObfuscation) (analyzer : List ℕ → Option ℕ) (fuel : ℕ)
    : World → Type 0 where
  start : (n : ℕ) → Reachable net o analyzer fuel (make (pos n))
  after :
      {w w' : World} (h : Happening)
      → Reachable net o analyzer fuel w
      → Admitted h w
      → perform net o analyzer fuel h w ≡ done tt w'
      → Reachable net o analyzer fuel w'

pub Reachable-Sound :
    {net : Winsock} {o : PacketObfuscation} {analyzer : List ℕ → Option ℕ} {fuel : ℕ} {w : World}
    → Reachable net o analyzer fuel w
    → Sound w
Reachable-Sound (start n) = make-Sound n
Reachable-Sound {net} {o} {analyzer} {fuel} (after {w} {w'} h r d e) =
    rw e at (perform-Sound net o analyzer fuel h w (Reachable-Sound r) d)

-- Provided that `new` gives free memory: after any sequence of accepted connections, bytes that Windows
-- receives where the sessions have told it to, completions, and rounds of the monitor, the session table is well formed, every allocated session is listed, and the
-- buffers have their size. Whatever of these comes next keeps that, or ends with one of the faults of
-- `Fails`.
pub perform-Reachable :
    (net : Winsock) (o : PacketObfuscation) (analyzer : List ℕ → Option ℕ) (fuel : ℕ)
    (h : Happening) (w : World)
    → Reachable net o analyzer fuel w
    → Admitted h w
    → Sound w × SoundOr (Fails h w) (perform net o analyzer fuel h w)
perform-Reachable net o analyzer fuel h w r d =
    (Reachable-Sound r, perform-Sound net o analyzer fuel h w (Reachable-Sound r) d)
