-- ===== src/IocpServer/Directory.antt =====
-- IOCPServer.cpp, SessionManager.cpp and SessionMonitor.cpp together, seen through `GetSession`: what each
-- handler does to the directory of sessions.
use iocp_chat_server.Base.{
  ℕ, suc, ◌+◌, ◌^◌, ◌<◌, ◌≡◌, sym, ◌∙◌, ◌⊎◌, inl, inr, List, arith, Option, subst,
}
use iocp_chat_server.Network.{PacketObfuscation, Winsock}
use iocp_chat_server.SessionManager.Memory.{
  World, Outcome, Outcome-cases, done, fault, ◌>>=◌, use_after_free,
}
use iocp_chat_server.SessionManager.Reaping.{tick-Reaped, Reaped, expired_at}
use iocp_chat_server.SessionManager.Changes.{Sound}
use iocp_chat_server.SessionManager.Frame.{Identified}
use iocp_chat_server.SessionManager.Directory.{Directory, directory, sweep, directory-Reaped}
use iocp_chat_server.IocpServer.Ends.{on_accept-Ends}
use iocp_chat_server.IocpServer.Sound.{Stale-cases, unlisted_free}
use iocp_chat_server.IocpServer.Receipts.{windows_receives-Changes}
use iocp_chat_server.IocpServer.Worker.{worker_step}
use iocp_chat_server.IocpServer.Worker.Safety.{worker_step-Changes, worker_step-stale, Changes-then}
use iocp_chat_server.IocpServer.Identifiers.{
  happened, Grows-Identified, perform-Grows, Reachable-Identified,
}
use iocp_chat_server.IocpServer.History.{
  Happening, accepts, completes, receives, reaps, Admitted, Fails, perform, Reachable,
  perform-Reachable,
}
use iocp_chat_server.IocpServer.Entries.{
  Joins, Handled, Same-directory, Serves-Joins, Changes-directory,
}

-- What may become of the directory: a connection leaves it or joins it, under the next identifier; a
-- completion leaves all but the session that it names, and of that one the base object, unless it closes
-- it; a round of the monitor sweeps it.
abbrev pub Meets : Happening → World → Directory → Directory → Type 0
Meets (accepts a accepter address) w d d' =
    ((j : ℕ) → d' j ≡ d j) ⊎ Joins accepter w.session_seed d d'
Meets (completes c) w d d' = (j : ℕ) → (d' j ≡ d j) ⊎ Handled c.session j w d'
Meets (receives p bytes) w d d' = (j : ℕ) → (d' j ≡ d j) ⊎ Handled p j w d'
Meets (reaps now) w d d' = (j : ℕ) → d' j ≡ sweep now d j

done-world : {w w' : World} → done tt w ≡ done tt w' → w ≡ w'
done-world e = cc

-- What a handler ends with.
abbrev pub MeetsOrFails : Happening → World → Outcome (Unit {0}) → Type 0
MeetsOrFails h w (done t w') = Meets h w (directory w) (directory w')
MeetsOrFails h w (fault e) = Fails h w e

module _ (net : Winsock) (o : PacketObfuscation) (analyzer : List ℕ → Option ℕ) (fuel : ℕ) where
  perform-Meets :
      (h : Happening) (w w' : World)
      → Sound w
      → Sound w'
      → Identified w
      → Identified w'
      → Admitted h w
      → perform net o analyzer fuel h w ≡ done tt w'
      → Meets h w (directory w) (directory w')
  unfolding perform
  perform-Meets (accepts a accepter address) w w' i i' d d' free e =
      elim (rw e at (on_accept-Ends net fuel a accepter address w i.inv free)) [
        | inl same ↦ inl (Same-directory i.inv i'.inv d d' same)
        | inr serves ↦ inr (Serves-Joins i.inv i'.inv d d' serves free)
      ]
  perform-Meets (completes c) w w' i i' d d' free e = elim (Stale-cases c w) [
    | inl stale ↦
        let freed =
          worker_step-stale net o analyzer (suc (suc fuel)) c w stale.0 stale.1
            (unlisted_free c.session w i.owned stale.2) in
        let clash : fault use_after_free ≡ done tt w' = rw (freed, ◌>>=◌) at e in absurd cc
    | inr known ↦
        let changes =
          Changes-then c.session (worker_step net o analyzer (suc (suc fuel)) c) tt w
            (worker_step-Changes net o analyzer fuel c w i.inv known) in
        λ j. Changes-directory i.inv i'.inv d d' c.session j i.owned (rw e at changes)
  ]
  perform-Meets (receives p bytes) w w' i i' d d' free e =
      let changes = windows_receives-Changes p bytes w i in
      λ j. Changes-directory i.inv i'.inv d d' p j i.owned (rw e at changes)
  perform-Meets (reaps now) w w' i i' d d' free e =
      let r = tick-Reaped fuel now w i.inv in
      let same : r.0 ≡ w' = done-world (sym r.1 ∙ e) in
      directory-Reaped now w w' i.inv d d'
        (subst (λ (v : World). Reaped (expired_at now) w.session_list w v) same r.2)

-- With the provisions of `perform-Reachable`, after fewer than 2^64 - 2 connections, receipts of bytes,
-- completions and rounds of the monitor, and seen through `GetSession`: a connection that is accepted either leaves the
-- sessions as they are, or puts a session with its socket under the next identifier, where no session
-- was, and leaves the others; a completion, as well as bytes that are received, leaves every session but the one that it names, and either
-- closes that one or leaves its socket, address, identifier, type and heart beat; a round of the monitor
-- takes out exactly the expired client sessions. Or it ends with one of the faults of `Fails`.
pub perform-directory :
    {net : Winsock} {o : PacketObfuscation} {analyzer : List ℕ → Option ℕ} {fuel : ℕ} {w : World}
    (r : Reachable net o analyzer fuel w) (h : Happening)
    → happened r + 2 < 2 ^ 64
    → Admitted h w
    → MeetsOrFails h w (perform net o analyzer fuel h w)
perform-directory {net} {o} {analyzer} {fuel} {w} r h k free =
    let (i, ends) = perform-Reachable net o analyzer fuel h w r free in
    let before = Reachable-Identified r (omega (arith, k)) in
    elim (Outcome-cases (perform net o analyzer fuel h w)) [
      | inl (t, w', e) ↦
          let grows = rw e at (perform-Grows net o analyzer fuel h w i free) in
          let next = Grows-Identified grows (happened r) k before in
          rw e (perform-Meets net o analyzer fuel h w w' i (rw e at ends) before.1 next.1 free e)
      | inr (x, e) ↦ rw e (rw e at ends)
    ]
