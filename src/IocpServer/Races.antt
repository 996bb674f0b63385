-- ===== src/IocpServer/Races.antt =====
-- IOCPServer.cpp and SessionMonitor.cpp: a session that one thread closes while another has a completion
-- for it in its hands. Nothing counts the operations of a session that are under way.
use iocp_chat_server.Base.{
  ℕ, suc, ◌≡◌, ◌≢◌, refl, sym, ap, ◌∙◌, none, some, true, List, Option, arith, ◌∷◌, ◌&&◌,
}
use iocp_chat_server.Network.{PacketObfuscation, Winsock}
use iocp_chat_server.Network.IocpSession.{IocpSession}
use iocp_chat_server.SessionManager.Memory.{
  Pointer, World, fault, use_after_free, ◌>>=◌, ◌>>◌, logs_close,
}
use iocp_chat_server.SessionManager.{contains, tick, is_expired, check_each}
use iocp_chat_server.SessionManager.Close.{without}
use iocp_chat_server.SessionManager.Invariant.{Inv, Live-load}
use iocp_chat_server.SessionManager.Reaping.{tick-Reaped, expired_at, check_each-gone}
use iocp_chat_server.IocpServer.Worker.{Completion, worker_step}
use iocp_chat_server.IocpServer.Worker.Safety.{worker_step-stale, worker_step-ended}

module _ (net : Winsock) (o : PacketObfuscation) (analyzer : List ℕ → Option ℕ) (fuel : ℕ)
    (c : Completion) (s : IocpSession) (w : World) (i : Inv w) (ok : c.ret ≡ true)
    (listed : contains c.session w.session_list ≡ true) (there : w.heap c.session ≡ some s) where
  not_null : c.session ≢ 0
  not_null = (Live-load w.heap c.session w.session_list i.live listed).2

  -- The table is well formed, and a worker has a successful completion for a listed client session that
  -- has been silent for too long. If the monitor makes its round before the worker goes on, the worker
  -- uses the freed session.
  pub tick-worker_step :
      (now : ℕ)
      → is_expired now s ≡ true
      → (do tick (suc (suc fuel)) now; worker_step net o analyzer (suc (suc fuel)) c) w
        ≡ fault use_after_free
  tick-worker_step now x =
      let r = tick-Reaped fuel now w i in
      let doomed : (contains c.session w.session_list && expired_at now (w.heap c.session)) ≡ true =
        rw (listed, there, x) refl in
      let gone : r.0.heap c.session ≡ none = r.2.memory c.session ∙ rw doomed refl in
      rw (r.1, ◌>>=◌) (worker_step-stale net o analyzer (suc (suc fuel)) c r.0 ok not_null gone)

  -- The table is well formed, and two workers have successful completions for the same listed session,
  -- one of them of no bytes: the worker that has this one closes the session, and if it goes first, the
  -- other worker uses the freed session.
  pub worker_step-worker_step :
      (ended : Completion)
      → ended.ret ≡ true
      → ended.session ≡ c.session
      → ended.transfer_size ≡ 0
      → (do
        worker_step net o analyzer (suc (suc fuel)) ended
        worker_step net o analyzer (suc (suc fuel)) c)
          w
        ≡ fault use_after_free
  unfolding without
  worker_step-worker_step ended good same empty =
      let closed =
        without ended.session s (record w { effects = logs_close ended.session ∷ w.effects }) in
      let first =
        worker_step-ended net o analyzer fuel ended s w good (λ e. not_null (sym same ∙ e)) empty
          (ap (λ (q : Pointer). contains q w.session_list) same ∙ listed)
          (ap w.heap same ∙ there) in
      rw (first, ◌>>=◌)
        (worker_step-stale net o analyzer (suc (suc fuel)) c closed ok not_null (ground arith))

-- The table is well formed, and the monitor has copied the list and is about to come to a session, for
-- which a worker has a successful completion of no bytes: if the worker goes first, it closes the
-- session, and the monitor uses it, whatever the time and the rest of the copy.
pub worker_step-check_each :
    (net : Winsock) (o : PacketObfuscation) (analyzer : List ℕ → Option ℕ) (fuel now : ℕ)
    (ended : Completion) (s : IocpSession) (ps : List Pointer) (w : World)
    → Inv w
    → ended.ret ≡ true
    → ended.transfer_size ≡ 0
    → contains ended.session w.session_list ≡ true
    → w.heap ended.session ≡ some s
    → (do
      worker_step net o analyzer (suc (suc fuel)) ended
      check_each (suc (suc fuel)) now (ended.session ∷ ps))
        w
      ≡ fault use_after_free
unfolding without
worker_step-check_each net o analyzer fuel now ended s ps w i good empty listed there =
    let p = ended.session in
    let not_null = (Live-load w.heap p w.session_list i.live listed).2 in
    let closed = without p s (record w { effects = logs_close p ∷ w.effects }) in
    rw (worker_step-ended net o analyzer fuel ended s w good not_null empty listed there, ◌>>=◌)
      (check_each-gone (suc (suc fuel)) now p ps closed (ground arith))
