-- ===== src/IocpServer/Worker/Safety.antt =====
-- IOCPServer.cpp, `WorkerThread`: no completion breaks the session table.
use iocp_chat_server.Base.{
  ℕ, suc, ◌≡◌, refl, sym, ◌∙◌, ◌⊎◌, inl, inr, Option, none, some, true, false, List, ◌∷◌, ◌==◌, ◌≢◌,
  arith, Bool-cases,
}
use iocp_chat_server.Network.{PacketObfuscation, Winsock}
use iocp_chat_server.Network.IoData.{IoOperation, io_read, io_write, io_error}
use iocp_chat_server.Network.IocpSession.{
  IocpSession, Received, needs_more, packaged, invalid_packet, overreads, on_recv, on_send,
}
use iocp_chat_server.SessionManager.Memory.{
  Pointer, World, M, Outcome, done, fault, out_of_bounds, use_after_free, pure, ◌>>=◌, ◌>>◌,
  logs_close, update, load_at, Outcome-cases,
}
use iocp_chat_server.SessionManager.{contains, on_close}
use iocp_chat_server.SessionManager.Close.{
  without, close_session-listed, force_close_session-listed,
}
use iocp_chat_server.SessionManager.Changes.{
  logs, writes, closes, and_then, ChangesOrOverreads, Changes-before, Changes-Inv,
}
use iocp_chat_server.Network.IocpSession.Buffers.{
  on_send-Full, on_recv-Full, on_send-session, on_recv-session,
}
use iocp_chat_server.SessionManager.Invariant.{Inv, Live-load}
use iocp_chat_server.IocpServer.Serve.{logged, emit_all_lem}
use iocp_chat_server.IocpServer.Worker.{Completion, take_received, dispatch, worker_step, type_of}

-- The invariant is kept, and the one fault that can happen is a read out of bounds.
abbrev pub KeepsOrOverreads : {A : Type 0} → Outcome A → Type 0
KeepsOrOverreads (done a w) = Inv w
KeepsOrOverreads (fault e) = e ≡ out_of_bounds

-- What a worker does to the table, and to its sessions.
pub Changes-then :
    {A B : Type 0} (p : Pointer) (m : M A) (b : B) (w : World)
    → ChangesOrOverreads p w (m w)
    → ChangesOrOverreads p w ((do m; pure b) w)
Changes-then p m b w k = elim (Outcome-cases (m w)) [
  | inl (a, w', e) ↦ rw (e, ◌>>=◌) (rw e at k)
  | inr (e, f) ↦ rw (f, ◌>>=◌) (rw f at k)
]

module _ (net : Winsock) (o : PacketObfuscation) (analyzer : List ℕ → Option ℕ) (fuel : ℕ) where
  take_received-Changes :
      (p : Pointer) (s : IocpSession) (r : Received ℕ) (w : World)
      → p ≢ 0
      → contains p w.session_list ≡ true
      → w.heap p ≡ some s
      → ChangesOrOverreads p w (take_received net o analyzer (suc (suc fuel)) p r w)
  unfolding take_received on_close
  take_received-Changes p s needs_more w h c e = logs w.effects
  take_received-Changes p s (packaged packet) w h c e = logs _
  take_received-Changes p s invalid_packet w h c e =
      rw (force_close_session-listed fuel p s w h c e) (and_then (logs _) (closes s c e))
  take_received-Changes p s overreads w h c e = refl

  dispatch-Changes :
      (t : IoOperation) (p : Pointer) (s : IocpSession) (n : ℕ) (w : World)
      → p ≢ 0
      → contains p w.session_list ≡ true
      → w.heap p ≡ some s
      → ChangesOrOverreads p w (dispatch net o analyzer (suc (suc fuel)) t p s n w)
  unfolding dispatch
  dispatch-Changes io_write p s n w h c e =
      rw
        (emit_all_lem p (on_send net s n).1
          (record w { heap = update w.heap p (some (on_send net s n).0) }))
        (and_then
          (writes s (on_send net s n).0 c e (on_send-Full net s n)
            (on_send-session net o analyzer s n))
          (logs _))
  dispatch-Changes io_read p s n w h c e =
      let r = on_recv net o analyzer s n in
      let v = record w { heap = update w.heap p (some r.0) } in
      let v' = record v { effects = logged p r.1 v.effects } in
      rw (emit_all_lem p r.1 v, ◌>>=◌)
        (Changes-before (take_received net o analyzer (suc (suc fuel)) p r.2 v')
          (and_then
            (writes s r.0 c e (on_recv-Full net o analyzer s n)
              (on_recv-session net o analyzer s n))
            (logs _))
          (take_received-Changes p r.0 r.2 v' h c (ground arith)))
  dispatch-Changes io_error p s n w h c e =
      let v = record w { effects = logs_close p ∷ w.effects } in
      rw (close_session-listed fuel p s v h c e, ◌>>=◌) (and_then (logs _) (closes s c e))

  -- A completion of no bytes for a listed session: the worker closes it.
  pub worker_step-ended :
      (c : Completion) (s : IocpSession) (w : World)
      → c.ret ≡ true
      → c.session ≢ 0
      → c.transfer_size ≡ 0
      → contains c.session w.session_list ≡ true
      → w.heap c.session ≡ some s
      → worker_step net o analyzer (suc (suc fuel)) c w
        ≡ done true (without c.session s (record w { effects = logs_close c.session ∷ w.effects }))
  unfolding worker_step
  worker_step-ended c s w ok h empty listed e =
      let not_null : (c.session == 0) ≡ false = ground arith in
      let zero_bytes : (c.transfer_size == 0) ≡ true = ground arith in
      let v = record w { effects = logs_close c.session ∷ w.effects } in
      rw (
        ok,
        not_null,
        zero_bytes,
        e,
        ◌>>=◌,
        load_at,
        close_session-listed fuel c.session s v h listed e,
      )

  -- A completion that fails, names no session, or names a listed one.
  pub worker_step-Changes :
      (c : Completion) (w : World)
      → Inv w
      → (c.ret ≡ false) ⊎ ((c.session ≡ 0) ⊎ (contains c.session w.session_list ≡ true))
      → ChangesOrOverreads c.session w (worker_step net o analyzer (suc (suc fuel)) c w)
  unfolding worker_step
  worker_step-Changes c w i known = elim (Bool-cases c.ret) [
    | inr failed ↦ rw failed (logs w.effects)
    | inl ok ↦ elim known [
      | inl failed ↦ let clash : true ≡ false = sym ok ∙ failed in absurd cc
      | inr (inl null) ↦ rw (ok, null) (logs _)
      | inr (inr listed) ↦
          let l = Live-load w.heap c.session w.session_list i.live listed in
          let not_null : (c.session == 0) ≡ false = ground (arith, l.2) in
          elim (Bool-cases (c.transfer_size == 0)) [
            | inl empty ↦
                rw (worker_step-ended c l.0 w ok l.2 (ground arith) listed l.1)
                  (and_then (logs _) (closes l.0 listed l.1))
            | inr full ↦
                rw (ok, not_null, full, l.1, ◌>>=◌, load_at)
                  (Changes-then c.session
                    (dispatch net o analyzer (suc (suc fuel)) (type_of l.0 c.io_data) c.session l.0
                      c.transfer_size)
                    true w
                    (dispatch-Changes (type_of l.0 c.io_data) c.session l.0 c.transfer_size w l.2
                      listed l.1))
          ]
    ]
  ]

  -- A worker's step on a completion that fails, names no session, or names a listed one: the invariant
  -- of the session table is kept, and the only fault that can happen is the read out of bounds of
  -- `OnRecv`.
  pub worker_step-keeps :
      (c : Completion) (w : World)
      → Inv w
      → (c.ret ≡ false) ⊎ ((c.session ≡ 0) ⊎ (contains c.session w.session_list ≡ true))
      → KeepsOrOverreads (worker_step net o analyzer (suc (suc fuel)) c w)
  worker_step-keeps c w i known =
      elim (Outcome-cases (worker_step net o analyzer (suc (suc fuel)) c w)) [
        | inl (a, w', e) ↦ rw e (Changes-Inv (rw e at (worker_step-Changes c w i known)) i)
        | inr (f, e) ↦ rw e (rw e at (worker_step-Changes c w i known))
      ]

  -- A successful completion that names a session which has been freed in the meantime: the worker
  -- uses it.
  pub worker_step-stale :
      (c : Completion) (w : World)
      → c.ret ≡ true
      → c.session ≢ 0
      → w.heap c.session ≡ none
      → worker_step net o analyzer fuel c w ≡ fault use_after_free
  unfolding worker_step
  worker_step-stale c w ok h gone =
      let not_null : (c.session == 0) ≡ false = ground arith in
      elim (Bool-cases (c.transfer_size == 0)) [
        | inl empty ↦ rw (ok, not_null, empty, gone, ◌>>=◌, load_at)
        | inr full ↦ rw (ok, not_null, full, gone, ◌>>=◌, load_at)
      ]
