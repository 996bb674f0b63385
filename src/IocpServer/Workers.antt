-- ===== src/IocpServer/Workers.antt =====
-- IOCPServer.cpp, `WorkerThread` on several workers: `OnRecv` lets the session receive again before it
-- returns the package, so another worker may take the next completion before the package is put.
pub mod Agreement
pub mod Streams
use iocp_chat_server.Base.{
  ℕ, zero, suc, ◌≡◌, ◌≢◌, refl, ap, ◌∙◌, none, some, true, false, List, [], ◌∷◌, ◌==◌, arith, ◌<◌,
  Option, length,
}
use iocp_chat_server.Network.{PacketObfuscation, Winsock}
use iocp_chat_server.Network.IoData.{io_read, IoOperation}
use iocp_chat_server.Network.IocpSession.{
  IocpSession, Received, needs_more, packaged, invalid_packet, overreads, on_recv,
}
use iocp_chat_server.Network.IocpSession.Reassembly.{deliver}
use iocp_chat_server.SessionManager.Memory.{
  Pointer, World, M, done, pure, ◌>>=◌, ◌>>◌, load, load_at, store, update,
}
use iocp_chat_server.IocpServer.{emit_all}
use iocp_chat_server.IocpServer.Serve.{logged, emit_all_lem}
use iocp_chat_server.IocpServer.Worker.{take_received, worker_step, dispatch}
use iocp_chat_server.IocpServer.Packets.{packages, Fine, arrives, deliver-type}
use iocp_chat_server.IocpServer.Packets.Pieces.{packed}
use iocp_chat_server.IocpServer.Packets.Clients.{Arrivals}

-- What the workers do next: one of them gets a completion, and runs up to the return of `OnRecv`; one of
-- those that have a package puts it, the one at this place among them.
pub data Act : Type 0 where
  receives : Pointer → List ℕ → Act
  puts : ℕ → Act

abbrev pub completions : List Act → Arrivals
completions [] = []
completions (receives p c ∷ acts) = (p, c) ∷ completions acts
completions (puts i ∷ acts) = completions acts

unfoldable pub take_out {ℓ} : {A : Type ℓ} → ℕ → List A → Option (A × List A)
take_out i [] = none
take_out zero (x ∷ xs) = some (x, xs)
take_out (suc i) (x ∷ xs) = elim (take_out i xs) [ none ↦ none | some (y, ys) ↦ some (y, x ∷ ys) ]

module _ (net : Winsock) (o : PacketObfuscation) (analyzer : List ℕ → Option ℕ) (fuel : ℕ) where
  -- Windows puts the bytes into the buffer, and a worker runs `OnRecv`.
  unfoldable pub receive : Pointer → List ℕ → M (Received ℕ)
  unfolding load store
  receive p c w =
      (do
        s ← load p
        store p (deliver s c)
        store p (on_recv net o analyzer (deliver s c) (length c)).0
        emit_all p (on_recv net o analyzer (deliver s c) (length c)).1
        pure (on_recv net o analyzer (deliver s c) (length c)).2)
        w

  -- The worker has the package in its hands, with those of the others; what is no package is dealt with
  -- inside `OnRecv`.
  unfoldable pub hold : Pointer → Received ℕ → List (Pointer × ℕ) → M (List (Pointer × ℕ))
  hold p (packaged k) l w = done ((p, k) ∷ l) w
  hold p needs_more l w = (do take_received net o analyzer fuel p needs_more; pure l) w
  hold p invalid_packet l w = (do take_received net o analyzer fuel p invalid_packet; pure l) w
  hold p overreads l w = (do take_received net o analyzer fuel p overreads; pure l) w

  -- From the packages that are in hands to those that are left in the end.
  unfoldable pub act_each : List Act → List (Pointer × ℕ) → M (List (Pointer × ℕ))
  act_each [] l w = done l w
  act_each (receives p c ∷ acts) l w = (do r ← receive p c; k ← hold p r l; act_each acts k) w
  act_each (puts i ∷ acts) l w = elim (take_out i l) [
    | none ↦ act_each acts l w
    | some ((p, k), rest) ↦
        (do take_received net o analyzer fuel p (packaged k); act_each acts rest) w
  ]

  pub receive-lem :
      (p : Pointer) (c : List ℕ) (s : IocpSession) (w : World)
      → w.heap p ≡ some s
      → let r = on_recv net o analyzer (deliver s c) (length c) in
        receive p c w
        ≡ done r.2 (record w {
          heap = update (update w.heap p (some (deliver s c))) p (some r.0);
          effects = logged p r.1 w.effects;
        })
  unfolding receive
  receive-lem p c s w e = rw (e, ◌>>=◌, load_at, emit_all_lem)

  pub hold-Fine :
      (p : Pointer) (r : Received ℕ) (l : List (Pointer × ℕ)) (w : World)
      → Fine r
      → hold p r l w ≡ done (packed p (r ∷ []) l) w
  unfolding hold packed take_received
  hold-Fine p (packaged k) l w f = refl
  hold-Fine p needs_more l w f = refl
  hold-Fine p invalid_packet l w f = absurd f
  hold-Fine p overreads l w f = absurd f

  dispatch-receive :
      (p : Pointer) (s : IocpSession) (n : ℕ) (w : World)
      → let r = on_recv net o analyzer s n in
        dispatch net o analyzer fuel io_read p s n w
        ≡ take_received net o analyzer fuel p r.2
            (record w { heap = update w.heap p (some r.0); effects = logged p r.1 w.effects })
  unfolding dispatch
  dispatch-receive p s n w =
      let r = on_recv net o analyzer s n in
      rw (emit_all_lem p r.1 (record w { heap = update w.heap p (some r.0) }), ◌>>=◌) refl

  -- Where no other worker comes in between.
  arrives-receive :
      (p : Pointer) (c : List ℕ) (s : IocpSession) (w : World)
      → w.heap p ≡ some s
      → p ≢ 0
      → 0 < length c
      → s.read.io_type ≡ io_read
      → arrives net o analyzer fuel p c w
        ≡ (do r ← receive p c; take_received net o analyzer fuel p r; pure true) w
  unfolding arrives receive worker_step dispatch
  arrives-receive p c s w e n k y =
      let not_null : (p == 0) ≡ false = ground arith in
      let some_bytes : (length c == 0) ≡ false = ground arith in
      let t = deliver s c in
      let reads : t.read.io_type ≡ io_read = deliver-type s c ∙ y in
      let v = record w { heap = update w.heap p (some t) } in
      let one : v.heap p ≡ some t = ground arith in
      let served =
        ap (λ (x : IoOperation). dispatch net o analyzer fuel x p t (length c) v) reads
        ∙ dispatch-receive p t (length c) v in
      rw (e, ◌>>=◌, load_at, not_null, some_bytes, one, served, emit_all_lem) refl
