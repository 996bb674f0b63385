-- ===== src/IocpServer/Packets.antt =====
-- IOCPServer.cpp and IOCPSession.cpp together: the packets that the workers pass on to the server, from
-- the bytes that arrive.
pub mod Pieces
pub mod Stream
pub mod Clients
use iocp_chat_server.Base.{
  ℕ, ◌+◌, ◌<◌, ◌^◌, ◌-◌, ◌≡◌, refl, ap, ◌∙◌, inl, inr, some, Bool, true, false, List, [], ◌∷◌, ◌==◌,
  ◌≢◌, ◌||◌, arith, Bool-cases, Option-cases, Option, length, take, drop,
}
use iocp_chat_server.Base.Machine.{size_t, int32, is_negative}
use iocp_chat_server.Network.{PacketObfuscation, Winsock}
use iocp_chat_server.Network.IoData.{
  io_read, packet_header_size, outside_array, setup_total_bytes, IoData, IoOperation,
}
use iocp_chat_server.Network.IocpSession.{
  IocpSession, Event, Received, needs_more, packaged, invalid_packet, overreads, on_recv,
  is_recving, finish_recv, recv_stand_by,
}
use iocp_chat_server.Network.IocpSession.Reassembly.{deliver, arrive}
use iocp_chat_server.SessionManager.Memory.{
  Pointer, World, M, done, ◌>>=◌, ◌>>◌, load, store, load_at, update, Effect, puts_package,
  socket_io,
}
use iocp_chat_server.IocpServer.Serve.{logged, emit_all_lem}
use iocp_chat_server.IocpServer.Worker.{reading, take_received, dispatch, worker_step}

-- The packets passed to `PutPackage` and the sessions that they come from, newest first.
unfoldable pub packages : List Effect → List (Pointer × ℕ)
packages [] = []
packages (puts_package p k ∷ es) = (p, k) ∷ packages es
packages (e ∷ es) = packages es

pub packages-logged :
    (p : Pointer) (es : List Event) (l : List Effect) → packages (logged p es l) ≡ packages l
unfolding packages logged
packages-logged p [] l = refl
packages-logged p (e ∷ es) l = packages-logged p es (socket_io p e ∷ l)

-- What `OnRecv` is to return for the session to live on.
abbrev pub Fine : Received ℕ → Type 0
Fine needs_more = Unit {0}
Fine (packaged k) = Unit {0}
Fine invalid_packet = ⊥
Fine overreads = ⊥

-- The effects with the package of this result on top.
unfoldable pub put : Pointer → Received ℕ → List Effect → List Effect
put p (packaged k) es = puts_package p k ∷ es
put p needs_more es = es
put p invalid_packet es = es
put p overreads es = es

pub deliver-type : (s : IocpSession) (c : List ℕ) → (deliver s c).read.io_type ≡ s.read.io_type
unfolding deliver
deliver-type s c = refl

module _ (net : Winsock) (o : PacketObfuscation) (analyzer : List ℕ → Option ℕ) where
  finish_recv-type :
      (s : IocpSession) (offset size : ℕ)
      → (finish_recv net o analyzer s offset size).0.read.io_type ≡ s.read.io_type
  unfolding finish_recv recv_stand_by
  finish_recv-type s offset size =
      elim (Option-cases (analyzer (o.decoding_data (take size (drop offset s.read.buffer))))) [
        | inl e ↦ rw (finish_recv, e) refl
        | inr (packet, e) ↦ rw (finish_recv, e) refl
      ]

  setup-type : (d : IoData) → (setup_total_bytes o d).0.io_type ≡ d.io_type
  unfolding setup_total_bytes
  setup-type d = elim (Bool-cases (d.total_bytes == 0)) [ inl e ↦ rw e refl | inr e ↦ rw e refl ]

  pub arrive-type :
      (s : IocpSession) (c : List ℕ) → (arrive net o analyzer s c).0.read.io_type ≡ s.read.io_type
  unfolding arrive on_recv is_recving deliver
  arrive-type s c =
      let t = deliver s c in
      let (d, offset) = setup_total_bytes o t.read in
      let r = is_recving net (record t { read = d }) (length c) in
      let size = int32 (size_t (r.0.read.total_bytes + 2 ^ 64 - packet_header_size)) in
      elim (Bool-cases r.2) [
        | inl more ↦ rw (on_recv, more) (setup-type t.read)
        | inr all ↦ elim (Bool-cases (is_negative size || outside_array offset size)) [
          | inl bad ↦ rw (on_recv, all, bad) (setup-type t.read)
          | inr fits ↦
              rw (on_recv, all, fits)
                (finish_recv-type (record r.0 { posted = t.posted }) offset size
                  ∙ setup-type t.read)
        ]
      ]

  module _ (fuel : ℕ) where
    take_received-lem :
        (p : Pointer) (r : Received ℕ) (w : World)
        → Fine r
        → take_received net o analyzer fuel p r w
          ≡ done tt (record w { effects = put p r w.effects })
    unfolding take_received put
    take_received-lem p needs_more w f = refl
    take_received-lem p (packaged k) w f = refl
    take_received-lem p invalid_packet w f = absurd f
    take_received-lem p overreads w f = absurd f

    dispatch-Fine :
        (p : Pointer) (s : IocpSession) (n : ℕ) (w : World)
        → Fine (on_recv net o analyzer s n).2
        → let r = on_recv net o analyzer s n in
          dispatch net o analyzer fuel io_read p s n w
          ≡ done tt (record w {
            heap = update w.heap p (some r.0);
            effects = put p r.2 (logged p r.1 w.effects);
          })
    unfolding dispatch
    dispatch-Fine p s n w f =
        let r = on_recv net o analyzer s n in
        let v = record w { heap = update w.heap p (some r.0) } in
        rw (emit_all_lem p r.1 v, ◌>>=◌)
          (take_received-lem p r.2 (record v { effects = logged p r.1 v.effects }) f)

    worker_step-Fine :
        (p : Pointer) (s : IocpSession) (n : ℕ) (w : World)
        → w.heap p ≡ some s
        → p ≢ 0
        → 0 < n
        → s.read.io_type ≡ io_read
        → Fine (on_recv net o analyzer s n).2
        → let r = on_recv net o analyzer s n in
          worker_step net o analyzer fuel
            (record { ret = true; session = p; transfer_size = n; io_data = reading })
            w
          ≡ done true (record w {
            heap = update w.heap p (some r.0);
            effects = put p r.2 (logged p r.1 w.effects);
          })
    unfolding worker_step
    worker_step-Fine p s n w e h k y f =
        let not_null : (p == 0) ≡ false = ground arith in
        let some_bytes : (n == 0) ≡ false = ground arith in
        let served =
          ap (λ (t : IoOperation). dispatch net o analyzer fuel t p s n w) y
          ∙ dispatch-Fine p s n w f in
        rw (not_null, some_bytes, e, ◌>>=◌, load_at, served)

    -- Windows puts bytes into the session's buffer, and a worker takes the completion.
    unfoldable pub arrives : Pointer → List ℕ → M Bool
    unfolding load store
    arrives p c w =
        (do
          s ← load p
          store p (deliver s c)
          worker_step net o analyzer fuel
              (record { ret = true; session = p; transfer_size = length c; io_data = reading }))
          w

    pub arrives-Fine :
        (p : Pointer) (c : List ℕ) (s : IocpSession) (w : World)
        → w.heap p ≡ some s
        → p ≢ 0
        → 0 < length c
        → s.read.io_type ≡ io_read
        → Fine (arrive net o analyzer s c).1
        → let r = on_recv net o analyzer (deliver s c) (length c) in
          arrives p c w
          ≡ done true (record w {
            heap = update (update w.heap p (some (deliver s c))) p (some r.0);
            effects = put p r.2 (logged p r.1 w.effects);
          })
    unfolding arrives arrive
    arrives-Fine p c s w e h k y f =
        let t = deliver s c in
        rw (e, ◌>>=◌, load_at)
          (worker_step-Fine p t (length c) (record w { heap = update w.heap p (some t) })
            (ground arith) h k (deliver-type s c ∙ y) f)

    -- The completions of one read after another.
    unfoldable pub arrive_each : Pointer → List (List ℕ) → M (Unit {0})
    arrive_each p [] w = done tt w
    arrive_each p (c ∷ cs) w = let rest = arrive_each p cs in (do arrives p c; rest) w
