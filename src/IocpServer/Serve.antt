-- ===== src/IocpServer/Serve.antt =====
-- IOCPServer.cpp, `OnAccept` when nothing goes wrong.
use iocp_chat_server.Base.{
  ℕ, suc, ◌≡◌, refl, ◌∙◌, some, true, false, List, [], ◌∷◌, ◌++◌, ◌==◌, ◌≢◌, arith, ◌+◌, ◌%◌, ◌^◌,
}
use iocp_chat_server.Base.Int.{ltb_ℤ}
use iocp_chat_server.Session
use iocp_chat_server.Network.{Winsock}
use iocp_chat_server.Base.Bytes.{length-zeroed}
use iocp_chat_server.Network.IoData.{clear, io_read, set_type, socket_buf_size}
use iocp_chat_server.Network.IocpSession.Buffers.{Full, make-Full, recv_stand_by-Full}
use iocp_chat_server.Network.IocpSession.{
  IocpSession, Event, wsa_recv, check_error_io, recv_stand_by,
}
use iocp_chat_server.Network.IocpSession
use iocp_chat_server.Network.IocpSession.Reassembly.{IsFresh, whole_array, recv_stand_by-IsFresh}
use iocp_chat_server.SessionManager.Memory.{
  Pointer, World, done, update, logs_accept, associates, Effect, socket_io, ◌>>=◌, load_at,
}
use iocp_chat_server.SessionManager.{contains}
use iocp_chat_server.SessionManager.Invariant.{Inv, Inv-store}
use iocp_chat_server.SessionManager.Add.{added, added-Inv}
use iocp_chat_server.IocpServer.{Accepting, on_accept, associate, start_recv, emit_all}
use iocp_chat_server.IocpServer.Accept.{accepted_session, stored, on_accept-stored, register-new}

-- The effects with the calls of the session at `p` on top.
unfoldable pub logged : Pointer → List Event → List Effect → List Effect
logged p [] l = l
logged p (e ∷ es) l = logged p es (socket_io p e ∷ l)

pub emit_all_lem :
    (p : Pointer) (es : List Event) (w : World)
    → emit_all p es w ≡ done tt (record w { effects = logged p es w.effects })
unfolding emit_all logged
emit_all_lem p [] w = refl
emit_all_lem p (e ∷ es) w = emit_all_lem p es (record w { effects = socket_io p e ∷ w.effects })

start_recv_lem :
    (net : Winsock) (fuel : ℕ) (p : Pointer) (s : IocpSession) (w : World)
    → w.heap p ≡ some s
    → start_recv net fuel p w
      ≡ done tt (record w {
        heap = update w.heap p (some (recv_stand_by net s).0);
        effects = logged p (recv_stand_by net s).1 w.effects;
      })
unfolding start_recv
start_recv_lem net fuel p s w e = rw (e, ◌>>=◌, load_at, emit_all_lem)

associate-handle :
    (net : Winsock) (fuel : ℕ) (a : Accepting) (p : Pointer) (s : IocpSession) (v : World)
    → a.handle ≢ 0
    → v.heap p ≡ some s
    → let cleared = record s { read = clear s.read } in
      associate net fuel a p v
      ≡ done tt (record v {
        heap = update (update v.heap p (some cleared)) p (some (recv_stand_by net cleared).0);
        effects = logged p (recv_stand_by net cleared).1 (logs_accept p ∷ associates p ∷ v.effects);
      })
unfolding associate
associate-handle net fuel a p s v h e =
    let some_handle : (a.handle == 0) ≡ false = ground arith in
    let cleared = record s { read = clear s.read } in
    rw (e, ◌>>=◌, load_at, some_handle)
      (start_recv_lem net fuel p cleared
        (record v {
          heap = update v.heap p (some cleared);
          effects = logs_accept p ∷ associates p ∷ v.effects;
        })
        (ground arith))

-- The session as `OnAccept` leaves it.
abbrev waiting_session : Winsock → Accepting → ℕ → ℕ → ℕ → IocpSession
waiting_session net a accepter address id =
    let t = IocpSession.set_id (accepted_session a accepter address) id in
    (recv_stand_by net (record t { read = clear t.read })).0

waiting-socket :
    (net : Winsock) (a : Accepting) (accepter address id : ℕ)
    → (waiting_session net a accepter address id).socket ≡ accepter
unfolding recv_stand_by IocpSession.set_id accepted_session Session.on_accept
waiting-socket net a accepter address id = refl

waiting-id :
    (net : Winsock) (a : Accepting) (accepter address id : ℕ)
    → (waiting_session net a accepter address id).id ≡ id
unfolding recv_stand_by IocpSession.set_id
waiting-id net a accepter address id = refl

waiting-reads :
    (net : Winsock) (a : Accepting) (accepter address id : ℕ)
    → (waiting_session net a accepter address id).read.io_type ≡ io_read
unfolding recv_stand_by IocpSession.set_id accepted_session IocpSession.make clear set_type
waiting-reads net a accepter address id = refl

waiting-Full :
    (net : Winsock) (a : Accepting) (accepter address id : ℕ)
    → Full (waiting_session net a accepter address id)
unfolding IocpSession.set_id accepted_session clear
waiting-Full net a accepter address id =
    let made = make-Full a.memory a.now in
    let t = IocpSession.set_id (accepted_session a accepter address) id in
    recv_stand_by-Full net (record t { read = clear t.read })
      (record { reads = length-zeroed socket_buf_size; writes = made.writes })

-- `w'` is `w` with the new session at the end of the list, with its socket, the next identifier, and
-- waiting for a packet: its socket has been associated with the completion port, and then `WSARecv` has been
-- called for the whole array. Every other object is as it was.
pub record Serves (p : Pointer) (accepter : ℕ) (w w' : World) : Type 0 where
  pub inv : Inv w'
  pub list : w'.session_list ≡ w.session_list ++ p ∷ []
  pub session : IocpSession
  pub there : w'.heap p ≡ some session
  pub socket : session.socket ≡ accepter
  pub id : session.id ≡ w.session_seed
  pub waits : IsFresh session
  pub reads : session.read.io_type ≡ io_read
  pub full : Full session
  pub others : (q : Pointer) → q ≢ p → w'.heap q ≡ w.heap q
  pub calls :
      (es : List Event) × (w'.effects
        ≡ logged p (wsa_recv whole_array ∷ es) (logs_accept p ∷ associates p ∷ w.effects))
  pub seed : w'.session_seed ≡ (w.session_seed + 1) % 2 ^ 64

-- Keep-alive is set, the manager takes the session, and Windows associates its socket: `OnAccept`
-- ends with no fault, the session is listed with its socket and the next identifier, associated, and
-- receives into its whole array; the other objects are as they were.
pub on_accept-Serves :
    (net : Winsock) (fuel : ℕ) (a : Accepting) (accepter address : ℕ) (w : World)
    → Inv w
    → a.pointer ≢ 0
    → contains a.pointer w.session_list ≡ false
    → a.ioctl ≡ 0
    → ltb_ℤ w.max_connection w.session_count ≡ false
    → a.handle ≢ 0
    → (w' : World) × (on_accept net (suc fuel) a accepter address w ≡ done tt w')
      × Serves a.pointer accepter w w'
unfolding stored added recv_stand_by logged
on_accept-Serves net fuel a accepter address w i h c good b handle =
    let p = a.pointer in
    let s = accepted_session a accepter address in
    let ok : (a.ioctl == 0) ≡ true = ground arith in
    let some_handle : (a.handle == 0) ≡ false = ground arith in
    let v = stored p s w in
    let u = added p s v in
    let t = IocpSession.set_id s w.session_seed in
    let cleared = record t { read = clear t.read } in
    let u' = record u {
      heap = update u.heap p (some cleared);
      effects = logs_accept p ∷ associates p ∷ u.effects;
    } in
    let waiting = (recv_stand_by net cleared).0 in
    let w' = record u' {
      heap = update u'.heap p (some waiting);
      effects = logged p (recv_stand_by net cleared).1 u'.effects;
    } in
    let i' = added-Inv p s v h c b (Inv-store p s w.effects w i) in
    (
      w',
      on_accept-stored net fuel a accepter address w h c
          ∙ rw ok (
              register-new net fuel a accepter address w h c s v c (ground arith) b
              ∙ associate-handle net (suc fuel) a p t u handle (ground arith)),
      record {
        inv = Inv-store p waiting w'.effects u' (Inv-store p cleared u'.effects u i');
        list = refl;
        session = waiting;
        there = ground arith;
        socket = waiting-socket net a accepter address w.session_seed;
        id = waiting-id net a accepter address w.session_seed;
        waits = recv_stand_by-IsFresh net cleared;
        reads = waiting-reads net a accepter address w.session_seed;
        full = waiting-Full net a accepter address w.session_seed;
        others = λ q h. ground arith;
        calls = (check_error_io (net.wsa_recv whole_array), refl);
        seed = refl;
      },
    )
