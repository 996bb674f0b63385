-- ===== src/IocpServer/Accept.antt =====
-- IOCPServer.cpp, `OnAccept`: what becomes of the new session and of its socket, on every branch.
use iocp_chat_server.Base.{
  ℕ, suc, ◌≡◌, refl, ◌∙◌, none, some, true, false, List, [], ◌∷◌, ◌++◌, ◌==◌, ◌≢◌, arith,
  if◌then◌else◌, inl, inr, Bool-cases,
}
use iocp_chat_server.Base.Int.{ltb_ℤ}
use iocp_chat_server.Session
use iocp_chat_server.Network.{Winsock}
use iocp_chat_server.Network.IoData.{clear}
use iocp_chat_server.Network.IocpSession.{IocpSession}
use iocp_chat_server.Network.IocpSession
use iocp_chat_server.SessionManager.Memory.{
  Pointer, World, done, fault, double_free, update, frees, logs_busy, logs_accept_fail, ◌>>=◌,
  load_at,
}
use iocp_chat_server.SessionManager.{contains}
use iocp_chat_server.SessionManager.Close.{destroy-listed, destroy-unlisted}
use iocp_chat_server.SessionManager.Add.{added, add_session-busy, add_session-new}
use iocp_chat_server.IocpServer.{Accepting, on_accept, register, associate, safe_delete}

-- The new session once its socket and address are written.
unfoldable pub accepted_session : Accepting → ℕ → ℕ → IocpSession
accepted_session a accepter address =
    let made = IocpSession.make a.memory a.now in
    record made { session = (Session.on_accept made.session accepter address a.ioctl).0 }

-- The object at `p` came and went.
unfoldable pub came_and_went : Pointer → IocpSession → World → World
came_and_went p s w = record w {
  heap = update (update w.heap p (some s)) p none;
  effects = frees p ∷ w.effects;
}

-- `new` stored it.
unfoldable pub stored : Pointer → IocpSession → World → World
stored p s w = record w { heap = update w.heap p (some s) }

module _ (net : Winsock) (fuel : ℕ) (a : Accepting) (accepter address : ℕ) (w : World)
    (allocated : a.pointer ≢ 0) (fresh : contains a.pointer w.session_list ≡ false) where
  safe_delete-unlisted :
      (s : IocpSession) (v : World)
      → contains a.pointer v.session_list ≡ false
      → v.heap a.pointer ≡ some s
      → safe_delete (suc fuel) a.pointer v
        ≡ done tt (record v {
          heap = update v.heap a.pointer none;
          effects = frees a.pointer ∷ v.effects;
        })
  unfolding safe_delete
  safe_delete-unlisted s v c e =
      let not_null : (a.pointer == 0) ≡ false = ground arith in
      rw (not_null, destroy-unlisted fuel a.pointer s v c e)

  pub on_accept-stored : on_accept net (suc fuel) a accepter address w ≡ (
      if a.ioctl == 0
      then register net
          (suc fuel)
          a
          a.pointer
          (stored a.pointer (accepted_session a accepter address) w)
      else safe_delete
          (suc fuel)
          a.pointer
          (stored a.pointer (accepted_session a accepter address) w))
  unfolding on_accept accepted_session stored Session.on_accept
  on_accept-stored =
      let not_null : (a.pointer == 0) ≡ false = ground arith in
      elim (Bool-cases (a.ioctl == 0)) [ inl e ↦ rw (not_null, e) | inr e ↦ rw (not_null, e) ]

  -- The keep-alive cannot be set: the session is deleted, and the accepted socket stays open.
  pub on_accept_no_keep_alive :
      a.ioctl ≢ 0
      → on_accept net (suc fuel) a accepter address w
        ≡ done tt (came_and_went a.pointer (accepted_session a accepter address) w)
  unfolding came_and_went stored
  on_accept_no_keep_alive h =
      let bad : (a.ioctl == 0) ≡ false = ground arith in
      on_accept-stored
      ∙ rw bad (
          safe_delete-unlisted (accepted_session a accepter address)
            (stored a.pointer (accepted_session a accepter address) w) fresh (ground arith))

  register-full :
      (s : IocpSession) (v : World)
      → contains a.pointer v.session_list ≡ false
      → v.heap a.pointer ≡ some s
      → ltb_ℤ v.max_connection v.session_count ≡ true
      → register net (suc fuel) a a.pointer v
        ≡ done tt (record v {
          heap = update v.heap a.pointer none;
          effects = frees a.pointer ∷ logs_busy ∷ v.effects;
        })
  unfolding register
  register-full s v c e b =
      rw (add_session-busy a.pointer v c b, ◌>>=◌)
        (safe_delete-unlisted s (record v { effects = logs_busy ∷ v.effects }) c e)

  pub register-new :
      (s : IocpSession) (v : World)
      → contains a.pointer v.session_list ≡ false
      → v.heap a.pointer ≡ some s
      → ltb_ℤ v.max_connection v.session_count ≡ false
      → register net (suc fuel) a a.pointer v
        ≡ associate net (suc fuel) a a.pointer (added a.pointer s v)
  unfolding register
  register-new s v c e b = rw (add_session-new a.pointer s v c b e, ◌>>=◌)

  -- Keep-alive is set, but the manager is full: the session is deleted, and the accepted socket stays
  -- open.
  pub on_accept_full :
      a.ioctl ≡ 0
      → ltb_ℤ w.max_connection w.session_count ≡ true
      → on_accept net (suc fuel) a accepter address w
        ≡ done tt (
            came_and_went a.pointer
              (accepted_session a accepter address)
              (record w { effects = logs_busy ∷ w.effects }))
  unfolding came_and_went stored
  on_accept_full h b =
      let good : (a.ioctl == 0) ≡ true = ground arith in
      let s = accepted_session a accepter address in
      on_accept-stored ∙ rw good (register-full s (stored a.pointer s w) fresh (ground arith) b)

module _ (net : Winsock) (fuel : ℕ) (a : Accepting) (p : Pointer) (s : IocpSession) (v : World)
    (allocated : p ≢ 0) (listed : contains p v.session_list ≡ true)
    (there : v.heap p ≡ some s) where
  associate-no_handle : a.handle ≡ 0 → associate net (suc (suc fuel)) a p v ≡ fault double_free
  unfolding associate safe_delete
  associate-no_handle h =
      let not_null : (p == 0) ≡ false = ground arith in
      let no_handle : (a.handle == 0) ≡ true = ground arith in
      let cleared = record s { read = clear s.read } in
      rw (there, ◌>>=◌, load_at, no_handle, not_null)
        (destroy-listed fuel p cleared (record v { heap = update v.heap p (some cleared) })
          allocated listed (ground arith))

pub contains-last : (p : Pointer) (ps : List Pointer) → contains p (ps ++ p ∷ []) ≡ true
unfolding contains
contains-last p [] = ground arith
contains-last p (q ∷ qs) = ground (arith, contains-last p qs)

-- Windows refuses to associate the socket with the completion port, after the manager has taken the
-- session: `OnAccept` frees the session twice.
pub on_accept_no_handle :
    (net : Winsock) (fuel : ℕ) (a : Accepting) (accepter address : ℕ) (w : World)
    → a.pointer ≢ 0
    → contains a.pointer w.session_list ≡ false
    → a.ioctl ≡ 0
    → ltb_ℤ w.max_connection w.session_count ≡ false
    → a.handle ≡ 0
    → on_accept net (suc (suc fuel)) a accepter address w ≡ fault double_free
unfolding stored added
on_accept_no_handle net fuel a accepter address w h c good b no_handle =
    let s = accepted_session a accepter address in
    let ok : (a.ioctl == 0) ≡ true = ground arith in
    let v = stored a.pointer s w in
    on_accept-stored net (suc fuel) a accepter address w h c
    ∙ rw ok (
        register-new net (suc fuel) a accepter address w h c s v c (ground arith) b
        ∙ associate-no_handle net fuel a a.pointer (IocpSession.set_id s w.session_seed)
            (added a.pointer s v) h (contains-last a.pointer w.session_list) (ground arith)
            no_handle)

-- There is no memory.
pub on_accept_null :
    (net : Winsock) (fuel : ℕ) (a : Accepting) (accepter address : ℕ) (w : World)
    → (a.pointer == 0) ≡ true
    → on_accept net fuel a accepter address w
      ≡ done tt (record w { effects = logs_accept_fail ∷ w.effects })
unfolding on_accept
on_accept_null net fuel a accepter address w e = rw e refl
