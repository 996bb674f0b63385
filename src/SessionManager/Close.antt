-- ===== src/SessionManager/Close.antt =====
-- SessionManager.cpp, `CloseSession` and `ForceCloseSession`: what they do on each branch. The
-- destructor's nested call finds the session gone from the list, so the calls go two deep.
use iocp_chat_server.Base.{
  ℕ, suc, ◌≡◌, refl, true, false, ◌∷◌, none, some, arith, ◌==◌, ◌⊎◌, inr, ◌≢◌,
}
use iocp_chat_server.Base.Int.{pos, ◌-ℤ◌}
use iocp_chat_server.Network.IocpSession.{IocpSession}
use iocp_chat_server.SessionManager.Memory.{
  Pointer, World, done, fault, frees, closes_socket, lingers, update, ◌>>=◌, load_at, free_at,
  double_free,
}
use iocp_chat_server.SessionManager.{contains, remove, close_session, force_close_session, destroy}
use iocp_chat_server.SessionManager.Pointers.{contains-remove_self}

-- The world after the session at `p` is closed.
unfoldable pub without : Pointer → IocpSession → World → World
without p s w = record w {
  session_list = remove p w.session_list;
  session_count = w.session_count -ℤ pos 1;
  heap = update w.heap p none;
  effects = frees p ∷ closes_socket s.socket ∷ w.effects;
}

-- A pointer that is null or not in the list: nothing happens.
pub close_session-unlisted :
    (fuel : ℕ) (p : Pointer) (w : World)
    → (p ≡ 0) ⊎ (contains p w.session_list ≡ false)
    → close_session (suc fuel) p w ≡ done false w
unfolding close_session
close_session-unlisted fuel p w h = ground arith

-- A session in the list: its socket is closed, it leaves the list, and it is freed, once. More fuel
-- changes nothing.
pub close_session-listed :
    (fuel : ℕ) (p : Pointer) (s : IocpSession) (w : World)
    → p ≢ 0
    → contains p w.session_list ≡ true
    → w.heap p ≡ some s
    → close_session (suc (suc fuel)) p w ≡ done true (without p s w)
unfolding close_session without
close_session-listed fuel p s w h c e =
    let not_null : (p == 0) ≡ false = ground arith in
    rw (not_null, c, e, contains-remove_self p w.session_list, ◌>>=◌, load_at)
      (rw (not_null, e, ◌>>=◌, free_at))

-- The same after `SO_LINGER` is set.
pub force_close_session-listed :
    (fuel : ℕ) (p : Pointer) (s : IocpSession) (w : World)
    → p ≢ 0
    → contains p w.session_list ≡ true
    → w.heap p ≡ some s
    → force_close_session (suc (suc fuel)) p w
      ≡ done tt (without p s (record w { effects = lingers s.socket ∷ w.effects }))
unfolding force_close_session
force_close_session-listed fuel p s w h c e =
    let not_null : (p == 0) ≡ false = ground arith in
    rw (
      not_null,
      e,
      close_session-listed fuel p s (record w { effects = lingers s.socket ∷ w.effects }) h c e,
      ◌>>=◌,
      load_at,
    )

-- A null pointer is left alone.
pub force_close_session-null : (fuel : ℕ) (w : World) → force_close_session fuel 0 w ≡ done tt w
unfolding force_close_session
force_close_session-null fuel w = refl

-- `delete` on a session that the manager does not list: the destructor's call finds nothing, and the
-- memory is given back. The socket stays open.
pub destroy-unlisted :
    (fuel : ℕ) (p : Pointer) (s : IocpSession) (w : World)
    → contains p w.session_list ≡ false
    → w.heap p ≡ some s
    → destroy (close_session (suc fuel)) p w
      ≡ done tt (record w { heap = update w.heap p none; effects = frees p ∷ w.effects })
unfolding destroy
destroy-unlisted fuel p s w c e = rw (close_session-unlisted fuel p w (inr c), ◌>>=◌, e, free_at)

-- `delete` on a session that the manager lists: the destructor calls `CloseSession`, which deletes
-- the session itself, so that the memory is given back twice.
pub destroy-listed :
    (fuel : ℕ) (p : Pointer) (s : IocpSession) (w : World)
    → p ≢ 0
    → contains p w.session_list ≡ true
    → w.heap p ≡ some s
    → destroy (close_session (suc (suc fuel))) p w ≡ fault double_free
unfolding destroy without
destroy-listed fuel p s w h c e =
    let self : (p == p) ≡ true = ground arith in
    rw (close_session-listed fuel p s w h c e, ◌>>=◌, self, free_at)
