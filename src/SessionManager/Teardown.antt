-- ===== src/SessionManager/Teardown.antt =====
-- SessionManager.cpp, the destructor: it closes every session and frees each of them once.
use iocp_chat_server.Base.{
  ℕ, suc, ◌≡◌, refl, ◌∙◌, Bool, true, List, [], ◌∷◌, Option, none, some, arith, ◌≢◌, if◌then◌else◌,
}
use iocp_chat_server.Network.IocpSession.{IocpSession}
use iocp_chat_server.SessionManager.Memory.{Pointer, World, done, ◌>>=◌, load_at}
use iocp_chat_server.SessionManager.{contains, close_each, destroy_manager, on_close}
use iocp_chat_server.SessionManager.Pointers.{Distinct}
use iocp_chat_server.SessionManager.Close.{without, close_session-listed}
use iocp_chat_server.SessionManager.Invariant.{Inv, Live-load, without-Inv}
use iocp_chat_server.SessionManager.Reaping.{
  Within, Within-self, Within-without, is_closed, Reaped, Reaped-nil, Reaped-close,
}

abbrev every : Option IocpSession → Bool
every o = true

close_each-cons :
    (fuel : ℕ) (p : Pointer) (ps : List Pointer) (s : IocpSession) (w : World)
    → p ≢ 0
    → contains p w.session_list ≡ true
    → w.heap p ≡ some s
    → close_each (suc (suc fuel)) (p ∷ ps) w ≡ close_each (suc (suc fuel)) ps (without p s w)
unfolding close_each on_close
close_each-cons fuel p ps s w h c e = rw (e, ◌>>=◌, load_at, close_session-listed fuel p s w h c e)

close_each-nil : (fuel : ℕ) (w : World) → close_each fuel [] w ≡ done tt w
unfolding close_each
close_each-nil fuel w = refl

close_each-Reaped :
    (fuel : ℕ) (ps : List Pointer) (w : World)
    → Inv w
    → Distinct ps
    → Within ps w.session_list
    → (w' : World) × (close_each (suc (suc fuel)) ps w ≡ done tt w') × Reaped every ps w w'
close_each-Reaped fuel [] w i d h = (w, close_each-nil (suc (suc fuel)) w, Reaped-nil every w i)
close_each-Reaped fuel (p ∷ ps) w i d h =
    let l = Live-load w.heap p w.session_list i.live h.0 in
    let r =
      close_each-Reaped fuel ps (without p l.0 w) (without-Inv p l.0 w h.0 i) d.1
        (Within-without p ps l.0 w d.0 h.1) in
    (
      r.0,
      close_each-cons fuel p ps l.0 w l.2 h.0 l.1 ∙ r.1,
      Reaped-close every p ps l.0 w w r.0 refl d.0 refl refl refl l.1 (λ k e. e) r.2,
    )

-- From a world that keeps the invariant the destructor ends with no fault and an empty list; each
-- session that was listed is freed, its socket is closed, and no other object is touched.
pub destroy_manager_lem :
    (fuel : ℕ) (w : World)
    → Inv w
    → (w' : World) × (destroy_manager (suc (suc fuel)) w ≡ done tt w')
      × (w'.session_list ≡ [])
      × ((q : Pointer) → w'.heap q ≡ (if contains q w.session_list then none else w.heap q))
      × ((q : Pointer) (s : IocpSession)
          → contains q w.session_list ≡ true
          → w.heap q ≡ some s
          → is_closed s.socket w'.effects ≡ true)
unfolding destroy_manager
destroy_manager_lem fuel w i =
    let r = close_each-Reaped fuel w.session_list w i i.distinct (Within-self w.session_list) in
    let memory = r.2.memory in
    (
      record (r.0) { session_list = [] },
      rw (r.1, ◌>>=◌),
      refl,
      λ q. ground (arith, memory q),
      λ q s c e. r.2.closed q s c e refl,
    )
