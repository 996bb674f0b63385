-- ===== src/IocpServer/Ends.antt =====
-- IOCPServer.cpp, `OnAccept`: how it can end, on every branch.
use iocp_chat_server.Base.{
  ℕ, suc, ◌≡◌, refl, sym, ap, ◌∙◌, ◌⊎◌, inl, inr, none, some, false, List, ◌∷◌, ◌==◌, ◌≢◌, arith,
  Bool-cases,
}
use iocp_chat_server.Base.Int.{ltb_ℤ}
use iocp_chat_server.Network.{Winsock}
use iocp_chat_server.Network.IocpSession.{IocpSession}
use iocp_chat_server.SessionManager.Memory.{
  Pointer, World, Outcome, done, fault, double_free, logs_busy, Effect,
}
use iocp_chat_server.SessionManager.{contains}
use iocp_chat_server.SessionManager.Invariant.{Inv, Live-load}
use iocp_chat_server.IocpServer.{Accepting, on_accept}
use iocp_chat_server.IocpServer.Accept.{
  on_accept_null, on_accept_no_keep_alive, on_accept_full, on_accept_no_handle, came_and_went,
  accepted_session,
}
use iocp_chat_server.IocpServer.Serve.{on_accept-Serves, Serves}

-- Memory that is free is not listed.
pub not_listed :
    (p : Pointer) (w : World) → Inv w → w.heap p ≡ none → contains p w.session_list ≡ false
not_listed p w i free = elim (Bool-cases (contains p w.session_list)) [
  | inl c ↦
      let l = Live-load w.heap p w.session_list i.live c in
      let there : none ≡ some l.0 = sym free ∙ l.1 in cc
  | inr c ↦ c
]

-- Only effects are added.
pub record Same (w w' : World) : Type 0 where
  pub list : w'.session_list ≡ w.session_list
  pub seed : w'.session_seed ≡ w.session_seed
  pub count : w'.session_count ≡ w.session_count
  pub room : w'.max_connection ≡ w.max_connection
  pub heap : (q : Pointer) → w'.heap q ≡ w.heap q

came_and_went-Same :
    (p : Pointer) (s : IocpSession) (es : List Effect) (w : World)
    → w.heap p ≡ none
    → Same w (came_and_went p s (record w { effects = es }))
unfolding came_and_went
came_and_went-Same p s es w free = record {
  list = refl;
  seed = refl;
  count = refl;
  room = refl;
  heap = λ q. elim (Bool-cases (p == q)) [
    | inl y ↦ let same : p ≡ q = ground arith in rw y (sym free ∙ ap w.heap same)
    | inr n ↦ rw n refl
  ];
}

-- Nothing has changed, or the session is served; a fault comes only where Windows gives no handle.
abbrev pub Ends : Pointer → (accepter handle : ℕ) → World → Outcome (Unit {0}) → Type 0
Ends p accepter handle w (done t w') = Same w w' ⊎ Serves p accepter w w'
Ends p accepter handle w (fault e) = (e ≡ double_free) × (handle ≡ 0)

pub on_accept-Ends :
    (net : Winsock) (fuel : ℕ) (a : Accepting) (accepter address : ℕ) (w : World)
    → Inv w
    → w.heap a.pointer ≡ none
    → Ends a.pointer accepter a.handle w (on_accept net (suc (suc fuel)) a accepter address w)
on_accept-Ends net fuel a accepter address w i free = elim (Bool-cases (a.pointer == 0)) [
  | inl null ↦
      rw (on_accept_null net (suc (suc fuel)) a accepter address w null)
        (inl (record { list = refl; seed = refl; count = refl; room = refl; heap = λ q. refl }))
  | inr allocated ↦
      let there : a.pointer ≢ 0 = ground arith in
      let fresh = not_listed a.pointer w i free in
      let s = accepted_session a accepter address in
      elim (Bool-cases (a.ioctl == 0)) [
        | inr bad ↦
            rw
              (on_accept_no_keep_alive net (suc fuel) a accepter address w there fresh
                (ground arith))
              (inl (came_and_went-Same a.pointer s w.effects w free))
        | inl good ↦ elim (Bool-cases (ltb_ℤ w.max_connection w.session_count)) [
          | inl full ↦
              rw
                (on_accept_full net (suc fuel) a accepter address w there fresh (ground arith) full)
                (inl (came_and_went-Same a.pointer s (logs_busy ∷ w.effects) w free))
          | inr room ↦ elim (Bool-cases (a.handle == 0)) [
            | inl none_given ↦
                rw
                  (on_accept_no_handle net fuel a accepter address w there fresh (ground arith) room
                    (ground arith))
                  (refl, ground arith)
            | inr given ↦
                let r =
                  on_accept-Serves net (suc fuel) a accepter address w i there fresh (ground arith)
                    room (ground arith) in
                rw (r.1) (inr r.2)
          ]
        ]
      ]
]
