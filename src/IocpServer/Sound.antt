-- ===== src/IocpServer/Sound.antt =====
-- IOCPServer.cpp and SessionMonitor.cpp: each handler, from any sound table, on everything that can come.
use iocp_chat_server.Base.{
  ℕ, suc, ◌≡◌, sym, ap, ◌∙◌, ◌⊎◌, inl, inr, none, true, false, List, [], ◌∷◌, ◌==◌, ◌≢◌, arith,
  Bool-cases, Option-cases, Option, subst,
}
use iocp_chat_server.Network.{PacketObfuscation, Winsock}
use iocp_chat_server.SessionManager.Memory.{
  Pointer, World, Outcome, done, fault, Fault, out_of_bounds, use_after_free, double_free,
  Outcome-cases,
}
use iocp_chat_server.SessionManager.{contains, tick}
use iocp_chat_server.SessionManager.Pointers.{contains-append}
use iocp_chat_server.SessionManager.Reaping.{tick-Reaped}
use iocp_chat_server.SessionManager.Changes.{Sound, Owned, Changes-Sound, Reaped-Sound, FullAt}
use iocp_chat_server.IocpServer.{Accepting, on_accept}
use iocp_chat_server.IocpServer.Ends.{Same, Ends, on_accept-Ends}
use iocp_chat_server.IocpServer.Serve.{Serves}
use iocp_chat_server.IocpServer.Worker.{Completion, worker_step}
use iocp_chat_server.IocpServer.Worker.Safety.{worker_step-Changes, worker_step-stale}

-- The result is sound, or the fault is one of these.
abbrev pub SoundOr : {A : Type 0} → (Fault → Type 0) → Outcome A → Type 0
SoundOr P (done a w) = Sound w
SoundOr P (fault e) = P e

Same-Sound : {w w' : World} → Same w w' → Sound w → Sound w'
Same-Sound {w} {w'} v i =
    let heap : w'.heap ≡ w.heap = λ j q. v.heap q j in
    record {
      inv = record {
        live = rw (heap, v.list) (i.inv.live);
        distinct = rw (v.list) (i.inv.distinct);
        counted = rw (v.count, v.list) (i.inv.counted);
        capacity = rw (v.count, v.room) (i.inv.capacity);
      };
      owned = λ q s e. rw (v.list) (i.owned q s (sym (v.heap q) ∙ e));
      full = λ q s e. i.full q s (sym (v.heap q) ∙ e);
    }

Serves-Sound :
    {p : Pointer} {accepter : ℕ} {w w' : World} → Serves p accepter w w' → Sound w → Sound w'
unfolding contains
Serves-Sound {p} {accepter} {w} {w'} v i = record {
  inv = v.inv;
  owned = λ q u x. elim (Bool-cases (p == q)) [
    | inl y ↦ rw (v.list, contains-append q w.session_list (p ∷ []), y) (ground arith)
    | inr n ↦
        rw (v.list, contains-append q w.session_list (p ∷ []))
          (ground (arith, i.owned q u (sym (v.others q (ground arith)) ∙ x)))
  ];
  full = λ q u x. elim (Bool-cases (p == q)) [
    | inl y ↦ subst FullAt (sym v.there ∙ ap w'.heap (same_pointer p q y) ∙ x) v.full
    | inr n ↦ i.full q u (sym (v.others q (ground arith)) ∙ x)
  ];
}
  where
    same_pointer : (p q : Pointer) → (p == q) ≡ true → p ≡ q
    same_pointer p q y = ground arith

Ends-Sound :
    (p : Pointer) (accepter handle : ℕ) (w : World) (r : Outcome (Unit {0}))
    → Ends p accepter handle w r
    → Sound w
    → SoundOr (λ e. (e ≡ double_free) × (handle ≡ 0)) r
Ends-Sound p accepter handle w (done t w') (inl same) i = Same-Sound same i
Ends-Sound p accepter handle w (done t w') (inr serves) i = Serves-Sound serves i
Ends-Sound p accepter handle w (fault e) k i = k

-- A successful completion whose session is not listed.
abbrev pub Stale : Completion → World → Type 0
Stale c w = (c.ret ≡ true) × (c.session ≢ 0) × (contains c.session w.session_list ≡ false)

pub Stale-cases :
    (c : Completion) (w : World)
    → Stale c w ⊎ ((c.ret ≡ false) ⊎ ((c.session ≡ 0) ⊎ (contains c.session w.session_list ≡ true)))
Stale-cases c w = elim (Bool-cases c.ret) [
  | inr failed ↦ inr (inl failed)
  | inl ok ↦ elim (Bool-cases (c.session == 0)) [
    | inl null ↦ inr (inr (inl (ground arith)))
    | inr there ↦ elim (Bool-cases (contains c.session w.session_list)) [
      | inl listed ↦ inr (inr (inr listed))
      | inr gone ↦ inl (ok, ground arith, gone)
    ]
  ]
]

pub unlisted_free :
    (p : Pointer) (w : World) → Owned w → contains p w.session_list ≡ false → w.heap p ≡ none
unlisted_free p w owned c = elim (Option-cases (w.heap p)) [
  | inl free ↦ free
  | inr (s, e) ↦ let listed = owned p s e in let clash : false ≡ true = sym c ∙ listed in absurd cc
]

module _ (net : Winsock) (fuel : ℕ) (w : World) (i : Sound w) where
  pub on_accept-Sound :
      (a : Accepting) (accepter address : ℕ)
      → w.heap a.pointer ≡ none
      → SoundOr
          (λ e. (e ≡ double_free) × (a.handle ≡ 0))
          (on_accept net (suc (suc fuel)) a accepter address w)
  on_accept-Sound a accepter address free =
      Ends-Sound a.pointer accepter a.handle w (on_accept net (suc (suc fuel)) a accepter address w)
        (on_accept-Ends net fuel a accepter address w i.inv free) i

  pub tick-Sound : (now : ℕ) → SoundOr (λ e. ⊥) (tick (suc (suc fuel)) now w)
  tick-Sound now = let r = tick-Reaped fuel now w i.inv in rw (r.1) (Reaped-Sound r.2 i)

  -- A worker uses a session that has been freed exactly where the completion is stale.
  pub worker_step-Sound :
      (o : PacketObfuscation) (analyzer : List ℕ → Option ℕ) (c : Completion)
      → ((Stale c w) × (worker_step net o analyzer (suc (suc fuel)) c w ≡ fault use_after_free))
        ⊎ SoundOr (λ e. e ≡ out_of_bounds) (worker_step net o analyzer (suc (suc fuel)) c w)
  worker_step-Sound o analyzer c = elim (Stale-cases c w) [
    | inl stale ↦ inl (
      stale,
      worker_step-stale net o analyzer (suc (suc fuel)) c w stale.0 stale.1
          (unlisted_free c.session w i.owned stale.2),
    )
    | inr known ↦
        let changes = worker_step-Changes net o analyzer fuel c w i.inv known in
        inr (elim (Outcome-cases (worker_step net o analyzer (suc (suc fuel)) c w)) [
          | inl (a, w', e) ↦ rw e (Changes-Sound (rw e at changes) i)
          | inr (f, e) ↦ rw e (rw e at changes)
        ])
  ]
