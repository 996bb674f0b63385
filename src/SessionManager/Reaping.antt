-- ===== src/SessionManager/Reaping.antt =====
-- SessionMonitor.cpp, `Tick`, and the destructor of `SessionManager`: loops over a copy of the list
-- that close sessions as they go.
use iocp_chat_server.Base.{
  ℕ, suc, ◌≡◌, refl, sym, ap, ◌∙◌, Bool, true, false, not, ◌&&◌, ◌||◌, List, [], ◌∷◌, Option, none,
  some, arith, ◌==◌, ◌≢◌, Bool-cases, if◌then◌else◌, inl, inr,
}
use iocp_chat_server.Network.IocpSession.{IocpSession}
use iocp_chat_server.SessionManager.Memory.{
  Pointer, World, Effect, closes_socket, done, fault, use_after_free, lingers, ◌>>=◌, load_at,
}
use iocp_chat_server.SessionManager.{contains, remove, is_expired, check_each, tick, on_close}
use iocp_chat_server.SessionManager.Pointers.{Distinct, contains-remove_self, contains-remove_ne}
use iocp_chat_server.SessionManager.Close.{without, force_close_session-listed}
use iocp_chat_server.SessionManager.Invariant.{Heap, Inv, Live-load, without-Inv}

==→eq : (p q : ℕ) → (p == q) ≡ true → p ≡ q
==→eq p q e = ground arith

-- Every pointer of the first list stands in the second.
abbrev pub Within : List Pointer → List Pointer → Type 0
Within [] qs = Unit {0}
Within (p ∷ ps) qs = (contains p qs ≡ true) × Within ps qs

Within-remove :
    (p : Pointer) (ps qs : List Pointer)
    → contains p ps ≡ false
    → Within ps qs
    → Within ps (remove p qs)
unfolding contains
Within-remove p [] qs c w = tt
Within-remove p (q ∷ ps) qs c w =
    let other : p ≢ q = ground arith in
    (contains-remove_ne p q qs other ∙ w.0, Within-remove p ps qs (ground arith) w.1)

Within-cons : (p : Pointer) (ps qs : List Pointer) → Within ps qs → Within ps (p ∷ qs)
unfolding contains
Within-cons p [] qs w = tt
Within-cons p (q ∷ ps) qs w = (ground arith, Within-cons p ps qs w.1)

pub Within-self : (ps : List Pointer) → Within ps ps
unfolding contains
Within-self [] = tt
Within-self (p ∷ ps) = (ground arith, Within-cons p ps ps (Within-self ps))

pub Within-without :
    (p : Pointer) (ps : List Pointer) (s : IocpSession) (w : World)
    → contains p ps ≡ false
    → Within ps w.session_list
    → Within ps (without p s w).session_list
unfolding without
Within-without p ps s w c h = Within-remove p ps w.session_list c h

abbrev pub expired_at : ℕ → Option IocpSession → Bool
expired_at now none = false
expired_at now (some s) = is_expired now s

-- `closesocket` has been called for this socket.
unfoldable pub is_closed : ℕ → List Effect → Bool
is_closed k [] = false
is_closed k (closes_socket j ∷ es) = (j == k) || is_closed k es
is_closed k (e ∷ es) = is_closed k es

-- From `w` to `w'` exactly the doomed ones among `ps` have left the list and are freed, and their sockets
-- are closed; the other sessions are listed and stored as before.
pub record Reaped (doomed : Option IocpSession → Bool) (ps : List Pointer) (w w' : World)
    : Type 0 where
  pub inv : Inv w'
  pub seed : w'.session_seed ≡ w.session_seed
  pub listed :
      (q : Pointer)
      → contains q w'.session_list
        ≡ (contains q w.session_list && not (contains q ps && doomed (w.heap q)))
  pub memory :
      (q : Pointer) → w'.heap q ≡ (if contains q ps && doomed (w.heap q) then none else w.heap q)
  pub closed :
      (q : Pointer) (s : IocpSession)
      → contains q ps ≡ true
      → w.heap q ≡ some s
      → doomed (some s) ≡ true
      → is_closed s.socket w'.effects ≡ true
  pub still_closed : (k : ℕ) → is_closed k w.effects ≡ true → is_closed k w'.effects ≡ true

-- A session that the loop has left is one from before.
pub Reaped-spared :
    {doomed : Option IocpSession → Bool} {ps : List Pointer} {w w' : World}
    (r : Reaped doomed ps w w') (q : Pointer) (s : IocpSession)
    → w'.heap q ≡ some s
    → ((contains q ps && doomed (some s)) ≡ false) × (w.heap q ≡ some s)
Reaped-spared {doomed} {ps} {w} {w'} r q s e =
    elim (Bool-cases (contains q ps && doomed (w.heap q))) [
      | inl y ↦ let gone : none ≡ some s = rw y at (sym (r.memory q) ∙ e) in absurd cc
      | inr n ↦
          let before : w.heap q ≡ some s = rw n at (sym (r.memory q) ∙ e) in
          (rw before at n, before)
    ]

some-session : {s t : IocpSession} → some s ≡ some t → s ≡ t
some-session e = cc

closes-still :
    (k j : ℕ) (es : List Effect) → is_closed k es ≡ true → is_closed k (closes_socket j ∷ es) ≡ true
unfolding is_closed
closes-still k j es e = elim (Bool-cases (j == k)) [ inl y ↦ rw y refl | inr n ↦ rw n e ]

module _ (doomed : Option IocpSession → Bool) where
  pub Reaped-nil : (w : World) → Inv w → Reaped doomed [] w w
  unfolding contains
  Reaped-nil w i = record {
    inv = i;
    seed = refl;
    listed = λ q. ground arith;
    memory = λ q. refl;
    closed = λ q s c e d. absurd cc;
    still_closed = λ k e. e;
  }

  Reaped-spare :
      (p : Pointer) (ps : List Pointer) (w w' : World)
      → doomed (w.heap p) ≡ false
      → Reaped doomed ps w w'
      → Reaped doomed (p ∷ ps) w w'
  unfolding contains
  Reaped-spare p ps w w' d r = record {
    inv = r.inv;
    seed = r.seed;
    listed = λ q. elim (Bool-cases (p == q)) [
      | inl e ↦ ground (arith, r.listed q, ap (λ (x : Pointer). doomed (w.heap x)) (==→eq p q e))
      | inr e ↦ ground (arith, r.listed q)
    ];
    memory = λ q. elim (Bool-cases (p == q)) [
      | inl e ↦ ground (arith, r.memory q, ap (λ (x : Pointer). doomed (w.heap x)) (==→eq p q e))
      | inr e ↦ ground (arith, r.memory q)
    ];
    closed = λ q s c e x. elim (Bool-cases (p == q)) [
      | inl y ↦
          let here : doomed (w.heap p) ≡ true =
            ap (λ (z : Pointer). doomed (w.heap z)) (==→eq p q y) ∙ ap doomed e ∙ x in
          let clash : true ≡ false = sym here ∙ d in absurd cc
      | inr n ↦ r.closed q s (ground arith) e x
    ];
    still_closed = r.still_closed;
  }

  -- `w₁` is the world after the first of them is closed.
  pub Reaped-close :
      (p : Pointer) (ps : List Pointer) (s : IocpSession) (w v w' : World)
      → doomed (w.heap p) ≡ true
      → contains p ps ≡ false
      → v.session_list ≡ w.session_list
      → v.heap ≡ w.heap
      → v.session_seed ≡ w.session_seed
      → w.heap p ≡ some s
      → ((k : ℕ) → is_closed k w.effects ≡ true → is_closed k v.effects ≡ true)
      → Reaped doomed ps (without p s v) w'
      → Reaped doomed (p ∷ ps) w w'
  unfolding contains without is_closed
  Reaped-close p ps s w v w' d c el eh seed there kept r = record {
    inv = r.inv;
    seed = r.seed ∙ seed;
    listed = λ q. elim (Bool-cases (p == q)) [
      | inl e ↦ ground (
        arith,
        r.listed q,
        ap (λ (x : Pointer). doomed (w.heap x)) (==→eq p q e),
        ap (λ (l : List Pointer). contains q (remove p l)) el,
        contains-remove_self p w.session_list,
        contains-remove_ne p q w.session_list,
      )
      | inr e ↦ ground (
        arith,
        r.listed q,
        ap (λ (l : List Pointer). contains q (remove p l)) el,
        contains-remove_self p w.session_list,
        contains-remove_ne p q w.session_list,
      )
    ];
    memory = λ q. elim (Bool-cases (p == q)) [
      | inl e ↦ ground (
        arith,
        r.memory q,
        ap (λ (x : Pointer). doomed (w.heap x)) (==→eq p q e),
        ap (λ (h : Heap). h q) eh,
      )
      | inr e ↦ ground (arith, r.memory q, ap (λ (h : Heap). h q) eh)
    ];
    closed = λ q t e x y. elim (Bool-cases (p == q)) [
      | inl h ↦
          let one : s ≡ t = some-session (sym there ∙ ap w.heap (==→eq p q h) ∙ x) in
          let now_closed : is_closed s.socket (without p s v).effects ≡ true = ground arith in
          ap (λ (z : IocpSession). is_closed z.socket w'.effects) (sym one)
          ∙ r.still_closed s.socket now_closed
      | inr h ↦ r.closed q t (ground arith) (rw h (ap (λ (h : Heap). h q) eh ∙ x)) y
    ];
    still_closed = λ k e. r.still_closed k (closes-still k s.socket v.effects (kept k e));
  }

pub check_each-expired :
    (fuel now : ℕ) (p : Pointer) (ps : List Pointer) (s : IocpSession) (w : World)
    → p ≢ 0
    → contains p w.session_list ≡ true
    → w.heap p ≡ some s
    → is_expired now s ≡ true
    → check_each (suc (suc fuel)) now (p ∷ ps) w
      ≡ check_each
          (suc (suc fuel))
          now
          ps
          (without p s (record w { effects = lingers s.socket ∷ w.effects }))
unfolding check_each on_close
check_each-expired fuel now p ps s w h c e x =
    rw (e, ◌>>=◌, load_at, x, force_close_session-listed fuel p s w h c e)

pub check_each-spared :
    (fuel now : ℕ) (p : Pointer) (ps : List Pointer) (s : IocpSession) (w : World)
    → w.heap p ≡ some s
    → is_expired now s ≡ false
    → check_each fuel now (p ∷ ps) w ≡ check_each fuel now ps w
unfolding check_each
check_each-spared fuel now p ps s w e x = rw (e, ◌>>=◌, load_at, x)

pub check_each-nil : (fuel now : ℕ) (w : World) → check_each fuel now [] w ≡ done tt w
unfolding check_each
check_each-nil fuel now w = refl

pub check_each-gone :
    (fuel now : ℕ) (p : Pointer) (ps : List Pointer) (w : World)
    → w.heap p ≡ none
    → check_each fuel now (p ∷ ps) w ≡ fault use_after_free
unfolding check_each
check_each-gone fuel now p ps w free = rw (free, ◌>>=◌, load_at)

check_each-Reaped :
    (fuel now : ℕ) (ps : List Pointer) (w : World)
    → Inv w
    → Distinct ps
    → Within ps w.session_list
    → (w' : World) × (check_each (suc (suc fuel)) now ps w ≡ done tt w')
      × Reaped (expired_at now) ps w w'
unfolding is_closed
check_each-Reaped fuel now [] w i d h =
    (w, check_each-nil (suc (suc fuel)) now w, Reaped-nil (expired_at now) w i)
check_each-Reaped fuel now (p ∷ ps) w i d h =
    let l = Live-load w.heap p w.session_list i.live h.0 in
    let v = record w { effects = lingers l.0.socket ∷ w.effects } in
    elim (Bool-cases (is_expired now l.0)) [
      | inl x ↦
          let r =
            check_each-Reaped fuel now ps (without p l.0 v)
              (without-Inv p l.0 v h.0 (record {
                live = i.live;
                distinct = i.distinct;
                counted = i.counted;
                capacity = i.capacity;
              }))
              d.1 (Within-without p ps l.0 v d.0 h.1) in
          (
            r.0,
            check_each-expired fuel now p ps l.0 w l.2 h.0 l.1 x ∙ r.1,
            Reaped-close (expired_at now) p ps l.0 w v r.0 (ap (expired_at now) l.1 ∙ x) d.0 refl
                refl refl l.1 (λ k e. e) r.2,
          )
      | inr x ↦
          let r = check_each-Reaped fuel now ps w i d.1 h.1 in
          (
            r.0,
            check_each-spared (suc (suc fuel)) now p ps l.0 w l.1 x ∙ r.1,
            Reaped-spare (expired_at now) p ps w r.0 (ap (expired_at now) l.1 ∙ x) r.2,
          )
    ]

pub tick-Reaped :
    (fuel now : ℕ) (w : World)
    → Inv w
    → (w' : World) × (tick (suc (suc fuel)) now w ≡ done tt w')
      × Reaped (expired_at now) w.session_list w w'
unfolding tick
tick-Reaped fuel now w i =
    check_each-Reaped fuel now w.session_list w i i.distinct (Within-self w.session_list)
