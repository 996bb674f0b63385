-- ===== src/SessionManager/Changes.antt =====
-- SessionManager.cpp: what the server may do to the table of sessions in one go, and what that keeps:
-- the invariant of the table, that every allocated session is listed, and the size of the buffers.
use iocp_chat_server.Base.{
  sym, ap, ℕ, subst, ◌≡◌, ◌≢◌, refl, ◌∙◌, ◌⊎◌, inl, inr, none, some, Bool, true, false, List, ◌==◌,
  arith, Bool-cases, Option, ◌&&◌,
}
use iocp_chat_server.Base.Int.{pos}
use iocp_chat_server.Network.IocpSession.{IocpSession}
use iocp_chat_server.Network.IocpSession.Buffers.{Full}
use iocp_chat_server.SessionManager.Memory.{
  Pointer, World, Outcome, done, fault, out_of_bounds, Effect, update,
}
use iocp_chat_server.SessionManager.{contains, make}
use iocp_chat_server.SessionManager.Pointers.{contains-remove_ne}
use iocp_chat_server.SessionManager.Close.{without}
use iocp_chat_server.SessionManager.Invariant.{Inv, Inv-store, without-Inv, make-Inv}
use iocp_chat_server.SessionManager.Reaping.{Reaped, Reaped-spared}

-- Log entries and calls of Windows; the session at `p`, which is listed, is written, with its buffers at
-- their size and its base object kept; it is closed and freed.
pub data Changes (p : Pointer) : World → World → Type 0 where
  logs : {w : World} (es : List Effect) → Changes p w (record w { effects = es })
  writes :
      {w : World} (s t : IocpSession)
      → contains p w.session_list ≡ true
      → w.heap p ≡ some s
      → (Full s → Full t)
      → t.session ≡ s.session
      → Changes p w (record w { heap = update w.heap p (some t) })
  closes :
      {w : World} (s : IocpSession)
      → contains p w.session_list ≡ true
      → w.heap p ≡ some s
      → Changes p w (without p s w)
  and_then : {u v w : World} → Changes p u v → Changes p v w → Changes p u w

abbrev pub Owned : World → Type 0
Owned w = (q : Pointer) (s : IocpSession) → w.heap q ≡ some s → contains q w.session_list ≡ true

abbrev pub AllFull : World → Type 0
AllFull w = (q : Pointer) (s : IocpSession) → w.heap q ≡ some s → Full s

-- The invariant; every allocated session is listed, so none is lost; and every session's buffers have
-- their size.
pub record Sound (w : World) : Type 0 where
  pub inv : Inv w
  pub owned : Owned w
  pub full : AllFull w

pub make-Sound : (n : ℕ) → Sound (make (pos n))
unfolding make
make-Sound n = record { inv = make-Inv n; owned = λ q s e. absurd cc; full = λ q s e. absurd cc }

abbrev pub FullAt : Option IocpSession → Type 0
FullAt none = Unit {0}
FullAt (some s) = Full s

-- What stands in the heap after an update.
pub updated :
    (h : Pointer → Option IocpSession) (p q : Pointer) (o : Option IocpSession) (s : IocpSession)
    → update h p o q ≡ some s
    → ((p ≡ q) × (o ≡ some s)) ⊎ ((p ≢ q) × (h q ≡ some s))
updated h p q o s e = elim (Bool-cases (p == q)) [
  | inl y ↦ inl (ground arith, rw y at e)
  | inr y ↦ inr (ground arith, rw y at e)
]

pub Changes-Inv : {p : Pointer} {w w' : World} → Changes p w w' → Inv w → Inv w'
Changes-Inv {p} {w} (logs es) i = record {
  live = i.live;
  distinct = i.distinct;
  counted = i.counted;
  capacity = i.capacity;
}
Changes-Inv {p} {w} (writes s t c e f d) i = Inv-store p t w.effects w i
Changes-Inv {p} {w} (closes s c e) i = without-Inv p s w c i
Changes-Inv (and_then a b) i = Changes-Inv b (Changes-Inv a i)

Changes-Owned : {p : Pointer} {w w' : World} → Changes p w w' → Owned w → Owned w'
unfolding without
Changes-Owned {p} {w} (logs es) i = i
Changes-Owned {p} {w} (writes s t c e f d) i = λ q u x. elim (updated w.heap p q (some t) u x) [
  | inl (same, y) ↦ subst (λ (r : Pointer). contains r w.session_list ≡ true) same c
  | inr (other, y) ↦ i q u y
]
Changes-Owned {p} {w} (closes s c e) i = λ q u x. elim (updated w.heap p q none u x) [
  | inl (same, y) ↦ absurd cc
  | inr (other, y) ↦ contains-remove_ne p q w.session_list other ∙ i q u y
]
Changes-Owned (and_then a b) i = Changes-Owned b (Changes-Owned a i)

Changes-AllFull : {p : Pointer} {w w' : World} → Changes p w w' → AllFull w → AllFull w'
unfolding without
Changes-AllFull {p} {w} (logs es) i = i
Changes-AllFull {p} {w} (writes s t c e f d) i = λ q u x. elim (updated w.heap p q (some t) u x) [
  | inl (same, y) ↦ subst FullAt y (f (i p s e))
  | inr (other, y) ↦ i q u y
]
Changes-AllFull {p} {w} (closes s c e) i = λ q u x. elim (updated w.heap p q none u x) [
  | inl (same, y) ↦ absurd cc
  | inr (other, y) ↦ i q u y
]
Changes-AllFull (and_then a b) i = Changes-AllFull b (Changes-AllFull a i)

pub Changes-Sound : {p : Pointer} {w w' : World} → Changes p w w' → Sound w → Sound w'
Changes-Sound c i = record {
  inv = Changes-Inv c i.inv;
  owned = Changes-Owned c i.owned;
  full = Changes-AllFull c i.full;
}

-- After a loop of the monitor.
pub Reaped-Sound :
    {doomed : Option IocpSession → Bool} {w w' : World}
    → Reaped doomed w.session_list w w'
    → Sound w
    → Sound w'
Reaped-Sound {doomed} {w} {w'} r i = record {
  inv = r.inv;
  owned = λ q s e.
      let x = Reaped-spared r q s e in
      let kept : (contains q w.session_list && doomed (w.heap q)) ≡ false = rw (x.1) (x.0) in
      r.listed q ∙ rw (kept, i.owned q s x.1) refl;
  full = λ q s e. i.full q s (Reaped-spared r q s e).1;
}

-- Where the changes lead, or the one fault that a worker can meet on a session that it may use.
abbrev pub ChangesOrOverreads : {A : Type 0} → Pointer → World → Outcome A → Type 0
ChangesOrOverreads p w (done a w') = Changes p w w'
ChangesOrOverreads p w (fault e) = e ≡ out_of_bounds

pub Changes-before :
    {A : Type 0} {p : Pointer} {w w' : World} (r : Outcome A)
    → Changes p w w'
    → ChangesOrOverreads p w' r
    → ChangesOrOverreads p w r
Changes-before (done a v) c d = and_then c d
Changes-before (fault e) c d = d

-- The other objects and their places are as they were.
pub Changes-others :
    {p : Pointer} {w w' : World}
    → Changes p w w'
    → (q : Pointer) → p ≢ q
    → (w'.heap q ≡ w.heap q) × (contains q w'.session_list ≡ contains q w.session_list)
unfolding without
Changes-others (logs es) q h = (refl, refl)
Changes-others (writes s t c e f d) q h = (ground arith, refl)
Changes-others {p} {w} (closes s c e) q h = (ground arith, contains-remove_ne p q w.session_list h)
Changes-others (and_then a b) q h =
    let x = Changes-others a q h in let y = Changes-others b q h in (y.0 ∙ x.0, y.1 ∙ x.1)

-- The session at `p` afterwards, if there is one, is the one from before, with the same base object.
pub Changes-session :
    {p : Pointer} {w w' : World}
    → Changes p w w'
    → (t : IocpSession) → w'.heap p ≡ some t
    → (s : IocpSession) × (w.heap p ≡ some s) × (t.session ≡ s.session)
unfolding without
Changes-session (logs es) t e = (t, e, refl)
Changes-session {p} {w} (writes s u c before f d) t e = elim (updated w.heap p p (some u) t e) [
  | inl (same, y) ↦
      let one : u ≡ t = cc in (s, before, ap (λ (x : IocpSession). x.session) (sym one) ∙ d)
  | inr (other, y) ↦ absurd (other refl)
]
Changes-session {p} {w} (closes s c before) t e = elim (updated w.heap p p none t e) [
  | inl (same, y) ↦ absurd cc
  | inr (other, y) ↦ absurd (other refl)
]
Changes-session (and_then a b) t e =
    let y = Changes-session b t e in let x = Changes-session a y.0 y.1 in (x.0, x.1, y.2 ∙ x.2)
