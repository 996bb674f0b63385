-- ===== src/SessionManager/Invariant.antt =====
-- The invariant of the session table: what is listed is allocated and listed once, and the count is
-- the number of sessions. `CloseSession` keeps it and never faults.
use iocp_chat_server.Base.{
  ℕ, suc, ◌≡◌, refl, true, false, List, [], ◌∷◌, ◌++◌, Option, none, some, arith, ◌==◌, inl, inr,
  ◌≢◌, length, Bool-cases,
}
use iocp_chat_server.Base.Int.{pos, ◌-ℤ◌, ◌+ℤ◌, ◌≤ℤ◌}
use iocp_chat_server.Network.IocpSession.{IocpSession}
use iocp_chat_server.SessionManager.Memory.{Pointer, World, Outcome, done, fault, update, Effect}
use iocp_chat_server.SessionManager.{make, contains, remove, close_session}
use iocp_chat_server.SessionManager.Pointers.{
  Distinct, contains-remove_self, length-remove, remove-Distinct,
}
use iocp_chat_server.SessionManager.Close.{without, close_session-listed, close_session-unlisted}

abbrev pub Heap : Type 0
Heap = Pointer → Option IocpSession

-- Every listed pointer leads to an object.
abbrev pub Live : Heap → List Pointer → Type 0
Live h [] = Unit {0}
Live h (p ∷ ps) = (p ≢ 0) × ((s : IocpSession) × (h p ≡ some s)) × Live h ps

pub Live-load :
    (h : Heap) (p : Pointer) (ps : List Pointer)
    → Live h ps
    → contains p ps ≡ true
    → (s : IocpSession) × (h p ≡ some s) × (p ≢ 0)
unfolding contains
Live-load h p [] l c = absurd (impossible c)
  where
    impossible : false ≡ true → ⊥
    impossible e = cc
Live-load h p (q ∷ qs) l c = elim (Bool-cases (q == p)) [
  | inl e ↦ let same : q ≡ p = ground arith in (l.1.0, rw (← same) (l.1.1), rw (← same) (l.0))
  | inr e ↦ Live-load h p qs l.2 (ground arith)
]

pub Live-update :
    (h : Heap) (p : Pointer) (o : Option IocpSession) (ps : List Pointer)
    → Live h ps
    → contains p ps ≡ false
    → Live (update h p o) ps
unfolding contains
Live-update h p o [] l c = tt
Live-update h p o (q ∷ qs) l c =
    (l.0, (l.1.0, ground arith), Live-update h p o qs l.2 (ground arith))

pub Live-remove : (h : Heap) (p : Pointer) (ps : List Pointer) → Live h ps → Live h (remove p ps)
unfolding remove
Live-remove h p [] l = tt
Live-remove h p (q ∷ qs) l = elim (Bool-cases (q == p)) [
  | inl e ↦ rw e (Live-remove h p qs l.2)
  | inr e ↦ rw e (l.0, l.1, Live-remove h p qs l.2)
]

pub Live-append : (h : Heap) (ps qs : List Pointer) → Live h ps → Live h qs → Live h (ps ++ qs)
Live-append h [] qs l m = m
Live-append h (p ∷ ps) qs l m = (l.0, l.1, Live-append h ps qs l.2 m)

pub record Inv (w : World) : Type 0 where
  pub live : Live w.heap w.session_list
  pub distinct : Distinct w.session_list
  pub counted : w.session_count ≡ pos (length w.session_list)
  pub capacity : w.session_count ≤ℤ w.max_connection +ℤ pos 1

pub make-Inv : (n : ℕ) → Inv (make (pos n))
unfolding make ◌+ℤ◌
make-Inv n = record { live = tt; distinct = tt; counted = refl; capacity = ground arith }

pub without-Inv :
    (p : Pointer) (s : IocpSession) (w : World)
    → contains p w.session_list ≡ true
    → Inv w
    → Inv (without p s w)
unfolding without ◌-ℤ◌ ◌+ℤ◌
without-Inv p s w c i =
    let ps = w.session_list in
    record {
      live =
          Live-update w.heap p none (remove p ps) (Live-remove w.heap p ps i.live)
            (contains-remove_self p ps);
      distinct = remove-Distinct p ps i.distinct;
      counted = ground (arith, length-remove p ps i.distinct c, i.counted);
      capacity = ground (arith, i.capacity, i.counted);
    }

-- What an operation leaves behind: a fault is excluded.
abbrev pub Keeps : {A : Type 0} → Outcome A → Type 0
Keeps (done a w) = Inv w
Keeps (fault e) = ⊥

-- `CloseSession` on any pointer, null, dangling or listed, keeps the invariant with no fault. Two
-- levels of calls are enough.
pub close_session-Inv :
    (fuel : ℕ) (p : Pointer) (w : World) → Inv w → Keeps (close_session (suc (suc fuel)) p w)
close_session-Inv fuel p w i = elim (Bool-cases (contains p w.session_list)) [
  | inl c ↦
      let l = Live-load w.heap p w.session_list i.live c in
      rw (close_session-listed fuel p l.0 w l.2 c l.1) (without-Inv p l.0 w c i)
  | inr c ↦ rw (close_session-unlisted (suc fuel) p w (inr c)) i
]

pub Live-store :
    (h : Heap) (p : Pointer) (t : IocpSession) (ps : List Pointer)
    → Live h ps
    → Live (update h p (some t)) ps
Live-store h p t [] l = tt
Live-store h p t (q ∷ qs) l = (
  l.0,
  elim (Bool-cases (p == q)) [ inl e ↦ (t, ground arith) | inr e ↦ (l.1.0, ground arith) ],
  Live-store h p t qs l.2,
)

-- The list and the counters are those of `w`, and one object may have been written.
pub Inv-store :
    (p : Pointer) (t : IocpSession) (es : List Effect) (w : World)
    → Inv w
    → Inv (record w { heap = update w.heap p (some t); effects = es })
Inv-store p t es w i = record {
  live = Live-store w.heap p t w.session_list i.live;
  distinct = i.distinct;
  counted = i.counted;
  capacity = i.capacity;
}
