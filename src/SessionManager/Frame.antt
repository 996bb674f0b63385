-- ===== src/SessionManager/Frame.antt =====
-- SessionManager.cpp and SessionMonitor.cpp: nothing but `AddSession` adds a session, gives out an
-- identifier or changes one.
use iocp_chat_server.Base.{
  ℕ, ◌<◌, ◌≡◌, ◌≢◌, refl, sym, ap, ◌∙◌, inl, inr, Option, none, some, Bool, true, false, List, ◌==◌,
  arith, Bool-cases,
}
use iocp_chat_server.Base.Int.{pos}
use iocp_chat_server.Session.{Session}
use iocp_chat_server.Network.IocpSession.{IocpSession}
use iocp_chat_server.SessionManager.Memory.{Pointer, World}
use iocp_chat_server.SessionManager.{contains, remove, make}
use iocp_chat_server.SessionManager.Pointers.{contains-remove_self, contains-remove_ne}
use iocp_chat_server.SessionManager.Close.{without}
use iocp_chat_server.SessionManager.Reaping.{Reaped, Reaped-spared}
use iocp_chat_server.SessionManager.Changes.{Changes, logs, writes, closes, and_then, updated}

id_or_zero : Option IocpSession → ℕ
id_or_zero none = 0
id_or_zero (some s) = s.id

pub some-id : (s t : IocpSession) → some s ≡ some t → s.id ≡ t.id
unfolding id_or_zero
some-id s t e = ap id_or_zero e

-- The object at `q` has this identifier.
abbrev pub HasId : Pointer → ℕ → World → Type 0
HasId q id w = (s : IocpSession) × (w.heap q ≡ some s) × (s.id ≡ id)

-- From `w` to `w'` no session is new, and those that are listed keep their identifiers.
pub record Frames (w w' : World) : Type 0 where
  pub seed : w'.session_seed ≡ w.session_seed
  pub listed : (q : Pointer) → contains q w'.session_list ≡ true → contains q w.session_list ≡ true
  pub same :
      (q : Pointer) (t : IocpSession)
      → contains q w'.session_list ≡ true
      → w'.heap q ≡ some t
      → HasId q t.id w

pub Frames-refl : (w : World) → Frames w w
Frames-refl w = record { seed = refl; listed = λ q c. c; same = λ q t c e. (t, e, refl) }

pub Frames-trans : {w w' w'' : World} → Frames w w' → Frames w' w'' → Frames w w''
Frames-trans f g = record {
  seed = g.seed ∙ f.seed;
  listed = λ q c. f.listed q (g.listed q c);
  same = λ q t c e.
      let x = g.same q t c e in let y = f.same q x.0 (g.listed q c) x.1 in (y.0, y.1, y.2 ∙ x.2);
}

contains-removed :
    (p q : Pointer) (ps : List Pointer)
    → contains q (remove p ps) ≡ true
    → (p ≢ q) × (contains q ps ≡ true)
contains-removed p q ps c = elim (Bool-cases (p == q)) [
  | inl e ↦
      let same : p ≡ q = ground arith in
      let gone : false ≡ true = sym (contains-remove_self p ps) ∙ rw (← same) at c in absurd cc
  | inr e ↦ let other : p ≢ q = ground arith in (other, sym (contains-remove_ne p q ps other) ∙ c)
]

pub Changes-Frames : {p : Pointer} {w w' : World} → Changes p w w' → Frames w w'
unfolding without
Changes-Frames {p} {w} (logs es) = record {
  seed = refl;
  listed = λ q c. c;
  same = λ q t c e. (t, e, refl);
}
Changes-Frames {p} {w} (writes s t c e f kept) = record {
  seed = refl;
  listed = λ q d. d;
  same = λ q u d x. elim (updated w.heap p q (some t) u x) [
    | inl (same, y) ↦
        (s, ap w.heap (sym same) ∙ e, sym (ap (λ (x : Session). x.id) kept) ∙ some-id t u y)
    | inr (other, y) ↦ (u, y, refl)
  ];
}
Changes-Frames {p} {w} (closes s c e) = record {
  seed = refl;
  listed = λ q d. (contains-removed p q w.session_list d).1;
  same = λ q u d x. elim (updated w.heap p q none u x) [
    | inl (same, y) ↦ absurd cc
    | inr (other, y) ↦ (u, y, refl)
  ];
}
Changes-Frames (and_then a b) = Frames-trans (Changes-Frames a) (Changes-Frames b)

pub Reaped-Frames :
    {doomed : Option IocpSession → Bool} {ps : List Pointer} {w w' : World}
    → Reaped doomed ps w w'
    → Frames w w'
Reaped-Frames {doomed} {ps} {w} {w'} r = record {
  seed = r.seed;
  listed = λ q c. ground (arith, r.listed q);
  same = λ q t c e. (t, (Reaped-spared r q t e).1, refl);
}

-- The listed sessions have identifiers below the seed, no two the same.
pub record Identified (w : World) : Type 0 where
  pub below :
      (p : Pointer) (s : IocpSession)
      → contains p w.session_list ≡ true
      → w.heap p ≡ some s
      → s.id < w.session_seed
  pub unique :
      (p q : Pointer) (s t : IocpSession)
      → contains p w.session_list ≡ true
      → contains q w.session_list ≡ true
      → w.heap p ≡ some s
      → w.heap q ≡ some t
      → s.id ≡ t.id
      → p ≡ q

pub make-Identified : (n : ℕ) → Identified (make (pos n))
unfolding make contains
make-Identified n = record { below = λ p s c. cc; unique = λ p q s t c. cc }

pub Frames-Identified : {w w' : World} → Frames w w' → Identified w → Identified w'
Frames-Identified {w} {w'} f i = record {
  below = λ p s c e.
      let x = f.same p s c e in
      let b = i.below p x.0 (f.listed p c) x.1 in omega (arith, b, x.2, f.seed);
  unique = λ p q s t c d e g same.
      let x = f.same p s c e in
      let y = f.same q t d g in
      i.unique p q x.0 y.0 (f.listed p c) (f.listed q d) x.1 y.1 (x.2 ∙ same ∙ sym y.2);
}
