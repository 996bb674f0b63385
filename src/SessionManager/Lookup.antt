-- ===== src/SessionManager/Lookup.antt =====
-- SessionManager.cpp, `GetSession` and the identifiers of `CreateSessionId`.
use iocp_chat_server.Base.{
  ℕ, ◌+◌, ◌%◌, ◌^◌, ◌≤◌, ◌<◌, ◌≡◌, refl, ap, ◌∙◌, true, false, List, [], ◌∷◌, ◌++◌, Option, some,
  arith, ◌==◌, ◌⊎◌, inl, inr, ◌≢◌, Bool-cases,
}
use iocp_chat_server.Base.Int.{ltb_ℤ}
use iocp_chat_server.Network.IocpSession.{IocpSession, set_id}
use iocp_chat_server.SessionManager.Memory.{Pointer, World, done, update, ◌>>=◌, ◌>>◌, load_at}
use iocp_chat_server.SessionManager.{contains, find_id, get_session, add_session}
use iocp_chat_server.SessionManager.Invariant.{Heap, Live, Inv}
use iocp_chat_server.SessionManager.Add.{added, add_session-new}

-- What `GetSession` finds among these pointers: 0 if no session has the identifier, or a listed
-- session that has it.
abbrev pub Finds : ℕ → Heap → List Pointer → Pointer → Type 0
Finds id h ps p =
    ((p ≡ 0) × ((q : Pointer) (s : IocpSession) → contains q ps ≡ true → h q ≡ some s → s.id ≢ id))
    ⊎ ((contains p ps ≡ true) × ((s : IocpSession) × (h p ≡ some s) × (s.id ≡ id)))

find_id-hit :
    (id : ℕ) (p : Pointer) (ps : List Pointer) (s : IocpSession) (w : World)
    → w.heap p ≡ some s
    → (s.id == id) ≡ true
    → find_id id (p ∷ ps) w ≡ done p w
unfolding find_id
find_id-hit id p ps s w e x = rw (e, ◌>>=◌, load_at, x)

find_id-miss :
    (id : ℕ) (p : Pointer) (ps : List Pointer) (s : IocpSession) (w : World)
    → w.heap p ≡ some s
    → (s.id == id) ≡ false
    → find_id id (p ∷ ps) w ≡ find_id id ps w
unfolding find_id
find_id-miss id p ps s w e x = rw (e, ◌>>=◌, load_at, x)

Finds-miss :
    (id : ℕ) (h : Heap) (p : Pointer) (ps : List Pointer) (s : IocpSession) (r : Pointer)
    → h p ≡ some s
    → (s.id == id) ≡ false
    → Finds id h ps r
    → Finds id h (p ∷ ps) r
unfolding contains
Finds-miss id h p ps s r e x (inl (z, others)) = inl (
  z,
  λ q t c f. elim (Bool-cases (p == q)) [
    | inl y ↦ let same : h p ≡ h q = ap h (same_of p q y) in λ i. ground arith
    | inr y ↦ others q t (ground arith) f
  ],
)
  where
    same_of : (a b : ℕ) → (a == b) ≡ true → a ≡ b
    same_of a b y = ground arith
Finds-miss id h p ps s r e x (inr (c, t)) = inr (ground arith, t)

find_id-Finds :
    (id : ℕ) (ps : List Pointer) (w : World)
    → Live w.heap ps
    → (p : Pointer) × (find_id id ps w ≡ done p w) × Finds id w.heap ps p
unfolding find_id contains
find_id-Finds id [] w l = (0, refl, inl (refl, λ q s c. cc))
find_id-Finds id (p ∷ ps) w l = elim (Bool-cases (l.1.0.id == id)) [
  | inl x ↦
      (p, find_id-hit id p ps l.1.0 w l.1.1 x, inr (ground arith, (l.1.0, l.1.1, ground arith)))
  | inr x ↦
      let r = find_id-Finds id ps w l.2 in
      (
        r.0,
        find_id-miss id p ps l.1.0 w l.1.1 x ∙ r.1,
        Finds-miss id w.heap p ps l.1.0 r.0 l.1.1 x r.2,
      )
]

-- In a world that keeps the invariant `GetSession` does not fault and changes nothing, and what it
-- returns is right: `nullptr` if no listed session has the identifier, or one that has it.
pub get_session-Finds :
    (id : ℕ) (w : World)
    → Inv w
    → (p : Pointer) × (get_session id w ≡ done p w) × Finds id w.heap w.session_list p
unfolding get_session
get_session-Finds id w i = find_id-Finds id w.session_list w i.live

-- The identifiers given out so far are below the seed.
abbrev pub Seeded : ℕ → Heap → List Pointer → Type 0
Seeded seed h [] = Unit {0}
Seeded seed h (p ∷ ps) = ((s : IocpSession) × (h p ≡ some s) × (s.id < seed)) × Seeded seed h ps

Seeded-update :
    (seed id : ℕ) (h : Heap) (p : Pointer) (o : Option IocpSession) (ps : List Pointer)
    → seed ≤ id
    → contains p ps ≡ false
    → Seeded seed h ps
    → Seeded id (update h p o) ps
unfolding contains
Seeded-update seed id h p o [] k c l = tt
Seeded-update seed id h p o (q ∷ qs) k c l = (
  (l.0.0, ground arith, omega (arith, l.0.2)),
  Seeded-update seed id h p o qs k (ground arith) l.1,
)

Seeded-append :
    (seed : ℕ) (h : Heap) (ps qs : List Pointer)
    → Seeded seed h ps
    → Seeded seed h qs
    → Seeded seed h (ps ++ qs)
Seeded-append seed h [] qs l m = m
Seeded-append seed h (p ∷ ps) qs l m = (l.0, Seeded-append seed h ps qs l.1 m)

-- As long as the seed does not wrap, `AddSession` keeps the identifiers below it.
pub added-Seeded :
    (p : Pointer) (s : IocpSession) (w : World)
    → w.session_seed + 1 < 2 ^ 64
    → contains p w.session_list ≡ false
    → Seeded w.session_seed w.heap w.session_list
    → Seeded (added p s w).session_seed (added p s w).heap (added p s w).session_list
unfolding added set_id
added-Seeded p s w k c l =
    let wrap : (w.session_seed + 1) % 2 ^ 64 ≡ w.session_seed + 1 = omega arith in
    rw wrap (
      Seeded-append _ _ w.session_list (p ∷ [])
        (Seeded-update w.session_seed _ w.heap p _ w.session_list (omega arith) c l)
        ((set_id s w.session_seed, ground arith, omega arith), tt))

find_id-append :
    (seed : ℕ) (p : Pointer) (ps : List Pointer) (t : IocpSession) (w : World)
    → Seeded seed w.heap ps
    → w.heap p ≡ some t
    → t.id ≡ seed
    → find_id seed (ps ++ p ∷ []) w ≡ done p w
find_id-append seed p [] t w l e x = find_id-hit seed p [] t w e (ground arith)
find_id-append seed p (q ∷ qs) t w l e x =
    find_id-miss seed q (qs ++ p ∷ []) l.0.0 w l.0.1 (smaller l.0.0.id seed l.0.2)
    ∙ find_id-append seed p qs t w l.1 e x
  where
    smaller : (a b : ℕ) → a < b → (a == b) ≡ false
    smaller a b h = ground arith

-- A session that `AddSession` takes is the one that `GetSession` then finds under the identifier that
-- it was given, provided that the identifiers given out so far are below the seed.
pub get_session-add_session :
    (p : Pointer) (s : IocpSession) (w : World)
    → contains p w.session_list ≡ false
    → ltb_ℤ w.max_connection w.session_count ≡ false
    → w.heap p ≡ some s
    → Seeded w.session_seed w.heap w.session_list
    → (do add_session p; get_session w.session_seed) w ≡ done p (added p s w)
unfolding get_session added set_id
get_session-add_session p s w c b e l =
    rw (add_session-new p s w c b e, ◌>>=◌)
      (find_id-append w.session_seed p w.session_list (set_id s w.session_seed) (added p s w)
        (Seeded-update w.session_seed w.session_seed w.heap p _ w.session_list (omega arith) c l)
        (ground arith) refl)
