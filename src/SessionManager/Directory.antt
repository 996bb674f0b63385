-- ===== src/SessionManager/Directory.antt =====
-- SessionManager.cpp as a directory: what `GetSession` shows of the table, which is a map from
-- identifiers to sessions. Pointers and the order of the list are forgotten.
use iocp_chat_server.Base.{
  ℕ, ◌≡◌, ◌≢◌, refl, sym, ap, ◌∙◌, inl, inr, Option, none, some, true, false, ◌==◌, ◌&&◌, arith,
  Bool-cases, Option-cases, if◌then◌else◌,
}
use iocp_chat_server.Network.IocpSession.{IocpSession}
use iocp_chat_server.SessionManager.Memory.{Pointer, World, done, fault}
use iocp_chat_server.SessionManager.{contains, get_session, is_expired}
use iocp_chat_server.SessionManager.Invariant.{Inv, Live-load}
use iocp_chat_server.SessionManager.Lookup.{get_session-Finds}
use iocp_chat_server.SessionManager.Reaping.{Reaped, Reaped-spared, expired_at}
use iocp_chat_server.SessionManager.Changes.{Changes, Changes-others}
use iocp_chat_server.SessionManager.Frame.{Identified, some-id, Changes-Frames, Reaped-Frames}

abbrev pub Directory : Type 0
Directory = ℕ → Option IocpSession

-- The session that `GetSession` returns, with `none` for `nullptr`.
unfoldable pub directory : World → Directory
directory w id = elim (get_session id w) [
  | done p v ↦ (if p == 0 then none else v.heap p)
  | fault e ↦ none
]

-- The operations of a map, and the round of the monitor over it.
abbrev pub insert : ℕ → IocpSession → Directory → Directory
insert id s d j = if id == j then some s else d j

abbrev pub spare : ℕ → Option IocpSession → Option IocpSession
spare now none = none
spare now (some s) = if is_expired now s then none else some s

abbrev pub sweep : ℕ → Directory → Directory
sweep now d j = spare now (d j)

-- A listed session has this identifier.
pub record Has (w : World) (id : ℕ) (s : IocpSession) : Type 0 where
  pub pointer : Pointer
  pub listed : contains pointer w.session_list ≡ true
  pub there : w.heap pointer ≡ some s
  pub named : s.id ≡ id

same_option :
    (a b : Option IocpSession)
    → ((s : IocpSession) → a ≡ some s → b ≡ some s)
    → ((s : IocpSession) → b ≡ some s → a ≡ some s)
    → a ≡ b
same_option none none f g = refl
same_option none (some s) f g = g s refl
same_option (some s) b f g = sym (f s refl)

some-injective : {s t : IocpSession} → some s ≡ some t → s ≡ t
some-injective e = cc

pub directory-Has :
    (w : World) (id : ℕ) (s : IocpSession) → Inv w → directory w id ≡ some s → Has w id s
unfolding directory
directory-Has w id s i e =
    let (p, gives, finds) = get_session-Finds id w i in
    let shown : (if p == 0 then none else w.heap p) ≡ some s = rw (directory, gives) at e in
    elim finds [
      | inl (null, missing) ↦
          let zero : (p == 0) ≡ true = ground arith in
          let clash : none ≡ some s = rw zero at shown in absurd cc
      | inr (listed, (t, there, same)) ↦
          let l = Live-load w.heap p w.session_list i.live listed in
          let some_pointer : (p == 0) ≡ false = ground (arith, l.2) in
          let here : w.heap p ≡ some s = rw some_pointer at shown in
          record {
            pointer = p;
            listed = listed;
            there = here;
            named = some-id s t (sym here ∙ there) ∙ same;
          }
    ]

pub Has-directory :
    (w : World) (id : ℕ) (s : IocpSession)
    → Inv w
    → Identified w
    → Has w id s
    → directory w id ≡ some s
unfolding directory
Has-directory w id s i d h =
    let (p, gives, finds) = get_session-Finds id w i in
    elim finds [
      | inl (null, missing) ↦ absurd (missing h.pointer s h.listed h.there h.named)
      | inr (listed, (t, there, same)) ↦
          let l = Live-load w.heap p w.session_list i.live listed in
          let some_pointer : (p == 0) ≡ false = ground (arith, l.2) in
          let one = d.unique p h.pointer t s listed h.listed there h.there (same ∙ sym h.named) in
          rw (directory, gives, some_pointer) (ap w.heap one ∙ h.there)
    ]

-- Two tables that have the same sessions under an identifier.
pub directory-eq :
    (w w' : World) (id : ℕ)
    → Inv w
    → Inv w'
    → Identified w
    → Identified w'
    → ((s : IocpSession) → Has w id s → Has w' id s)
    → ((s : IocpSession) → Has w' id s → Has w id s)
    → directory w' id ≡ directory w id
directory-eq w w' id i i' d d' f g =
    same_option (directory w' id) (directory w id)
      (λ s e. Has-directory w id s i d (g s (directory-Has w' id s i' e)))
      (λ s e. Has-directory w' id s i' d' (f s (directory-Has w id s i e)))

Has-Reaped :
    (now : ℕ) (w w' : World)
    → Reaped (expired_at now) w.session_list w w'
    → (id : ℕ) (s : IocpSession) → Has w id s
    → is_expired now s ≡ false
    → Has w' id s
Has-Reaped now w w' r id s h fresh =
    let q = h.pointer in
    let stays : (contains q w.session_list && expired_at now (w.heap q)) ≡ false =
      rw (h.listed, h.there, fresh) refl in
    record {
      pointer = q;
      listed = r.listed q ∙ rw (stays, h.listed) refl;
      there = r.memory q ∙ rw stays (h.there);
      named = h.named;
    }

-- A round of the monitor leaves under each identifier the session that is not expired.
pub directory-Reaped :
    (now : ℕ) (w w' : World)
    → Inv w
    → Identified w
    → Identified w'
    → Reaped (expired_at now) w.session_list w w'
    → (id : ℕ) → directory w' id ≡ sweep now (directory w) id
directory-Reaped now w w' i d d' r id =
    same_option (directory w' id) (sweep now (directory w) id)
      (λ s e.
        let h = directory-Has w' id s r.inv e in
        let before = Reaped-spared r h.pointer s h.there in
        let listed = (Reaped-Frames r).listed h.pointer h.listed in
        let fresh : is_expired now s ≡ false = rw listed at (before.0) in
        let found =
          Has-directory w id s i d
            (record { pointer = h.pointer; listed = listed; there = before.1; named = h.named }) in
        ap (spare now) found ∙ rw fresh refl)
      (λ s e. elim (Option-cases (directory w id)) [
        | inl empty ↦ let clash : none ≡ some s = rw empty at e in absurd cc
        | inr (u, found) ↦ elim (Bool-cases (is_expired now u)) [
          | inl expired ↦
              let left : (if is_expired now u then none else some u) ≡ some s = rw found at e in
              let clash : none ≡ some s = rw expired at left in absurd cc
          | inr fresh ↦
              let left : (if is_expired now u then none else some u) ≡ some s = rw found at e in
              let same : some u ≡ some s = rw fresh at left in
              Has-directory w' id u r.inv d'
                (Has-Reaped now w w' r id u (directory-Has w id u i found) fresh)
              ∙ same
        ]
      ])

-- A worker leaves every session but its own where it was.
pub directory-Changes :
    (p : Pointer) (w w' : World)
    → Inv w
    → Inv w'
    → Identified w
    → Identified w'
    → Changes p w w'
    → (id : ℕ) → ((s : IocpSession) → w.heap p ≡ some s → s.id ≢ id)
    → directory w' id ≡ directory w id
directory-Changes p w w' i i' d d' c id apart =
    directory-eq w w' id i i' d d'
      (λ s h.
        let other : p ≢ h.pointer = λ e. apart s (ap w.heap e ∙ h.there) h.named in
        let x = Changes-others c h.pointer other in
        record {
          pointer = h.pointer;
          listed = x.1 ∙ h.listed;
          there = x.0 ∙ h.there;
          named = h.named;
        })
      (λ s h. elim (Bool-cases (p == h.pointer)) [
        | inl y ↦
            let same : p ≡ h.pointer = ground arith in
            let (u, before, named) = (Changes-Frames c).same h.pointer s h.listed h.there in
            absurd (apart u (ap w.heap same ∙ before) (named ∙ h.named))
        | inr n ↦
            let x = Changes-others c h.pointer (ground arith) in
            record {
              pointer = h.pointer;
              listed = sym x.1 ∙ h.listed;
              there = sym x.0 ∙ h.there;
              named = h.named;
            }
      ])
