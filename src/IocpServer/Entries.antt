-- ===== src/IocpServer/Entries.antt =====
-- IOCPServer.cpp, SessionManager.cpp: what a handler does to a session that `GetSession` shows.
use iocp_chat_server.Base.{
  ℕ, ◌≡◌, ◌≢◌, refl, sym, ap, ◌∙◌, ◌⊎◌, inl, inr, none, some, true, false, [], ◌∷◌, ◌==◌, arith,
  Bool-cases, Option-cases,
}
use iocp_chat_server.Network.IocpSession.{IocpSession}
use iocp_chat_server.SessionManager.Memory.{Pointer, World}
use iocp_chat_server.SessionManager.{contains}
use iocp_chat_server.SessionManager.Pointers.{contains-append}
use iocp_chat_server.SessionManager.Invariant.{Inv}
use iocp_chat_server.SessionManager.Changes.{Owned, Changes, Changes-session, Changes-others}
use iocp_chat_server.SessionManager.Frame.{Identified, some-id}
use iocp_chat_server.SessionManager.Directory.{
  Directory, directory, insert, directory-Has, Has-directory, directory-eq, directory-Changes,
}
use iocp_chat_server.IocpServer.Ends.{Same}
use iocp_chat_server.IocpServer.Serve.{Serves}
use iocp_chat_server.IocpServer.Identifiers.{Serves-cases}

-- One session more, with the socket of the connection, under an identifier that no session had.
abbrev pub Joins : (accepter seed : ℕ) → Directory → Directory → Type 0
Joins accepter seed d d' =
    (s : IocpSession) × (s.socket ≡ accepter)
    × (d seed ≡ none)
    × ((j : ℕ) → d' j ≡ insert seed s d j)

-- The session at `p` has this identifier, and afterwards either it is gone, or it has the socket, the
-- address, the identifier, the type and the heart beat that it had.
abbrev pub Handled : Pointer → ℕ → World → Directory → Type 0
Handled p j w d' =
    (s : IocpSession) × (w.heap p ≡ some s)
    × (s.id ≡ j)
    × ((d' j ≡ none) ⊎ ((t : IocpSession) × (d' j ≡ some t) × (t.session ≡ s.session)))

some-session : (s t : IocpSession) → some s ≡ some t → s.session ≡ t.session
some-session s t e = let same : s ≡ t = cc in ap (λ (x : IocpSession). x.session) same

module _ {w w' : World} (i : Inv w) (i' : Inv w') (d : Identified w) (d' : Identified w') where
  pub Same-directory : Same w w' → (j : ℕ) → directory w' j ≡ directory w j
  Same-directory same j =
      directory-eq w w' j i i' d d'
        (λ s h. record {
          pointer = h.pointer;
          listed = rw (same.list) (h.listed);
          there = same.heap h.pointer ∙ h.there;
          named = h.named;
        })
        (λ s h. record {
          pointer = h.pointer;
          listed = rw (← same.list) (h.listed);
          there = sym (same.heap h.pointer) ∙ h.there;
          named = h.named;
        })

  free_seed : directory w w.session_seed ≡ none
  free_seed = elim (Option-cases (directory w w.session_seed)) [
    | inl free ↦ free
    | inr (s, e) ↦
        let h = directory-Has w w.session_seed s i e in
        let b = d.below h.pointer s h.listed h.there in absurd (omega (arith, b, h.named))
  ]

  Serves-listed :
      {p : Pointer} {accepter : ℕ} (v : Serves p accepter w w') (q : Pointer)
      → (contains q w.session_list ≡ true) ⊎ (p ≡ q)
      → contains q w'.session_list ≡ true
  unfolding contains
  Serves-listed {p} v q c =
      rw (v.list, contains-append q w.session_list (p ∷ [])) (ground (arith, c))

  Serves-others :
      {p : Pointer} {accepter : ℕ} (v : Serves p accepter w w') (j : ℕ)
      → w.heap p ≡ none
      → w.session_seed ≢ j
      → directory w' j ≡ directory w j
  Serves-others {p} v j free other =
      directory-eq w w' j i i' d d'
        (λ s h.
          let apart : h.pointer ≢ p =
            λ e. let clash : none ≡ some s = sym free ∙ ap w.heap (sym e) ∙ h.there in cc in
          record {
            pointer = h.pointer;
            listed = Serves-listed v h.pointer (inl h.listed);
            there = v.others h.pointer apart ∙ h.there;
            named = h.named;
          })
        (λ s h. elim (Serves-cases v h.pointer s h.listed h.there) [
          | inl (new, seed) ↦ absurd (other (sym seed ∙ h.named))
          | inr (listed, there) ↦ record {
            pointer = h.pointer;
            listed = listed;
            there = there;
            named = h.named;
          }
        ])

  pub Serves-Joins :
      {p : Pointer} {accepter : ℕ}
      → Serves p accepter w w'
      → w.heap p ≡ none
      → Joins accepter w.session_seed (directory w) (directory w')
  Serves-Joins {p} {accepter} v free = (
    v.session,
    v.socket,
    free_seed,
    λ j. elim (Bool-cases (w.session_seed == j)) [
      | inl y ↦
          let same : w.session_seed ≡ j = ground arith in
          rw y (
            Has-directory w' j v.session i' d' (record {
              pointer = p;
              listed = Serves-listed v p (inr refl);
              there = v.there;
              named = v.id ∙ same;
            }))
      | inr n ↦ rw n (Serves-others v j free (ground arith))
    ],
  )

  -- Of the session that the worker handles, if it is still found.
  Changes-found :
      (p : Pointer) (s t : IocpSession)
      → Changes p w w'
      → contains p w.session_list ≡ true
      → w.heap p ≡ some s
      → directory w' s.id ≡ some t
      → t.session ≡ s.session
  Changes-found p s t c listed e found =
      let h = directory-Has w' s.id t i' found in
      elim (Bool-cases (p == h.pointer)) [
        | inl y ↦
            let same : p ≡ h.pointer = ground arith in
            let x = Changes-session c t (ap w'.heap same ∙ h.there) in
            x.2 ∙ some-session x.0 s (sym x.1 ∙ e)
        | inr n ↦
            let other : p ≢ h.pointer = ground arith in
            let x = Changes-others c h.pointer other in
            absurd (
              other (
                d.unique p h.pointer s t listed (sym x.1 ∙ h.listed) e (sym x.0 ∙ h.there)
                  (sym h.named)))
      ]

  pub Changes-directory :
      (p : Pointer) (j : ℕ)
      → Owned w
      → Changes p w w'
      → (directory w' j ≡ directory w j) ⊎ Handled p j w (directory w')
  Changes-directory p j owned c = elim (Option-cases (w.heap p)) [
    | inl free ↦ inl (
        directory-Changes p w w' i i' d d' c j
          (λ s e. let clash : none ≡ some s = sym free ∙ e in absurd cc))
    | inr (s, e) ↦ elim (Bool-cases (s.id == j)) [
      | inl y ↦
          let same : s.id ≡ j = ground arith in
          inr (
            s,
            e,
            same,
            elim (Option-cases (directory w' j)) [
              | inl gone ↦ inl gone
              | inr (t, found) ↦
                  inr (t, found, Changes-found p s t c (owned p s e) e (rw same found))
            ],
          )
      | inr n ↦ inl (directory-Changes p w w' i i' d d' c j (λ t f. other_id s t j n (sym e ∙ f)))
    ]
  ]
    where
      other_id : (s t : IocpSession) (j : ℕ) → (s.id == j) ≡ false → some s ≡ some t → t.id ≢ j
      other_id s t j n e = let same = some-id s t e in ground arith
