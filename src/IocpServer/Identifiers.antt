-- ===== src/IocpServer/Identifiers.antt =====
-- IOCPServer.cpp and SessionManager.cpp together: the identifiers that `CreateSessionId` gives out, over
-- all that a server goes through.
use iocp_chat_server.Base.{
  ℕ, suc, ◌+◌, ◌^◌, ◌<◌, ◌≤◌, ◌≡◌, refl, sym, ap, ◌∙◌, ◌⊎◌, inl, inr, some, true, List, [], ◌∷◌,
  ◌++◌, ◌==◌, arith, Bool-cases, Option,
}
use iocp_chat_server.Network.{PacketObfuscation, Winsock}
use iocp_chat_server.Network.IocpSession.{IocpSession}
use iocp_chat_server.SessionManager.Memory.{
  Pointer, World, done, fault, pure, Outcome, Outcome-cases, ◌>>=◌, ◌>>◌,
}
use iocp_chat_server.SessionManager.{contains, make, get_session}
use iocp_chat_server.SessionManager.Pointers.{contains-append}
use iocp_chat_server.SessionManager.Changes.{Sound}
use iocp_chat_server.SessionManager.Frame.{
  Frames, some-id, Changes-Frames, Reaped-Frames, Identified, make-Identified, Frames-Identified,
}
use iocp_chat_server.SessionManager.Reaping.{tick-Reaped}
use iocp_chat_server.SessionManager.Lookup.{get_session-Finds}
use iocp_chat_server.IocpServer.{on_accept}
use iocp_chat_server.IocpServer.Sound.{Stale-cases, unlisted_free}
use iocp_chat_server.IocpServer.Ends.{Same, Ends, on_accept-Ends}
use iocp_chat_server.IocpServer.Serve.{Serves}
use iocp_chat_server.IocpServer.Receipts.{windows_receives, windows_receives-Changes}
use iocp_chat_server.IocpServer.Worker.{Completion, worker_step}
use iocp_chat_server.IocpServer.Worker.Safety.{worker_step-Changes, worker_step-stale}
use iocp_chat_server.IocpServer.History.{
  Happening, accepts, completes, receives, reaps, Admitted, perform, Reachable, start, after,
  Reachable-Sound,
}

same_pointer : (p q : Pointer) → (p == q) ≡ true → q ≡ p
same_pointer p q e = ground arith

-- A session of `w'` is the new one, or it was in `w`.
pub Serves-cases :
    {p : Pointer} {accepter : ℕ} {w w' : World} (v : Serves p accepter w w') (q : Pointer)
    (t : IocpSession)
    → contains q w'.session_list ≡ true
    → w'.heap q ≡ some t
    → ((q ≡ p) × (t.id ≡ w.session_seed))
      ⊎ ((contains q w.session_list ≡ true) × (w.heap q ≡ some t))
unfolding contains
Serves-cases {p} {accepter} {w} {w'} v q t c e = elim (Bool-cases (p == q)) [
  | inl y ↦
      inl (
        ground arith,
        some-id t v.session (sym e ∙ ap w'.heap (same_pointer p q y) ∙ v.there) ∙ v.id,
      )
  | inr y ↦ inr (
    let among : contains q (w.session_list ++ p ∷ []) ≡ true = rw v.list at c in
        ground (arith, contains-append q w.session_list (p ∷ [])),
    sym (v.others q (ground arith)) ∙ e,
  )
]

Serves-Identified :
    {p : Pointer} {accepter : ℕ} {w w' : World}
    → Serves p accepter w w'
    → w.session_seed + 1 < 2 ^ 64
    → Identified w
    → Identified w'
Serves-Identified {p} {accepter} {w} {w'} v k i =
    let next : w'.session_seed ≡ w.session_seed + 1 = omega (arith, v.seed, k) in
    record {
      below = λ q t c e. elim (Serves-cases v q t c e) [
        | inl (new, x) ↦ omega (arith, x, next)
        | inr (old, x) ↦ let b = i.below q t old x in omega (arith, b, next)
      ];
      unique = λ q r s t c d e f same. elim (Serves-cases v q s c e) [
        | inl (x, sx) ↦ elim (Serves-cases v r t d f) [
          | inl (y, ty) ↦ x ∙ sym y
          | inr (y, ty) ↦ let b = i.below r t y ty in absurd (omega (arith, b, sx, same))
        ]
        | inr (x, sx) ↦ elim (Serves-cases v r t d f) [
          | inl (y, ty) ↦ let b = i.below q s x sx in absurd (omega (arith, b, ty, same))
          | inr (y, ty) ↦ i.unique q r s t x y sx ty same
        ]
      ];
    }

-- What a step does to the table: a frame, or one new session that was free before.
abbrev pub Grows : World → Outcome (Unit {0}) → Type 0
Grows w (done x w') = Frames w w' ⊎ ((p : Pointer) × (accepter : ℕ) × Serves p accepter w w')
Grows w (fault e) = Unit {0}

pub Same-Frames : {w w' : World} → Same w w' → Frames w w'
Same-Frames v = record {
  seed = v.seed;
  listed = λ q c. rw (← v.list) c;
  same = λ q t c e. (t, sym (v.heap q) ∙ e, refl);
}

Ends-Grows :
    (p : Pointer) (accepter handle : ℕ) (w : World) (r : Outcome (Unit {0}))
    → Ends p accepter handle w r
    → Grows w r
Ends-Grows p accepter handle w (done t w') (inl same) = inl (Same-Frames same)
Ends-Grows p accepter handle w (done t w') (inr serves) = inr (p, accepter, serves)
Ends-Grows p accepter handle w (fault e) k = tt

module _ (net : Winsock) (o : PacketObfuscation) (analyzer : List ℕ → Option ℕ) (fuel : ℕ) where
  worker_step-Grows :
      (c : Completion) (w : World)
      → Sound w
      → Grows w ((do worker_step net o analyzer (suc (suc fuel)) c; pure tt) w)
  worker_step-Grows c w i = elim (Stale-cases c w) [
    | inl stale ↦
        rw
          (
            worker_step-stale net o analyzer (suc (suc fuel)) c w stale.0 stale.1
                (unlisted_free c.session w i.owned stale.2),
            ◌>>=◌,
          )
          tt
    | inr known ↦
        let changes = worker_step-Changes net o analyzer fuel c w i.inv known in
        elim (Outcome-cases (worker_step net o analyzer (suc (suc fuel)) c w)) [
          | inl (a, w', e) ↦ rw (e, ◌>>=◌) (inl (Changes-Frames (rw e at changes)))
          | inr (f, e) ↦ rw (e, ◌>>=◌) tt
        ]
  ]

  pub perform-Grows :
      (h : Happening) (w : World)
      → Sound w
      → Admitted h w
      → Grows w (perform net o analyzer fuel h w)
  unfolding perform
  perform-Grows (accepts a accepter address) w i d =
      Ends-Grows a.pointer accepter a.handle w (on_accept net (suc (suc fuel)) a accepter address w)
        (on_accept-Ends net fuel a accepter address w i.inv d)
  perform-Grows (completes c) w i d = worker_step-Grows c w i
  perform-Grows (receives p bytes) w i d =
      let changes = windows_receives-Changes p bytes w i in
      elim (Outcome-cases (windows_receives p bytes w)) [
        | inl (a, w', e) ↦ rw e (inl (Changes-Frames (rw e at changes)))
        | inr (f, e) ↦ rw e tt
      ]
  perform-Grows (reaps now) w i d =
      let r = tick-Reaped fuel now w i.inv in rw (r.1) (inl (Reaped-Frames r.2))

-- How much has happened.
unfoldable pub happened :
    {net : Winsock} {o : PacketObfuscation} {analyzer : List ℕ → Option ℕ} {fuel : ℕ} {w : World}
    → Reachable net o analyzer fuel w
    → ℕ
happened (start n) = 0
happened (after h r d e) = suc (happened r)

pub Grows-Identified :
    {w w' : World}
    → Frames w w' ⊎ ((p : Pointer) × (accepter : ℕ) × Serves p accepter w w')
    → (n : ℕ) → n + 2 < 2 ^ 64
    → (w.session_seed ≤ n + 1) × Identified w
    → (w'.session_seed ≤ suc n + 1) × Identified w'
Grows-Identified {w} {w'} (inl f) n k (b, i) = (omega (arith, b, f.seed), Frames-Identified f i)
Grows-Identified {w} {w'} (inr (p, accepter, v)) n k (b, i) =
    (omega (arith, b, v.seed), Serves-Identified v (omega (arith, b, k)) i)

module _ {net : Winsock} {o : PacketObfuscation} {analyzer : List ℕ → Option ℕ} {fuel : ℕ} where
  pub Reachable-Identified :
      {w : World} (r : Reachable net o analyzer fuel w)
      → happened r + 1 < 2 ^ 64
      → (w.session_seed ≤ happened r + 1) × Identified w
  unfolding happened make
  Reachable-Identified (start n) k = (omega arith, make-Identified n)
  Reachable-Identified (after {w} {w'} h r d e) k =
      Grows-Identified (rw e at (perform-Grows net o analyzer fuel h w (Reachable-Sound r) d))
        (happened r) (omega (arith, k)) (Reachable-Identified r (omega (arith, k)))

-- With the provisions of `perform-Reachable`: after fewer than 2^64 - 1 accepted connections, receipts
-- of bytes, completions and rounds of the monitor, in any order, `GetSession` finds each listed session under its
-- own identifier, and changes nothing.
pub get_session-Reachable :
    {net : Winsock} {o : PacketObfuscation} {analyzer : List ℕ → Option ℕ} {fuel : ℕ} {w : World}
    (r : Reachable net o analyzer fuel w) (p : Pointer) (s : IocpSession)
    → happened r + 1 < 2 ^ 64
    → contains p w.session_list ≡ true
    → w.heap p ≡ some s
    → get_session s.id w ≡ done p w
get_session-Reachable {w = w} r p s k c e =
    let i = Reachable-Identified r k in
    let (q, gives, finds) = get_session-Finds s.id w (Reachable-Sound r).inv in
    elim finds [
      | inl (null, missing) ↦ absurd (missing p s c e refl)
      | inr (d, (t, f, same)) ↦
          gives ∙ ap (λ (x : Pointer). done x w) (i.1.unique q p t s d c f e same)
    ]
