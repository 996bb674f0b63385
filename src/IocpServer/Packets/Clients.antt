-- ===== src/IocpServer/Packets/Clients.antt =====
-- IOCPServer.cpp and IOCPSession.cpp together: the bytes of many clients, whose completions are
-- handled one after another. `Clients/Streams` is about the packets in them.
pub mod Streams
use iocp_chat_server.Base.{
  ℕ, ◌≡◌, ◌≢◌, refl, sym, ap, ◌∙◌, ◌⊎◌, inl, inr, some, true, false, List, [], ◌∷◌, ◌==◌, arith,
  Option, subst, if◌then◌else◌, Bool-cases,
}
use iocp_chat_server.Network.{PacketObfuscation, Winsock}
use iocp_chat_server.Network.IoData.{io_read}
use iocp_chat_server.Network.IocpSession.{
  IocpSession, Received, needs_more, packaged, invalid_packet, overreads,
}
use iocp_chat_server.Network.IocpSession.Reassembly.{
  arrive, arrive_all, arrive_all-nil, arrive_all-cons, NonEmpty,
}
use iocp_chat_server.SessionManager.Memory.{Pointer, World, M, done, ◌>>=◌, ◌>>◌}
use iocp_chat_server.IocpServer.Packets.{packages, arrives, arrive-type}
use iocp_chat_server.IocpServer.Packets.Pieces.{AllFine, Puts, packed, arrives-Puts}

-- What Windows puts into the buffers, and for which session.
abbrev pub Arrivals : Type 0
Arrivals = List (Pointer × List ℕ)

unfoldable pub pieces_of : Pointer → Arrivals → List (List ℕ)
pieces_of p [] = []
pieces_of p ((q, c) ∷ es) = if q == p then c ∷ pieces_of p es else pieces_of p es

-- The packages of one session.
unfoldable pub packages_of : Pointer → List (Pointer × ℕ) → List ℕ
packages_of p [] = []
packages_of p ((q, k) ∷ l) = if q == p then k ∷ packages_of p l else packages_of p l

-- The packages of these results, on top of those before.
abbrev pub newest : List (Received ℕ) → List ℕ → List ℕ
newest [] l = l
newest (packaged k ∷ rs) l = newest rs (k ∷ l)
newest (needs_more ∷ rs) l = newest rs l
newest (invalid_packet ∷ rs) l = newest rs l
newest (overreads ∷ rs) l = newest rs l

packages_of-packed :
    (p q : Pointer) (r : Received ℕ) (l : List (Pointer × ℕ))
    → (p == q) ≡ true
    → packages_of q (packed p (r ∷ []) l) ≡ newest (r ∷ []) (packages_of q l)
unfolding packages_of packed
packages_of-packed p q (packaged k) l y = rw y refl
packages_of-packed p q needs_more l y = refl
packages_of-packed p q invalid_packet l y = refl
packages_of-packed p q overreads l y = refl

packages_of-packed_ne :
    (p q : Pointer) (r : Received ℕ) (l : List (Pointer × ℕ))
    → (p == q) ≡ false
    → packages_of q (packed p (r ∷ []) l) ≡ packages_of q l
unfolding packages_of packed
packages_of-packed_ne p q (packaged k) l n = rw n refl
packages_of-packed_ne p q needs_more l n = refl
packages_of-packed_ne p q invalid_packet l n = refl
packages_of-packed_ne p q overreads l n = refl

newest-cons :
    (r : Received ℕ) (rs : List (Received ℕ)) (l : List ℕ)
    → newest rs (newest (r ∷ []) l) ≡ newest (r ∷ rs) l
newest-cons (packaged k) rs l = refl
newest-cons needs_more rs l = refl
newest-cons invalid_packet rs l = refl
newest-cons overreads rs l = refl

some-injective : {s t : IocpSession} → some s ≡ some t → s ≡ t
some-injective e = cc

module _ (net : Winsock) (o : PacketObfuscation) (analyzer : List ℕ → Option ℕ) (fuel : ℕ) where
  -- One completion after another, as the workers get them.
  unfoldable pub arrive_from : Arrivals → M (Unit {0})
  arrive_from [] w = done tt w
  arrive_from ((p, c) ∷ es) w =
      let rest = arrive_from es in (do arrives net o analyzer fuel p c; rest) w

  -- The session at `p` reads, the pieces for it are not empty, and it lives on after each of them.
  pub record Ready (w : World) (p : Pointer) (cs : List (List ℕ)) : Type 0 where
    pub session : IocpSession
    pub there : w.heap p ≡ some session
    pub not_null : p ≢ 0
    pub reads : session.read.io_type ≡ io_read
    pub non_empty : NonEmpty cs
    pub fine : AllFine (arrive_all net o analyzer session cs).1

  -- Each session has become what its own pieces make of it, and its packages are those of its own pieces,
  -- in order.
  pub record Served (es : Arrivals) (w w' : World) : Type 0 where
    pub list : w'.session_list ≡ w.session_list
    pub there :
        (p : Pointer) (s : IocpSession)
        → w.heap p ≡ some s
        → w'.heap p ≡ some (arrive_all net o analyzer s (pieces_of p es)).0
    pub packages_put :
        (p : Pointer) (s : IocpSession)
        → w.heap p ≡ some s
        → packages_of p (packages w'.effects)
          ≡ newest
              (arrive_all net o analyzer s (pieces_of p es)).1
              (packages_of p (packages w.effects))

  Served-nil : (w : World) → Served [] w w
  unfolding pieces_of
  Served-nil w = record {
    list = refl;
    there = λ p s e. rw (arrive_all-nil net o analyzer s) e;
    packages_put = λ p s e. rw (arrive_all-nil net o analyzer s) refl;
  }

  Ready-next :
      (p : Pointer) (c : List ℕ) (cs : List (List ℕ)) (s : IocpSession) (l : List (Pointer × ℕ))
      (w v : World)
      → w.heap p ≡ some s
      → Puts p (arrive net o analyzer s c).0 l w v
      → Ready w p (c ∷ cs)
      → Ready v p cs
  Ready-next p c cs s l w v e puts r =
      let one : r.session ≡ s = some-injective (sym r.there ∙ e) in
      let all : AllFine (arrive_all net o analyzer s (c ∷ cs)).1 = rw (← one) (r.fine) in
      let fine : AllFine (
          (arrive net o analyzer s c).1
          ∷ (arrive_all net o analyzer (arrive net o analyzer s c).0 cs).1) =
        rw (arrive_all-cons net o analyzer s c cs) at all in
      record {
        session = (arrive net o analyzer s c).0;
        there = puts.there;
        not_null = r.not_null;
        reads =
            arrive-type net o analyzer s c
            ∙ ap (λ (x : IocpSession). x.read.io_type) (sym one)
            ∙ r.reads;
        non_empty = r.non_empty.1;
        fine = fine.1;
      }

  -- What the first completion leaves for the others.
  pub Ready-tail :
      (p q : Pointer) (c : List ℕ) (es : Arrivals) (s : IocpSession) (l : List (Pointer × ℕ))
      (w v : World)
      → w.heap p ≡ some s
      → Puts p (arrive net o analyzer s c).0 l w v
      → (pieces_of q ((p, c) ∷ es) ≡ []) ⊎ Ready w q (pieces_of q ((p, c) ∷ es))
      → (pieces_of q es ≡ []) ⊎ Ready v q (pieces_of q es)
  unfolding pieces_of
  Ready-tail p q c es s l w v e puts k = elim (Bool-cases (p == q)) [
    | inl y ↦
        let same : p ≡ q = ground arith in
        let mine : (c ∷ pieces_of q es ≡ []) ⊎ Ready w q (c ∷ pieces_of q es) = rw y at k in
        elim mine [
          | inl clash ↦ absurd cc
          | inr r ↦ inr (
              subst (λ (x : Pointer). Ready v x (pieces_of q es)) same
                (Ready-next p c (pieces_of q es) s l w v e puts
                  (subst (λ (x : Pointer). Ready w x (c ∷ pieces_of q es)) (sym same) r)))
        ]
    | inr n ↦
        let others : (pieces_of q es ≡ []) ⊎ Ready w q (pieces_of q es) = rw n at k in
        elim others [
          | inl nil ↦ inl nil
          | inr r ↦ inr (record {
            session = r.session;
            there = puts.others q (ground arith) ∙ r.there;
            not_null = r.not_null;
            reads = r.reads;
            non_empty = r.non_empty;
            fine = r.fine;
          })
        ]
  ]

  arrive_from-cons :
      (p : Pointer) (c : List ℕ) (es : Arrivals) (s : IocpSession) (w v w' : World)
      → w.heap p ≡ some s
      → Puts p
          (arrive net o analyzer s c).0
          (packed p ((arrive net o analyzer s c).1 ∷ []) (packages w.effects))
          w
          v
      → Served es v w'
      → Served ((p, c) ∷ es) w w'
  unfolding pieces_of
  arrive_from-cons p c es s w v w' e puts r = record {
    list = r.list ∙ puts.list;
    there = λ q t x. elim (Bool-cases (p == q)) [
      | inl y ↦
          let same : p ≡ q = ground arith in
          let one : s ≡ t = some-injective (sym e ∙ ap w.heap same ∙ x) in
          rw (y, ← one, arrive_all-cons net o analyzer s c (pieces_of q es))
            (r.there q (arrive net o analyzer s c).0 (ap v.heap (sym same) ∙ puts.there))
      | inr n ↦ rw n (r.there q t (puts.others q (ground arith) ∙ x))
    ];
    packages_put = λ q t x. elim (Bool-cases (p == q)) [
      | inl y ↦
          let same : p ≡ q = ground arith in
          let one : s ≡ t = some-injective (sym e ∙ ap w.heap same ∙ x) in
          let step = arrive net o analyzer s c in
          let rest = (arrive_all net o analyzer step.0 (pieces_of q es)).1 in
          rw (y, ← one, arrive_all-cons net o analyzer s c (pieces_of q es))
            (r.packages_put q step.0 (ap v.heap (sym same) ∙ puts.there)
              ∙ ap (newest rest) (
                  ap (packages_of q) puts.packages_put
                  ∙ packages_of-packed p q step.1 (packages w.effects) y)
              ∙ newest-cons step.1 rest (packages_of q (packages w.effects)))
      | inr n ↦ rw n (
          r.packages_put q t (puts.others q (ground arith) ∙ x)
          ∙ ap (newest (arrive_all net o analyzer t (pieces_of q es)).1) (
              ap (packages_of q) puts.packages_put
              ∙ packages_of-packed_ne p q (arrive net o analyzer s c).1 (packages w.effects) n))
    ];
  }

  pub arrive_from-Served :
      (es : Arrivals) (w : World)
      → ((p : Pointer) → (pieces_of p es ≡ []) ⊎ Ready w p (pieces_of p es))
      → (w' : World) × (arrive_from es w ≡ done tt w') × Served es w w'
  unfolding arrive_from pieces_of
  arrive_from-Served [] w h = (w, refl, Served-nil w)
  arrive_from-Served ((p, c) ∷ es) w h =
      let itself : (p == p) ≡ true = ground arith in
      let first : (c ∷ pieces_of p es ≡ []) ⊎ Ready w p (c ∷ pieces_of p es) = rw itself at (h p) in
      elim first [
        | inl clash ↦ absurd cc
        | inr r ↦
            let s = r.session in
            let step = arrive net o analyzer s c in
            let fine : AllFine (step.1 ∷ (arrive_all net o analyzer step.0 (pieces_of p es)).1) =
              rw (arrive_all-cons net o analyzer s c (pieces_of p es)) at (r.fine) in
            let a =
              arrives-Puts net o analyzer fuel p r.not_null c s w r.there r.non_empty.0 r.reads
                fine.0 in
            let b = arrive_from-Served es a.0 (λ q.
              Ready-tail p q c es s (packed p (step.1 ∷ []) (packages w.effects)) w a.0 r.there a.2
                (h q)) in
            (b.0, rw (a.1, ◌>>=◌) (b.1), arrive_from-cons p c es s w a.0 b.0 r.there a.2 b.2)
      ]
