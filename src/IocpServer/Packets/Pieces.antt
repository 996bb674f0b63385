-- ===== src/IocpServer/Packets/Pieces.antt =====
-- IOCPServer.cpp and IOCPSession.cpp together: the completions of one packet, in pieces.
use iocp_chat_server.Base.{
  ℕ, zero, suc, ◌<◌, ◌≡◌, refl, ap, ◌∙◌, some, true, List, [], ◌∷◌, ◌++◌, ◌≢◌, arith, Option,
  length, replicate,
}
use iocp_chat_server.Network.{PacketObfuscation, Winsock}
use iocp_chat_server.Network.IoData.{io_read}
use iocp_chat_server.Network.IocpSession.{
  IocpSession, Received, needs_more, packaged, invalid_packet, overreads, on_recv,
}
use iocp_chat_server.Network.IocpSession.Reassembly.{
  deliver, arrive, arrive_all, arrive_all-nil, arrive_all-cons, NonEmpty,
}
use iocp_chat_server.SessionManager.Memory.{Pointer, World, done, ◌>>=◌, Effect}
use iocp_chat_server.IocpServer.Serve.{logged}
use iocp_chat_server.IocpServer.Packets.{
  packages, packages-logged, Fine, put, arrives, arrives-Fine, arrive-type, arrive_each,
}

-- The packets of these results, on top of those before.
unfoldable pub packed : Pointer → List (Received ℕ) → List (Pointer × ℕ) → List (Pointer × ℕ)
packed p [] l = l
packed p (packaged k ∷ rs) l = packed p rs ((p, k) ∷ l)
packed p (needs_more ∷ rs) l = packed p rs l
packed p (invalid_packet ∷ rs) l = packed p rs l
packed p (overreads ∷ rs) l = packed p rs l

packed-put :
    (p : Pointer) (r : Received ℕ) (rs : List (Received ℕ)) (l : List Effect)
    → packed p rs (packages (put p r l)) ≡ packed p (r ∷ rs) (packages l)
unfolding packed put packages
packed-put p (packaged k) rs l = refl
packed-put p needs_more rs l = refl
packed-put p invalid_packet rs l = refl
packed-put p overreads rs l = refl

packed-cons :
    (p : Pointer) (r : Received ℕ) (rs : List (Received ℕ)) (l : List (Pointer × ℕ))
    → packed p rs (packed p (r ∷ []) l) ≡ packed p (r ∷ rs) l
unfolding packed
packed-cons p (packaged k) rs l = refl
packed-cons p needs_more rs l = refl
packed-cons p invalid_packet rs l = refl
packed-cons p overreads rs l = refl

packed-frame :
    (p : Pointer) (n k : ℕ) (l : List (Pointer × ℕ))
    → packed p (replicate n needs_more ++ packaged k ∷ []) l ≡ (p, k) ∷ l
unfolding packed
packed-frame p zero k l = refl
packed-frame p (suc n) k l = packed-frame p n k l

abbrev pub AllFine : List (Received ℕ) → Type 0
AllFine [] = Unit {0}
AllFine (r ∷ rs) = Fine r × AllFine rs

pub AllFine-frame : (n k : ℕ) → AllFine (replicate n needs_more ++ packaged k ∷ [])
AllFine-frame zero k = (tt, tt)
AllFine-frame (suc n) k = (tt, AllFine-frame n k)

-- From `w` to `w'` the session at `p` has become `t`, and these packages have been put; the rest of
-- the table is as it was.
pub record Puts (p : Pointer) (t : IocpSession) (l : List (Pointer × ℕ)) (w w' : World)
    : Type 0 where
  pub there : w'.heap p ≡ some t
  pub others : (q : Pointer) → q ≢ p → w'.heap q ≡ w.heap q
  pub list : w'.session_list ≡ w.session_list
  pub packages_put : packages w'.effects ≡ l

pub Puts-trans :
    {p : Pointer} {s t : IocpSession} {k l : List (Pointer × ℕ)} {w w' w'' : World}
    → Puts p s k w w'
    → Puts p t l w' w''
    → Puts p t l w w''
Puts-trans a b = record {
  there = b.there;
  others = λ q h. b.others q h ∙ a.others q h;
  list = b.list ∙ a.list;
  packages_put = b.packages_put;
}

module _ (net : Winsock) (o : PacketObfuscation) (analyzer : List ℕ → Option ℕ) (fuel : ℕ)
    (p : Pointer) (some_session : p ≢ 0) where
  pub arrives-Puts :
      (c : List ℕ) (s : IocpSession) (w : World)
      → w.heap p ≡ some s
      → 0 < length c
      → s.read.io_type ≡ io_read
      → Fine (arrive net o analyzer s c).1
      → (w' : World) × (arrives net o analyzer fuel p c w ≡ done true w')
        × Puts p
            (arrive net o analyzer s c).0
            (packed p ((arrive net o analyzer s c).1 ∷ []) (packages w.effects))
            w
            w'
  unfolding arrive packed
  arrives-Puts c s w e k y f =
      let r = on_recv net o analyzer (deliver s c) (length c) in
      (
        _,
        arrives-Fine net o analyzer fuel p c s w e some_session k y f,
        record {
          there = ground arith;
          others = λ q h. ground arith;
          list = refl;
          packages_put =
              packed-put p r.2 [] (logged p r.1 w.effects)
              ∙ ap (packed p (r.2 ∷ [])) (packages-logged p r.1 w.effects);
        },
      )

  pub arrive_each-Puts :
      (cs : List (List ℕ)) (s : IocpSession) (w : World)
      → w.heap p ≡ some s
      → NonEmpty cs
      → s.read.io_type ≡ io_read
      → AllFine (arrive_all net o analyzer s cs).1
      → (w' : World) × (arrive_each net o analyzer fuel p cs w ≡ done tt w')
        × Puts p
            (arrive_all net o analyzer s cs).0
            (packed p (arrive_all net o analyzer s cs).1 (packages w.effects))
            w
            w'
  unfolding arrive_each packed
  arrive_each-Puts [] s w e ne y f = (
    w,
    refl,
    rw (arrive_all-nil net o analyzer s)
        (record { there = e; others = λ q h. refl; list = refl; packages_put = refl }),
  )
  arrive_each-Puts (c ∷ cs) s w e ne y f =
      let step = arrive net o analyzer s c in
      let both = arrive_all-cons net o analyzer s c cs in
      let fine : AllFine (step.1 ∷ (arrive_all net o analyzer step.0 cs).1) = rw both at f in
      let a = arrives-Puts c s w e ne.0 y fine.0 in
      let b =
        arrive_each-Puts cs step.0 a.0 a.2.there ne.1 (arrive-type net o analyzer s c ∙ y) fine.1 in
      let put_all =
        b.2.packages_put
        ∙ ap (packed p (arrive_all net o analyzer step.0 cs).1) a.2.packages_put
        ∙ packed-cons p step.1 (arrive_all net o analyzer step.0 cs).1 (packages w.effects) in
      (
        b.0,
        rw (a.1, ◌>>=◌) (b.1),
        rw both (
            Puts-trans a.2 (record {
              there = b.2.there;
              others = b.2.others;
              list = b.2.list;
              packages_put = put_all;
            })),
      )

pub Puts-frame :
    {p : Pointer} {t : IocpSession} {w w' : World} {a : IocpSession × List (Received ℕ)} (n k : ℕ)
    (l : List (Pointer × ℕ))
    → a ≡ (t, replicate n needs_more ++ packaged k ∷ [])
    → Puts p a.0 (packed p a.1 l) w w'
    → Puts p t ((p, k) ∷ l) w w'
Puts-frame {p} {t} {w} {w'} {a} n k l e b = record {
  there = b.there ∙ ap (λ (x : IocpSession × List (Received ℕ)). some x.0) e;
  others = b.others;
  list = b.list;
  packages_put =
      b.packages_put
      ∙ ap (λ (x : IocpSession × List (Received ℕ)). packed p x.1 l) e
      ∙ packed-frame p n k l;
}
