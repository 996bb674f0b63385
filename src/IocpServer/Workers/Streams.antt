-- ===== src/IocpServer/Workers/Streams.antt =====
-- IOCPServer.cpp and IOCPSession.cpp: the packets of many clients, handled by several workers at once.
use mathlib.Core.List.{Perm, filter_map, append-nil}
use mathlib.Core.List.Perm
use iocp_chat_server.Base.{
  ℕ, ◌≡◌, refl, sym, ap, ◌∙◌, ◌⊎◌, inl, inr, none, some, List, [], ◌∷◌, ◌++◌, true, ◌==◌, arith,
  Option, if◌then◌else◌, subst, length, Bool-cases,
}
use iocp_chat_server.Network.{PacketObfuscation, Decodes, Winsock}
use iocp_chat_server.Network.IocpSession.{
  IocpSession, Received, needs_more, packaged, on_recv, recv_stand_by,
}
use iocp_chat_server.Network.IocpSession.Reassembly.{
  deliver, arrive, arrive_all, arrive_all-nil, arrive_all-cons, arrive_all-frame, IsFresh,
  recv_stand_by-IsFresh,
}
use iocp_chat_server.SessionManager.Memory.{Pointer, World, done, update, puts_package}
use iocp_chat_server.IocpServer.Serve.{logged}
use iocp_chat_server.IocpServer.Packets.{packages, packages-logged, Fine}
use iocp_chat_server.IocpServer.Packets.Pieces.{packed}
use iocp_chat_server.IocpServer.Packets.Stream.{Shipment, Ships, AllShip, standing_by}
use iocp_chat_server.IocpServer.Packets.Clients.{pieces_of, packages_of, Ready}
use iocp_chat_server.IocpServer.Packets.Clients.Streams.{
  Waits, pieces_in, delivered, streams-Ready, arrive_from-streams,
}
use iocp_chat_server.IocpServer.Workers.{Act, receives, puts, completions, take_out, act_each}
use iocp_chat_server.IocpServer.Workers.Agreement.{
  Agrees, act_each-receives, act_each-puts, act_each-Same,
}

abbrev of_session : Pointer → Pointer × ℕ → Option ℕ
of_session p x = if x.0 == p then some x.1 else none

packages_of-filter_map :
    (p : Pointer) (l : List (Pointer × ℕ)) → filter_map (of_session p) l ≡ packages_of p l
unfolding packages_of filter_map
packages_of-filter_map p [] = refl
packages_of-filter_map p ((q, k) ∷ l) = elim (Bool-cases (q == p)) [
  | inl y ↦ rw (y, packages_of-filter_map p l) refl
  | inr n ↦ rw (n, packages_of-filter_map p l) refl
]

packages_of-Perm :
    (p : Pointer) (l m : List (Pointer × ℕ)) → Perm l m → Perm (packages_of p l) (packages_of p m)
packages_of-Perm p l m h =
    rw (← packages_of-filter_map p l, ← packages_of-filter_map p m)
      (Perm.filter_map (of_session p) h)

done-injective : {v w : World} {a b : Unit {0}} → done a v ≡ done b w → v ≡ w
done-injective e = cc

-- Any number of clients each send packets one after another, in pieces as `Ships` says, with decoding that
-- undoes encoding, and their sessions wait. Several workers take the completions, those of each client in
-- order, and any worker may put its package any time after it has got it, and need not. They meet no
-- fault; for each client, the packages that have been put since and those that are still in hands are
-- its packets, each once, in some order; its session waits again, and the list of sessions is as before.
pub act_each-streams :
    (net : Winsock) (o : PacketObfuscation) (analyzer : List ℕ → Option ℕ) (fuel : ℕ)
    (streams : Pointer → List Shipment) (acts : List Act) (w : World) (p : Pointer)
    (s : IocpSession)
    → Decodes o
    → ((q : Pointer) → pieces_of q (completions acts) ≡ pieces_in (streams q))
    → ((q : Pointer) → (streams q ≡ []) ⊎ (Waits w q × AllShip o analyzer (streams q)))
    → w.heap p ≡ some s
    → (hands : List (Pointer × ℕ)) × (w' : World) × (act_each net o analyzer fuel acts [] w
        ≡ done hands w')
      × (w'.session_list ≡ w.session_list)
      × (w'.heap p ≡ some (standing_by net (streams p) s))
      × Perm
          (packages_of p (packages w'.effects ++ hands))
          (delivered (streams p) (packages_of p (packages w.effects)))
act_each-streams net o analyzer fuel streams acts w p s decodes cut waits e =
    let ready : (q : Pointer)
        → (pieces_of q (completions acts) ≡ [])
          ⊎ Ready net o analyzer fuel w q (pieces_of q (completions acts)) =
      λ q. elim (waits q) [
        | inl nil ↦ inl (cut q ∙ ap pieces_in nil)
        | inr (v, ships) ↦
            inr (rw (cut q) (streams-Ready net o analyzer fuel w q (streams q) decodes v ships))
      ] in
    let none_yet : Agrees w [] w = record {
      list = refl;
      there = λ q. refl;
      all = rw (append-nil (packages w.effects)) (Perm.refl (packages w.effects));
    } in
    let r = act_each-Same net o analyzer fuel acts [] w w none_yet ready in
    let b =
      arrive_from-streams net o analyzer fuel streams (completions acts) w p s decodes cut waits
        e in
    let same : r.one_by_one ≡ b.0 = done-injective (sym r.runs_one_by_one ∙ b.1) in
    (
      r.hands,
      r.ends,
      r.runs,
      r.agrees.list ∙ ap (λ (v : World). v.session_list) same ∙ b.2,
      r.agrees.there p ∙ ap (λ (v : World). v.heap p) same ∙ b.3,
      subst (λ (l : List ℕ). Perm (packages_of p (packages r.ends.effects ++ r.hands)) l)
          (ap (λ (v : World). packages_of p (packages v.effects)) same ∙ b.4)
          (packages_of-Perm p (packages r.ends.effects ++ r.hands) (packages r.one_by_one.effects)
            r.agrees.all),
    )

abbrev first_of : List (Received ℕ) → Received ℕ
first_of [] = needs_more
first_of (r ∷ rs) = r

module _ (net : Winsock) (o : PacketObfuscation) (decodes : Decodes o)
    (analyzer : List ℕ → Option ℕ) (fuel : ℕ) where
  arrive-whole :
      (x : Shipment) (s : IocpSession)
      → IsFresh s
      → Ships o analyzer x
      → x.others ≡ []
      → arrive net o analyzer s x.first ≡ ((recv_stand_by net s).0, packaged x.packet)
  arrive-whole x s f h e =
      let all : arrive_all net o analyzer s (x.first ∷ [])
          ≡ ((recv_stand_by net s).0, packaged x.packet ∷ []) =
        rw e at (
          (arrive_all-frame net o decodes analyzer x.body h.fits x.first x.others s x.packet f
            h.whole h.four h.non_empty h.known).0) in
      let a = arrive net o analyzer s x.first in
      let one : (a.0, a.1 ∷ []) ≡ ((recv_stand_by net s).0, packaged x.packet ∷ []) =
        rw (arrive_all-cons net o analyzer s x.first [], arrive_all-nil net o analyzer a.0) at
          all in
      ap (λ (r : IocpSession × List (Received ℕ)). (r.0, first_of r.1)) one

  -- A whole packet arrives, and the worker keeps its package for now.
  act_each-whole :
      (p : Pointer) (x : Shipment) (acts : List Act) (s : IocpSession) (l : List (Pointer × ℕ))
      (w : World)
      → w.heap p ≡ some s
      → IsFresh s
      → Ships o analyzer x
      → x.others ≡ []
      → (v : World) × (act_each net o analyzer fuel (receives p x.first ∷ acts) l w
          ≡ act_each net o analyzer fuel acts ((p, x.packet) ∷ l) v)
        × (v.heap p ≡ some (recv_stand_by net s).0)
        × (packages v.effects ≡ packages w.effects)
  unfolding arrive packed
  act_each-whole p x acts s l w e f h one =
      let r = on_recv net o analyzer (deliver s x.first) (length x.first) in
      let v = record w {
        heap = update (update w.heap p (some (deliver s x.first))) p (some r.0);
        effects = logged p r.1 w.effects;
      } in
      let itself : (p == p) ≡ true = ground arith in
      let whole : (r.0, r.2) ≡ ((recv_stand_by net s).0, packaged x.packet) =
        arrive-whole x s f h one in
      let got = ap (λ (z : IocpSession × Received ℕ). z.1) whole in
      let fine = subst Fine (sym got) tt in
      (
        v,
        act_each-receives net o analyzer fuel p x.first acts s l w e fine ∙ rw got refl,
        rw itself (ap (λ (z : IocpSession × Received ℕ). some z.0) whole),
        packages-logged p r.1 w.effects,
      )

-- A client sends two packets, each of which arrives as a whole. Each is taken by a worker of its own, and the
-- worker of the second puts its package first. No fault is met, and the server gets the packets in the
-- wrong order.
pub act_each-swapped :
    (net : Winsock) (o : PacketObfuscation) (analyzer : List ℕ → Option ℕ) (fuel : ℕ) (p : Pointer)
    (x y : Shipment) (s : IocpSession) (w : World)
    → Decodes o
    → w.heap p ≡ some s
    → IsFresh s
    → Ships o analyzer x
    → Ships o analyzer y
    → x.others ≡ []
    → y.others ≡ []
    → (w' : World) × (act_each net o analyzer fuel
          (receives p x.first ∷ receives p y.first ∷ puts 0 ∷ puts 0 ∷ [])
          []
          w
        ≡ done [] w')
      × (packages w'.effects ≡ (p, x.packet) ∷ (p, y.packet) ∷ packages w.effects)
unfolding act_each take_out packages
act_each-swapped net o analyzer fuel p x y s w decodes e f hx hy ox oy =
    let t = (recv_stand_by net s).0 in
    let a =
      act_each-whole net o decodes analyzer fuel p x (receives p y.first ∷ puts 0 ∷ puts 0 ∷ []) s
        [] w e f hx ox in
    let b =
      act_each-whole net o decodes analyzer fuel p y (puts 0 ∷ puts 0 ∷ []) t ((p, x.packet) ∷ [])
        a.0 a.2 (recv_stand_by-IsFresh net s) hy oy in
    let v = record b.0 { effects = puts_package p y.packet ∷ b.0.effects } in
    (
      record v { effects = puts_package p x.packet ∷ v.effects },
      a.1
          ∙ b.1
          ∙ act_each-puts net o analyzer fuel 0 (puts 0 ∷ []) (p, y.packet)
              ((p, y.packet) ∷ (p, x.packet) ∷ []) ((p, x.packet) ∷ []) b.0 refl
          ∙ act_each-puts net o analyzer fuel 0 [] (p, x.packet) ((p, x.packet) ∷ []) [] v refl,
      ap (λ (l : List (Pointer × ℕ)). (p, x.packet) ∷ (p, y.packet) ∷ l) (b.3 ∙ a.3),
    )
