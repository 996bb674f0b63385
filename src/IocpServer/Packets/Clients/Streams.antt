-- ===== src/IocpServer/Packets/Clients/Streams.antt =====
-- IOCPServer.cpp and IOCPSession.cpp together: many clients that each send packet after packet.
use iocp_chat_server.Base.{
  ℕ, zero, suc, ◌≡◌, ◌≢◌, refl, sym, ap, ◌∙◌, ◌⊎◌, inl, inr, none, some, subst, List, [], ◌∷◌, ◌++◌,
  arith, Option, length, replicate,
}
use iocp_chat_server.Network.{PacketObfuscation, Decodes, Winsock}
use iocp_chat_server.Network.IoData.{io_read}
use iocp_chat_server.Network.IocpSession.{
  IocpSession, Received, needs_more, packaged, invalid_packet, overreads, recv_stand_by,
}
use iocp_chat_server.Network.IocpSession.Reassembly.{
  arrive, arrive_all, arrive_all-nil, arrive_all-cons, arrive_all-frame, IsFresh,
  recv_stand_by-IsFresh, NonEmpty,
}
use iocp_chat_server.SessionManager.Memory.{Pointer, World, done}
use iocp_chat_server.IocpServer.Packets.{packages}
use iocp_chat_server.IocpServer.Packets.Pieces.{AllFine, AllFine-frame}
use iocp_chat_server.IocpServer.Packets.Stream.{Shipment, AllShip, standing_by}
use iocp_chat_server.IocpServer.Packets.Clients.{
  Arrivals, pieces_of, packages_of, newest, arrive_from, Ready, arrive_from-Served,
}

-- The pieces of all of them, in order.
abbrev pub pieces_in : List Shipment → List (List ℕ)
pieces_in [] = []
pieces_in (x ∷ xs) = (x.first ∷ x.others) ++ pieces_in xs

-- Their packets, the last on top.
abbrev pub delivered : List Shipment → List ℕ → List ℕ
delivered [] l = l
delivered (x ∷ xs) l = delivered xs (x.packet ∷ l)

NonEmpty-append : (cs ds : List (List ℕ)) → NonEmpty cs → NonEmpty ds → NonEmpty (cs ++ ds)
NonEmpty-append [] ds m n = n
NonEmpty-append (c ∷ cs) ds m n = (m.0, NonEmpty-append cs ds m.1 n)

AllFine-append : (rs qs : List (Received ℕ)) → AllFine rs → AllFine qs → AllFine (rs ++ qs)
AllFine-append [] qs m n = n
AllFine-append (r ∷ rs) qs m n = (m.0, AllFine-append rs qs m.1 n)

newest-append :
    (rs qs : List (Received ℕ)) (l : List ℕ) → newest (rs ++ qs) l ≡ newest qs (newest rs l)
newest-append [] qs l = refl
newest-append (packaged k ∷ rs) qs l = newest-append rs qs (k ∷ l)
newest-append (needs_more ∷ rs) qs l = newest-append rs qs l
newest-append (invalid_packet ∷ rs) qs l = newest-append rs qs l
newest-append (overreads ∷ rs) qs l = newest-append rs qs l

newest-frame : (n k : ℕ) (l : List ℕ) → newest (replicate n needs_more ++ packaged k ∷ []) l ≡ k ∷ l
newest-frame zero k l = refl
newest-frame (suc n) k l = newest-frame n k l

-- A session that waits for a packet.
pub record Waits (w : World) (p : Pointer) : Type 0 where
  pub session : IocpSession
  pub there : w.heap p ≡ some session
  pub not_null : p ≢ 0
  pub fresh : IsFresh session
  pub reads : session.read.io_type ≡ io_read

abbrev IsFreshAt : Option IocpSession → Type 0
IsFreshAt none = Unit {0}
IsFreshAt (some s) = IsFresh s

module _ (net : Winsock) (o : PacketObfuscation) (analyzer : List ℕ → Option ℕ) where
  arrive_all-append :
      (s : IocpSession) (cs ds : List (List ℕ))
      → let a = arrive_all net o analyzer s cs in
        let b = arrive_all net o analyzer a.0 ds in
        arrive_all net o analyzer s (cs ++ ds) ≡ (b.0, a.1 ++ b.1)
  arrive_all-append s [] ds = rw (arrive_all-nil net o analyzer s) refl
  arrive_all-append s (c ∷ cs) ds =
      rw
        (
          arrive_all-cons net o analyzer s c (cs ++ ds),
          arrive_all-cons net o analyzer s c cs,
          arrive_all-append (arrive net o analyzer s c).0 cs ds,
        )
        refl

  -- What a session makes of these packets.
  record Streams (s : IocpSession) (xs : List Shipment) (r : IocpSession × List (Received ℕ))
      : Type 0 where
    ends : r.0 ≡ standing_by net xs s
    packets : (l : List ℕ) → newest r.1 l ≡ delivered xs l
    fine : AllFine r.1

  Streams-cons :
      (s : IocpSession) (x : Shipment) (xs : List Shipment) (b : IocpSession × List (Received ℕ))
      → Streams (recv_stand_by net s).0 xs b
      → Streams s
          (x ∷ xs)
          (b.0, (replicate (length x.others) needs_more ++ packaged x.packet ∷ []) ++ b.1)
  Streams-cons s x xs b t =
      let n = length x.others in
      let first : List (Received ℕ) = replicate n needs_more ++ packaged x.packet ∷ [] in
      record {
        ends = t.ends;
        packets = λ l.
            newest-append first b.1 l
            ∙ ap (newest b.1) (newest-frame n x.packet l)
            ∙ t.packets (x.packet ∷ l);
        fine = AllFine-append first b.1 (AllFine-frame n x.packet) t.fine;
      }

  arrive_all-Streams :
      Decodes o
      → (xs : List Shipment) (s : IocpSession) → IsFresh s
      → AllShip o analyzer xs
      → Streams s xs (arrive_all net o analyzer s (pieces_in xs))
  arrive_all-Streams decodes [] s f h =
      rw (arrive_all-nil net o analyzer s) (record { ends = refl; packets = λ l. refl; fine = tt })
  arrive_all-Streams decodes (x ∷ xs) s f h =
      let all =
        arrive_all-frame net o decodes analyzer x.body h.0.fits x.first x.others s x.packet f
          h.0.whole h.0.four h.0.non_empty h.0.known in
      rw (arrive_all-append s (x.first ∷ x.others) (pieces_in xs), all.0)
        (Streams-cons s x xs (arrive_all net o analyzer (recv_stand_by net s).0 (pieces_in xs))
          (arrive_all-Streams decodes xs (recv_stand_by net s).0 (recv_stand_by-IsFresh net s) h.1))

  pieces_in-NonEmpty : (xs : List Shipment) → AllShip o analyzer xs → NonEmpty (pieces_in xs)
  pieces_in-NonEmpty [] h = tt
  pieces_in-NonEmpty (x ∷ xs) h =
      NonEmpty-append (x.first ∷ x.others) (pieces_in xs) (omega (arith, h.0.four), h.0.non_empty)
        (pieces_in-NonEmpty xs h.1)

  pub streams-Ready :
      (fuel : ℕ) (w : World) (p : Pointer) (xs : List Shipment)
      → Decodes o
      → Waits w p
      → AllShip o analyzer xs
      → Ready net o analyzer fuel w p (pieces_in xs)
  streams-Ready fuel w p xs decodes v h = record {
    session = v.session;
    there = v.there;
    not_null = v.not_null;
    reads = v.reads;
    non_empty = pieces_in-NonEmpty xs h;
    fine = (arrive_all-Streams decodes xs v.session v.fresh h).fine;
  }

  -- A client that sends nothing, or whose session waits.
  Waits-Streams :
      (w : World) (p : Pointer) (s : IocpSession) (xs : List Shipment)
      → Decodes o
      → w.heap p ≡ some s
      → (xs ≡ []) ⊎ (Waits w p × AllShip o analyzer xs)
      → Streams s xs (arrive_all net o analyzer s (pieces_in xs))
  Waits-Streams w p s xs decodes e (inl nil) =
      rw (nil, arrive_all-nil net o analyzer s)
        (record { ends = refl; packets = λ l. refl; fine = tt })
  Waits-Streams w p s xs decodes e (inr (v, ships)) =
      let fresh : IsFresh s = subst IsFreshAt (sym v.there ∙ e) v.fresh in
      arrive_all-Streams decodes xs s fresh ships

-- Any number of clients each send packets one after another, in pieces as `Ships` says, with decoding that
-- undoes encoding, and their sessions wait; the completions of all pieces are handled one after another,
-- in any order that keeps the pieces of each client in order. No fault is met, and for each client
-- exactly its packets are passed on to the server, in order; its session waits again, and the list of
-- sessions is as before.
pub arrive_from-streams :
    (net : Winsock) (o : PacketObfuscation) (analyzer : List ℕ → Option ℕ) (fuel : ℕ)
    (streams : Pointer → List Shipment) (es : Arrivals) (w : World) (p : Pointer) (s : IocpSession)
    → Decodes o
    → ((q : Pointer) → pieces_of q es ≡ pieces_in (streams q))
    → ((q : Pointer) → (streams q ≡ []) ⊎ (Waits w q × AllShip o analyzer (streams q)))
    → w.heap p ≡ some s
    → (w' : World) × (arrive_from net o analyzer fuel es w ≡ done tt w')
      × (w'.session_list ≡ w.session_list)
      × (w'.heap p ≡ some (standing_by net (streams p) s))
      × (packages_of p (packages w'.effects)
          ≡ delivered (streams p) (packages_of p (packages w.effects)))
arrive_from-streams net o analyzer fuel streams es w p s decodes cut waits e =
    let ready : (q : Pointer)
        → (pieces_of q es ≡ []) ⊎ Ready net o analyzer fuel w q (pieces_of q es) =
      λ q. elim (waits q) [
        | inl nil ↦ inl (cut q ∙ ap pieces_in nil)
        | inr (v, ships) ↦
            inr (rw (cut q) (streams-Ready net o analyzer fuel w q (streams q) decodes v ships))
      ] in
    let r = arrive_from-Served net o analyzer fuel es w ready in
    let own : Streams net o analyzer s (streams p) (arrive_all net o analyzer s (pieces_of p es)) =
      rw (cut p) (Waits-Streams net o analyzer w p s (streams p) decodes e (waits p)) in
    (
      r.0,
      r.1,
      r.2.list,
      r.2.there p s e ∙ ap (λ (t : IocpSession). some t) own.ends,
      r.2.packages_put p s e ∙ own.packets (packages_of p (packages w.effects)),
    )
