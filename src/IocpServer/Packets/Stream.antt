-- ===== src/IocpServer/Packets/Stream.antt =====
-- IOCPServer.cpp and IOCPSession.cpp together: one packet after another.
use iocp_chat_server.Base.{
  ℕ, ◌+◌, ◌≤◌, ◌≡◌, refl, ap, ◌∙◌, some, List, [], ◌∷◌, ◌++◌, ◌≢◌, arith, Option, length,
}
use iocp_chat_server.Network.{PacketObfuscation, Decodes, Winsock}
use iocp_chat_server.Network.IoData.{io_read, socket_buf_size}
use iocp_chat_server.Network.Frame.{frame}
use iocp_chat_server.Network.IocpSession.{IocpSession, recv_stand_by}
use iocp_chat_server.Network.IocpSession.Reassembly.{
  arrive_all, IsFresh, joined, NonEmpty, arrive_all-frame, recv_stand_by-IsFresh,
}
use iocp_chat_server.SessionManager.Memory.{Pointer, World, M, done, ◌>>=◌, ◌>>◌}
use iocp_chat_server.IocpServer.Packets.{packages, arrive_each}
use iocp_chat_server.IocpServer.Packets.Pieces.{
  AllFine, AllFine-frame, Puts, Puts-trans, Puts-frame, arrive_each-Puts,
}

-- A packet: its body, the pieces in which its frame arrives, and what the analyzer makes of the body.
pub record Shipment : Type 0 where
  pub body : List ℕ
  pub first : List ℕ
  pub others : List (List ℕ)
  pub packet : ℕ

-- The body fits the buffer and the analyzer knows it; the pieces make up its frame, the first has at
-- least four bytes, and none is empty.
pub record Ships (o : PacketObfuscation) (analyzer : List ℕ → Option ℕ) (x : Shipment)
    : Type 0 where
  pub fits : 4 + length x.body ≤ socket_buf_size
  pub whole : x.first ++ joined x.others ≡ frame o x.body
  pub four : 4 ≤ length x.first
  pub non_empty : NonEmpty x.others
  pub known : analyzer x.body ≡ some x.packet

abbrev pub AllShip : PacketObfuscation → (List ℕ → Option ℕ) → List Shipment → Type 0
AllShip o analyzer [] = Unit {0}
AllShip o analyzer (x ∷ xs) = Ships o analyzer x × AllShip o analyzer xs

-- Their packets from the session at `p`, in order, the last on top.
abbrev pub passed_on : Pointer → List Shipment → List (Pointer × ℕ) → List (Pointer × ℕ)
passed_on p [] l = l
passed_on p (x ∷ xs) l = passed_on p xs ((p, x.packet) ∷ l)

-- The session after them: it has been set to stand by once for each.
abbrev pub standing_by : Winsock → List Shipment → IocpSession → IocpSession
standing_by net [] s = s
standing_by net (x ∷ xs) s = standing_by net xs (recv_stand_by net s).0

module _ (net : Winsock) (o : PacketObfuscation) (analyzer : List ℕ → Option ℕ) (fuel : ℕ)
    (p : Pointer) where
  -- One packet after another, in pieces.
  unfoldable pub arrive_packets : List Shipment → M (Unit {0})
  arrive_packets [] w = done tt w
  arrive_packets (x ∷ xs) w =
      let rest = arrive_packets xs in
      (do arrive_each net o analyzer fuel p (x.first ∷ x.others); rest) w

module _ (net : Winsock) (o : PacketObfuscation) (decodes : Decodes o)
    (analyzer : List ℕ → Option ℕ) (fuel : ℕ) (p : Pointer) (some_session : p ≢ 0) where
  packet-Puts :
      (x : Shipment) (s : IocpSession) (w : World)
      → w.heap p ≡ some s
      → IsFresh s
      → s.read.io_type ≡ io_read
      → Ships o analyzer x
      → (w' : World) × (arrive_each net o analyzer fuel p (x.first ∷ x.others) w ≡ done tt w')
        × Puts p (recv_stand_by net s).0 ((p, x.packet) ∷ packages w.effects) w w'
  packet-Puts x s w e f y h =
      let all =
        arrive_all-frame net o decodes analyzer x.body h.fits x.first x.others s x.packet f h.whole
          h.four h.non_empty h.known in
      let n = length x.others in
      let fine : AllFine (arrive_all net o analyzer s (x.first ∷ x.others)).1 =
        rw (all.0) (AllFine-frame n x.packet) in
      let r =
        arrive_each-Puts net o analyzer fuel p some_session (x.first ∷ x.others) s w e
          (omega (arith, h.four), h.non_empty) y fine in
      (r.0, r.1, Puts-frame n x.packet (packages w.effects) all.0 r.2)

  stand_by-type : (s : IocpSession) → (recv_stand_by net s).0.read.io_type ≡ s.read.io_type
  unfolding recv_stand_by
  stand_by-type s = refl

  -- A session that waits for a packet, and any number of packets that come one after another, each in
  -- pieces as `Ships` says, with decoding that undoes encoding: the workers meet no fault and pass
  -- exactly these packets on to the server, in order, the session waits again, and nothing else of the
  -- table has changed.
  pub arrive_packets-Puts :
      (xs : List Shipment) (s : IocpSession) (w : World)
      → w.heap p ≡ some s
      → IsFresh s
      → s.read.io_type ≡ io_read
      → AllShip o analyzer xs
      → (w' : World) × (arrive_packets net o analyzer fuel p xs w ≡ done tt w')
        × Puts p (standing_by net xs s) (passed_on p xs (packages w.effects)) w w'
  unfolding arrive_packets
  arrive_packets-Puts [] s w e f y h =
      (w, refl, record { there = e; others = λ q g. refl; list = refl; packages_put = refl })
  arrive_packets-Puts (x ∷ xs) s w e f y h =
      let a = packet-Puts x s w e f y h.0 in
      let b =
        arrive_packets-Puts xs (recv_stand_by net s).0 a.0 a.2.there (recv_stand_by-IsFresh net s)
          (stand_by-type s ∙ y) h.1 in
      (
        b.0,
        rw (a.1, ◌>>=◌) (b.1),
        Puts-trans a.2 (record {
          there = b.2.there;
          others = b.2.others;
          list = b.2.list;
          packages_put = b.2.packages_put ∙ ap (passed_on p xs) a.2.packages_put;
        }),
      )
