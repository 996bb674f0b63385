-- ===== src/Network/IocpSession/Reassembly.antt =====
-- IOCPSession.cpp: what `OnRecv` makes of a packet that arrives in pieces, and the state in which it
-- leaves the session.
use iocp_chat_server.Base.{
  ℕ, ◌+◌, ◌≤◌, ◌<◌, ◌≡◌, refl, sym, ap, ◌∙◌, ◌⊎◌, inl, inr, List, [], ◌∷◌, ◌++◌, Option, some, ◌-◌,
  none, arith, length, length-append, length-drop, take, drop, append_assoc, append-nil, replicate,
}
use iocp_chat_server.Base.Bytes.{write_at, write_at-append, take-all, length-zeroed}
use iocp_chat_server.Network.{PacketObfuscation, Decodes, WsaBuf, Winsock}
use iocp_chat_server.Network.IoData.{socket_buf_size}
use iocp_chat_server.Network.Frame.{frame, length-frame, take-header}
use iocp_chat_server.Network.IocpSession.{
  IocpSession, Received, needs_more, packaged, on_recv, recv_stand_by,
}
use iocp_chat_server.Network.IocpSession.OnRecv.{on_recv_partial, on_recv_complete}

-- The array once Windows has put bytes where the `WSABUF` points, and no more than fit it. Without a
-- `WSARecv` nothing is received.
unfoldable pub filled_in : Option WsaBuf → List ℕ → List ℕ → List ℕ
filled_in none buffer chunk = buffer
filled_in (some b) buffer chunk = write_at buffer b.buf (take b.len chunk)

unfoldable pub deliver : IocpSession → List ℕ → IocpSession
unfolding filled_in
deliver s chunk = record s {
  read = record s.read { buffer = filled_in s.posted s.read.buffer chunk };
  posted = none;
}

-- What `RecvStandBy` has Windows receive into: the whole array.
abbrev pub whole_array : WsaBuf
whole_array = record { buf = 0; len = socket_buf_size }

-- The session waits for a packet: nothing of it is there, and Windows receives into the whole array.
pub record IsFresh (s : IocpSession) : Type 0 where
  pub none_read : s.read.current_bytes ≡ 0
  pub none_known : s.read.total_bytes ≡ 0
  pub room : length s.read.buffer ≡ socket_buf_size
  pub receives : s.posted ≡ some whole_array

module _ (net : Winsock) (o : PacketObfuscation) {Packet : Type 0}
    (analyzer : List ℕ → Option Packet) where
  unfoldable pub arrive : IocpSession → List ℕ → IocpSession × Received Packet
  unfolding deliver
  arrive s chunk = let r = on_recv net o analyzer (deliver s chunk) (length chunk) in (r.0, r.2)

  -- The completions of one read after another.
  pub arrive_all : IocpSession → List (List ℕ) → IocpSession × List (Received Packet)
  arrive_all s [] = (s, [])
  arrive_all s (chunk ∷ chunks) =
      let (t, r) = arrive s chunk in let (u, rs) = arrive_all t chunks in (u, r ∷ rs)

  pub arrive_all-nil : (s : IocpSession) → arrive_all s [] ≡ (s, [])
  unfolding arrive_all
  arrive_all-nil s = refl

  pub arrive_all-cons :
      (s : IocpSession) (c : List ℕ) (cs : List (List ℕ))
      → arrive_all s (c ∷ cs)
        ≡ ((arrive_all (arrive s c).0 cs).0, (arrive s c).1 ∷ (arrive_all (arrive s c).0 cs).1)
  unfolding arrive_all
  arrive_all-cons s c cs = refl

deliver-posted :
    (s : IocpSession) (b : WsaBuf) (c : List ℕ)
    → s.posted ≡ some b
    → length c ≤ b.len
    → (deliver s c).read.buffer ≡ write_at s.read.buffer b.buf c
unfolding deliver filled_in
deliver-posted s b c e h = rw (e, take-all b.len c h)

-- The bytes `p` of the frame of `body` have arrived, and Windows receives behind them what is left of it.
record Holds (o : PacketObfuscation) (body p : List ℕ) (s : IocpSession) : Type 0 where
  tail : List ℕ
  filled : s.read.buffer ≡ p ++ tail
  room : length s.read.buffer ≡ socket_buf_size
  counted : s.read.current_bytes ≡ length p
  place : WsaBuf
  receives : s.posted ≡ some place
  behind : place.buf ≡ length p
  enough : 4 + length body ≤ length p + place.len
  known : (s.read.total_bytes ≡ 0) ⊎ (s.read.total_bytes ≡ 4 + length body)

-- `RecvStandBy` leaves the session waiting, whatever had been received.
pub recv_stand_by-IsFresh : (net : Winsock) (s : IocpSession) → IsFresh (recv_stand_by net s).0
unfolding recv_stand_by
recv_stand_by-IsFresh net s = record {
  none_read = refl;
  none_known = refl;
  room = length-zeroed socket_buf_size;
  receives = refl;
}

-- The bytes of the pieces, in order.
abbrev pub joined : List (List ℕ) → List ℕ
joined [] = []
joined (c ∷ cs) = c ++ joined cs

abbrev pub NonEmpty : List (List ℕ) → Type 0
NonEmpty [] = Unit {0}
NonEmpty (c ∷ cs) = (0 < length c) × NonEmpty cs

module _ (net : Winsock) (o : PacketObfuscation) (decodes : Decodes o) {Packet : Type 0}
    (analyzer : List ℕ → Option Packet) (body : List ℕ)
    (fits : 4 + length body ≤ socket_buf_size) where
  -- The bytes behind the next chunk, if it belongs to the frame.
  deliver-filled :
      (p c rest : List ℕ) (s : IocpSession) (h : Holds o body p s)
      → (p ++ c) ++ rest ≡ frame o body
      → ((deliver s c).read.buffer ≡ (p ++ c) ++ drop (length c) h.tail)
        × (length (deliver s c).read.buffer ≡ socket_buf_size)
        × (length (p ++ c) + length rest ≡ 4 + length body)
  deliver-filled p c rest s h e =
      let sizes = ap length (sym e) ∙ length-append (p ++ c) rest in
      let written =
        deliver-posted s h.place c h.receives
          (omega (arith, h.enough, sizes, length-append p c, length-frame o body))
        ∙ write_at-append p h.tail c s.read.buffer h.place.buf h.filled h.behind in
      (
        written,
        omega (
          arith,
          ap length written,
          length-append (p ++ c) (drop (length c) h.tail),
          length-drop (length c) h.tail,
          length-append p c,
          ap length h.filled,
          length-append p h.tail,
          sizes,
          length-frame o body,
        ),
        omega (arith, sizes, length-frame o body),
      )

  arrive_partial :
      (p c rest : List ℕ) (s : IocpSession)
      → Holds o body p s
      → (p ++ c) ++ rest ≡ frame o body
      → 4 ≤ length (p ++ c)
      → 0 < length rest
      → Holds o body (p ++ c) (arrive net o analyzer s c).0
        × ((arrive net o analyzer s c).1 ≡ needs_more)
        × ((recv_stand_by net (arrive net o analyzer s c).0).0 ≡ (recv_stand_by net s).0)
  unfolding arrive deliver recv_stand_by
  arrive_partial p c rest s h e four more =
      let d = deliver-filled p c rest s h e in
      let starts =
        ap (take 4) d.0 ∙ take-header o body (p ++ c) rest (drop (length c) h.tail) e four in
      let r =
        on_recv_partial net o decodes analyzer body fits (deliver s c) starts h.known (length c)
          (omega (arith, d.2, length-append p c, h.counted)) in
      (
        rw (r.0) (record {
          tail = drop (length c) h.tail;
          filled = d.0;
          room = d.1;
          counted = omega (arith, length-append p c, h.counted);
          place = record {
            buf = s.read.current_bytes + length c;
            len = 4 + length body - (s.read.current_bytes + length c);
          };
          receives = refl;
          behind = omega (arith, length-append p c, h.counted);
          enough = omega (arith, length-append p c, h.counted);
          known = inr refl;
        }),
        r.1,
        rw (r.0),
      )

  arrive_last :
      (p c : List ℕ) (s : IocpSession) (packet : Packet)
      → Holds o body p s
      → p ++ c ≡ frame o body
      → analyzer body ≡ some packet
      → arrive net o analyzer s c ≡ ((recv_stand_by net s).0, packaged packet)
  unfolding arrive deliver recv_stand_by
  arrive_last p c s packet h e found =
      let d = deliver-filled p c [] s h (append-nil (p ++ c) ∙ e) in
      let tail = drop (length c) h.tail in
      let four : 4 ≤ length (p ++ c) = omega (arith, d.2) in
      let starts =
        ap (take 4) d.0 ∙ take-header o body (p ++ c) [] tail (append-nil (p ++ c) ∙ e) four in
      let r =
        on_recv_complete net o decodes analyzer body fits (deliver s c) starts h.known (length c)
          tail packet (omega (arith, d.2, length-append p c, h.counted))
          (omega (arith, d.2, length-append p c, h.counted, fits))
          (d.0 ∙ ap (λ (bs : List ℕ). bs ++ tail) e) found in
      rw (r.0, r.1)

  arrive_rest :
      (p c : List ℕ) (cs : List (List ℕ)) (s : IocpSession) (packet : Packet)
      → Holds o body p s
      → (p ++ c) ++ joined cs ≡ frame o body
      → 4 ≤ length (p ++ c)
      → NonEmpty cs
      → analyzer body ≡ some packet
      → arrive_all net o analyzer s (c ∷ cs)
        ≡ ((recv_stand_by net s).0, replicate (length cs) needs_more ++ packaged packet ∷ [])
  arrive_rest p c [] s packet h e four ne found =
      let r = arrive_last p c s packet h (sym (append-nil (p ++ c)) ∙ e) found in
      rw (
        arrive_all-cons net o analyzer s c [],
        r,
        arrive_all-nil net o analyzer (recv_stand_by net s).0,
      )
  arrive_rest p c (c' ∷ cs) s packet h e four ne found =
      let step =
        arrive_partial p c (joined (c' ∷ cs)) s h e four
          (omega (arith, length-append c' (joined cs), ne.0)) in
      let rest =
        arrive_rest (p ++ c) c' cs (arrive net o analyzer s c).0 packet step.0
          (append_assoc (p ++ c) c' (joined cs) ∙ e) (omega (arith, length-append (p ++ c) c')) ne.1
          found in
      rw (arrive_all-cons net o analyzer s c (c' ∷ cs), rest, step.1, step.2)

  -- A session that waits, the bytes of one frame in pieces, the first of at least four bytes and none
  -- empty, a body that fits the buffer and that the analyzer knows: every completion but the last
  -- asks for more and has Windows receive behind what is there; the last one hands over the packet, and
  -- the session waits again as `RecvStandBy` leaves it: Windows receives into the whole array.
  pub arrive_all-frame :
      (c : List ℕ) (cs : List (List ℕ)) (s : IocpSession) (packet : Packet)
      → IsFresh s
      → c ++ joined cs ≡ frame o body
      → 4 ≤ length c
      → NonEmpty cs
      → analyzer body ≡ some packet
      → (arrive_all net o analyzer s (c ∷ cs)
          ≡ ((recv_stand_by net s).0, replicate (length cs) needs_more ++ packaged packet ∷ []))
        × IsFresh (recv_stand_by net s).0
  arrive_all-frame c cs s packet f e four ne found = (
    arrive_rest [] c cs s packet
        (record {
          tail = s.read.buffer;
          filled = refl;
          room = f.room;
          counted = f.none_read;
          place = whole_array;
          receives = f.receives;
          behind = refl;
          enough = fits;
          known = inl f.none_known;
        })
        e four ne found,
    recv_stand_by-IsFresh net s,
  )

  -- A completion brings a whole frame and more bytes behind it, as when two packets come together:
  -- the first packet is handed over, and of the bytes behind it nothing is left.
  pub arrive-frame_and_more :
      (more : List ℕ) (s : IocpSession) (packet : Packet)
      → IsFresh s
      → length (frame o body ++ more) ≤ socket_buf_size
      → analyzer body ≡ some packet
      → arrive net o analyzer s (frame o body ++ more) ≡ ((recv_stand_by net s).0, packaged packet)
  unfolding arrive deliver recv_stand_by
  arrive-frame_and_more more s packet f small found =
      let c = frame o body ++ more in
      let tail = drop (length c) s.read.buffer in
      let written =
        deliver-posted s whole_array c f.receives small
        ∙ write_at-append [] s.read.buffer c s.read.buffer 0 refl refl in
      let whole = written ∙ append_assoc (frame o body) more tail in
      let long : 4 ≤ length (frame o body) = omega (arith, length-frame o body) in
      let starts =
        ap (take 4) whole
        ∙ take-header o body (frame o body) [] (more ++ tail) (append-nil _) long in
      let r =
        on_recv_complete net o decodes analyzer body fits (deliver s c) starts (inl f.none_known)
          (length c) (more ++ tail) packet
          (omega (arith, length-append (frame o body) more, length-frame o body, f.none_read))
          (omega (arith, small, f.none_read)) whole found in
      rw (r.0, r.1)
