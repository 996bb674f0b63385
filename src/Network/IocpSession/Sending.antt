-- ===== src/Network/IocpSession/Sending.antt =====
-- IOCPSession.cpp, `SetData`, `SendPacket` and `OnSend`: from a stream to the bytes on the wire.
use iocp_chat_server.Base.{
  ℕ, ◌+◌, ◌-◌, ◌≤◌, ◌<◌, ◌≡◌, refl, inl, inr, ◌↔◌, List, [], ◌∷◌, ◌++◌, Option, none, some, arith,
  take, drop, append-nil, Bool-cases, ltb, ltb→lt, false,
}
use iocp_chat_server.Base.Bytes.{take-take-drop, drop-drop}
use iocp_chat_server.Network.{Winsock, WsaBuf}
use iocp_chat_server.Network.IoData.{socket_buf_size}
use iocp_chat_server.Network.IocpSession.{IocpSession, Event, on_send}

-- The `WSABUF` of the send that these calls leave in flight.
abbrev pub posted : List Event → Option WsaBuf
posted [] = none
posted (Event.wsa_send b ∷ events) = some b
posted (_ ∷ events) = posted events

abbrev pub sum : List ℕ → ℕ
sum [] = 0
sum (k ∷ ks) = k + sum ks

module _ (net : Winsock) where
  -- Windows takes `k` bytes of the send in flight and completes it, again and again. The bytes that
  -- went out, and the send in flight at the end.
  unfoldable pub transmit : IocpSession → Option WsaBuf → List ℕ → List ℕ × Option WsaBuf
  transmit s b [] = ([], b)
  transmit s none (k ∷ ks) = ([], none)
  transmit s (some b) (k ∷ ks) =
      let (t, events) = on_send net s k in
      let (bytes, last) = transmit t (posted events) ks in
      (take k (drop b.buf s.write.buffer) ++ bytes, last)

  -- Each completion reports at least a byte, and at most what was in flight.
  abbrev pub Completes : IocpSession → Option WsaBuf → List ℕ → Type 0
  Completes s b [] = Unit {0}
  Completes s none (k ∷ ks) = ⊥
  Completes s (some b) (k ∷ ks) =
      (0 < k) × (k ≤ b.len) × Completes (on_send net s k).0 (posted (on_send net s k).1) ks

  on_send_more :
      (s : IocpSession) (k : ℕ)
      → s.write.total_bytes ≤ socket_buf_size
      → s.write.current_bytes + k < s.write.total_bytes
      → ((on_send net s k).0
          ≡ record s { write = record s.write { current_bytes = s.write.current_bytes + k } })
        × (posted (on_send net s k).1
            ≡ some (record {
              buf = s.write.current_bytes + k;
              len = s.write.total_bytes - (s.write.current_bytes + k);
            }))
  unfolding on_send
  on_send_more s k h m = ground arith

  on_send_last :
      (s : IocpSession) (k : ℕ)
      → s.write.total_bytes ≤ socket_buf_size
      → s.write.current_bytes + k ≡ s.write.total_bytes
      → posted (on_send net s k).1 ≡ none
  unfolding on_send
  on_send_last s k h m = ground arith

  transmit-cons :
      (s : IocpSession) (b : WsaBuf) (k : ℕ) (ks : List ℕ)
      → let r = transmit (on_send net s k).0 (posted (on_send net s k).1) ks in
        transmit s (some b) (k ∷ ks) ≡ (take k (drop b.buf s.write.buffer) ++ r.0, r.1)
  unfolding transmit
  transmit-cons s b k ks = refl

  -- The send in flight points behind the bytes already sent.
  pub record InFlight (s : IocpSession) (b : WsaBuf) : Type 0 where
    pub bounded : s.write.total_bytes ≤ socket_buf_size
    pub aimed : b.buf ≡ s.write.current_bytes
    pub inside : s.write.current_bytes + b.len ≤ s.write.total_bytes
    pub unfinished : s.write.current_bytes < s.write.total_bytes

  -- After completions that add up to `n` bytes, from `current` on.
  abbrev pub Sent : IocpSession → ℕ → List ℕ × Option WsaBuf → Type 0
  Sent s n r =
      (r.0 ≡ take n (drop s.write.current_bytes s.write.buffer))
      × (s.write.current_bytes + n ≤ s.write.total_bytes)
      × ((r.1 ≡ none) ↔ (s.write.current_bytes + n ≡ s.write.total_bytes))

  Sent-more :
      (s : IocpSession) (k n : ℕ) (r : List ℕ × Option WsaBuf)
      → Sent (record s { write = record s.write { current_bytes = s.write.current_bytes + k } }) n r
      → Sent s (k + n) (take k (drop s.write.current_bytes s.write.buffer) ++ r.0, r.1)
  Sent-more s k n r h =
      let c = s.write.current_bytes in
      (
        rw (h.0, ← drop-drop c k s.write.buffer) (take-take-drop k n (drop c s.write.buffer)),
        omega (arith, h.1),
        ((λ e. omega (arith, h.2.0 e)), (λ e. h.2.1 (omega arith))),
      )

  Sent-last :
      (s t : IocpSession) (k : ℕ) (ks : List ℕ)
      → s.write.current_bytes + k ≡ s.write.total_bytes
      → Completes t none ks
      → let r = transmit t none ks in
        Sent s (k + sum ks) (take k (drop s.write.current_bytes s.write.buffer) ++ r.0, r.1)
  unfolding transmit
  Sent-last s t k [] e c =
      let plus : k + 0 ≡ k = omega arith in
      rw plus (append-nil _, omega (arith, e), ((λ _. e), (λ _. refl)))
  Sent-last s t k (j ∷ ks) e c = absurd c

  pub transmit-Sent :
      (s : IocpSession) (b : WsaBuf) (ks : List ℕ)
      → InFlight s b
      → Completes s (some b) ks
      → Sent s (sum ks) (transmit s (some b) ks)
  unfolding transmit
  transmit-Sent s b [] f c =
      (refl, omega (arith, f.unfinished), ((λ e. cc), (λ e. absurd (omega (arith, f.unfinished)))))
  transmit-Sent s b (k ∷ ks) f c =
      elim (Bool-cases (ltb (s.write.current_bytes + k) s.write.total_bytes)) [
        | inl e ↦
            let more = on_send_more s k f.bounded (ltb→lt _ _ e) in
            let d = record s {
              write = record s.write { current_bytes = s.write.current_bytes + k };
            } in
            rw (f.aimed, more.0, more.1)
              (Sent-more s k (sum ks) _ (
                transmit-Sent d _ ks
                  (record {
                    bounded = f.bounded;
                    aimed = refl;
                    inside = omega (arith, ltb→lt _ _ e);
                    unfinished = ltb→lt _ _ e;
                  })
                  (rw (more.0, more.1) at (c.2))))
        | inr e ↦
            let full = ends k e (omega (arith, f.inside, c.1)) in
            let none_posted = on_send_last s k f.bounded full in
            rw (f.aimed, none_posted)
              (Sent-last s (on_send net s k).0 k ks full (rw none_posted at (c.2)))
      ]
    where
      ends :
          (k : ℕ)
          → ltb (s.write.current_bytes + k) s.write.total_bytes ≡ false
          → s.write.current_bytes + k ≤ s.write.total_bytes
          → s.write.current_bytes + k ≡ s.write.total_bytes
      ends k e h = ground arith
