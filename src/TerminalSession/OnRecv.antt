-- ===== src/TerminalSession/OnRecv.antt =====
-- TerminalSession.cpp, `OnRecv`: what it makes of a packet that arrives in pieces, and of a
-- connection that ends within a packet.
use iocp_chat_server.Base.{
  ℕ, zero, suc, ◌+◌, ◌-◌, ◌^◌, ◌≤◌, ◌<◌, ◌≡◌, refl, sym, ap, ◌∙◌, List, [], ◌∷◌, ◌++◌, Option,
  arith, length, length-append, take, drop, append_assoc, append-nil, replicate, ltb, ◌&&◌, true,
  false,
}
use iocp_chat_server.Base.Bytes.{
  write_at, write_at-append, int32_of_bytes, drop-append_left, drop-drop,
}
use iocp_chat_server.Network.{PacketObfuscation, Decodes}
use iocp_chat_server.Network.IoData.{socket_buf_size}
use iocp_chat_server.Network.Frame.{
  frame, header, length-frame, length-header, take-header, int32_of_bytes-header, decode-body,
}
use iocp_chat_server.Network.IocpSession.Reassembly.{joined, NonEmpty}
use iocp_chat_server.TerminalSession.{
  Answer, received, closed, failed, complete, waits, receive_rest, analyze, on_recv, returns,
  blocks,
}

abbrev pub pieces : List (List ℕ) → List Answer → List Answer
pieces [] later = later
pieces (c ∷ cs) later = received c ∷ pieces cs later

-- The loop ends at a length that is reached, whatever comes next.
receive_rest-done :
    (n : ℕ) (row_data : List ℕ) (ret : ℕ) (later : List Answer)
    → n ≤ ret
    → receive_rest n row_data ret later ≡ complete row_data later
unfolding receive_rest
receive_rest-done n row_data ret [] h = ground arith
receive_rest-done n row_data ret (received bs ∷ later) h = ground arith
receive_rest-done n row_data ret (closed ∷ later) h = ground arith
receive_rest-done n row_data ret (failed ∷ later) h = ground arith

receive_rest-more :
    (n : ℕ) (row_data : List ℕ) (ret : ℕ) (bs : List ℕ) (later : List Answer)
    → ret < n
    → n < 2 ^ 31
    → receive_rest n row_data ret (received bs ∷ later)
      ≡ receive_rest n (write_at row_data ret bs) (ret + length bs) later
unfolding receive_rest
receive_rest-more n row_data ret bs later h k =
    let more : (ltb ret n && ltb n (2 ^ 31)) ≡ true = ground arith in rw more refl

receive_rest-closed :
    (n : ℕ) (row_data : List ℕ) (ret : ℕ) (later : List Answer)
    → ret < n
    → n < 2 ^ 31
    → receive_rest n row_data ret (closed ∷ later) ≡ receive_rest n row_data ret later
unfolding receive_rest
receive_rest-closed n row_data ret later h k =
    let more : (ltb ret n && ltb n (2 ^ 31)) ≡ true = ground arith in rw more refl

-- The bytes `p` of a frame `f` are there, and the others come in pieces.
receive_rest-pieces :
    (f p tail : List ℕ) (row_data : List ℕ) (ret : ℕ) (cs : List (List ℕ)) (later : List Answer)
    → p ++ joined cs ≡ f
    → row_data ≡ p ++ tail
    → ret ≡ length p
    → NonEmpty cs
    → length f < 2 ^ 31
    → receive_rest (length f) row_data ret (pieces cs later)
      ≡ complete (f ++ drop (length (joined cs)) tail) later
receive_rest-pieces f p tail row_data ret [] later e r n ne small =
    let whole = sym (append-nil p) ∙ e in
    receive_rest-done (length f) row_data ret later (omega (arith, n, ap length whole))
    ∙ ap (λ (b : List ℕ). complete b later) (r ∙ ap (λ (b : List ℕ). b ++ tail) whole)
receive_rest-pieces f p tail row_data ret (c ∷ cs) later e r n ne small =
    let sizes = ap length (sym e) ∙ length-append p (c ++ joined cs) in
    let len = length-append c (joined cs) in
    receive_rest-more (length f) row_data ret c (pieces cs later)
      (omega (arith, sizes, len, ne.0, n)) small
    ∙ receive_rest-pieces f (p ++ c) (drop (length c) tail) (write_at row_data ret c)
        (ret + length c) cs later (append_assoc p c (joined cs) ∙ e)
        (write_at-append p tail c row_data ret r n) (omega (arith, n, length-append p c)) ne.1 small
    ∙ ap (λ (b : List ℕ). complete (f ++ b) later)
        (drop-drop (length c) (length (joined cs)) tail ∙ ap (λ (k : ℕ). drop k tail) (sym len))

receive_rest-all_closed :
    (n : ℕ) (row_data : List ℕ) (ret k : ℕ)
    → ret < n
    → n < 2 ^ 31
    → receive_rest n row_data ret (replicate k closed) ≡ waits
unfolding receive_rest
receive_rest-all_closed n row_data ret zero h s = ground arith
receive_rest-all_closed n row_data ret (suc k) h s =
    receive_rest-closed n row_data ret (replicate k closed) h s
    ∙ receive_rest-all_closed n row_data ret k h s

pub take-append_more : (n : ℕ) (xs ys : List ℕ) → take (n + length xs) (xs ++ ys) ≡ xs ++ take n ys
take-append_more n [] ys = ap (λ (k : ℕ). take k ys) (omega arith)
take-append_more n (x ∷ xs) ys =
    let next : n + suc (length xs) ≡ suc (n + length xs) = omega arith in
    ap (λ (k : ℕ). take k (x ∷ (xs ++ ys))) next
    ∙ ap (λ (l : List ℕ). x ∷ l) (take-append_more n xs ys)

module _ (o : PacketObfuscation) (decodes : Decodes o) {Packet : Type 0}
    (analyzer : List ℕ → Option Packet) (body : List ℕ) where
  analyze-frame :
      (tail : List ℕ) (later : List Answer)
      → 8 + length body ≤ socket_buf_size
      → analyze o analyzer (4 + length body) (complete (frame o body ++ tail) later)
        ≡ returns (analyzer (body ++ take 4 tail)) later
  unfolding analyze
  analyze-frame tail later fits =
      let decoded = decode-body o decodes body tail in
      let split : frame o body ++ tail ≡ header o body ++ (o.encoding_data body ++ tail) =
        append_assoc (header o body) (o.encoding_data body) tail in
      let written =
        write_at-append (header o body) (o.encoding_data body ++ tail) body (frame o body ++ tail) 4
          split (sym (length-header o body)) in
      let behind : drop (length body) (o.encoding_data body ++ tail) ≡ tail =
        drop-append_left (length body) (o.encoding_data body) tail
          (sym (o.length-encoding_data body)) in
      let size : 4 + length body - 4 ≡ length body = omega arith in
      let given : take (4 + length body) (
            drop 4 (
              write_at (frame o body ++ tail) 4
                (o.decoding_data (take (4 + length body - 4) (drop 4 (frame o body ++ tail))))))
          ≡ body ++ take 4 tail =
        rw
          (
            size,
            decoded,
            written,
            behind,
            append_assoc (header o body) body tail,
            drop-append_left 4 (header o body) (body ++ tail) (sym (length-header o body)),
          )
          (take-append_more 4 body tail) in
      let no_less : ltb (4 + length body) 4 ≡ false = ground arith in
      let room : ltb socket_buf_size (4 + (4 + length body)) ≡ false = ground arith in
      rw (no_less, room, given) refl

  -- The bytes of one frame arrive in pieces, the first of at least four bytes and none empty, and the
  -- body leaves room for eight bytes: `OnRecv` returns what the analyzer makes of the body with the
  -- next four bytes of the array behind it, and no more answers are used.
  pub on_recv-frame :
      (memory : List ℕ) (c : List ℕ) (cs : List (List ℕ)) (later : List Answer)
      → c ++ joined cs ≡ frame o body
      → 4 ≤ length c
      → NonEmpty cs
      → 8 + length body ≤ socket_buf_size
      → on_recv o analyzer memory (received c ∷ pieces cs later)
        ≡ returns (analyzer (body ++ take 4 (drop (4 + length body) memory))) later
  unfolding on_recv
  on_recv-frame memory c cs later e four ne fits =
      let w = write_at-append [] memory c memory 0 refl refl in
      let starts =
        ap (take 4) w ∙ take-header o body c (joined cs) (drop (length c) memory) e four in
      let len =
        ap (λ (bs : List ℕ). int32_of_bytes (o.decoding_header bs)) starts
        ∙ int32_of_bytes-header o decodes body (omega arith)
        ∙ sym (length-frame o body) in
      let sizes = ap length (sym e) ∙ length-append c (joined cs) in
      let whole : length c + length (joined cs) ≡ 4 + length body =
        omega (arith, sizes, length-frame o body) in
      let tail≡ : drop (length (joined cs)) (drop (length c) memory)
          ≡ drop (4 + length body) memory =
        drop-drop (length c) (length (joined cs)) memory ∙ ap (λ (k : ℕ). drop k memory) whole in
      rw
        (
          len,
          receive_rest-pieces (frame o body) c (drop (length c) memory) (write_at memory 0 c)
              (length c) cs later e w refl ne (omega (arith, length-frame o body)),
          length-frame o body,
          tail≡,
        )
        (analyze-frame (drop (4 + length body) memory) later fits)

  -- The peer closes the connection within a frame, behind its header: however often `::recv` answers
  -- that the connection is closed, `OnRecv` asks again.
  pub on_recv-all_closed :
      (memory : List ℕ) (c rest : List ℕ) (k : ℕ)
      → c ++ rest ≡ frame o body
      → 4 ≤ length c
      → 0 < length rest
      → 4 + length body < 2 ^ 31
      → on_recv o analyzer memory (received c ∷ replicate k closed) ≡ blocks
  unfolding on_recv
  on_recv-all_closed memory c rest k e four more small =
      let w = write_at-append [] memory c memory 0 refl refl in
      let starts = ap (take 4) w ∙ take-header o body c rest (drop (length c) memory) e four in
      let len =
        ap (λ (bs : List ℕ). int32_of_bytes (o.decoding_header bs)) starts
        ∙ int32_of_bytes-header o decodes body (omega arith) in
      rw
        (
          len,
          receive_rest-all_closed (4 + length body) (write_at memory 0 c) (length c) k
              (omega (arith, ap length (sym e) ∙ length-append c rest, length-frame o body)) small,
        )
        refl
