-- ===== src/TerminalSession/SendPacket.antt =====
-- TerminalSession.cpp, `SendPacket`: what it sends.
use iocp_chat_server.Base.{
  ℕ, ◌+◌, ◌≤◌, ◌<◌, ◌≡◌, refl, sym, ap, ◌∙◌, List, [], ◌++◌, arith, length, take, drop,
  append_assoc, ltb, true, false,
}
use iocp_chat_server.Base.Bytes.{write_at, write_at-append, take-append_left}
use iocp_chat_server.Base.Machine.{int32}
use iocp_chat_server.Network.{PacketObfuscation}
use iocp_chat_server.Network.IoData.{socket_buf_size}
use iocp_chat_server.Network.Frame.{frame, header, length-frame, length-header}
use iocp_chat_server.TerminalSession.{send_packet, sends, overruns}
use iocp_chat_server.TerminalSession.OnRecv.{take-append_more}

module _ (o : PacketObfuscation) (memory stream after : List ℕ) where
  -- A stream that leaves eight bytes of the buffer, with four bytes that can be read behind it:
  -- `SendPacket` sends exactly its frame.
  pub send_packet-frame :
      8 + length stream ≤ socket_buf_size
      → 4 ≤ length after
      → send_packet o memory stream after ≡ sends (frame o stream)
  unfolding send_packet
  send_packet-frame h four =
      let n : int32 (4 + int32 (length stream)) ≡ 4 + length stream = omega arith in
      let head = header o stream in
      let data4 : 4 + length (o.encoding_data stream) ≡ 4 + length stream =
        ap (λ (k : ℕ). 4 + k) (o.length-encoding_data stream) in
      let source : take (4 + length stream) (o.encoding_data stream ++ after)
          ≡ o.encoding_data stream ++ take 4 after =
        ap (λ (k : ℕ). take k (o.encoding_data stream ++ after)) (sym data4)
        ∙ take-append_more 4 (o.encoding_data stream) after in
      let first = write_at-append [] memory head memory 0 refl refl in
      let second =
        write_at-append head (drop (length head) memory) (o.encoding_data stream ++ take 4 after)
          (write_at memory 0 head) 4 first (sym (length-header o stream)) in
      let rest =
        drop (length (o.encoding_data stream ++ take 4 after)) (drop (length head) memory) in
      let out : take (4 + length stream)
            ((head ++ (o.encoding_data stream ++ take 4 after)) ++ rest)
          ≡ frame o stream =
        rw
          (
            ← append_assoc head (o.encoding_data stream) (take 4 after),
            append_assoc (frame o stream) (take 4 after) rest,
          )
          (take-append_left (4 + length stream) (frame o stream) (take 4 after ++ rest)
            (sym (length-frame o stream))) in
      let small : ltb socket_buf_size (4 + length stream) ≡ false = ground arith in
      let inside : ltb socket_buf_size (4 + (4 + length stream)) ≡ false = ground arith in
      rw (n, small, inside, source, second, out) refl

  -- A stream that leaves four to seven bytes: `SendPacket` writes past the end of its buffer.
  pub terminal_overruns :
      socket_buf_size < 8 + length stream
      → 4 + length stream ≤ socket_buf_size
      → send_packet o memory stream after ≡ overruns
  unfolding send_packet
  terminal_overruns h k =
      let n : int32 (4 + int32 (length stream)) ≡ 4 + length stream = omega arith in
      let small : ltb socket_buf_size (4 + length stream) ≡ false = ground arith in
      let outside : ltb socket_buf_size (4 + (4 + length stream)) ≡ true = ground arith in
      rw (n, small, outside) refl
