-- ===== src/Network/Frame.antt =====
-- The bytes of one packet on the wire, as `SetData` writes them and `OnRecv` reads them: the encoded
-- length, header included, and then the encoded body.
use iocp_chat_server.Base.{
  ℕ, ◌+◌, ◌^◌, ◌≤◌, ◌<◌, ◌≡◌, sym, ap, ◌∙◌, List, ◌++◌, arith, length, length-append, take, drop,
  append_assoc,
}
use iocp_chat_server.Base.Bytes.{
  bytes_of_int32, int32_of_bytes, int32_of_bytes-bytes_of_int32, length-bytes_of_int32,
  take-append_left, take-append_le, drop-append_left,
}
use iocp_chat_server.Network.{PacketObfuscation, Decodes}
use iocp_chat_server.Network.IoData.{packet_header_size}

module _ (o : PacketObfuscation) where
  open o use {
    encoding_header, decoding_header, encoding_data, decoding_data, length-encoding_header,
    length-encoding_data,
  }

  abbrev pub header : List ℕ → List ℕ
  header body = encoding_header (bytes_of_int32 (packet_header_size + length body))

  abbrev pub frame : List ℕ → List ℕ
  frame body = header body ++ encoding_data body

  pub length-header : (body : List ℕ) → length (header body) ≡ 4
  length-header body = length-encoding_header _ ∙ length-bytes_of_int32 _

  pub length-frame : (body : List ℕ) → length (frame body) ≡ 4 + length body
  length-frame body = omega (
    arith,
    length-append (header body) (encoding_data body),
    length-header body,
    length-encoding_data body,
  )

  pub int32_of_bytes-header :
      Decodes o
      → (body : List ℕ) → 4 + length body < 2 ^ 32
      → int32_of_bytes (decoding_header (header body)) ≡ 4 + length body
  int32_of_bytes-header decodes body h =
      ap int32_of_bytes (decodes.header _) ∙ int32_of_bytes-bytes_of_int32 _ h

  -- The first four bytes of anything that begins as the frame does.
  pub take-header :
      (body p rest tail : List ℕ)
      → p ++ rest ≡ frame body
      → 4 ≤ length p
      → take 4 (p ++ tail) ≡ header body
  take-header body p rest tail e h =
      take-append_le 4 p tail h
      ∙ sym (take-append_le 4 p rest h)
      ∙ ap (take 4) e
      ∙ take-append_left 4 (header body) (encoding_data body) (sym (length-header body))

  -- What `DecodingData` makes of the bytes behind the header.
  pub decode-body :
      Decodes o
      → (body tail : List ℕ)
      → decoding_data (take (length body) (drop 4 (frame body ++ tail))) ≡ body
  decode-body decodes body tail =
      ap decoding_data (
        ap (λ (bs : List ℕ). take (length body) (drop 4 bs))
          (append_assoc (header body) (encoding_data body) tail)
        ∙ ap (take (length body)) (
            drop-append_left 4 (header body) (encoding_data body ++ tail)
              (sym (length-header body)))
        ∙ take-append_left (length body) (encoding_data body) tail
            (sym (length-encoding_data body)))
      ∙ decodes.body body
