-- ===== src/Network.antt =====
-- What the session code calls and the repository does not hold: Winsock, `PacketObfuscation` and
-- `PacketAnalyzer`. They are parameters of the model.
pub mod IoData
pub mod Frame
pub mod IocpSession
use iocp_chat_server.Base.{ℕ, ◌≡◌, List, length}

-- `PacketObfuscation`: each method rewrites a range of bytes in place, so it keeps the length.
pub record PacketObfuscation : Type 0 where
  pub encoding_header : List ℕ → List ℕ
  pub decoding_header : List ℕ → List ℕ
  pub encoding_data : List ℕ → List ℕ
  pub decoding_data : List ℕ → List ℕ
  pub length-encoding_header : (bs : List ℕ) → length (encoding_header bs) ≡ length bs
  pub length-encoding_data : (bs : List ℕ) → length (encoding_data bs) ≡ length bs
  pub length-decoding_data : (bs : List ℕ) → length (decoding_data bs) ≡ length bs

-- Decoding undoes encoding.
pub record Decodes (o : PacketObfuscation) : Type 0 where
  pub header : (bs : List ℕ) → o.decoding_header (o.encoding_header bs) ≡ bs
  pub body : (bs : List ℕ) → o.decoding_data (o.encoding_data bs) ≡ bs

-- The result of an overlapped `WSARecv` or `WSASend`, with what `WSAGetLastError` then says.
pub record IoResult : Type 0 where
  pub ret : ℕ
  pub last_error : ℕ

-- A `WSABUF`: the pointer `buf` as an offset into the `buffer_` of the `IoData` that it belongs to.
pub record WsaBuf : Type 0 where
  pub buf : ℕ
  pub len : ℕ

-- What Winsock answers to a call on this buffer.
pub record Winsock : Type 0 where
  pub wsa_recv : WsaBuf → IoResult
  pub wsa_send : WsaBuf → IoResult
