-- ===== src/Network/IoData.antt =====
-- IOCPSession.cpp and IOCPSession.h, class `IoData`: one direction of a session's I/O.
-- The `OVERLAPPED` that Windows owns is left out.
pub mod SetData
use iocp_chat_server.Base.{
  ℕ, ◌+◌, ◌-◌, ◌*◌, ◌^◌, Bool, ◌&&◌, true, false, List, [], ◌==◌, ltb, leb, if◌then◌else◌, length,
  take,
}
use iocp_chat_server.Base.Bytes.{zeroed, write_at, bytes_of_int32, int32_of_bytes}
use iocp_chat_server.Base.Machine.{size_t, ulong, int32, size_of_int32}
use iocp_chat_server.Network.{PacketObfuscation, WsaBuf}

abbrev pub socket_buf_size : ℕ
socket_buf_size = 1024 * 10

-- sizeof(packet_size_t)
abbrev pub packet_header_size : ℕ
packet_header_size = 4

pub data IoOperation : Type 0 where
  io_read io_write io_error : IoOperation

pub record IoData : Type 0 where
  pub io_type : IoOperation
  pub total_bytes : ℕ  -- size_t
  pub current_bytes : ℕ  -- size_t
  pub buffer : List ℕ  -- array<char, SOCKET_BUF_SIZE>

-- A range of `buffer_` that C++ code reads or writes does not lie in the array: undefined behaviour.
abbrev pub outside_array : ℕ → ℕ → Bool
outside_array offset size = ltb socket_buf_size (offset + size)

-- `memcpy_s (buffer_ + offset, bound, .., size)` writes past the array: the size is within the bound that
-- the call passes, and the range is not within the array.
abbrev pub memcpy_s_overruns : (offset bound size : ℕ) → Bool
memcpy_s_overruns offset bound size = leb size bound && outside_array offset size

unfoldable pub clear : IoData → IoData
clear d = record d { buffer = zeroed socket_buf_size; total_bytes = 0; current_bytes = 0 }

unfoldable pub make : IoData
unfolding clear
make = clear (record { io_type = io_error; total_bytes = 0; current_bytes = 0; buffer = [] })

unfoldable pub set_type : IoData → IoOperation → IoData
set_type d t = record d { io_type = t }

unfoldable pub need_more_io : IoData → ℕ → IoData × Bool
need_more_io d transfer_size =
    let current = size_t (d.current_bytes + transfer_size) in
    (record d { current_bytes = current }, ltb current d.total_bytes)

unfoldable pub wsabuf : IoData → WsaBuf
wsabuf d = record {
  buf = d.current_bytes;
  len = ulong (size_t (d.total_bytes + 2 ^ 64 - d.current_bytes));
}

-- What `SetData` does: `false`, `true`, or a `memcpy_s` that runs past the end of `buffer_`. (The
-- call passes the whole size of the array as its bound, wherever in the array it starts to write.)
pub data SetDataResult : Type 0 where
  returns_false : IoData → SetDataResult
  returns_true : IoData → SetDataResult
  overruns : SetDataResult

module _ (o : PacketObfuscation) where
  open o use {encoding_header, decoding_header, encoding_data}

  -- The offset that it returns is `packet_header_size`.
  unfoldable pub setup_total_bytes : IoData → IoData × ℕ
  setup_total_bytes d =
      let header = decoding_header (take packet_header_size d.buffer) in
      let total = size_of_int32 (int32_of_bytes header) in
      ((if d.total_bytes == 0 then record d { total_bytes = total } else d), packet_header_size)

  -- `stream` is what `Stream::Data` and `Stream::Size` show.
  unfoldable pub set_data : IoData → List ℕ → SetDataResult
  unfolding clear
  set_data d stream =
      let cleared = clear d in
      let size = length stream in
      let header = encoding_header (bytes_of_int32 (int32 (packet_header_size + int32 size))) in
      let offset = int32 (packet_header_size + int32 size) in
      let with_header = write_at cleared.buffer 0 header in
      let filled = write_at with_header packet_header_size (encoding_data stream) in
      if leb socket_buf_size size
      then returns_false cleared
      else if memcpy_s_overruns packet_header_size socket_buf_size size
      then overruns
      else returns_true (record cleared { buffer = filled; total_bytes = size_of_int32 offset })
