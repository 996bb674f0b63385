-- ===== src/Network/IoData/SetData.antt =====
-- IOCPSession.cpp, `IoData::SetData`, for every size of the stream.
use iocp_chat_server.Base.{
  ℕ, ◌+◌, ◌≤◌, ◌<◌, ◌≡◌, refl, sym, ap, List, [], ◌++◌, arith, length, length-append, length-drop,
  drop,
}
use iocp_chat_server.Base.Bytes.{zeroed, length-zeroed, write_at, write_at-append, bytes_of_int32}
use iocp_chat_server.Base.Machine.{int32}
use iocp_chat_server.Network.{PacketObfuscation}
use iocp_chat_server.Network.IoData.{
  IoData, returns_true, returns_false, overruns, set_data, socket_buf_size, clear,
}
use iocp_chat_server.Network.Frame.{header, frame, length-header, length-frame}

-- The buffer holds the whole frame of this stream, and nothing of it is sent.
pub record Loaded (o : PacketObfuscation) (stream : List ℕ) (d : IoData) : Type 0 where
  pub rest : List ℕ
  pub filled : d.buffer ≡ frame o stream ++ rest
  pub sized : length d.buffer ≡ socket_buf_size
  pub total : d.total_bytes ≡ 4 + length stream
  pub unsent : d.current_bytes ≡ 0

module _ (o : PacketObfuscation) (d : IoData) (stream : List ℕ) where
  -- What `SetData` leaves when it succeeds.
  unfoldable pub loaded : IoData
  unfolding clear
  loaded = record (clear d) {
    buffer =
        write_at (write_at (zeroed socket_buf_size) 0 (header o stream)) 4 (o.encoding_data stream);
    total_bytes = 4 + length stream;
  }

  loaded-filled :
      loaded.buffer
      ≡ frame o stream
        ++ drop
            (length (o.encoding_data stream))
            (drop (length (header o stream)) (zeroed socket_buf_size))
  unfolding loaded
  loaded-filled =
      write_at-append (header o stream) (drop (length (header o stream)) (zeroed socket_buf_size))
        (o.encoding_data stream) _ 4
        (write_at-append [] (zeroed socket_buf_size) (header o stream) _ 0 refl refl)
        (sym (length-header o stream))

  pub loaded-Loaded : 4 + length stream ≤ socket_buf_size → Loaded o stream loaded
  unfolding loaded clear
  loaded-Loaded h = record {
    rest = _;
    filled = loaded-filled;
    sized = omega (
      arith,
      ap length loaded-filled,
      length-append (frame o stream) (
          drop (length (o.encoding_data stream))
            (drop (length (header o stream)) (zeroed socket_buf_size))),
      length-drop (length (o.encoding_data stream))
          (drop (length (header o stream)) (zeroed socket_buf_size)),
      length-drop (length (header o stream)) (zeroed socket_buf_size),
      length-zeroed socket_buf_size,
      length-frame o stream,
      length-header o stream,
      o.length-encoding_data stream,
    );
    total = refl;
    unsent = refl;
  }

  header_size :
      4 + length stream ≤ socket_buf_size → int32 (4 + int32 (length stream)) ≡ 4 + length stream
  header_size h = omega arith

  -- A stream that fits behind the header is stored.
  pub set_data_fits :
      4 + length stream ≤ socket_buf_size → set_data o d stream ≡ returns_true loaded
  unfolding set_data loaded
  set_data_fits h = ground (
    arith,
    ap
        (λ (w : ℕ).
          write_at (write_at (zeroed socket_buf_size) 0 (o.encoding_header (bytes_of_int32 w))) 4
            (o.encoding_data stream))
        (header_size h),
  )

  -- One that fits the array, but not behind the header, makes `SetData` write past the array.
  pub set_data_overruns :
      length stream < socket_buf_size
      → socket_buf_size < 4 + length stream
      → set_data o d stream ≡ overruns
  unfolding set_data
  set_data_overruns h k = ground arith

  -- A longer one is refused, with the buffer cleared.
  pub set_data_too_big :
      socket_buf_size ≤ length stream → set_data o d stream ≡ returns_false (clear d)
  unfolding set_data
  set_data_too_big h = ground arith
