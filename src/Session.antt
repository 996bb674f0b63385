-- ===== src/Session.antt =====
-- Session.cpp and Session.h: what the base class of a connection keeps. Time is an argument: the
-- reading of `CLOCK.SystemTick` that the call makes, in seconds.
use iocp_chat_server.Base.{ℕ, ◌<◌, ◌≡◌, Bool, ◌==◌, length, arith}
use iocp_chat_server.Base.Text.{Text}
use iocp_chat_server.Util.{Converted, holds, str_conv_a2w}

pub data SessionType : Type 0 where
  session_type_terminal session_type_client : SessionType

-- `SOCKET_DATA` and the fields of `Session`. An address stands for its `SOCKADDR_IN`.
pub record Session : Type 0 where
  pub socket : ℕ
  pub address : ℕ
  pub id : ℕ  -- oid_t
  pub type : SessionType
  pub last_heart_beat : ℕ  -- tick_t

unfoldable pub update_heart_beat : Session → ℕ → Session
update_heart_beat s now = record s { last_heart_beat = now }

-- The constructor writes the type and the heart beat; `s` is what the memory held.
unfoldable pub make : Session → ℕ → Session
unfolding update_heart_beat
make s now = update_heart_beat (record s { type = session_type_client }) now

-- `ioctl` is the result of the `WSAIoctl` call that sets the keep-alive.
unfoldable pub set_socket_opt : ℕ → Bool
set_socket_opt ioctl = ioctl == 0

-- What `getpeername` stores is overwritten at once.
unfoldable pub on_accept : Session → ℕ → ℕ → ℕ → Session × Bool
unfolding set_socket_opt
on_accept s socket address ioctl =
    (record s { socket = socket; address = address }, set_socket_opt ioctl)

unfoldable pub set_id : Session → ℕ → Session
set_id s id = record s { id = id }

unfoldable pub set_type : Session → SessionType → Session
set_type s type = record s { type = type }

-- `ClientAddress`, but for the copy: `inet_ntop` writes the text of an address into 64 characters, and
-- `widen` is the conversion of `StrConvA2W`.
unfoldable pub client_address : (inet_ntop : ℕ → Text) (widen : Text → Text) → Session → Converted
unfolding str_conv_a2w
client_address inet_ntop widen s = str_conv_a2w widen (inet_ntop s.address) 64

-- A conversion that keeps the length stores the whole text of an address of fewer than 63 characters:
-- those of IPv4 have at most 15.
pub client_address-short :
    (inet_ntop : ℕ → Text) (widen : Text → Text) (s : Session)
    → length (widen (inet_ntop s.address)) < 63
    → client_address inet_ntop widen s ≡ holds (widen (inet_ntop s.address))
unfolding client_address
client_address-short inet_ntop widen s h = ground arith
