-- ===== src/Base/Machine.antt =====
-- The machine integers of the Windows build: `size_t` has 64 bits, `DWORD`, `ULONG`, `int` and
-- `int32_t` have 32. A signed value is its bit pattern.
use iocp_chat_server.Base.{ℕ, ◌+◌, ◌-◌, ◌%◌, ◌^◌, ltb, if◌then◌else◌, Bool}

abbrev pub size_t : ℕ → ℕ
size_t n = n % 2 ^ 64

abbrev pub ulong : ℕ → ℕ
ulong n = n % 2 ^ 32

abbrev pub int32 : ℕ → ℕ
int32 n = n % 2 ^ 32

abbrev pub is_negative : ℕ → Bool
is_negative w = if ltb w (2 ^ 31) then Bool.false else Bool.true

-- `(size_t) w` for an `int32_t`: the sign is extended.
abbrev pub size_of_int32 : ℕ → ℕ
size_of_int32 w = if ltb w (2 ^ 31) then w else w + (2 ^ 64 - 2 ^ 32)
