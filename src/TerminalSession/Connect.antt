-- ===== src/TerminalSession/Connect.antt =====
-- TerminalSession.cpp, `ConnectTo`, and the loop of Terminal.cpp that calls it until it succeeds.
use iocp_chat_server.Base.{
  ℕ, ◌+◌, ◌≡◌, refl, Option, none, some, Bool, true, false, List, [], ◌∷◌, ◌++◌, if◌then◌else◌,
  arith, length,
}

-- What Winsock answers: the new socket, `none` for INVALID_SOCKET; the `WSAIoctl` of the keep-alive,
-- whose failure is ignored; and whether `connect` succeeds.
pub record Attempt : Type 0 where
  pub made : Option ℕ
  pub ioctl : ℕ
  pub connects : Bool

-- `socketData_.socket_`, and the sockets that the process holds, newest first.
pub record Sockets : Type 0 where
  pub socket : Option ℕ
  pub held : List ℕ

abbrev pub connect_made : Option ℕ → Bool → Sockets → Sockets × Bool
connect_made none connects s = (record s { socket = none }, false)
connect_made (some k) connects s = (record { socket = some k; held = k ∷ s.held }, connects)

unfoldable pub connect_to : Attempt → Sockets → Sockets × Bool
connect_to a s = connect_made a.made a.connects s

-- The attempts of `ConnectProcess` until one succeeds; true if one did.
unfoldable pub try_each : List Attempt → Sockets → Sockets × Bool
unfolding connect_to
try_each [] s = (s, false)
try_each (a ∷ rest) s =
    let (t, ok) = connect_to a s in let later = try_each rest t in if ok then (t, true) else later

-- A server that cannot be reached, although a socket is made each time.
abbrev pub AllRefused : List Attempt → Type 0
AllRefused [] = Unit {0}
AllRefused (a ∷ rest) = (a.connects ≡ false) × (((k : ℕ) × (a.made ≡ some k)) × AllRefused rest)

-- Every refused attempt leaves one more socket open: after `n` of them, and one that succeeds, the
-- process holds `n + 1` more than before, though the terminal knows only the last.
pub try_each-held :
    (refused : List Attempt) (a : Attempt) (k : ℕ) (s : Sockets)
    → AllRefused refused
    → a.made ≡ some k
    → a.connects ≡ true
    → let r = try_each (refused ++ a ∷ []) s in
      (r.1 ≡ true) × (r.0.socket ≡ some k) × (length r.0.held ≡ length refused + 1 + length s.held)
unfolding try_each
try_each-held [] a k s h m c = rw (m, c) (refl, refl, omega arith)
try_each-held (b ∷ bs) a k s h m c =
    let r =
      try_each-held bs a k (record { socket = some h.1.0.0; held = h.1.0.0 ∷ s.held }) h.1.1 m c in
    rw (h.0, h.1.0.1) (r.0, r.1, omega (arith, r.2))
