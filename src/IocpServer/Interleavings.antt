-- ===== src/IocpServer/Interleavings.antt =====
-- SessionMonitor.cpp and IOCPServer.cpp: `Tick` goes through a copy of the list, and while it does, the
-- accept thread and the workers open and close sessions. Each session of the copy is one turn of the
-- monitor, and anything may come between two of them.
use iocp_chat_server.Base.{
  ℕ, suc, ◌≡◌, ◌∙◌, refl, inl, inr, true, false, List, [], ◌∷◌, Option, Bool-cases, Option-cases,
  if◌then◌else◌,
}
use iocp_chat_server.Base.Int.{pos}
use iocp_chat_server.Network.{PacketObfuscation, Winsock}
use iocp_chat_server.SessionManager.Memory.{
  Pointer, World, M, Outcome-cases, Fault, done, use_after_free, pure, ◌>>=◌, ◌>>◌, load_at,
  lingers,
}
use iocp_chat_server.SessionManager.{contains, make, check_each, is_expired, on_close}
use iocp_chat_server.SessionManager.Close.{without}
use iocp_chat_server.SessionManager.Invariant.{Live-load}
use iocp_chat_server.SessionManager.Reaping.{
  check_each-expired, check_each-spared, check_each-nil, check_each-gone,
}
use iocp_chat_server.SessionManager.Changes.{
  Sound, make-Sound, Changes-Sound, logs, closes, and_then,
}
use iocp_chat_server.IocpServer.Sound.{SoundOr, unlisted_free}
use iocp_chat_server.IocpServer.History.{
  Happening, Admitted, Fails, perform, perform-Sound, SoundOr-then,
}

-- The loop of `Tick`: when it began, and what is left of its copy of the list.
pub record Round : Type 0 where
  pub now : ℕ
  pub rest : List Pointer

-- What comes next: a handler runs; the monitor begins a round, and copies the list; the monitor takes the
-- next session of its copy.
pub data Turn : Type 0 where
  handles : Happening → Turn
  copies : (now : ℕ) → Turn
  checks : Turn

-- The body of the loop, for this session.
abbrev pub check_one : ℕ → ℕ → Pointer → M (Unit {0})
check_one fuel now p w = check_each fuel now (p ∷ []) w

abbrev pub check_next : ℕ → Round → List Pointer → M Round
check_next fuel r [] w = done r w
check_next fuel r (p ∷ ps) w = (do check_one fuel r.now p; pure (record r { rest = ps })) w

-- The whole loop is its turns one after another.
check_each-cons :
    (fuel now : ℕ) (p : Pointer) (ps : List Pointer) (w : World)
    → check_each fuel now (p ∷ ps) w ≡ (do check_one fuel now p; check_each fuel now ps) w
unfolding check_each
check_each-cons fuel now p ps w = elim (Option-cases (w.heap p)) [
  | inl free ↦ rw (free, ◌>>=◌, load_at) refl
  | inr (s, e) ↦
      elim (Outcome-cases ((if is_expired now s then on_close fuel p true else pure tt) w)) [
        | inl (a, w', k) ↦ rw (e, ◌>>=◌, load_at, k) refl
        | inr (x, k) ↦ rw (e, ◌>>=◌, load_at, k) refl
      ]
]

module _ (net : Winsock) (o : PacketObfuscation) (analyzer : List ℕ → Option ℕ) (fuel : ℕ) where
  unfoldable pub turn : Turn → Round → M Round
  unfolding perform
  turn (handles h) r w = (do perform net o analyzer fuel h; pure r) w
  turn (copies now) r w = done (record { now = now; rest = w.session_list }) w
  turn checks r w = check_next (suc (suc fuel)) r r.rest w

-- The next session of the copy is no longer listed.
abbrev pub Gone : List Pointer → World → Type 0
Gone [] w = ⊥
Gone (p ∷ ps) w = contains p w.session_list ≡ false

-- `new` gives free memory, and one round of the monitor is over before the next one begins.
abbrev pub AdmittedTurn : Turn → Round → World → Type 0
AdmittedTurn (handles h) r w = Admitted h w
AdmittedTurn (copies now) r w = r.rest ≡ []
AdmittedTurn checks r w = Unit {0}

-- The faults that can come. The monitor uses a freed session exactly if it has been closed since the copy.
abbrev pub TurnFails : Turn → Round → World → Fault → Type 0
TurnFails (handles h) r w e = Fails h w e
TurnFails (copies now) r w e = ⊥
TurnFails checks r w e = (e ≡ use_after_free) × Gone r.rest w

check_one-listed :
    (fuel now : ℕ) (p : Pointer) (w : World)
    → Sound w
    → contains p w.session_list ≡ true
    → (w' : World) × (check_one (suc (suc fuel)) now p w ≡ done tt w') × Sound w'
check_one-listed fuel now p w i c =
    let l = Live-load w.heap p w.session_list i.inv.live c in
    let v = record w { effects = lingers l.0.socket ∷ w.effects } in
    elim (Bool-cases (is_expired now l.0)) [
      | inl old ↦ (
        without p l.0 v,
        check_each-expired fuel now p [] l.0 w l.2 c l.1 old
            ∙ check_each-nil (suc (suc fuel)) now _,
        Changes-Sound {p = p} (and_then (logs v.effects) (closes l.0 c l.1)) i,
      )
      | inr fresh ↦ (
        w,
        check_each-spared (suc (suc fuel)) now p [] l.0 w l.1 fresh
            ∙ check_each-nil (suc (suc fuel)) now w,
        i,
      )
    ]

check_next-Sound :
    (fuel : ℕ) (r : Round) (rest : List Pointer) (w : World)
    → Sound w
    → SoundOr (λ e. (e ≡ use_after_free) × Gone rest w) (check_next (suc (suc fuel)) r rest w)
check_next-Sound fuel r [] w i = i
check_next-Sound fuel r (p ∷ ps) w i = elim (Bool-cases (contains p w.session_list)) [
  | inl listed ↦ let x = check_one-listed fuel r.now p w i listed in rw (x.1, ◌>>=◌) (x.2)
  | inr gone ↦
      rw (check_each-gone (suc (suc fuel)) r.now p [] w (unlisted_free p w i.owned gone), ◌>>=◌)
        (refl, gone)
]

module _ (net : Winsock) (o : PacketObfuscation) (analyzer : List ℕ → Option ℕ) (fuel : ℕ) where
  turn-Sound :
      (t : Turn) (r : Round) (w : World)
      → Sound w
      → AdmittedTurn t r w
      → SoundOr (TurnFails t r w) (turn net o analyzer fuel t r w)
  unfolding turn
  turn-Sound (handles h) r w i d =
      SoundOr-then (Fails h w) (perform net o analyzer fuel h) r w
        (perform-Sound net o analyzer fuel h w i d)
  turn-Sound (copies now) r w i d = i
  turn-Sound checks r w i d = check_next-Sound fuel r r.rest w i

-- What a server can get to, turn by turn, with room for any number of sessions.
pub data Interleaved (net : Winsock) (o : PacketObfuscation) (analyzer : List ℕ → Option ℕ)
    (fuel : ℕ) : Round → World → Type 0 where
  starts : (n : ℕ) → Interleaved net o analyzer fuel (record { now = 0; rest = [] }) (make (pos n))
  later :
      {r r' : Round} {w w' : World} (t : Turn)
      → Interleaved net o analyzer fuel r w
      → AdmittedTurn t r w
      → turn net o analyzer fuel t r w ≡ done r' w'
      → Interleaved net o analyzer fuel r' w'

Interleaved-Sound :
    {net : Winsock} {o : PacketObfuscation} {analyzer : List ℕ → Option ℕ} {fuel : ℕ} {r : Round}
    {w : World}
    → Interleaved net o analyzer fuel r w
    → Sound w
Interleaved-Sound (starts n) = make-Sound n
Interleaved-Sound {net} {o} {analyzer} {fuel} (later {r} {r'} {w} {w'} t before d e) =
    rw e at (turn-Sound net o analyzer fuel t r w (Interleaved-Sound before) d)

-- Provided that `new` gives free memory, and with any handlers between two sessions of the monitor's
-- round: the session table stays well formed, every allocated session listed, and the buffers at their
-- size. Whatever comes next keeps that, or ends with a fault: one of `Fails` where a handler runs, and in
-- the monitor's turn the use of a freed session, and this only if the session has been closed since the
-- monitor copied the list.
pub turn-Interleaved :
    {net : Winsock} {o : PacketObfuscation} {analyzer : List ℕ → Option ℕ} {fuel : ℕ} {r : Round}
    {w : World}
    → Interleaved net o analyzer fuel r w
    → (t : Turn) → AdmittedTurn t r w
    → Sound w × SoundOr (TurnFails t r w) (turn net o analyzer fuel t r w)
turn-Interleaved {net} {o} {analyzer} {fuel} {r} {w} before t d =
    let i = Interleaved-Sound before in (i, turn-Sound net o analyzer fuel t r w i d)
