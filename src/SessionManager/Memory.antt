-- ===== src/SessionManager/Memory.antt =====
-- The objects that the session code allocates, and what its calls do to the world: a state monad
-- whose faults are the undefined behaviour of C++.
use iocp_chat_server.Base.{
  ℕ, List, ◌∷◌, Option, none, some, ◌==◌, if◌then◌else◌, ◌≡◌, refl, ◌⊎◌, inl, inr,
}
use iocp_chat_server.Base.Int.{ℤ}
use iocp_chat_server.Network.IocpSession.{IocpSession, Event}

-- A pointer to a session; 0 is `nullptr`.
abbrev pub Pointer : Type 0
Pointer = ℕ

pub data Effect : Type 0 where
  closes_socket : ℕ → Effect
  lingers : ℕ → Effect  -- setsockopt (SO_LINGER) with a waiting time of 0
  logs_busy : Effect
  frees : Pointer → Effect
  socket_io : Pointer → Event → Effect  -- what a session's own calls do
  associates : Pointer → Effect  -- CreateIoCompletionPort
  puts_package : Pointer → ℕ → Effect  -- ContentsProcess::PutPackage, with the packet
  logs_accept : Pointer → Effect
  logs_close : Pointer → Effect
  logs_accept_fail : Effect
  logs_broken : Effect

-- The fields of `SessionManager`, the allocated sessions, and the effects so far, newest first.
-- `lock_` is left out: each method holds it from its start to its end, and it is recursive.
pub record World : Type 0 where
  pub session_list : List Pointer
  pub session_count : ℤ  -- int
  pub max_connection : ℤ  -- int
  pub session_seed : ℕ  -- oid_t
  pub heap : Pointer → Option IocpSession
  pub effects : List Effect

pub data Fault : Type 0 where
  use_after_free double_free out_of_bounds out_of_fuel : Fault

pub data Outcome (A : Type 0) : Type 0 where
  done : A → World → Outcome A
  fault : Fault → Outcome A

pub Outcome-cases :
    {A : Type 0} (r : Outcome A)
    → ((a : A) × (w : World) × (r ≡ done a w)) ⊎ ((e : Fault) × (r ≡ fault e))
Outcome-cases (done a w) = inl (a, w, refl)
Outcome-cases (fault e) = inr (e, refl)

abbrev pub M : Type 0 → Type 0
M A = World → Outcome A

abbrev pub pure : {A : Type 0} → A → M A
pure a w = done a w

infixl 5 ◌>>=◌ ◌>>◌
abbrev pub ◌>>=◌ : {A B : Type 0} → M A → (A → M B) → M B
◌>>=◌ m f w = elim (m w) [ done a w' ↦ f a w' | fault e ↦ fault e ]

abbrev pub ◌>>◌ : {A B : Type 0} → M A → M B → M B
m >> k = m >>= λ _. k

abbrev pub update :
    (Pointer → Option IocpSession) → Pointer → Option IocpSession → Pointer → Option IocpSession
update h p o q = if p == q then o else h q

abbrev pub load_at : Option IocpSession → M IocpSession
load_at none w = fault use_after_free
load_at (some s) w = done s w

-- `*p`
unfoldable pub load : Pointer → M IocpSession
load p w = load_at (w.heap p) w

unfoldable pub store : Pointer → IocpSession → M (Unit {0})
store p s w = done tt (record w { heap = update w.heap p (some s) })

unfoldable pub emit : Effect → M (Unit {0})
emit e w = done tt (record w { effects = e ∷ w.effects })

abbrev pub free_at : Option IocpSession → Pointer → M (Unit {0})
free_at none p w = fault double_free
free_at (some s) p w =
    done tt (record w { heap = update w.heap p none; effects = frees p ∷ w.effects })

-- The memory of `*p` is given back.
unfoldable pub free : Pointer → M (Unit {0})
free p w = free_at (w.heap p) p w
