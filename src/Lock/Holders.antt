-- ===== src/Lock/Holders.antt =====
-- Lock.cpp, class LockSafeScope: many threads that enter and leave scopes of one lock. Each statement of
-- `FileLock`, `SetThreadId` and `FileUnlock` is a step of its own, and the steps of the threads come in
-- any order. The search for deadlocks, which only reads, comes before and is left out.
pub mod Owns
pub mod Exclusion
use iocp_chat_server.Base.{ℕ, suc, ◌+◌, ◌≡◌, none, some, ◌==◌, if◌then◌else◌}
use iocp_chat_server.Lock.{Mutex, Lock, lock_mutex, unlock_mutex, set_thread_id, make}

-- Where a thread stands: between two scopes or in one, behind `mutex_.lock ()`, behind the note of the
-- place, and behind `mutex_.unlock ()`.
pub data Phase : Type 0 where
  idle : Phase
  locked : (file line : ℕ) → Phase
  placed : Phase
  released : Phase

-- The threads by their identifiers, each with the number of its open scopes.
pub record Threads : Type 0 where
  pub lock : Lock
  pub depth : ℕ → ℕ
  pub phase : ℕ → Phase

abbrev pub changed {ℓ} : {A : Type ℓ} → (ℕ → A) → ℕ → A → ℕ → A
changed f i a j = if i == j then a else f j

pub data Step (s : Threads) : Threads → Type 0 where
  takes :
      (i file line : ℕ) (m : Mutex)
      → s.phase i ≡ idle
      → lock_mutex i s.lock.mutex ≡ some m
      → Step s (record s {
        lock = record s.lock { mutex = m };
        phase = changed s.phase i (locked file line);
      })
  notes :
      (i file line : ℕ)
      → s.phase i ≡ locked file line
      → Step s (record s {
        lock = record s.lock { locking = some (file, line) };
        phase = changed s.phase i placed;
      })
  signs :
      (i : ℕ)
      → s.phase i ≡ placed
      → Step s (record {
        lock = set_thread_id s.lock i;
        depth = changed s.depth i (s.depth i + 1);
        phase = changed s.phase i idle;
      })
  releases :
      (i d : ℕ) (m : Mutex)
      → s.phase i ≡ idle
      → s.depth i ≡ suc d
      → unlock_mutex i s.lock.mutex ≡ some m
      → Step s (record {
        lock = record s.lock { mutex = m };
        depth = changed s.depth i d;
        phase = changed s.phase i released;
      })
  clears :
      (i : ℕ)
      → s.phase i ≡ released
      → Step s
          (record s { lock = record s.lock { locking = none }; phase = changed s.phase i idle })

-- From a new lock on.
pub data Reach (seed : ℕ) : Threads → Type 0 where
  start : Reach seed (record { lock = (make seed).0; depth = λ i. 0; phase = λ i. idle })
  later : {s t : Threads} → Reach seed s → Step s t → Reach seed t
