-- ===== src/Lock.antt =====
-- Lock.cpp and Lock.h, in the debug build, which defines STERN_MODE: locks, the scope that holds one,
-- and the search for deadlocks. Names, which only the log shows, are left out.
pub mod Search
pub mod Scope
pub mod Holders
use iocp_chat_server.Base.{
  ℕ, zero, suc, ◌+◌, ◌-◌, ◌%◌, ◌^◌, Option, none, some, ◌==◌, if◌then◌else◌,
}
use iocp_chat_server.Thread.{Thread, ThreadPool, at}

-- A `recursive_mutex`: who holds it, and how often.
pub data Mutex : Type 0 where
  free : Mutex
  held : (owner depth : ℕ) → Mutex  -- by this thread, `depth + 1` times

pub record Lock : Type 0 where
  pub mutex : Mutex
  pub lock_id : ℕ
  pub thread_id : ℕ
  pub locking : Option (ℕ × ℕ)  -- lockingFile_ and lockingLine_; `none` where they are cleared

-- `LockManager::GeneralId`, on the seed.
unfoldable pub general_id : ℕ → ℕ × ℕ
general_id seed = (seed, (seed + 1) % 2 ^ 64)

-- The constructor of `Lock`, with the seed.
unfoldable pub make : ℕ → Lock × ℕ
unfolding general_id
make seed =
    let (id, seed') = general_id seed in
    (record { mutex = free; lock_id = id; thread_id = 0; locking = none }, seed')

-- `mutex_.lock ()` by this thread; `none` while it has to wait.
unfoldable pub lock_mutex : ℕ → Mutex → Option Mutex
lock_mutex me free = some (held me 0)
lock_mutex me (held owner depth) = if owner == me then some (held owner (depth + 1)) else none

-- `mutex_.unlock ()`; `none` where this thread does not hold it, which is undefined.
unfoldable pub unlock_mutex : ℕ → Mutex → Option Mutex
unlock_mutex me free = none
unlock_mutex me (held owner zero) = if owner == me then some free else none
unlock_mutex me (held owner (suc depth)) = if owner == me then some (held owner depth) else none

abbrev pub with_mutex : Lock → Option (ℕ × ℕ) → Option Mutex → Option Lock
with_mutex l place none = none
with_mutex l place (some m) = some (record l { mutex = m; locking = place })

unfoldable pub file_lock : ℕ → ℕ → ℕ → Lock → Option Lock
unfolding lock_mutex
file_lock me file line l = with_mutex l (some (file, line)) (lock_mutex me l.mutex)

unfoldable pub file_unlock : ℕ → Lock → Option Lock
unfolding unlock_mutex
file_unlock me l = with_mutex l none (unlock_mutex me l.mutex)

unfoldable pub set_thread_id : Lock → ℕ → Lock
set_thread_id l id = record l { thread_id = id }

-- The locks by their addresses.
abbrev pub Locks : Type 0
Locks = ℕ → Lock

pub data Searched : Type 0 where
  dead_lock : ℕ → Searched
  no_dead_lock : Searched
  out_of_fuel : Searched

-- The loop of `SearchLockCycle`, from this thread; `new_id` is `trace[0]->LockId ()`.
abbrev pub follow : (Thread → Searched) → Option Thread → Searched
follow search none = no_dead_lock
follow search (some t) = search t

unfoldable pub search_from : ℕ → ThreadPool → Locks → ℕ → Thread → Searched
search_from zero pool locks new_id t = out_of_fuel
search_from (suc fuel) pool locks new_id t = elim t.lock [
  | none ↦ no_dead_lock
  | some l ↦
      if (locks l).lock_id == new_id
      then dead_lock l
      else follow (search_from fuel pool locks new_id) (at (locks l).thread_id pool)
]

-- `SearchLockCycle (newLock)` by the thread `me`.
unfoldable pub search_lock_cycle : ℕ → ThreadPool → Locks → ℕ → ℕ → Searched
search_lock_cycle fuel pool locks me new_lock =
    follow (search_from fuel pool locks (locks new_lock).lock_id) (at me pool)

-- What the constructor of `LockSafeScope` does: it waits, it ends the process (`SErrLog`), or it
-- holds the lock.
pub data Entered : Type 0 where
  waits : Entered
  exits : Entered
  searches : Entered  -- without end
  holds : Lock → Entered

abbrev pub entered : ℕ → Option Lock → Entered
entered me none = waits
entered me (some l) = holds (set_thread_id l me)

abbrev pub enter_after : Searched → Entered → Entered
enter_after (dead_lock d) e = exits
enter_after no_dead_lock e = e
enter_after out_of_fuel e = searches

unfoldable pub enter_scope : ℕ → ThreadPool → Locks → ℕ → ℕ → ℕ → ℕ → Entered
unfolding search_lock_cycle file_lock set_thread_id
enter_scope fuel pool locks me file line l =
    enter_after (search_lock_cycle fuel pool locks me l)
      (entered me (file_lock me file line (locks l)))

-- The destructor; `none` is undefined.
unfoldable pub leave_scope : ℕ → Lock → Option Lock
unfolding file_unlock
leave_scope me l = file_unlock me l
