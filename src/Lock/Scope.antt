-- ===== src/Lock/Scope.antt =====
-- Lock.cpp, class LockSafeScope: entering a scope and leaving it.
use iocp_chat_server.Base.{ℕ, ◌≡◌, refl, sym, none, some, arith, Option-cases, inl, inr}
use iocp_chat_server.Thread.{ThreadPool}
use iocp_chat_server.Lock.{
  Mutex, free, held, Lock, Locks, no_dead_lock, search_lock_cycle, holds, waits, lock_mutex,
  unlock_mutex, enter_scope, leave_scope, file_lock, file_unlock, set_thread_id,
}

-- Unlocking undoes locking, also where the thread held the mutex before.
pub unlock_mutex-lock_mutex :
    (me : ℕ) (m m' : Mutex) → lock_mutex me m ≡ some m' → unlock_mutex me m' ≡ some m
unfolding lock_mutex unlock_mutex
unlock_mutex-lock_mutex me free m' e = ground arith
unlock_mutex-lock_mutex me (held owner depth) m' e = ground arith

-- A scope that is entered is left with the mutex as before, the place forgotten, and the identifier
-- of the thread still in the lock.
pub leave_scope-enter_scope :
    (fuel : ℕ) (pool : ThreadPool) (locks : Locks) (me file line a : ℕ) (l : Lock)
    → search_lock_cycle fuel pool locks me a ≡ no_dead_lock
    → enter_scope fuel pool locks me file line a ≡ holds l
    → leave_scope me l ≡ some (record (locks a) { thread_id = me; locking = none })
unfolding enter_scope leave_scope file_lock file_unlock set_thread_id
leave_scope-enter_scope fuel pool locks me file line a l searched entered =
    elim (Option-cases (lock_mutex me (locks a).mutex)) [
      | inl waiting ↦
          let step : enter_scope fuel pool locks me file line a ≡ waits =
            rw (searched, waiting) refl in
          cc
      | inr (m, taken) ↦
          let step : enter_scope fuel pool locks me file line a
              ≡ holds
                  (record (locks a) { mutex = m; thread_id = me; locking = some (file, line) }) =
            rw (searched, taken) refl in
          let l≡ : record (locks a) { mutex = m; thread_id = me; locking = some (file, line) } ≡ l =
            cc in
          rw (sym l≡) (rw (unlock_mutex-lock_mutex me (locks a).mutex m taken) refl)
    ]
