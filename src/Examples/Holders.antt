-- ===== src/Examples/Holders.antt =====
-- Lock.cpp: the threads 4 and 9 in scopes of one lock, at lines 60 and 70 of file 7.
use iocp_chat_server.Base.{ℕ, ◌≡◌, ◌<◌, some, none, arith}
use iocp_chat_server.Lock.{Mutex, held, unlock_mutex}
use iocp_chat_server.Lock.Holders.{Threads, Reach, idle}
use iocp_chat_server.Lock.Holders.Exclusion.{scope-Reach, clears-notes}

clears-notes_example :
    (s : Threads) × Reach 0 s
    × (s.depth 9 ≡ 1)
    × (s.phase 9 ≡ idle)
    × (s.lock.mutex ≡ held 9 0)
    × (s.lock.locking ≡ none)
clears-notes_example = clears-notes 0 4 9 7 60 7 70 (λ e. omega arith)

-- Thread 9 is inside, and thread 4 has left.
inside : (s : Threads) × Reach 0 s × (0 < s.depth 9)
inside = let r = clears-notes 0 4 9 7 60 7 70 (λ e. omega arith) in (r.0, r.1, omega (arith, r.2))

abbrev nine : ℕ
nine = 9

scope-Reach_example :
    (nine ≡ nine)
    × (inside.0.lock.thread_id ≡ 9)
    × ((m : Mutex) × (unlock_mutex 9 inside.0.lock.mutex ≡ some m))
scope-Reach_example = scope-Reach inside.1 9 9 inside.2 inside.2
