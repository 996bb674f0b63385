-- ===== src/Examples/Tasks.antt =====
-- Task.cpp: a monitor that runs every second without an end, and a task that was to run for a minute.
use iocp_chat_server.Base.{Bool, true, false, ◌≡◌, refl, [], ◌∷◌, some, arith, length, get_or}
use iocp_chat_server.Base.Int.{pos, ◌+ℤ◌}
use iocp_chat_server.Task.{
  Clock, Entry, TaskManager, schedule, tick, make_node, process_round, initialize,
}
use iocp_chat_server.Task.Rounds.{
  left, works, is_over, is_due, process_round_lem, runs, Spaced, runs-Spaced,
}
use iocp_chat_server.Task.Lifetime.{Freed, frees_work, frees_node, frees_task}
use iocp_chat_server.Task.Manager.{add_all, add_all-share}

abbrev monitor : Entry
monitor = record { pointer = 5; node = make_node (some 1) (pos 1) (pos 0) (pos 1000) }

abbrev for_a_minute : Entry
for_a_minute = record { pointer = 9; node = make_node (some 2) (pos 1) (pos 60) (pos 1000) }

abbrev stopped : Clock
stopped n = pos 1002

process_round_lem_example :
    process_round stopped 0 (monitor ∷ for_a_minute ∷ [])
    ≡ (record monitor { node = schedule monitor.node (pos 1002) } ∷ [], some 1 ∷ [])
unfolding make_node schedule left works is_over is_due ◌+ℤ◌
process_round_lem_example =
    process_round_lem stopped 0 (pos 1002) (monitor ∷ for_a_minute ∷ []) (λ n. refl)
      (((λ e. omega arith), tt), (tt, tt))

-- The monitor runs at 1002, and again at 1005; it had been scheduled anew at 1003.
runs-Spaced_example : Spaced (pos 1) (pos 1001) ((pos 1002, pos 1003) ∷ (pos 1005, pos 1005) ∷ [])
unfolding make_node schedule runs tick ◌+ℤ◌
runs-Spaced_example =
    runs-Spaced monitor.node (
      (pos 1001, pos 1001)
      ∷ (pos 1002, pos 1003)
      ∷ (pos 1004, pos 1004)
      ∷ (pos 1005, pos 1005)
      ∷ [])

add_all-share_example :
    (m : TaskManager) × (add_all (initialize (pos 2)) (monitor ∷ for_a_minute ∷ monitor ∷ [])
      ≡ some m)
    × (length (get_or m.task_pool 0 []) ≡ 2)
add_all-share_example =
    add_all-share 2 0 (monitor ∷ for_a_minute ∷ monitor ∷ []) (omega arith) (omega arith)
      (omega arith)

abbrev is_node : Freed → Bool
is_node (frees_work w) = false
is_node (frees_node p) = true
is_node (frees_task i) = false
