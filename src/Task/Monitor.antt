-- ===== src/Task/Monitor.antt =====
-- SessionMonitor.cpp, the constructor: how the session monitor becomes a task.
use iocp_chat_server.Base.{
  ℕ, ◌≡◌, refl, ◌+◌, Option, none, some, Bool, true, false, [], ◌∷◌, if◌then◌else◌, Bool-cases, inl,
  inr,
}
use iocp_chat_server.Base.Int.{ℤ, pos, ltb_ℤ}
use iocp_chat_server.Task.{
  Clock, Entry, TaskManager, make_node, tick_infinity, add, expired, tick, process_round, schedule,
  scan, remove_each,
}

-- `init` before and after. The node lies at `p`, and the monitor is the work with this number; `now` is
-- the reading of the node's constructor.
unfoldable pub make_monitor : Bool → (p monitor : ℕ) → ℤ → TaskManager → Option (Bool × TaskManager)
unfolding add
make_monitor true p monitor now m = some (true, m)
make_monitor false p monitor now m =
    let e : Entry = record {
      pointer = p;
      node = make_node (some monitor) (pos 1) tick_infinity now;
    } in
    elim (add m e) [ none ↦ none | some m' ↦ some (true, m') ]

-- The task of a monitor, scheduled for whatever time and alone in its list, stays there in every round,
-- and it runs in that round exactly if its time is over.
pub process_round-monitor :
    (clock : Clock) (k p monitor : ℕ) (made next : ℤ)
    → let node = record (make_node (some monitor) (pos 1) tick_infinity made) {
      next_tick = next;
    } in
      let e : Entry = record { pointer = p; node = node } in
      process_round clock k (e ∷ []) ≡ (
        if ltb_ℤ next (clock k)
        then (record e { node = schedule node (clock (k + 1)) } ∷ [], some monitor ∷ [])
        else (e ∷ [], []))
unfolding make_node process_round scan expired tick remove_each
process_round-monitor clock k p monitor made next = elim (Bool-cases (ltb_ℤ next (clock k))) [
  | inl due ↦ rw due refl
  | inr early ↦ rw early refl
]
