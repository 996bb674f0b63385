-- ===== src/Task.antt =====
-- Task.cpp and Task.h: periodic tasks. `NOW_TICK ()` is read again at each use: `clock k` is the k-th
-- reading, and a function returns the number of the next one. Ticks and seconds are signed.
pub mod Rounds
pub mod Manager
pub mod Monitor
pub mod Lifetime
use iocp_chat_server.Base.{
  ℕ, ◌+◌, ◌-◌, ◌^◌, ◌%◌, Option, none, some, Bool, true, false, not, ◌&&◌, List, [], ◌∷◌, ◌++◌,
  ◌==◌, if◌then◌else◌,
}
use iocp_chat_server.Base.Int.{ℤ, pos, ◌+ℤ◌, ltb_ℤ, pos_part}

abbrev pub tick_infinity : ℤ
tick_infinity = pos 0

abbrev pub Clock : Type 0
Clock = ℕ → ℤ

-- A work object is known by its number; `none` is `nullptr`.
pub record TaskNode : Type 0 where
  pub work_object : Option ℕ
  pub freq_sec : ℤ
  pub duration_sec : ℤ
  pub next_tick : ℤ

-- `NextTick` at a reading.
unfoldable pub schedule : TaskNode → ℤ → TaskNode
unfolding ◌+ℤ◌
schedule node now = record node { next_tick = now +ℤ node.freq_sec }

unfoldable pub make_node : Option ℕ → ℤ → ℤ → ℤ → TaskNode
unfolding schedule
make_node work freq duration now =
    schedule
      (record { work_object = work; freq_sec = freq; duration_sec = duration; next_tick = pos 0 })
      now

abbrev pub is_infinity : ℤ → Bool
is_infinity t = not (ltb_ℤ t (pos 0)) && not (ltb_ℤ (pos 0) t)

abbrev pub is_null : Option ℕ → Bool
is_null none = true
is_null (some w) = false

-- `Expired`, with the number of the next reading.
unfoldable pub expired : Clock → ℕ → TaskNode → Bool × ℕ
expired clock k node =
    if is_null node.work_object
    then (true, k)
    else if is_infinity node.duration_sec
    then (false, k)
    else (ltb_ℤ node.duration_sec (clock k), k + 1)

-- `Tick` of a node: its work runs and it is scheduled anew, or nothing happens.
unfoldable pub tick : Clock → ℕ → TaskNode → TaskNode × Bool × ℕ
unfolding schedule
tick clock k node =
    if ltb_ℤ node.next_tick (clock k)
    then (schedule node (clock (k + 1)), true, k + 2)
    else (node, false, k + 1)

-- A `TaskNode *` in `mTaskList`, with the object that it leads to.
pub record Entry : Type 0 where
  pub pointer : ℕ
  pub node : TaskNode

-- What the loop over `mTaskList` leaves: the nodes, the pointers in `deleteNodes`, the works that ran.
pub record Scan : Type 0 where
  pub entries : List Entry
  pub delete_nodes : List ℕ
  pub ran : List (Option ℕ)
  pub readings : ℕ

abbrev pub delete_later : Entry → Scan → Scan
delete_later e r = record r { entries = e ∷ r.entries; delete_nodes = e.pointer ∷ r.delete_nodes }

abbrev pub keep_ticked : Entry → TaskNode → Bool → Scan → Scan
keep_ticked e node ran r = record r {
  entries = record e { node = node } ∷ r.entries;
  ran = if ran then node.work_object ∷ r.ran else r.ran;
}

unfoldable pub scan : Clock → ℕ → List Entry → Scan
scan clock k [] = record { entries = []; delete_nodes = []; ran = []; readings = k }
scan clock k (e ∷ es) =
    let (gone, k') = expired clock k e.node in
    let (node, ran, k'') = tick clock k' e.node in
    let r = scan clock (if gone then k' else k'') es in
    if gone then delete_later e r else keep_ticked e node ran r

-- `Remove`
unfoldable pub remove : ℕ → List Entry → List Entry
remove p [] = []
remove p (e ∷ es) = if e.pointer == p then remove p es else e ∷ remove p es

unfoldable pub remove_each : List ℕ → List Entry → List Entry
remove_each [] es = es
remove_each (p ∷ ps) es = remove_each ps (remove p es)

-- One round of the loop of `Process`: the entries left, the works that ran.
unfoldable pub process_round : Clock → ℕ → List Entry → List Entry × List (Option ℕ)
process_round clock k es = let r = scan clock k es in (remove_each r.delete_nodes r.entries, r.ran)

-- `TaskManager`, the tasks as their lists. `nodeCount` is the static `int` of `Add`.
pub record TaskManager : Type 0 where
  pub thread_count : ℤ
  pub task_pool : List (List Entry)
  pub node_count : ℕ

-- `Initialize` with the thread count that it reads.
unfoldable pub empty_tasks : ℕ → List (List Entry)
empty_tasks ℕ.zero = []
empty_tasks (ℕ.suc n) = [] ∷ empty_tasks n

unfoldable pub initialize : ℤ → TaskManager
unfolding empty_tasks
initialize threads = record {
  thread_count = threads;
  task_pool = empty_tasks (pos_part threads);
  node_count = 0;
}

-- `mTaskPool[index]->Add (node)`
unfoldable pub add_at : ℕ → Entry → List (List Entry) → List (List Entry)
add_at i e [] = []
add_at ℕ.zero e (t ∷ ts) = (t ++ e ∷ []) ∷ ts
add_at (ℕ.suc i) e (t ∷ ts) = t ∷ add_at i e ts

-- `none`: `++nodeCount` overflows, undefined behaviour.
unfoldable pub add : TaskManager → Entry → Option TaskManager
unfolding add_at
add m e =
    if ltb_ℤ m.thread_count (pos 1)
    then some m
    else if m.node_count == 2 ^ 31 - 1
    then none
    else some (record m {
      task_pool = add_at (m.node_count % pos_part m.thread_count) e m.task_pool;
      node_count = m.node_count + 1;
    })
