-- ===== src/Task/Lifetime.antt =====
-- Task.cpp: the constructor of `TaskManager`, and the destructors.
use iocp_chat_server.Base.{
  ℕ, zero, suc, ◌+◌, ◌<◌, ◌≡◌, refl, Option, none, some, Bool, List, [], ◌∷◌, ◌++◌, length, arith,
  count, count-append,
}
use iocp_chat_server.Base.Int.{pos}
use iocp_chat_server.Base.Text.{codes}
use iocp_chat_server.Config.{Xml, Scan, Uses, gives, ◌>>=◌, follow, scanned, first_child}
use iocp_chat_server.Server.{text_of}
use iocp_chat_server.Task.{Entry, TaskManager, initialize, empty_tasks, add_at}

module _ (xml : Xml) (scan : Scan) where
  open xml use {Element}

  -- With the section "Task", if it is there.
  abbrev pub read_threads : Option Element → Uses TaskManager
  read_threads none = gives (initialize (pos 0))
  read_threads (some root) = do
    threads ← text_of xml scan root (codes "ThreadCount")
    gives (initialize (scanned (scan threads) (pos 0)))

  -- The constructor; `none` where `LoadConfig` fails. The manager is a static object, so what it does
  -- not write is 0.
  unfoldable pub make_manager : Option Element → Uses TaskManager
  make_manager none = gives (initialize (pos 0))
  make_manager (some config) = do
    app ← follow (first_child xml config (codes "App"))
    read_threads (first_child xml app (codes "Task"))

-- What the destructors give back: a work object, a node, and the task of an index.
pub data Freed : Type 0 where
  frees_work frees_node frees_task : ℕ → Freed

-- `SAFE_DELETE (node)`, with `~TaskNode`
unfoldable pub destroy_node : Entry → List Freed
destroy_node e = elim e.node.work_object [
  | none ↦ frees_node e.pointer ∷ []
  | some w ↦ frees_work w ∷ frees_node e.pointer ∷ []
]

-- `~Task`
unfoldable pub destroy_nodes : List Entry → List Freed
unfolding destroy_node
destroy_nodes [] = []
destroy_nodes (e ∷ es) = destroy_node e ++ destroy_nodes es

-- `~TaskManager`, from the task of this index on.
unfoldable pub destroy_tasks : ℕ → List (List Entry) → List Freed
unfolding destroy_nodes
destroy_tasks i [] = []
destroy_tasks i (t ∷ ts) = destroy_nodes t ++ (frees_task i ∷ destroy_tasks (i + 1) ts)

-- The tasks of `n` threads.
unfoldable pub task_objects : (i n : ℕ) → List Freed
task_objects i zero = []
task_objects i (suc n) = frees_task i ∷ task_objects (i + 1) n

module _ (c : Freed → Bool) where
  count-destroy_nodes :
      (es : List Entry) (e : Entry)
      → count c (destroy_nodes (es ++ e ∷ []))
        ≡ count c (destroy_nodes es) + count c (destroy_node e)
  unfolding destroy_nodes count
  count-destroy_nodes [] e = omega (arith, count-append c (destroy_node e) [])
  count-destroy_nodes (x ∷ es) e = omega (
    arith,
    count-append c (destroy_node x) (destroy_nodes (es ++ e ∷ [])),
    count-append c (destroy_node x) (destroy_nodes es),
    count-destroy_nodes es e,
  )

  count-destroy_tasks :
      (k i : ℕ) (e : Entry) (ts : List (List Entry))
      → i < length ts
      → count c (destroy_tasks k (add_at i e ts))
        ≡ count c (destroy_tasks k ts) + count c (destroy_node e)
  unfolding destroy_tasks add_at count
  count-destroy_tasks k i e [] h = absurd (omega arith)
  count-destroy_tasks k zero e (t ∷ ts) h = omega (
    arith,
    count-append c (destroy_nodes (t ++ e ∷ [])) (frees_task k ∷ destroy_tasks (k + 1) ts),
    count-append c (destroy_nodes t) (frees_task k ∷ destroy_tasks (k + 1) ts),
    count-destroy_nodes t e,
  )
  count-destroy_tasks k (suc i) e (t ∷ ts) h = omega (
    arith,
    count-append c (destroy_nodes t) (frees_task k ∷ destroy_tasks (k + 1) (add_at i e ts)),
    count-append c (destroy_nodes t) (frees_task k ∷ destroy_tasks (k + 1) ts),
    count-destroy_tasks (k + 1) i e ts (omega (arith, h)),
  )

  count-empty_tasks :
      (k n : ℕ) → count c (destroy_tasks k (empty_tasks n)) ≡ count c (task_objects k n)
  unfolding destroy_tasks empty_tasks task_objects count
  count-empty_tasks k zero = refl
  count-empty_tasks k (suc n) = omega (arith, count-empty_tasks (k + 1) n)
