-- ===== src/Task/Manager.antt =====
-- Task.cpp, `TaskManager::Add`: the tasks are dealt out in turn.
use native.Mathlib.Nat.{
  div-add-mod, mod-lt, mul-add-div, mul-add-mod_self_left, div-eq_of_lt, mod-eq_of_lt, div_self,
  mod_self, zero-div, zero-mod,
}
use iocp_chat_server.Base.{
  ℕ, zero, suc, ◌+◌, ◌*◌, ◌/◌, ◌%◌, ◌<◌, ◌^◌, Option, none, some, ◌≡◌, refl, ap, sym, ◌∙◌, List, [],
  ◌∷◌, arith, ◌==◌, ltb, ltb→lt, ◌⊎◌, if◌then◌else◌, Bool-cases, inl, inr, length, length-append,
  get_or,
}
use iocp_chat_server.Base.Int.{pos}
use iocp_chat_server.Task.{Entry, TaskManager, initialize, empty_tasks, add_at, add}

-- The tasks that the thread with this index has after `k` calls of `Add`, for `n` threads.
pub share : ℕ → ℕ → ℕ → ℕ
share n k j = if ltb j (k % n) then k / n + 1 else k / n

divmod_suc :
    (n k : ℕ)
    → 0 < n
    → (((k + 1) / n ≡ k / n) × ((k + 1) % n ≡ k % n + 1))
      ⊎ ((k % n + 1 ≡ n) × ((k + 1) / n ≡ k / n + 1) × ((k + 1) % n ≡ 0))
divmod_suc n k p =
    let r = k % n + 1 in
    let split : k + 1 ≡ n * (k / n) + r = omega (arith, div-add-mod k n) in
    let quotient = ap (λ (x : ℕ). x / n) split ∙ mul-add-div p (k / n) r in
    let rest = ap (λ (x : ℕ). x % n) split ∙ mul-add-mod_self_left n (k / n) r in
    elim (Bool-cases (ltb r n)) [
      | inl small ↦ inl (
        omega (arith, quotient, div-eq_of_lt (ltb→lt r n small)),
        rest ∙ mod-eq_of_lt (ltb→lt r n small),
      )
      | inr wraps ↦
          let full : r ≡ n = ground (arith, mod-lt k p) in
          inr (
            full,
            omega (arith, quotient, ap (λ (x : ℕ). x / n) full, div_self p),
            rest ∙ ap (λ (x : ℕ). x % n) full ∙ mod_self n,
          )
    ]

share-suc :
    (n k j : ℕ) → 0 < n → j < n → share n (k + 1) j ≡ share n k j + (if k % n == j then 1 else 0)
unfolding share
share-suc n k j p h = ground (arith, divmod_suc n k p, mod-lt k p)

get_or-add_at :
    (i j : ℕ) (e : Entry) (ts : List (List Entry))
    → i < length ts
    → length (get_or (add_at i e ts) j []) ≡ length (get_or ts j []) + (if i == j then 1 else 0)
unfolding add_at
get_or-add_at i j e [] h = absurd (omega arith)
get_or-add_at zero zero e (t ∷ ts) h = omega (arith, length-append t (e ∷ []))
get_or-add_at zero (suc j) e (t ∷ ts) h = ground arith
get_or-add_at (suc i) zero e (t ∷ ts) h = ground arith
get_or-add_at (suc i) (suc j) e (t ∷ ts) h = ground (arith, get_or-add_at i j e ts)

length-add_at : (i : ℕ) (e : Entry) (ts : List (List Entry)) → length (add_at i e ts) ≡ length ts
unfolding add_at
length-add_at i e [] = refl
length-add_at zero e (t ∷ ts) = refl
length-add_at (suc i) e (t ∷ ts) = ap suc (length-add_at i e ts)

-- Calls of `Add`, one after another.
unfoldable pub add_all : TaskManager → List Entry → Option TaskManager
add_all m [] = some m
add_all m (e ∷ es) = elim (add m e) [ none ↦ none | some m' ↦ add_all m' es ]

-- The manager has `n` threads, and each its share of the tasks added so far.
pub record Dealt (n : ℕ) (m : TaskManager) : Type 0 where
  pub threads : m.thread_count ≡ pos n
  pub tasks : length m.task_pool ≡ n
  pub shares : (j : ℕ) → j < n → length (get_or m.task_pool j []) ≡ share n m.node_count j

add-next :
    (n : ℕ) (m : TaskManager) (e : Entry)
    → 0 < n
    → m.node_count + 1 < 2 ^ 31
    → m.thread_count ≡ pos n
    → add m e
      ≡ some (record m {
        task_pool = add_at (m.node_count % n) e m.task_pool;
        node_count = m.node_count + 1;
      })
unfolding add
add-next n m e p room h = ground arith

-- `m` after `k` more of them.
abbrev DealtAfter : (n : ℕ) (m : TaskManager) (k : ℕ) → Option TaskManager → Type 0
DealtAfter n m k r =
    (m' : TaskManager) × (r ≡ some m') × Dealt n m' × (m'.node_count ≡ m.node_count + k)

add-Dealt :
    (n : ℕ) (m : TaskManager) (e : Entry)
    → 0 < n
    → m.node_count + 1 < 2 ^ 31
    → Dealt n m
    → DealtAfter n m 1 (add m e)
add-Dealt n m e p room d =
    let i = m.node_count % n in
    let inside = mod-lt m.node_count p in
    (
      _,
      add-next n m e p room d.threads,
      record {
        threads = d.threads;
        tasks = length-add_at i e m.task_pool ∙ d.tasks;
        shares = λ j h.
            get_or-add_at i j e m.task_pool (omega (arith, inside, d.tasks))
            ∙ ap (λ (x : ℕ). x + (if i == j then 1 else 0)) (d.shares j h)
            ∙ sym (share-suc n m.node_count j p h);
      },
      refl,
    )

add_all-Dealt :
    (n : ℕ) (m : TaskManager) (es : List Entry)
    → 0 < n
    → m.node_count + length es < 2 ^ 31
    → Dealt n m
    → DealtAfter n m (length es) (add_all m es)
unfolding add_all
add_all-Dealt n m [] p room d = (m, refl, d, omega arith)
add_all-Dealt n m (e ∷ es) p room d =
    let a = add-Dealt n m e p (omega (arith, room)) d in
    let r = add_all-Dealt n a.0 es p (omega (arith, room, a.3)) a.2 in
    (r.0, rw (add_all, a.1) r.1, r.2, omega (arith, r.3, a.3))

length-empty_tasks : (n : ℕ) → length (empty_tasks n) ≡ n
unfolding empty_tasks
length-empty_tasks zero = refl
length-empty_tasks (suc n) = ap suc (length-empty_tasks n)

get_or-empty_tasks : (n j : ℕ) → length (get_or (empty_tasks n) j []) ≡ 0
unfolding empty_tasks
get_or-empty_tasks zero j = refl
get_or-empty_tasks (suc n) zero = refl
get_or-empty_tasks (suc n) (suc j) = get_or-empty_tasks n j

pub initialize-Dealt : (n : ℕ) → 0 < n → Dealt n (initialize (pos n))
unfolding initialize share
initialize-Dealt n p = record {
  threads = refl;
  tasks = length-empty_tasks n;
  shares = λ j h. get_or-empty_tasks n j ∙ ground (arith, zero-div n, zero-mod n);
}

-- With at least one thread, fewer than 2^31 calls of `Add` on a new manager deal the tasks out evenly:
-- the first threads have one more, as many as the division leaves over.
pub add_all-share :
    (n j : ℕ) (es : List Entry)
    → 0 < n
    → j < n
    → length es < 2 ^ 31
    → (m : TaskManager) × (add_all (initialize (pos n)) es ≡ some m)
      × (length (get_or m.task_pool j [])
          ≡ (if ltb j (length es % n) then length es / n + 1 else length es / n))
unfolding share initialize
add_all-share n j es p h room =
    let r =
      add_all-Dealt n (initialize (pos n)) es p (omega (arith, room)) (initialize-Dealt n p) in
    let all : r.0.node_count ≡ length es = omega (arith, r.3) in
    (r.0, r.1, r.2.shares j h ∙ ap (λ (k : ℕ). share n k j) all)
