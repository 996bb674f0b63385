-- ===== src/Thread.antt =====
-- Thread.cpp and Thread.h: threads and the table of threads. A `std::thread::id` is a number, and 0
-- is the identifier of no thread. Names, which only the log shows, are left out.
use iocp_chat_server.Base.{
  ℕ, ◌≡◌, refl, Bool, true, false, Option, none, some, List, [], ◌∷◌, ◌++◌, ◌==◌, if◌then◌else◌,
  arith, ap, ◌∙◌, inl, inr, Bool-cases, Option-cases,
}

pub record Thread : Type 0 where
  pub id : ℕ
  pub lock : Option ℕ  -- `lock_`, the lock that it waits for; `none` is `nullptr`

-- `SetLock`, with `none` for `nullptr`
unfoldable pub set_lock : Thread → Option ℕ → Thread
set_lock t l = record t { lock = l }

-- What the destructors do: wait for the thread, give back its `std::thread`, and give back the lock.
pub data Released : Type 0 where
  joins frees_thread frees_lock : ℕ → Released

-- The destructor
unfoldable pub destroy_thread : Thread → List Released
destroy_thread t =
    joins t.id ∷ frees_thread t.id ∷ elim t.lock [ none ↦ [] | some l ↦ frees_lock l ∷ [] ]

-- `threadPool_`, a map from identifiers
abbrev pub ThreadPool : Type 0
ThreadPool = List (ℕ × Thread)

unfoldable pub at : ℕ → ThreadPool → Option Thread
at id [] = none
at id ((j, t) ∷ pool) = if j == id then some t else at id pool

abbrev pub is_some : Option Thread → Bool
is_some none = false
is_some (some t) = true

-- `map::insert` keeps the entry that is there.
unfoldable pub put : Thread → ThreadPool → ThreadPool
unfolding at
put t pool = if is_some (at t.id pool) then pool else (t.id, t) ∷ pool

unfoldable pub remove : ℕ → ThreadPool → ThreadPool
remove id [] = []
remove id ((j, t) ∷ pool) = if j == id then remove id pool else (j, t) ∷ remove id pool

-- The constructor: `lock` is what the memory of `lock_` held, which it does not write.
unfoldable pub make : (id : ℕ) → Option ℕ → ThreadPool → Thread × ThreadPool
unfolding put
make id lock pool = let t : Thread = record { id = id; lock = lock } in (t, put t pool)

-- The destructor of the manager.
unfoldable pub destroy_pool : ThreadPool → List Released
unfolding destroy_thread
destroy_pool [] = []
destroy_pool ((id, t) ∷ pool) = destroy_thread t ++ destroy_pool pool

unfoldable pub or_else : Option Thread → Option Thread → Option Thread
or_else none o = o
or_else (some t) o = some t

-- After `Put` the thread is found under its identifier, unless another was there before, which stays;
-- the other identifiers are found as before.
pub at-put :
    (t : Thread) (id : ℕ) (pool : ThreadPool)
    → at id (put t pool) ≡ (if t.id == id then or_else (at id pool) (some t) else at id pool)
unfolding at put or_else
at-put t id pool = elim (Bool-cases (t.id == id)) [
  | inl e ↦
      let same : t.id ≡ id = ground arith in
      let look : at t.id pool ≡ at id pool = ap (λ (x : ℕ). at x pool) same in
      elim (Option-cases (at id pool)) [
        | inl missing ↦
            let look' : at t.id pool ≡ none = look ∙ missing in rw (put, look', missing, e) refl
        | inr (u, found) ↦
            let look' : at t.id pool ≡ some u = look ∙ found in rw (put, look', found, e) refl
      ]
  | inr e ↦ elim (Option-cases (at t.id pool)) [
    | inl missing ↦ rw (put, missing, e) refl
    | inr (u, found) ↦ rw (put, found, e) refl
  ]
]

-- After `Remove` nothing is found under the identifier; the others are found as before.
pub at-remove :
    (id j : ℕ) (pool : ThreadPool) → at j (remove id pool) ≡ (if id == j then none else at j pool)
unfolding at remove
at-remove id j [] = ground arith
at-remove id j ((i, t) ∷ pool) = ground (arith, at-remove id j pool)

-- A new thread whose identifier is not in the table is found there.
pub at-make :
    (id : ℕ) (lock : Option ℕ) (pool : ThreadPool)
    → at id pool ≡ none
    → at id (make id lock pool).1 ≡ some (make id lock pool).0
unfolding make or_else
at-make id lock pool e =
    let t : Thread = record { id = id; lock = lock } in
    let here : (id == id) ≡ true = ground arith in at-put t id pool ∙ rw (here, e) refl
