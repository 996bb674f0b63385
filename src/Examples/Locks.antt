-- ===== src/Examples/Locks.antt =====
-- Lock.cpp and Thread.cpp: two threads and two locks, each thread waiting for the lock of the other.
use iocp_chat_server.Base.{
  ℕ, Option, ◌≡◌, ap, sym, ◌∙◌, refl, [], ◌∷◌, some, none, arith, if◌then◌else◌, ◌==◌, ◌<◌, ◌⊎◌,
  inl, inr, Bool-cases,
}
use iocp_chat_server.Thread.{Thread, ThreadPool, at}
use iocp_chat_server.Lock.{Locks, free, held, dead_lock, no_dead_lock, out_of_fuel, search_from}
use iocp_chat_server.Lock.Search.{
  Chain, here, next, hops, search_from-decides, Chain-search_from, search_from-cycle,
}

abbrev one : Thread
one = record { id = 1; lock = some 20 }

abbrev two : Thread
two = record { id = 2; lock = some 10 }

abbrev pool : ThreadPool
pool = (1, one) ∷ (2, two) ∷ []

-- The locks at 10 and 20 are held by the threads 1 and 2; the lock at 30 is free.
abbrev locks : Locks
locks a =
    if a == 30
    then record { mutex = free; lock_id = 3; thread_id = 0; locking = none }
    else if a == 20
    then record { mutex = held 2 0; lock_id = 2; thread_id = 2; locking = some (7, 70) }
    else record { mutex = held 1 0; lock_id = 1; thread_id = 1; locking = some (7, 60) }

-- Thread 1 waits for the lock of thread 2, which waits for the lock with the identifier 1.
found_two : at 2 pool ≡ some two
unfolding at
found_two = refl

abbrev two_hops : Chain pool locks 1 10 one
two_hops = next 20 two refl (λ e. omega arith) found_two (here refl refl)

Chain-search_from_example : search_from 7 pool locks 1 one ≡ dead_lock 10
unfolding hops
Chain-search_from_example = Chain-search_from pool locks 1 two_hops 5

search_from-cycle_example : search_from 1000 pool locks 3 one ≡ out_of_fuel
unfolding at
search_from-cycle_example =
    search_from-cycle pool locks 3 1000 one two 20 10 refl (λ e. omega arith) refl refl
      (λ e. omega arith) refl

-- Thread 2 waits for nothing, so the threads do not wait in a circle.
abbrev idle_two : ThreadPool
idle_two = (1, one) ∷ (2, record two { lock = none }) ∷ []

abbrev rank_lock : Option ℕ → ℕ
rank_lock none = 0
rank_lock (some l) = if l == 20 then 1 else 2

rank_falls :
    (t u : Thread) (l : ℕ)
    → t.lock ≡ some l
    → at (locks l).thread_id idle_two ≡ some u
    → rank_lock u.lock < rank_lock t.lock
unfolding at
rank_falls t u l e f = elim (Bool-cases (l == 20)) [
  | inl twenty ↦
      let two_is : (locks l).thread_id ≡ 2 = ground arith in
      let same : some (record two { lock = none }) ≡ some u =
        ap (λ (x : ℕ). at x idle_two) (sym two_is) ∙ f in
      let u≡ : record two { lock = none } ≡ u = cc in rw (← u≡, e, twenty) (omega arith)
  | inr other ↦ elim (Bool-cases (l == 30)) [
    | inl thirty ↦
        let none_is : (locks l).thread_id ≡ 0 = ground arith in
        let same : none ≡ some u = ap (λ (x : ℕ). at x idle_two) (sym none_is) ∙ f in cc
    | inr neither ↦
        let one_is : (locks l).thread_id ≡ 1 = ground arith in
        let same : some one ≡ some u = ap (λ (x : ℕ). at x idle_two) (sym one_is) ∙ f in
        let u≡ : one ≡ u = cc in rw (← u≡, e, other) (omega arith)
  ]
]

search_from-decides_example :
    ((l : ℕ) × (search_from 9 idle_two locks 2 one ≡ dead_lock l) × Chain idle_two locks 2 l one)
    ⊎ ((search_from 9 idle_two locks 2 one ≡ no_dead_lock)
        × ((l : ℕ) → Chain idle_two locks 2 l one → ⊥))
search_from-decides_example =
    search_from-decides idle_two locks 2 (λ t. rank_lock t.lock) rank_falls 9 one (omega arith)
