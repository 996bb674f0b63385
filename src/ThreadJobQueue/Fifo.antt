-- ===== src/ThreadJobQueue/Fifo.antt =====
-- ThreadJobQueue.h as a first-in first-out queue: the read queue, then the write queue.
use iocp_chat_server.Base.{
  ◌≡◌, refl, List, [], ◌∷◌, ◌++◌, append-nil, append_assoc, arith, length, length-append, ◌≢◌,
}
use iocp_chat_server.ThreadJobQueue.{
  ThreadJobQueue, Popped, returns_false, returns_true, undefined, at, make, push, pop, size,
}

-- The two pointers point at different queues.
abbrev pub IsValid {ℓ} : {T : Type ℓ} → ThreadJobQueue T → Type 0
IsValid q = q.writing ≢ q.reading

module _ {ℓ} {T : Type ℓ} where
  -- The items in the order in which `Pop` is to give them out.
  pub to_list : ThreadJobQueue T → List T
  to_list q = at q q.reading ++ at q q.writing

  pub push-IsValid : (q : ThreadJobQueue T) (t : T) → IsValid q → IsValid (push q t)
  unfolding push
  push-IsValid q t v = ground arith

  -- `Push` appends its item at the end, and keeps the pointers apart.
  pub to_list-push :
      (q : ThreadJobQueue T) (t : T) → IsValid q → to_list (push q t) ≡ to_list q ++ t ∷ []
  unfolding to_list push
  to_list-push q t v = ground (
    arith,
    append_assoc q.queue_read q.queue_write (t ∷ []),
    append_assoc q.queue_write q.queue_read (t ∷ []),
  )

  -- A successful `Pop` gives out the first item and leaves the others in order; it returns false
  -- exactly on the queue without items, and never takes the front of an empty `std::queue`.
  abbrev pub Pops : List T → Popped T → Type ℓ
  Pops xs returns_false = xs ≡ []
  Pops xs (returns_true t q) = (xs ≡ t ∷ to_list q) × IsValid q
  Pops xs undefined = (xs ≡ []) × ⊥

  pub pop-Pops : (q : ThreadJobQueue T) → IsValid q → Pops (to_list q) (pop q)
  unfolding pop to_list
  pop-Pops q v = ground (arith, append-nil q.queue_read, append-nil q.queue_write)

  pub size-length : (q : ThreadJobQueue T) → IsValid q → size q ≡ length (to_list q)
  unfolding size to_list
  size-length q v =
      ground
        (arith, length-append q.queue_read q.queue_write, length-append q.queue_write q.queue_read)

pub make-IsValid {ℓ} : (T : Type ℓ) → IsValid (make {T = T})
unfolding make
make-IsValid T e = cc

pub to_list-make {ℓ} : (T : Type ℓ) → to_list (make {T = T}) ≡ []
unfolding to_list make
to_list-make T = refl
