-- ===== src/ThreadJobQueue/Refinement.antt =====
-- ThreadJobQueue.h: what a caller of `Push` and `Pop` sees is a plain first-in first-out queue.
use iocp_chat_server.Base.{◌≡◌, refl, List, [], ◌∷◌, ◌++◌, Option, none, some}
use mathlib.Core.Option
use iocp_chat_server.ThreadJobQueue.{
  ThreadJobQueue, Popped, returns_false, returns_true, undefined, push, pop, make,
}
use iocp_chat_server.ThreadJobQueue.Fifo.{
  IsValid, to_list, to_list-push, push-IsValid, Pops, pop-Pops, make-IsValid, to_list-make,
}

-- The calls that the threads make, in the order in which they get the lock.
pub data Call {ℓ} (T : Type ℓ) : Type ℓ where
  pushes : T → Call T
  pops : Call T

module _ {ℓ} {T : Type ℓ} where
  unfoldable pub answer :
      Popped T
      → ThreadJobQueue T
      → (ThreadJobQueue T → Option (List (Option T)))
      → Option (List (Option T))
  answer returns_false q rest = Option.map (λ os. none ∷ os) (rest q)
  answer (returns_true t r) q rest = Option.map (λ os. some t ∷ os) (rest r)
  answer undefined q rest = none

  -- What the calls of `Pop` give out, `none` for false. The run as a whole is `none` if one of them
  -- takes the front of an empty `std::queue`.
  unfoldable pub run : ThreadJobQueue T → List (Call T) → Option (List (Option T))
  unfolding answer
  run q [] = some []
  run q (pushes t ∷ cs) = run (push q t) cs
  run q (pops ∷ cs) = answer (pop q) q (λ r. run r cs)

  -- The same calls on a plain queue.
  unfoldable pub serve : List T → List (Call T) → List (Option T)
  serve xs [] = []
  serve xs (pushes t ∷ cs) = serve (xs ++ t ∷ []) cs
  serve [] (pops ∷ cs) = none ∷ serve [] cs
  serve (x ∷ xs) (pops ∷ cs) = some x ∷ serve xs cs

  pop-serve :
      (q : ThreadJobQueue T) (p : Popped T) (cs : List (Call T))
      → IsValid q
      → Pops (to_list q) p
      → ((r : ThreadJobQueue T) → IsValid r → run r cs ≡ some (serve (to_list r) cs))
      → answer p q (λ r. run r cs) ≡ some (serve (to_list q) (pops ∷ cs))
  unfolding answer serve
  pop-serve q returns_false cs v h ih = rw (h, ih q v, h)
  pop-serve q (returns_true t r) cs v h ih = rw (h.0, ih r h.1)
  pop-serve q undefined cs v h ih = absurd h.1

  -- From a queue whose pointers are apart, every sequence of calls of `Push` and `Pop` runs with no
  -- undefined step, and `Pop` gives out what a plain first-in first-out queue would.
  pub run-serve :
      (q : ThreadJobQueue T) (cs : List (Call T))
      → IsValid q
      → run q cs ≡ some (serve (to_list q) cs)
  unfolding run serve
  run-serve q [] v = refl
  run-serve q (pushes t ∷ cs) v =
      rw (run-serve (push q t) cs (push-IsValid q t v), to_list-push q t v)
  run-serve q (pops ∷ cs) v = pop-serve q (pop q) cs v (pop-Pops q v) (λ r w. run-serve r cs w)

-- From the constructor on, every sequence of calls of `Push` and `Pop` runs with no undefined step,
-- and `Pop` gives out what a first-in first-out queue that starts empty would.
pub run-make {ℓ} : (T : Type ℓ) (cs : List (Call T)) → run make cs ≡ some (serve [] cs)
run-make T cs = rw (run-serve make cs (make-IsValid T), to_list-make T)
