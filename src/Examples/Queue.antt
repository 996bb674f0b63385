-- ===== src/Examples/Queue.antt =====
-- ThreadJobQueue.h: runs.
use iocp_chat_server.Base.{ℕ, ◌≡◌, refl, List, [], ◌∷◌, some, none}
use iocp_chat_server.ThreadJobQueue.{make, push, pop}
use iocp_chat_server.ThreadJobQueue.Fifo.{make-IsValid, push-IsValid, to_list}
use iocp_chat_server.ThreadJobQueue.Refinement.{Call, pushes, pops, run, serve, run-serve}

abbrev calls : List (Call ℕ)
calls = pushes 1 ∷ pushes 2 ∷ pops ∷ pushes 3 ∷ pops ∷ pops ∷ pops ∷ []

calls_served : run make calls ≡ some (some 1 ∷ some 2 ∷ some 3 ∷ none ∷ [])
unfolding run make push pop
calls_served = refl

run-serve_example : run (push make 7) calls ≡ some (serve (to_list (push make 7)) calls)
run-serve_example = run-serve (push make 7) calls (push-IsValid make 7 (make-IsValid ℕ))
