-- ===== src/RandomMt.antt =====
-- RandomMt.h: random numbers. `engine` is the first number that a `uniform_int_distribution` over all
-- 64-bit numbers draws from a `mt19937` with a seed.
use iocp_chat_server.Base.{
  ℕ, ◌+◌, ◌%◌, ◌^◌, ◌≡◌, ◌<◌, Option, none, some, ◌==◌, if◌then◌else◌, arith,
}
use iocp_chat_server.Base.Machine.{size_of_int32}

-- The seed, from `time (nullptr)` and the hash of the thread's identifier.
unfoldable pub seed : (time hash : ℕ) → ℕ
seed time hash = (time % 2 ^ 32 + hash % 2 ^ 32) % 2 ^ 32

-- `rand (maxVal)`; `none` is the division by zero.
unfoldable pub rand : (ℕ → ℕ) → (time hash max_val : ℕ) → Option ℕ
unfolding seed
rand engine time hash max_val =
    let n = size_of_int32 max_val in if n == 0 then none else some (engine (seed time hash) % n)

-- For a positive bound `rand` gives a number below it; a later call of the same thread gives the same
-- number if it is made in the same second.
pub rand_bounds :
    (engine : ℕ → ℕ) (time time' hash max_val : ℕ)
    → 0 < max_val
    → max_val < 2 ^ 31
    → time' ≡ time
    → (r : ℕ) × (rand engine time hash max_val ≡ some r)
      × (r < max_val)
      × (rand engine time' hash max_val ≡ some r)
unfolding rand
rand_bounds engine time time' hash max_val p h e =
    (engine (seed time hash) % max_val, ground arith, grind arith, rw e (ground arith))
