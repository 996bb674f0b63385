-- ===== src/ThreadJobQueue.antt =====
-- ThreadJobQueue.h: the job queue of two `std::queue`s whose roles `Swap` exchanges. Every method
-- runs under `mLock`, a recursive mutex, so a method is one atomic step and `Pop` may call `Size`
-- and `Swap`. A `std::queue` is the list of its items, front first.
pub mod Fifo
pub mod Refinement
use iocp_chat_server.Base.{
  ℕ, ◌+◌, Bool, true, false, List, [], ◌∷◌, ◌++◌, Option, none, some, length, ◌==◌, if◌then◌else◌,
}

-- The entries of the array `mQueue`. The pointers `mWriteQueue` and `mReadqueue` are such an index.
pub data Slot : Type 0 where
  write_queue read_queue : Slot

pub record ThreadJobQueue {ℓ} (T : Type ℓ) : Type ℓ where
  pub queue_write : List T  -- mQueue[WRITE_QUEUE]
  pub queue_read : List T  -- mQueue[READ_QUEUE]
  pub writing : Slot  -- where mWriteQueue points
  pub reading : Slot  -- where mReadqueue points

-- What `Pop` returns, with the value that it stores in its argument.
pub data Popped {ℓ} (T : Type ℓ) : Type ℓ where
  returns_false : Popped T
  returns_true : T → ThreadJobQueue T → Popped T
  undefined : Popped T

abbrev pub is_empty_list {ℓ} : {A : Type ℓ} → List A → Bool
is_empty_list [] = true
is_empty_list (x ∷ xs) = false

abbrev pub is_write_queue : Slot → Bool
is_write_queue write_queue = true
is_write_queue read_queue = false

module _ {ℓ} {T : Type ℓ} where
  -- `*p` for a pointer into `mQueue`
  abbrev pub at : ThreadJobQueue T → Slot → List T
  at q write_queue = q.queue_write
  at q read_queue = q.queue_read

  abbrev pub put_at : ThreadJobQueue T → Slot → List T → ThreadJobQueue T
  put_at q write_queue xs = record q { queue_write = xs }
  put_at q read_queue xs = record q { queue_read = xs }

  unfoldable pub make : ThreadJobQueue T
  make = record { queue_write = []; queue_read = []; writing = write_queue; reading = read_queue }

  unfoldable pub push : ThreadJobQueue T → T → ThreadJobQueue T
  push q t = put_at q q.writing (at q q.writing ++ t ∷ [])

  unfoldable pub swap : ThreadJobQueue T → ThreadJobQueue T
  swap q =
      if is_write_queue q.writing
      then record q { writing = read_queue; reading = write_queue }
      else record q { writing = write_queue; reading = read_queue }

  unfoldable pub is_empty : ThreadJobQueue T → Bool
  is_empty q = is_empty_list (at q q.reading)

  unfoldable pub size : ThreadJobQueue T → ℕ
  size q = length q.queue_write + length q.queue_read

  -- `front` and `pop` of the read queue. On an empty `std::queue` they are undefined: `none`.
  unfoldable pub take_front : ThreadJobQueue T → List T → Option (T × ThreadJobQueue T)
  take_front q [] = none
  take_front q (t ∷ rest) = some (t, put_at q q.reading rest)

  abbrev pub popped : Option (T × ThreadJobQueue T) → Popped T
  popped none = undefined
  popped (some (t, q)) = returns_true t q

  unfoldable pub pop : ThreadJobQueue T → Popped T
  unfolding take_front swap size is_empty
  pop q =
      if size q == 0
      then returns_false
      else let r = if is_empty q then swap q else q in popped (take_front r (at r r.reading))
