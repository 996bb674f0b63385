-- ===== src/Monitoring.antt =====
-- Monitoring.h: how much of the processors and of the memory the process uses. What Windows answers is
-- an argument, with a FILETIME as the number of its 64 bits.
use iocp_chat_server.Base.{
  ℕ, ◌+◌, ◌-◌, ◌%◌, ◌^◌, ◌<◌, ◌≤◌, ◌≡◌, ◌⊎◌, refl, Bool, true, false, if◌then◌else◌, arith,
  Bool-cases, inl, inr,
}
use iocp_chat_server.Base.Int.{ℤ}

-- What the code does with a `double`.
pub record Double {ℓ} (W : Type ℓ) : Type ℓ where
  pub of_unsigned : ℕ → W  -- from an unsigned 64-bit number
  pub of_int : ℤ → W
  pub literal : ℕ → W
  pub divided : W → W → W
  pub times : W → W → W
  pub less : W → W → Bool

-- The order of a `double`; nothing is less than a NaN, and it is less than nothing.
pub record IsOrdered {ℓ} (W : Type ℓ) ⦃d : Double W⦄ : Type ℓ where
  pub less-irrefl : (x : W) → d.less x x ≡ false
  pub less-asym : (x y : W) → d.less x y ≡ true → d.less y x ≡ false
  pub less-literals : d.less (d.literal 0) (d.literal 100) ≡ true

-- `GetSystemTimeAsFileTime`, and what `GetProcessTimes` says of the kernel and of the user.
pub record Times : Type 0 where
  pub now : ℕ
  pub sys : ℕ
  pub user : ℕ

pub record Monitoring : Type 0 where
  pub last_cpu : ℕ
  pub last_sys_cpu : ℕ
  pub last_user_cpu : ℕ
  pub num_processors : ℤ

unfoldable pub make : (number_of_processors : ℤ) → Times → Monitoring
make number_of_processors t = record {
  last_cpu = t.now;
  last_sys_cpu = t.sys;
  last_user_cpu = t.user;
  num_processors = number_of_processors;
}

-- A difference of two `ULONGLONG`.
abbrev pub since : ℕ → ℕ → ℕ
since a b = (a + 2 ^ 64 - b) % 2 ^ 64

-- What has run of the process since the monitor was made.
unfoldable pub run_time : Monitoring → Times → ℕ
run_time m t = (since t.sys m.last_sys_cpu + since t.user m.last_user_cpu) % 2 ^ 64

module _ {ℓ} {W : Type ℓ} ⦃d : Double W⦄ where
  -- `fixInRange` of a `double`, with the macros of Windows.
  unfoldable pub fix_in_range_double : W → W → W → W
  fix_in_range_double minimum x maximum =
      let larger = if d.less minimum x then x else minimum in
      if d.less maximum larger then maximum else larger

  unfoldable pub process_cpu_usage : Monitoring → Times → W
  unfolding fix_in_range_double run_time
  process_cpu_usage m t =
      let percent =
        d.divided (d.of_unsigned (run_time m t)) (d.of_unsigned (since t.now m.last_cpu)) in
      let percent' = d.divided percent (d.of_int m.num_processors) in
      fix_in_range_double (d.literal 0) (d.times percent' (d.literal 100)) (d.literal 100)

  fix_in_range_double_bounds :
      ⦃o : IsOrdered W⦄ (minimum x maximum : W)
      → d.less minimum maximum ≡ true
      → let r = fix_in_range_double minimum x maximum in
        ((r ≡ minimum) ⊎ (d.less minimum r ≡ true)) × (d.less maximum r ≡ false)
  unfolding fix_in_range_double
  fix_in_range_double_bounds ⦃o⦄ minimum x maximum h = elim (Bool-cases (d.less minimum x)) [
    | inl above ↦ elim (Bool-cases (d.less maximum x)) [
      | inl over ↦ rw (above, over) (inr h, o.less-irrefl maximum)
      | inr under ↦ rw (above, under) (inr above, under)
    ]
    | inr below ↦ let kept = o.less-asym minimum maximum h in rw (below, kept) (inl refl, kept)
  ]

  -- Whatever Windows answers, also where no time has passed and the division gives no number, the usage
  -- of the processors is 0 or more than 0, and not more than 100.
  pub process_cpu_usage_bounds :
      ⦃o : IsOrdered W⦄ (m : Monitoring) (t : Times)
      → ((process_cpu_usage m t ≡ d.literal 0)
          ⊎ (d.less (d.literal 0) (process_cpu_usage m t) ≡ true))
        × (d.less (d.literal 100) (process_cpu_usage m t) ≡ false)
  unfolding process_cpu_usage
  process_cpu_usage_bounds ⦃o⦄ m t =
      fix_in_range_double_bounds (d.literal 0) _ (d.literal 100) o.less-literals

-- With counters of 64 bits that have not run over, the time is the sum of both differences.
pub run_time-make :
    (n : ℤ) (s t : Times)
    → s.sys ≤ t.sys
    → s.user ≤ t.user
    → t.sys + t.user < 2 ^ 64
    → run_time (make n s) t + (s.sys + s.user) ≡ t.sys + t.user
unfolding run_time make
run_time-make n s t a b c = omega (arith, a, b, c)

-- `WorkingSetSize`
unfoldable pub process_mem_usage : (working_set_size : ℕ) → ℕ
process_mem_usage working_set_size = working_set_size % 2 ^ 64

unfoldable pub physyic_mem_usage : (total_phys avail_phys : ℕ) → ℕ
physyic_mem_usage total_phys avail_phys = since (total_phys % 2 ^ 64) avail_phys

pub physyic_mem_usage_lem :
    (total_phys avail_phys : ℕ)
    → avail_phys ≤ total_phys
    → total_phys < 2 ^ 64
    → physyic_mem_usage total_phys avail_phys + avail_phys ≡ total_phys
unfolding physyic_mem_usage
physyic_mem_usage_lem total_phys avail_phys h k = omega (arith, h, k)
