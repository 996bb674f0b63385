-- ===== src/Lock/Holders/Owns.antt =====
-- Lock.cpp: who has locked the mutex, and how often.
use iocp_chat_server.Base.{
  ℕ, zero, suc, ◌+◌, ◌<◌, ◌≡◌, ◌≢◌, refl, sym, ◌∙◌, ◌⊎◌, inl, inr, none, some, ◌==◌, arith,
  Bool-cases,
}
use iocp_chat_server.Lock.{Mutex, free, held, lock_mutex, unlock_mutex}
use iocp_chat_server.Lock.Holders.{Phase, idle, locked, placed, released, Threads}

-- How often a thread has locked the mutex.
abbrev pub taking : Phase → ℕ
taking idle = 0
taking (locked file line) = 1
taking placed = 1
taking released = 0

abbrev pub holdings : Threads → ℕ → ℕ
holdings s i = s.depth i + taking (s.phase i)

abbrev pub Owns : Mutex → (ℕ → ℕ) → Type 0
Owns free h = (i : ℕ) → h i ≡ 0
Owns (held o d) h = (h o ≡ d + 1) × ((i : ℕ) → i ≢ o → h i ≡ 0)

pub Owns-same : (m : Mutex) (h h' : ℕ → ℕ) → ((i : ℕ) → h' i ≡ h i) → Owns m h → Owns m h'
Owns-same free h h' e w = λ i. ground (arith, e i, w i)
Owns-same (held o d) h h' e w = (omega (arith, e o, w.0), λ i n. omega (arith, e i, w.1 i n))

pub Owns-lock_mutex :
    (i : ℕ) (m m' : Mutex) (h h' : ℕ → ℕ)
    → lock_mutex i m ≡ some m'
    → h' i ≡ h i + 1
    → ((j : ℕ) → j ≢ i → h' j ≡ h j)
    → Owns m h
    → Owns m' h'
unfolding lock_mutex
Owns-lock_mutex i free m' h h' e one others w =
    let taken : held i 0 ≡ m' = cc in
    rw (← taken) (omega (arith, one, w i), λ j n. omega (arith, others j n, w j))
Owns-lock_mutex i (held o d) m' h h' e one others w = elim (Bool-cases (o == i)) [
  | inl y ↦
      let again : some (held o (d + 1)) ≡ some m' = rw y at e in
      let taken : held o (d + 1) ≡ m' = cc in
      let same : o ≡ i = ground arith in
      let two : h' o ≡ h o + 1 = rw same one in
      rw (← taken)
        (omega (arith, two, w.0), λ j n. omega (arith, others j (λ k. n (k ∙ sym same)), w.1 j n))
  | inr n ↦ let clash : none ≡ some m' = rw n at e in absurd cc
]

pub Owns-unlock_mutex :
    (i : ℕ) (m m' : Mutex) (h h' : ℕ → ℕ)
    → unlock_mutex i m ≡ some m'
    → h' i + 1 ≡ h i
    → ((j : ℕ) → j ≢ i → h' j ≡ h j)
    → Owns m h
    → Owns m' h'
unfolding unlock_mutex
Owns-unlock_mutex i free m' h h' e one others w = absurd cc
Owns-unlock_mutex i (held o zero) m' h h' e one others w = elim (Bool-cases (o == i)) [
  | inl y ↦
      let last : some free ≡ some m' = rw y at e in
      let left : free ≡ m' = cc in
      let same : o ≡ i = ground arith in
      let two : h' o + 1 ≡ h o = rw same one in
      rw (← left) (λ j. elim (Bool-cases (j == o)) [
        | inl k ↦ let at_o : j ≡ o = ground arith in rw at_o (omega (arith, two, w.0))
        | inr k ↦
            let apart : j ≢ o = ground arith in
            omega (arith, others j (λ x. apart (x ∙ sym same)), w.1 j apart)
      ])
  | inr n ↦ let clash : none ≡ some m' = rw n at e in absurd cc
]
Owns-unlock_mutex i (held o (suc d)) m' h h' e one others w = elim (Bool-cases (o == i)) [
  | inl y ↦
      let last : some (held o d) ≡ some m' = rw y at e in
      let left : held o d ≡ m' = cc in
      let same : o ≡ i = ground arith in
      let two : h' o + 1 ≡ h o = rw same one in
      rw (← left)
        (omega (arith, two, w.0), λ j n. omega (arith, others j (λ k. n (k ∙ sym same)), w.1 j n))
  | inr n ↦ let clash : none ≡ some m' = rw n at e in absurd cc
]

pub Owns-alone : (m : Mutex) (h : ℕ → ℕ) (i j : ℕ) → Owns m h → 0 < h i → j ≢ i → h j ≡ 0
Owns-alone free h i j w p n = w j
Owns-alone (held o d) h i j w p n = elim (Bool-cases (i == o)) [
  | inl y ↦ let same : i ≡ o = ground arith in w.1 j (λ e. n (e ∙ sym same))
  | inr k ↦ let apart : i ≢ o = ground arith in absurd (omega (arith, p, w.1 i apart))
]

zero_or_suc : (d : ℕ) → (d ≡ 0) ⊎ ((c : ℕ) × (d ≡ suc c))
zero_or_suc zero = inl refl
zero_or_suc (suc c) = inr (c, refl)

pub Owns-unlocks :
    (m : Mutex) (h : ℕ → ℕ) (i : ℕ)
    → Owns m h
    → 0 < h i
    → (m' : Mutex) × (unlock_mutex i m ≡ some m')
unfolding unlock_mutex
Owns-unlocks free h i w p = absurd (omega (arith, p, w i))
Owns-unlocks (held o d) h i w p = elim (Bool-cases (o == i)) [
  | inl y ↦ elim (zero_or_suc d) [
    | inl none_left ↦ rw (none_left, y) (free, refl)
    | inr (c, more) ↦ rw (more, y) (held o c, refl)
  ]
  | inr n ↦ let apart : i ≢ o = ground arith in absurd (omega (arith, p, w.1 i apart))
]
