-- ===== src/Lock/Holders/Exclusion.antt =====
-- Lock.cpp, class LockSafeScope: what the threads can rely on inside a scope, and what they cannot.
use iocp_chat_server.Base.{
  ℕ, ◌+◌, ◌<◌, ◌≡◌, ◌≢◌, refl, ap, ◌∙◌, ◌⊎◌, inl, inr, none, some, ◌==◌, arith, Bool-cases, true,
  false,
}
use iocp_chat_server.Lock.{Mutex, free, held, lock_mutex, unlock_mutex, set_thread_id, make}
use iocp_chat_server.Lock.Holders.{
  Phase, idle, locked, placed, released, Threads, changed, Step, takes, notes, signs, releases,
  clears, Reach, start, later,
}
use iocp_chat_server.Lock.Holders.Owns.{
  taking, holdings, Owns, Owns-same, Owns-lock_mutex, Owns-unlock_mutex, Owns-alone, Owns-unlocks,
}

changed_self {ℓ} : {A : Type ℓ} (f : ℕ → A) (i : ℕ) (a : A) → changed f i a i ≡ a
changed_self f i a = let itself : (i == i) ≡ true = ground arith in rw itself refl

changed_other {ℓ} : {A : Type ℓ} (f : ℕ → A) (i : ℕ) (a : A) (j : ℕ) → j ≢ i → changed f i a j ≡ f j
changed_other f i a j n = let apart : (i == j) ≡ false = ground arith in rw apart refl

-- A phase that holds the mutex as often as the one before.
changed-taking :
    (f : ℕ → Phase) (i : ℕ) (q : Phase)
    → taking q ≡ taking (f i)
    → (j : ℕ) → taking (changed f i q j) ≡ taking (f j)
changed-taking f i q e j = elim (Bool-cases (i == j)) [
  | inl y ↦ let same : i ≡ j = ground arith in rw y (e ∙ ap (λ (x : ℕ). taking (f x)) same)
  | inr n ↦ rw n refl
]

-- Inside its scopes a thread has locked the mutex, and its identifier stands in the lock.
record Inv (s : Threads) : Type 0 where
  owns : Owns s.lock.mutex (holdings s)
  signed : (i : ℕ) → (s.depth i ≡ 0) ⊎ (s.lock.thread_id ≡ i)

changed-Inv :
    (s : Threads) (i : ℕ) (q : Phase) (place : _)
    → taking q ≡ taking (s.phase i)
    → Inv s
    → Inv (record s { lock = record s.lock { locking = place }; phase = changed s.phase i q })
changed-Inv s i q place e v = record {
  owns =
      Owns-same s.lock.mutex (holdings s) (λ j. s.depth j + taking (changed s.phase i q j))
        (λ j. ap (λ (n : ℕ). s.depth j + n) (changed-taking s.phase i q e j)) v.owns;
  signed = v.signed;
}

Step-Inv : {s t : Threads} → Step s t → Inv s → Inv t
unfolding set_thread_id
Step-Inv {s} (takes i file line m at_idle e) v = record {
  owns =
      Owns-lock_mutex i s.lock.mutex m (holdings s)
        (λ j. s.depth j + taking (changed s.phase i (locked file line) j)) e
        (rw (changed_self s.phase i (locked file line), at_idle) (omega arith))
        (λ j n. rw (changed_other s.phase i (locked file line) j n) refl) v.owns;
  signed = v.signed;
}
Step-Inv {s} (notes i file line at_locked) v =
    changed-Inv s i placed (some (file, line)) (rw at_locked refl) v
Step-Inv {s} (signs i at_placed) v =
    let holding : 0 < holdings s i = rw at_placed (omega arith) in
    record {
      owns =
          Owns-same s.lock.mutex (holdings s)
            (λ j. changed s.depth i (s.depth i + 1) j + taking (changed s.phase i idle j))
            (λ j. elim (Bool-cases (i == j)) [
              | inl y ↦ let same : i ≡ j = ground arith in rw (y, ← same, at_placed) (omega arith)
              | inr n ↦ rw n refl
            ])
            v.owns;
      signed = λ j. elim (Bool-cases (i == j)) [
        | inl y ↦ inr (ground arith)
        | inr n ↦
            let alone = Owns-alone s.lock.mutex (holdings s) i j v.owns holding (ground arith) in
            rw n (inl (omega (arith, alone)))
      ];
    }
Step-Inv {s} (releases i d m at_idle deep e) v = record {
  owns =
      Owns-unlock_mutex i s.lock.mutex m (holdings s)
        (λ j. changed s.depth i d j + taking (changed s.phase i released j)) e
        (rw (changed_self s.depth i d, changed_self s.phase i released, at_idle, deep)
          (omega arith))
        (λ j n. rw (changed_other s.depth i d j n, changed_other s.phase i released j n) refl)
        v.owns;
  signed = λ j. elim (Bool-cases (i == j)) [
    | inl y ↦
        let same : i ≡ j = ground arith in
        elim (v.signed i) [
          | inl none_open ↦ absurd (omega (arith, none_open, deep))
          | inr mine ↦ inr (mine ∙ same)
        ]
    | inr n ↦ rw n (v.signed j)
  ];
}
Step-Inv {s} (clears i at_released) v = changed-Inv s i idle none (rw at_released refl) v

Reach-Inv : {seed : ℕ} {s : Threads} → Reach seed s → Inv s
unfolding make
Reach-Inv start = record { owns = λ i. refl; signed = λ i. inl refl }
Reach-Inv (later r e) = Step-Inv e (Reach-Inv r)

-- In whatever order the threads take their steps: if two threads are both inside a scope of one lock, they
-- are the same thread; its identifier stands in the lock, and the destructor of the scope may unlock the
-- mutex.
pub scope-Reach :
    {seed : ℕ} {s : Threads}
    → Reach seed s
    → (i j : ℕ) → 0 < s.depth i
    → 0 < s.depth j
    → (i ≡ j) × (s.lock.thread_id ≡ i) × ((m : Mutex) × (unlock_mutex i s.lock.mutex ≡ some m))
scope-Reach {seed} {s} r i j p q =
    let v = Reach-Inv r in
    let holding : 0 < holdings s i = omega (arith, p) in
    (
      elim (Bool-cases (i == j)) [
        | inl y ↦ ground arith
        | inr n ↦ absurd (
            omega
              (arith, q, Owns-alone s.lock.mutex (holdings s) i j v.owns holding (ground arith)))
      ],
      elim (v.signed i) [ inl outside ↦ absurd (omega (arith, p, outside)) | inr mine ↦ mine ],
      Owns-unlocks s.lock.mutex (holdings s) i v.owns holding,
    )

-- Two threads that enter a scope one after the other can leave the lock held without its place: the first
-- one clears it when it has given the mutex back, and the second one has noted its own by then.
pub clears-notes :
    (seed i j file line file' line' : ℕ)
    → i ≢ j
    → (s : Threads) × Reach seed s
      × (s.depth j ≡ 1)
      × (s.phase j ≡ idle)
      × (s.lock.mutex ≡ held j 0)
      × (s.lock.locking ≡ none)
unfolding make lock_mutex unlock_mutex set_thread_id
clears-notes seed i j file line file' line' n =
    let ii : (i == i) ≡ true = ground arith in
    let jj : (j == j) ≡ true = ground arith in
    let ij : (i == j) ≡ false = ground arith in
    let ji : (j == i) ≡ false = ground arith in
    let first = later start (takes i file line (held i 0) refl refl) in
    let noted = later first (notes i file line (rw ii refl)) in
    let inside = later noted (signs i (rw ii refl)) in
    let left = later inside (releases i 0 free (rw ii refl) (rw ii refl) (rw ii refl)) in
    let second = later left (takes j file' line' (held j 0) (rw ij refl) refl) in
    let noted' = later second (notes j file' line' (rw jj refl)) in
    let inside' = later noted' (signs j (rw jj refl)) in
    let last = later inside' (clears i (rw (ji, ii) refl)) in
    (_, last, rw (jj, ij) refl, rw (ij, jj) refl, refl, refl)
