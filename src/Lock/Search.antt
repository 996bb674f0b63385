-- ===== src/Lock/Search.antt =====
-- Lock.cpp, `SearchLockCycle`: what it finds, and when it does not end.
use iocp_chat_server.Base.{
  ℕ, zero, suc, ◌<◌, ◌⊎◌, ◌+◌, ◌≡◌, refl, ap, sym, subst, none, ◌∙◌, ◌≢◌, true, false, some, ◌==◌,
  arith, Bool-cases, Option-cases, inl, inr,
}
use Prim.Native.Nat.add
use iocp_chat_server.Thread.{Thread, ThreadPool, at}
use iocp_chat_server.Lock.{Locks, dead_lock, no_dead_lock, out_of_fuel, search_from}

-- From the thread `t` the locks that threads wait for, and the threads that hold these, lead to the
-- lock `l` with the identifier `new_id`, and to no such lock before.
pub data Chain (pool : ThreadPool) (locks : Locks) (new_id l : ℕ) : Thread → Type 0 where
  here : {t : Thread} → t.lock ≡ some l → (locks l).lock_id ≡ new_id → Chain pool locks new_id l t
  next :
      {t : Thread} (k : ℕ) (u : Thread)
      → t.lock ≡ some k
      → (locks k).lock_id ≢ new_id
      → at (locks k).thread_id pool ≡ some u
      → Chain pool locks new_id l u
      → Chain pool locks new_id l t

module _ (pool : ThreadPool) (locks : Locks) (new_id : ℕ) where
  -- What the search reports is at the end of such a chain.
  pub search_from-Chain :
      (fuel : ℕ) (t : Thread) (l : ℕ)
      → search_from fuel pool locks new_id t ≡ dead_lock l
      → Chain pool locks new_id l t
  unfolding search_from
  search_from-Chain zero t l e = cc
  search_from-Chain (suc fuel) t l e = elim (Option-cases t.lock) [
    | inl idle ↦
        let step : search_from (suc fuel) pool locks new_id t ≡ no_dead_lock = rw idle refl in cc
    | inr (k, waiting) ↦ elim (Bool-cases ((locks k).lock_id == new_id)) [
      | inl same ↦
          let step : search_from (suc fuel) pool locks new_id t ≡ dead_lock k =
            rw (waiting, same) refl in
          let k≡l : k ≡ l = cc in
          here (waiting ∙ ap some k≡l) (ap (λ (x : ℕ). (locks x).lock_id) (sym k≡l) ∙ ground arith)
      | inr other ↦ elim (Option-cases (at (locks k).thread_id pool)) [
        | inl missing ↦
            let step : search_from (suc fuel) pool locks new_id t ≡ no_dead_lock =
              rw (waiting, other, missing) refl in
            cc
        | inr (u, found) ↦
            let step : search_from (suc fuel) pool locks new_id t
                ≡ search_from fuel pool locks new_id u =
              rw (waiting, other, found) refl in
            next k u waiting (ground arith) found (search_from-Chain fuel u l (sym step ∙ e))
      ]
    ]
  ]

  unfoldable pub hops : {l : ℕ} {t : Thread} → Chain pool locks new_id l t → ℕ
  hops (here e i) = 1
  hops (next k u e i a c) = suc (hops c)

  -- Every such chain is found, with fuel for its length or more.
  pub Chain-search_from :
      {l : ℕ} {t : Thread} (c : Chain pool locks new_id l t) (more : ℕ)
      → search_from (hops c + more) pool locks new_id t ≡ dead_lock l
  unfolding search_from hops
  Chain-search_from {l} {t} (here e i) more =
      let same : ((locks l).lock_id == new_id) ≡ true = ground arith in
      rw (add.suc, add.zero, e, same) refl
  Chain-search_from {l} {t} (next k u e i a c) more =
      let other : ((locks k).lock_id == new_id) ≡ false = ground arith in
      rw (add.suc, e, other, a) (Chain-search_from c more)

  -- Two threads that wait for each other, over locks with other identifiers than the new lock's, keep
  -- the search going for ever.
  pub search_from-cycle :
      (fuel : ℕ) (t u : Thread) (k l : ℕ)
      → t.lock ≡ some k
      → (locks k).lock_id ≢ new_id
      → at (locks k).thread_id pool ≡ some u
      → u.lock ≡ some l
      → (locks l).lock_id ≢ new_id
      → at (locks l).thread_id pool ≡ some t
      → search_from fuel pool locks new_id t ≡ out_of_fuel
  unfolding search_from
  search_from-cycle zero t u k l a b c d e f = refl
  search_from-cycle (suc fuel) t u k l a b c d e f =
      let other : ((locks k).lock_id == new_id) ≡ false = ground arith in
      rw (a, other, c, search_from) (search_from-cycle fuel u t l k d e f a b c)

  -- The chain to the lock's holder is one thread shorter than the thread's own.
  tail-Chain :
      {l : ℕ} {t : Thread} (k : ℕ) (u : Thread)
      → t.lock ≡ some k
      → ((locks k).lock_id == new_id) ≡ false
      → at (locks k).thread_id pool ≡ some u
      → Chain pool locks new_id l t
      → Chain pool locks new_id l u
  tail-Chain {l} k u e i a (here e' i') =
      let k≡l : k ≡ l = cc in
      let same : (locks k).lock_id ≡ new_id = ap (λ (x : ℕ). (locks x).lock_id) k≡l ∙ i' in
      absurd (ground arith)
  tail-Chain {l} k u e i a (next k' u' e' i' a' c) =
      let k≡k' : k ≡ k' = cc in
      let looked : at (locks k).thread_id pool ≡ at (locks k').thread_id pool =
        ap (λ (x : ℕ). at (locks x).thread_id pool) k≡k' in
      let u'≡u : u' ≡ u = cc in subst (λ (x : Thread). Chain pool locks new_id l x) u'≡u c

  not-Chain_idle : {l : ℕ} {t : Thread} → t.lock ≡ none → Chain pool locks new_id l t → ⊥
  not-Chain_idle n (here e i) = cc
  not-Chain_idle n (next k u e i a c) = cc

  not-Chain_unknown :
      {l : ℕ} {t : Thread} (k : ℕ)
      → t.lock ≡ some k
      → ((locks k).lock_id == new_id) ≡ false
      → at (locks k).thread_id pool ≡ none
      → Chain pool locks new_id l t
      → ⊥
  not-Chain_unknown {l} k e i n (here e' i') =
      let k≡l : k ≡ l = cc in
      let same : (locks k).lock_id ≡ new_id = ap (λ (x : ℕ). (locks x).lock_id) k≡l ∙ i' in
      ground arith
  not-Chain_unknown {l} k e i n (next k' u' e' i' a' c) =
      let k≡k' : k ≡ k' = cc in
      let looked : at (locks k).thread_id pool ≡ at (locks k').thread_id pool =
        ap (λ (x : ℕ). at (locks x).thread_id pool) k≡k' in
      cc

  -- Where some rank of the threads falls from each waiting thread to the one that holds the lock, so
  -- that they do not wait in a circle: with more fuel than the rank of a thread the search from it
  -- ends; it reports a lock at the end of a chain, or no lock where there is no chain.
  pub search_from-decides :
      (rank : Thread → ℕ)
      → ((t u : Thread) (l : ℕ)
          → t.lock ≡ some l
          → at (locks l).thread_id pool ≡ some u
          → rank u < rank t)
      → (fuel : ℕ) (t : Thread) → rank t < fuel
      → ((l : ℕ) × (search_from fuel pool locks new_id t ≡ dead_lock l)
          × Chain pool locks new_id l t)
        ⊎ ((search_from fuel pool locks new_id t ≡ no_dead_lock)
            × ((l : ℕ) → Chain pool locks new_id l t → ⊥))
  unfolding search_from
  search_from-decides rank falls zero t h = absurd (omega arith)
  search_from-decides rank falls (suc fuel) t h = elim (Option-cases t.lock) [
    | inl idle ↦ inr (rw idle refl, λ l c. not-Chain_idle idle c)
    | inr (k, waiting) ↦ elim (Bool-cases ((locks k).lock_id == new_id)) [
      | inl same ↦ inl (k, rw (waiting, same) refl, here waiting (ground arith))
      | inr other ↦ elim (Option-cases (at (locks k).thread_id pool)) [
        | inl missing ↦
            inr (
              rw (waiting, other, missing) refl,
              λ l c. not-Chain_unknown k waiting other missing c,
            )
        | inr (u, found) ↦
            let step : search_from (suc fuel) pool locks new_id t
                ≡ search_from fuel pool locks new_id u =
              rw (waiting, other, found) refl in
            elim (search_from-decides rank falls fuel u
              (omega (arith, falls t u k waiting found))) [
                | inl (l, e, c) ↦ inl (l, step ∙ e, next k u waiting (ground arith) found c)
                | inr (e, n) ↦ inr (step ∙ e, λ l c. n l (tail-Chain k u waiting other found c))
              ]
      ]
    ]
  ]
