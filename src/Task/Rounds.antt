-- ===== src/Task/Rounds.antt =====
-- Task.cpp, `Process`: what one round does to the list of tasks, and how far apart the ticks of a task
-- are.
use iocp_chat_server.Base.{
  ℕ, zero, suc, ◌+◌, ◌≡◌, refl, ap, ◌∙◌, ◌≢◌, Option, Bool, true, false, not, ◌&&◌, ◌||◌, List, [],
  ◌∷◌, arith, ◌==◌, if◌then◌else◌, Bool-cases, inl, inr,
}
use iocp_chat_server.Base.Int.{ℤ, ◌+ℤ◌, ltb_ℤ}
use iocp_chat_server.Task.{
  Clock, TaskNode, Entry, schedule, expired, tick, scan, remove, remove_each, process_round,
  is_null, is_infinity, delete_later, keep_ticked,
}

-- No task of the list lies at this pointer.
abbrev pub Absent : ℕ → List Entry → Type 0
Absent p [] = Unit {0}
Absent p (e ∷ es) = (e.pointer ≢ p) × Absent p es

-- No task stands twice in the list.
abbrev pub Distinct : List Entry → Type 0
Distinct [] = Unit {0}
Distinct (e ∷ es) = Absent e.pointer es × Distinct es

abbrev NotIn : ℕ → List ℕ → Type 0
NotIn p [] = Unit {0}
NotIn p (q ∷ qs) = (q ≢ p) × NotIn p qs

-- Without work, or past a duration that is not infinite.
unfoldable pub is_over : ℤ → TaskNode → Bool
is_over now node =
    is_null node.work_object || (not (is_infinity node.duration_sec) && ltb_ℤ node.duration_sec now)

unfoldable pub is_due : ℤ → TaskNode → Bool
is_due now node = ltb_ℤ node.next_tick now

-- The tasks that are left at this time, those that were due scheduled anew.
unfoldable pub left : ℤ → List Entry → List Entry
left now [] = []
left now (e ∷ es) =
    let rest = left now es in
    if is_over now e.node
    then rest
    else (if is_due now e.node then record e { node = schedule e.node now } else e) ∷ rest

-- The works that run at this time.
unfoldable pub works : ℤ → List Entry → List (Option ℕ)
works now [] = []
works now (e ∷ es) =
    let rest = works now es in
    if not (is_over now e.node) && is_due now e.node then e.node.work_object ∷ rest else rest

scan-gone :
    (clock : Clock) (k : ℕ) (e : Entry) (es : List Entry)
    → (expired clock k e.node).0 ≡ true
    → scan clock k (e ∷ es) ≡ delete_later e (scan clock (expired clock k e.node).1 es)
unfolding scan
scan-gone clock k e es h = rw h

scan-kept :
    (clock : Clock) (k : ℕ) (e : Entry) (es : List Entry)
    → (expired clock k e.node).0 ≡ false
    → let t = tick clock (expired clock k e.node).1 e.node in
      scan clock k (e ∷ es) ≡ keep_ticked e t.0 t.1 (scan clock t.2 es)
unfolding scan
scan-kept clock k e es h = rw h

scan-Absent :
    (clock : Clock) (k p : ℕ) (es : List Entry)
    → Absent p es
    → Absent p (scan clock k es).entries × NotIn p (scan clock k es).delete_nodes
unfolding scan
scan-Absent clock k p [] a = (tt, tt)
scan-Absent clock k p (e ∷ es) a = elim (Bool-cases (expired clock k e.node).0) [
  | inl x ↦
      let r = scan-Absent clock (expired clock k e.node).1 p es a.1 in
      rw (scan-gone clock k e es x) ((a.0, r.0), (a.0, r.1))
  | inr x ↦
      let r = scan-Absent clock (tick clock (expired clock k e.node).1 e.node).2 p es a.1 in
      rw (scan-kept clock k e es x) ((a.0, r.0), r.1)
]

remove-Absent : (p : ℕ) (es : List Entry) → Absent p es → remove p es ≡ es
unfolding remove
remove-Absent p [] a = refl
remove-Absent p (e ∷ es) a = ground (arith, remove-Absent p es a.1)

remove_each-cons :
    (ps : List ℕ) (e : Entry) (es : List Entry)
    → NotIn e.pointer ps
    → remove_each ps (e ∷ es) ≡ e ∷ remove_each ps es
unfolding remove_each remove
remove_each-cons [] e es n = refl
remove_each-cons (p ∷ ps) e es n =
    let other : (e.pointer == p) ≡ false = ground (arith, n.0) in
    rw (other, remove_each-cons ps e (remove p es) n.1)

remove_each-head :
    (ps : List ℕ) (e : Entry) (es : List Entry)
    → Absent e.pointer es
    → remove_each (e.pointer ∷ ps) (e ∷ es) ≡ remove_each ps es
unfolding remove_each remove
remove_each-head ps e es a =
    let self : (e.pointer == e.pointer) ≡ true = ground arith in
    rw (self, remove-Absent e.pointer es a)

process_round-gone :
    (clock : Clock) (k : ℕ) (e : Entry) (es : List Entry)
    → Absent e.pointer es
    → (expired clock k e.node).0 ≡ true
    → process_round clock k (e ∷ es) ≡ process_round clock (expired clock k e.node).1 es
unfolding process_round
process_round-gone clock k e es a h =
    let k' = (expired clock k e.node).1 in
    let r = scan clock k' es in
    rw (scan-gone clock k e es h) (
      ap (λ (l : List Entry). (l, r.ran))
        (remove_each-head r.delete_nodes e r.entries (scan-Absent clock k' e.pointer es a).0))

process_round-kept :
    (clock : Clock) (k : ℕ) (e : Entry) (es : List Entry)
    → Absent e.pointer es
    → (expired clock k e.node).0 ≡ false
    → let t = tick clock (expired clock k e.node).1 e.node in
      process_round clock k (e ∷ es) ≡ (
        record e { node = t.0 } ∷ (process_round clock t.2 es).0,
        if t.1
            then t.0.work_object ∷ (process_round clock t.2 es).1
            else (process_round clock t.2 es).1,
      )
unfolding process_round
process_round-kept clock k e es a h =
    let t = tick clock (expired clock k e.node).1 e.node in
    let r = scan clock t.2 es in
    rw (
      scan-kept clock k e es h,
      remove_each-cons r.delete_nodes (record e { node = t.0 }) r.entries
          (scan-Absent clock t.2 e.pointer es a).1,
    )

expired-is_over :
    (clock : Clock) (k : ℕ) (now : ℤ) (node : TaskNode)
    → clock k ≡ now
    → (expired clock k node).0 ≡ is_over now node
unfolding expired is_over
expired-is_over clock k now node h = ground arith

tick-is_due :
    (clock : Clock) (k : ℕ) (now : ℤ) (node : TaskNode)
    → clock k ≡ now
    → clock (k + 1) ≡ now
    → ((tick clock k node).0 ≡ (if is_due now node then schedule node now else node))
      × ((tick clock k node).1 ≡ is_due now node)
      × ((tick clock k node).0.work_object ≡ node.work_object)
unfolding tick is_due
tick-is_due clock k now node h h' = ground arith

process_round-nil : (clock : Clock) (k : ℕ) → process_round clock k [] ≡ ([], [])
unfolding process_round scan remove_each
process_round-nil clock k = refl

-- In a round in which the clock does not move, over a list without repetitions: the tasks that are
-- over leave the list, the others keep their order, exactly those of them that are due run, and these
-- are scheduled anew.
pub process_round_lem :
    (clock : Clock) (k : ℕ) (now : ℤ) (es : List Entry)
    → ((n : ℕ) → clock n ≡ now)
    → Distinct es
    → process_round clock k es ≡ (left now es, works now es)
unfolding left works
process_round_lem clock k now [] steady d = process_round-nil clock k
process_round_lem clock k now (e ∷ es) steady d =
    let over = expired-is_over clock k now e.node (steady k) in
    elim (Bool-cases (is_over now e.node)) [
      | inl x ↦ rw (x) (
          process_round-gone clock k e es d.0 (over ∙ x)
          ∙ process_round_lem clock (expired clock k e.node).1 now es steady d.1)
      | inr x ↦
          let k' = (expired clock k e.node).1 in
          let due = tick-is_due clock k' now e.node (steady k') (steady (k' + 1)) in
          let rest = process_round_lem clock (tick clock k' e.node).2 now es steady d.1 in
          process_round-kept clock k e es d.0 (over ∙ x) ∙ elim (Bool-cases (is_due now e.node)) [
            | inl y ↦ rw (rest, due.2, due.1, due.0, x, y)
            | inr y ↦ rw (rest, due.2, due.1, due.0, x, y)
          ]
    ]

-- The two readings of a call of `Tick`: its own, and that of `NextTick`, which comes later.
abbrev pub two_readings : ℤ × ℤ → Clock
two_readings r zero = r.0
two_readings r (suc n) = r.1

-- The readings of those calls of `Tick` in which the task runs.
unfoldable pub runs : TaskNode → List (ℤ × ℤ) → List (ℤ × ℤ)
runs node [] = []
runs node (r ∷ later) =
    let t = tick (two_readings r) 0 node in
    let rest = runs t.0 later in if t.1 then r ∷ rest else rest

-- The first of them is later than `t`, and between the reading of `NextTick` in each and the next one
-- more than `freq` seconds pass.
abbrev pub Spaced : ℤ → ℤ → List (ℤ × ℤ) → Type 0
Spaced freq t [] = Unit {0}
Spaced freq t (u ∷ us) = (ltb_ℤ t u.0 ≡ true) × Spaced freq (u.1 +ℤ freq) us

-- A task runs only after its next tick, and then only more than `freq_sec` seconds after it was scheduled
-- anew when it ran last.
pub runs-Spaced :
    (node : TaskNode) (readings : List (ℤ × ℤ))
    → Spaced node.freq_sec node.next_tick (runs node readings)
unfolding runs tick
runs-Spaced node [] = tt
runs-Spaced node (r ∷ later) = elim (Bool-cases (ltb_ℤ node.next_tick r.0)) [
  | inl due ↦ rw due (due, runs-Spaced (schedule node r.1) later)
  | inr early ↦ rw early (runs-Spaced node later)
]

-- A duration is compared with the time of day, not with the time since the task was added: a task
-- with a finite duration that is less than every reading leaves the list in its first round, and its
-- work does not run.
pub process_round-finite :
    (clock : Clock) (k : ℕ) (e : Entry)
    → is_infinity e.node.duration_sec ≡ false
    → ltb_ℤ e.node.duration_sec (clock k) ≡ true
    → process_round clock k (e ∷ []) ≡ ([], [])
unfolding expired
process_round-finite clock k e finite past =
    process_round-gone clock k e [] tt (ground arith)
    ∙ process_round-nil clock (expired clock k e.node).1
