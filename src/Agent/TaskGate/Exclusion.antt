-- ===== src/Agent/TaskGate/Exclusion.antt =====
-- The callers that have the gate, and those that wait.
use homer_cli.Base.{
  ℕ, ◌+◌, ◌≡◌, refl, String, true, false, not, ◌&&◌, ◌||◌, inl, inr, Bool-cases, List, [], ◌∷◌,
  length, length-append, contains, arith, if◌then◌else◌,
}
use homer_cli.Base.Counting.{length-drop_one}
use homer_cli.Agent.TaskGate.{
  Waiter, System, no_waiters, one, hand_over, pass_on, remove_waiter, arrive, resume, cancel,
  finish, Step, arrives, resumes, cancels, finishes, Reachable, at_start, after,
}

-- How many callers have the gate.
abbrev pub holders : System → ℕ
holders s = length s.granted + length s.holding

abbrev IsExclusive : System → Type 0
IsExclusive s =
    (holders s ≡ (if s.gate.held then 1 else 0))
    × ((s.gate.held || no_waiters s.gate.waiters) ≡ true)

hand_over-holder :
    (now : ℕ) (ws : List Waiter)
    → (length (one (hand_over now ws).1) ≡ (if (hand_over now ws).0.held then 1 else 0))
      × (((hand_over now ws).0.held || no_waiters (hand_over now ws).0.waiters) ≡ true)
unfolding hand_over
hand_over-holder now [] = (refl, refl)
hand_over-holder now (w ∷ ws) = (refl, refl)

no_waiters-remove_waiter :
    (id : String) (ws : List Waiter)
    → no_waiters ws ≡ true
    → no_waiters (remove_waiter id ws) ≡ true
unfolding remove_waiter
no_waiters-remove_waiter id [] h = refl
no_waiters-remove_waiter id (w ∷ ws) h = ground arith

pass_on-IsExclusive :
    (now : ℕ) (s : System) (granted holding : List String)
    → length granted + length holding ≡ 0
    → IsExclusive (pass_on now s granted holding)
pass_on-IsExclusive now s granted holding h =
    let (count, queue) = hand_over-holder now s.gate.waiters in
    (omega (arith, count, length-append granted (one (hand_over now s.gate.waiters).1)), queue)

Step-IsExclusive : {s t : System} → IsExclusive s → Step s t → IsExclusive t
unfolding arrive resume cancel finish
Step-IsExclusive (h, k) (arrives s id method now fresh) =
    elim (Bool-cases (not s.gate.held && no_waiters s.gate.waiters)) [
      | inl free ↦ rw free (ground arith, refl)
      | inr busy ↦ rw busy (h, ground arith)
    ]
Step-IsExclusive (h, k) (resumes s id true now c) =
    pass_on-IsExclusive now s _ _ (ground (arith, length-drop_one id s.granted c, h))
Step-IsExclusive (h, k) (resumes s id false now c) =
    (omega (arith, length-drop_one id s.granted c, h), k)
Step-IsExclusive (h, k) (cancels s id now c) = elim (Bool-cases (contains id s.granted)) [
  | inl granted ↦
      rw granted
        (pass_on-IsExclusive now s _ _ (ground (arith, length-drop_one id s.granted granted, h)))
  | inr queued ↦ rw queued (h, ground (arith, k, no_waiters-remove_waiter id s.gate.waiters))
]
Step-IsExclusive (h, k) (finishes s id now c) =
    pass_on-IsExclusive now s _ _ (ground (arith, length-drop_one id s.holding c, h))

Reachable-IsExclusive : {s : System} → Reachable s → IsExclusive s
Reachable-IsExclusive at_start = (refl, refl)
Reachable-IsExclusive (after r step) = Step-IsExclusive (Reachable-IsExclusive r) step

-- In every reachable state, one caller has the gate when it is held and none when it is not: two
-- writing tasks never run at once.
pub at_most_one_holder : (s : System) → Reachable s → holders s ≡ (if s.gate.held then 1 else 0)
at_most_one_holder s r = (Reachable-IsExclusive r).0

-- In every reachable state the gate is held or nobody waits: no wakeup is lost.
pub nobody_waits_for_a_free_gate :
    (s : System) → Reachable s → (s.gate.held || no_waiters s.gate.waiters) ≡ true
nobody_waits_for_a_free_gate s r = (Reachable-IsExclusive r).1
