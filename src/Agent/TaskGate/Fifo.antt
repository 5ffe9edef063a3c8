-- ===== src/Agent/TaskGate/Fifo.antt =====
-- The order in which the gate is given.
use homer_cli.Base.{
  ℕ, ◌≡◌, refl, sym, ap, ◌∙◌, String, true, false, not, ◌&&◌, inl, inr, Bool-cases, some, List, [],
  ◌∷◌, ◌++◌, append_assoc, append-nil, length, contains, contains-append, arith, str_eq, str_eq_iff,
}
use homer_cli.Base.Counting.{IsNodup, IsNodup-append_one, drop_one}
use homer_cli.Agent.TaskGate.{
  Waiter, Gate, System, no_waiters, ids, one, hand_over, release, pass_on, remove_waiter, arrive,
  resume, cancel, finish, Step, arrives, resumes, cancels, finishes, Reachable, at_start, after,
}

ids-append : (ws vs : List Waiter) → ids (ws ++ vs) ≡ ids ws ++ ids vs
ids-append [] vs = refl
ids-append (w ∷ ws) vs = ap (λ l. w.id ∷ l) (ids-append ws vs)

one-hand_over :
    (now : ℕ) (ws : List Waiter)
    → one (hand_over now ws).1 ++ ids (hand_over now ws).0.waiters ≡ ids ws
unfolding hand_over
one-hand_over now [] = refl
one-hand_over now (w ∷ ws) = refl

not_served :
    (id : String) (xs ys : List String)
    → IsNodup (xs ++ ys)
    → contains id ys ≡ true
    → contains id xs ≡ false
unfolding contains
not_served id [] ys n h = refl
not_served id (x ∷ xs) ys (m, n) h =
    ground (arith, contains-append x xs ys, not_served id xs ys n h, str_eq_iff x id)

contains-drop_one-false :
    (x id : String) (xs : List String) → contains x xs ≡ false → contains x (drop_one id xs) ≡ false
unfolding contains drop_one
contains-drop_one-false x id [] h = refl
contains-drop_one-false x id (y ∷ ys) h = ground (arith, contains-drop_one-false x id ys)

IsNodup-drop_one : (id : String) (xs : List String) → IsNodup xs → IsNodup (drop_one id xs)
unfolding drop_one
IsNodup-drop_one id [] n = n
IsNodup-drop_one id (x ∷ xs) (m, n) = elim (Bool-cases (str_eq x id)) [
  | inl same ↦ rw same n
  | inr other ↦ rw other (contains-drop_one-false x id xs m, IsNodup-drop_one id xs n)
]

drop_one-append :
    (id : String) (xs ys : List String)
    → contains id xs ≡ false
    → drop_one id (xs ++ ys) ≡ xs ++ drop_one id ys
unfolding contains drop_one
drop_one-append id [] ys h = refl
drop_one-append id (x ∷ xs) ys h = elim (Bool-cases (str_eq x id)) [
  | inl same ↦ ground arith
  | inr other ↦ rw other (ap (λ l. x ∷ l) (drop_one-append id xs ys (ground arith)))
]

drop_one-ids : (id : String) (ws : List Waiter) → drop_one id (ids ws) ≡ ids (remove_waiter id ws)
unfolding drop_one remove_waiter
drop_one-ids id [] = refl
drop_one-ids id (w ∷ ws) = elim (Bool-cases (str_eq w.id id)) [
  | inl same ↦ rw same refl
  | inr other ↦ rw other (ap (λ l. w.id ∷ l) (drop_one-ids id ws))
]

abbrev IsOrdered : System → Type 0
IsOrdered s = (s.line ≡ s.served ++ ids s.gate.waiters) × IsNodup s.line

pass_on-IsOrdered :
    (now : ℕ) (s : System) (granted holding : List String)
    → IsOrdered s
    → IsOrdered (pass_on now s granted holding)
pass_on-IsOrdered now s granted holding (e, n) = (
  e
      ∙ ap (λ l. s.served ++ l) (sym (one-hand_over now s.gate.waiters))
      ∙ sym (
          append_assoc s.served (one (hand_over now s.gate.waiters).1)
            (ids (hand_over now s.gate.waiters).0.waiters)),
  n,
)

no_ids : (ws : List Waiter) → no_waiters ws ≡ true → ids ws ≡ []
no_ids [] h = refl
no_ids (w ∷ ws) h = ground arith

Step-IsOrdered : {s t : System} → IsOrdered s → Step s t → IsOrdered t
unfolding arrive resume cancel finish
Step-IsOrdered (e, n) (arrives s id method now fresh) =
    elim (Bool-cases (not s.gate.held && no_waiters s.gate.waiters)) [
      | inl free ↦ rw free (
        rw (e, no_ids s.gate.waiters (ground arith), append-nil s.served)
            (sym (append-nil (s.served ++ id ∷ []))),
        IsNodup-append_one id s.line fresh n,
      )
      | inr busy ↦ rw busy (
        rw
            (
              e,
              ids-append s.gate.waiters (record { id = id; method = method } ∷ []),
              append_assoc s.served (ids s.gate.waiters) (id ∷ []),
            )
            refl,
        IsNodup-append_one id s.line fresh n,
      )
    ]
Step-IsOrdered o (resumes s id true now c) = pass_on-IsOrdered now s [] [] o
Step-IsOrdered o (resumes s id false now c) = o
Step-IsOrdered (e, n) (cancels s id now c) = elim (Bool-cases (contains id s.granted)) [
  | inl granted ↦ rw granted (pass_on-IsOrdered now s [] [] (e, n))
  | inr queued ↦ rw queued (
    rw (e, sym (drop_one-ids id s.gate.waiters))
        (drop_one-append id s.served (ids s.gate.waiters)
          (not_served id s.served (ids s.gate.waiters) (rw (sym e) n) (ground (arith, c)))),
    IsNodup-drop_one id s.line n,
  )
]
Step-IsOrdered o (finishes s id now c) = pass_on-IsOrdered now s [] [] o

Reachable-IsOrdered : {s : System} → Reachable s → IsOrdered s
Reachable-IsOrdered at_start = (refl, tt)
Reachable-IsOrdered (after r step) = Step-IsOrdered (Reachable-IsOrdered r) step

-- In every reachable state, the callers in the order in which they came, without those that gave
-- up while they waited, are first those that got the gate, in the order in which they got it, and
-- then those in the queue, in its order.
pub served_in_order_of_arrival :
    (s : System) → Reachable s → s.line ≡ s.served ++ ids s.gate.waiters
served_in_order_of_arrival s r = (Reachable-IsOrdered r).0

-- The gate after one call of `release` at each of the times, with the waiters that were granted.
abbrev pub releases : List ℕ → Gate → Gate × List String
releases [] g = (g, [])
releases (now ∷ times) g =
    let (g', next) = release now g in let (g'', more) = releases times g' in (g'', one next ++ more)

-- As many releases as there are waiters grant each waiter once, in the order of the queue, and the
-- next release frees the gate.
pub releases_serve_everybody :
    (g : Gate) (times : List ℕ) (now : ℕ)
    → length times ≡ length g.waiters
    → ((releases times g).1 ≡ ids g.waiters) × ((release now (releases times g).0).0.held ≡ false)
unfolding hand_over
releases_serve_everybody g times now h = go g.waiters times g refl h
  where
    go :
        (ws : List Waiter) (times : List ℕ) (g : Gate)
        → g.waiters ≡ ws
        → length times ≡ length ws
        → ((releases times g).1 ≡ ids ws) × ((release now (releases times g).0).0.held ≡ false)
    go [] [] g e h = rw e (refl, refl)
    go (w ∷ ws) (t ∷ times) g e h =
        let (served, free) =
          go ws times
            record { held = true; held_method = w.method; held_since = some t; waiters = ws } refl
            (omega arith) in
        rw e (ap (λ l. w.id ∷ l) served, free)
    go [] (t ∷ times) g e h = absurd (omega arith)
    go (w ∷ ws) [] g e h = absurd (omega arith)
