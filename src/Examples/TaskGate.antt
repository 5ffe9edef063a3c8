-- ===== src/Examples/TaskGate.antt =====
-- Three tasks at the gate.
use homer_cli.Base.{◌≡◌, refl, true, false, some, [], ◌∷◌, ◌++◌, ◌||◌, if◌then◌else◌, contains}
use homer_cli.Base.Counting.{drop_one}
use homer_cli.Agent.TaskGate.{
  read, classify_task, System, start, ids, no_waiters, release, arrive, cancel, finish, hand_over,
  remove_waiter, running_description, running_duration, arrives, cancels, finishes, Reachable,
  at_start, after,
}
use homer_cli.Agent.TaskGate.Exclusion.{holders, at_most_one_holder, nobody_waits_for_a_free_gate}
use homer_cli.Agent.TaskGate.Fifo.{served_in_order_of_arrival, releases, releases_serve_everybody}

-- A push takes the gate, a pull and an upgrade queue, the pull gives up, the push ends.
abbrev queued : System
queued = arrive "3" "upgrade" 30 (arrive "2" "pull" 20 (arrive "1" "push" 10 start))

abbrev handed_over : System
handed_over = finish "1" 50 (cancel "2" 40 queued)

queued-Reachable : Reachable queued
unfolding arrive contains
queued-Reachable =
    after (after (after at_start (arrives start "1" "push" 10 refl)) (arrives _ "2" "pull" 20 refl))
      (arrives _ "3" "upgrade" 30 refl)

handed_over-Reachable : Reachable handed_over
unfolding arrive cancel finish contains hand_over remove_waiter drop_one
handed_over-Reachable =
    after (after queued-Reachable (cancels queued "2" 40 refl)) (finishes _ "1" 50 refl)

upgrade_is_next : handed_over.granted ≡ "3" ∷ []
unfolding arrive cancel finish contains hand_over remove_waiter drop_one
upgrade_is_next = refl

push_is_running : running_description 1500010 queued.gate ≡ some ("push", 2000000)
unfolding arrive running_description running_duration
push_is_running = refl

listing_reads : classify_task "secret" record { resolve = ""; secret_action = "list" } ≡ read
unfolding classify_task
listing_reads = refl

at_most_one_holder_example : holders handed_over ≡ (if handed_over.gate.held then 1 else 0)
at_most_one_holder_example = at_most_one_holder handed_over handed_over-Reachable

nobody_waits_for_a_free_gate_example : (queued.gate.held || no_waiters queued.gate.waiters) ≡ true
nobody_waits_for_a_free_gate_example = nobody_waits_for_a_free_gate queued queued-Reachable

served_in_order_of_arrival_example :
    handed_over.line ≡ handed_over.served ++ ids handed_over.gate.waiters
served_in_order_of_arrival_example = served_in_order_of_arrival handed_over handed_over-Reachable

releases_serve_everybody_example :
    ((releases (60 ∷ 70 ∷ []) queued.gate).1 ≡ ids queued.gate.waiters)
    × ((release 80 (releases (60 ∷ 70 ∷ []) queued.gate).0).0.held ≡ false)
unfolding arrive
releases_serve_everybody_example = releases_serve_everybody queued.gate (60 ∷ 70 ∷ []) 80 refl
