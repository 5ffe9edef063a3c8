-- ===== src/Agent/TaskGate.antt =====
-- internal/agentd/taskclass.go: which tasks write, and the gate that lets one write at a time.
pub mod Exclusion
pub mod Fifo
use homer_cli.Base.{
  ℕ, ◌-◌, ◌+◌, ◌*◌, ◌/◌, ◌≡◌, String, Bool, true, false, not, ◌&&◌, ◌||◌, Option, none, some, List,
  [], ◌∷◌, ◌++◌, str_eq, contains, if◌then◌else◌,
}
use homer_cli.Base.Counting.{drop_one}

pub data TaskClass : Type 0 where
  read write : TaskClass

-- The options that `classifyTask` reads.
pub record TaskOptions : Type 0 where
  pub resolve : String
  pub secret_action : String

unfoldable pub classify_task : String → TaskOptions → TaskClass
classify_task method options =
    if str_eq options.resolve "local" || str_eq options.resolve "center"
    then write
    else if str_eq method "status"
        || str_eq method "diff"
        || str_eq method "resolve-record"
        || str_eq method "collect.inspect"
    then read
    else if str_eq method "secret"
    then if str_eq options.secret_action "list"
        || str_eq options.secret_action "exists"
        || str_eq options.secret_action "status"
      then read
      else write
    else write

-- `taskWaiter`. Its id stands for the pointer.
pub record Waiter : Type 0 where
  pub id : String
  pub method : String

-- `taskGate`. Times are in nanoseconds, the zero time is `none`.
pub record Gate : Type 0 where
  pub held : Bool
  pub held_method : String
  pub held_since : Option ℕ
  pub waiters : List Waiter

abbrev pub new_gate : Gate
new_gate = record { held = false; held_method = ""; held_since = none; waiters = [] }

abbrev pub no_waiters : List Waiter → Bool
no_waiters [] = true
no_waiters (w ∷ ws) = false

abbrev pub ids : List Waiter → List String
ids [] = []
ids (w ∷ ws) = w.id ∷ ids ws

-- The loop of a cancelled caller that takes its waiter out of the queue.
unfoldable pub remove_waiter : String → List Waiter → List Waiter
remove_waiter id [] = []
remove_waiter id (w ∷ ws) = if str_eq w.id id then ws else w ∷ remove_waiter id ws

-- The body of `release`; no waiter in the queue is nil.
unfoldable pub hand_over : ℕ → List Waiter → Gate × Option String
hand_over now [] = (new_gate, none)
hand_over now (w ∷ ws) =
    (record { held = true; held_method = w.method; held_since = some now; waiters = ws }, some w.id)

-- `release`, with the waiter that it grants.
abbrev pub release : ℕ → Gate → Gate × Option String
release now g = hand_over now g.waiters

-- `runningDuration`: the method that holds the gate and for how long.
unfoldable pub running_duration : ℕ → Gate → Option (String × ℕ)
running_duration now g = if g.held then since g.held_since else none
  where
    since : Option ℕ → Option (String × ℕ)
    since none = none
    since (some t) = some (g.held_method, now - t)

-- Duration.Round to milliseconds, of a duration that is not negative
abbrev pub round_to_ms : ℕ → ℕ
round_to_ms d = (d + 500000) / 1000000 * 1000000

-- What `runningDescriptionLocked` prints: the method and the rounded time.
unfoldable pub running_description : ℕ → Gate → Option (String × ℕ)
unfolding running_duration
running_description now g = elim (running_duration now g) [
  | none ↦ none
  | some (method, d) ↦ some (if str_eq method "" then "unknown" else method, round_to_ms d)
]

-- The gate and its callers: `granted` are the waiters that are granted and whose caller did not
-- go on yet, `holding` the callers that have a release function they did not call. Two lists only
-- record what happened: `line` has the callers in the order in which they came, without those that
-- gave up while they waited, `served` those that got the gate, in that order.
pub record System : Type 0 where
  pub gate : Gate
  pub granted : List String
  pub holding : List String
  pub line : List String
  pub served : List String

abbrev pub start : System
start = record { gate = new_gate; granted = []; holding = []; line = []; served = [] }

abbrev pub one : Option String → List String
one none = []
one (some id) = id ∷ []

-- `acquireWithMethod` up to the select: take the free gate, or queue.
unfoldable pub arrive : String → String → ℕ → System → System
arrive id method now s =
    if not s.gate.held && no_waiters s.gate.waiters
    then record {
      gate = record { held = true; held_method = method; held_since = some now; waiters = [] };
      granted = s.granted;
      holding = id ∷ s.holding;
      line = s.line ++ id ∷ [];
      served = s.served ++ id ∷ [];
    }
    else record {
      gate = record {
        held = s.gate.held;
        held_method = s.gate.held_method;
        held_since = s.gate.held_since;
        waiters = s.gate.waiters ++ record { id = id; method = method } ∷ [];
      };
      granted = s.granted;
      holding = s.holding;
      line = s.line ++ id ∷ [];
      served = s.served;
    }

-- A call of `release` by a caller that is already out of `granted` and `holding`.
abbrev pub pass_on : ℕ → System → List String → List String → System
pass_on now s granted holding =
    let (gate, next) = release now s.gate in
    record {
      gate = gate;
      granted = granted ++ one next;
      holding = holding;
      line = s.line;
      served = s.served ++ one next;
    }

-- The select finds `ready` closed: the caller holds the gate, or gives it back when its context is
-- done by then.
unfoldable pub resume : String → Bool → ℕ → System → System
unfolding hand_over drop_one
resume id done now s = if done then pass_on now s (drop_one id s.granted) s.holding else record {
  gate = s.gate;
  granted = drop_one id s.granted;
  holding = id ∷ s.holding;
  line = s.line;
  served = s.served;
}

-- The select finds the context done: a caller that is granted in the meantime gives the gate
-- back, another leaves the queue.
unfoldable pub cancel : String → ℕ → System → System
unfolding hand_over drop_one remove_waiter
cancel id now s =
    if contains id s.granted then pass_on now s (drop_one id s.granted) s.holding else record {
      gate = record {
        held = s.gate.held;
        held_method = s.gate.held_method;
        held_since = s.gate.held_since;
        waiters = remove_waiter id s.gate.waiters;
      };
      granted = s.granted;
      holding = s.holding;
      line = drop_one id s.line;
      served = s.served;
    }

-- The first call of the release function; later ones do nothing (`sync.Once`).
unfoldable pub finish : String → ℕ → System → System
unfolding hand_over drop_one
finish id now s = pass_on now s s.granted (drop_one id s.holding)

-- What the callers can do, each step under the lock of the gate.
pub data Step : System → System → Type 0 where
  arrives :
      (s : System) (id method : String) (now : ℕ)
      → contains id s.line ≡ false
      → Step s (arrive id method now s)
  resumes :
      (s : System) (id : String) (done : Bool) (now : ℕ)
      → contains id s.granted ≡ true
      → Step s (resume id done now s)
  cancels :
      (s : System) (id : String) (now : ℕ)
      → (contains id s.granted || contains id (ids s.gate.waiters)) ≡ true
      → Step s (cancel id now s)
  finishes :
      (s : System) (id : String) (now : ℕ) → contains id s.holding ≡ true → Step s (finish id now s)

pub data Reachable : System → Type 0 where
  at_start : Reachable start
  after : {s t : System} → Reachable s → Step s t → Reachable t
