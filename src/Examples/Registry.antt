-- ===== src/Examples/Registry.antt =====
-- A hub that two machines join.
use homer_cli.Base.{String, ◌≡◌, true, false, none, some, List, [], ◌∷◌, ltb, ◌/◌, ◌*◌}
use homer_cli.Base.Dict.{lookup}
use homer_cli.Hub.Reports.{Go, Tool}
use homer_cli.Hub.Registry.{AgentInfo, new_registry}
use homer_cli.Hub.Registry
use homer_cli.Hub.Registry.History.{Call, attach, detach, tools, run_all, replay, session-replay}
use homer_cli.Hub.Registry.Bounds.{FitsAgent, run_all-FitsAgent}

instance plain_go : Go
plain_go = record {
  trim_space = λ s. s;
  less = ltb;
  times = λ a b. a * b;
  over = λ a b. a / b;
  round = λ a. a;
}

abbrev machine : String → AgentInfo
machine id = record {
  agent_id = id;
  hostname = "box";
  last_seen = 5;
  version = "1.0";
  stale = false;
  drift = none;
  host = none;
  tools = none;
  caps = [];
}

abbrev tool : Tool
tool = record {
  id = "pi";
  adapter = "pi";
  label = "Pi";
  version = "1";
  error = "";
  upgradable = true;
}

-- The machine connects again before the hub sees its first connection end.
abbrev overlapping : List Call
overlapping =
    attach 10 (machine "laptop") (some 1)
    ∷ attach 11 (machine "laptop") (some 2)
    ∷ detach "laptop" 1
    ∷ tools "laptop" (some (tool ∷ tool ∷ []))
    ∷ []

session-replay_example :
    (Registry.session (λ s. false) "laptop" (run_all overlapping new_registry) ≡ some 2)
    × ((Registry.attach 12 (machine "laptop") (some 3) (run_all overlapping new_registry)).1
        ≡ some 2)
unfolding replay Registry.session_done plain_go
session-replay_example =
    session-replay (λ s. false) overlapping "laptop" 12 (machine "laptop") (some 3)

run_all-FitsAgent_example : FitsAgent (lookup "laptop" (run_all overlapping new_registry))
run_all-FitsAgent_example = run_all-FitsAgent overlapping "laptop"
