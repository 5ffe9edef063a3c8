-- ===== src/Hub/Registry/Agents.antt =====
-- The registry and the calls that need no normalisation.
use homer_cli.Base.{
  ℕ, ◌-◌, String, Bool, true, false, ◌||◌, Option, none, some, List, [], leb, ◌==◌, if◌then◌else◌,
}
use homer_cli.Base.Dict.{Dict, lookup, put, remove}
use homer_cli.Base.Integers.{ℤ, pos}
use homer_cli.Json.Keys.{is_some}
use homer_cli.Hub.Reports.{HostSnapshot, Tool}

pub record AdapterDrift : Type 0 where
  pub id : String
  pub push : ℤ
  pub pull : ℤ
  pub conflicts : ℤ

-- A nil `Adapters` reads as an empty one.
pub record AgentDrift : Type 0 where
  pub push : ℤ
  pub pull : ℤ
  pub conflicts : ℤ
  pub error : String
  pub resolutions : ℤ
  pub adapters : List AdapterDrift

pub record AgentInfo : Type 0 where
  pub agent_id : String
  pub hostname : String
  pub last_seen : ℕ
  pub version : String
  pub stale : Bool
  pub drift : Option AgentDrift
  pub host : Option HostSnapshot
  pub tools : Option (List Tool)
  pub caps : List String

-- `registryAgent`
pub record RegistryAgent : Type 0 where
  pub info : AgentInfo
  pub session : Option ℕ
  pub reported_adapters : List String

abbrev pub Registry : Type 0
Registry = Dict RegistryAgent

abbrev pub new_registry : Registry
new_registry = []

abbrev pub agent_stale_after : ℕ
agent_stale_after = 90000000000

abbrev pub empty_drift : AgentDrift
empty_drift = record {
  push = pos 0;
  pull = pos 0;
  conflicts = pos 0;
  error = "";
  resolutions = pos 0;
  adapters = [];
}

abbrev pub or_else {ℓ} : {A : Type ℓ} → Option A → Option A → Option A
or_else none b = b
or_else (some a) b = some a

-- agent.session == sess
abbrev pub same_session : Option ℕ → ℕ → Bool
same_session none n = false
same_session (some m) n = m == n

abbrev pub with_info : AgentInfo → RegistryAgent → RegistryAgent
with_info i a = record a { info = i }

abbrev pub session_of : Option RegistryAgent → Option ℕ
session_of none = none
session_of (some a) = a.session

-- `r.agents[id] = f(agent)` where the agent is known, and nothing where it is not.
unfoldable pub update : String → (RegistryAgent → RegistryAgent) → Registry → Registry
update id f r = change (lookup id r)
  where
    change : Option RegistryAgent → Registry
    change none = r
    change (some a) = put id (f a) r

unfoldable pub detach : String → ℕ → Registry → Registry
unfolding update
detach id session r =
    update id (λ a. if same_session a.session session then record a { session = none } else a) r

-- `Remove`
unfoldable pub remove_agent : String → Registry → Registry × Bool
unfolding is_some
remove_agent id r = if is_some (lookup id r) then (remove id r, true) else (r, false)

unfoldable pub note_resolutions : String → ℤ → Registry → Registry
unfolding update
note_resolutions id pending r =
    update id (λ a. with_info (record a.info { drift = noted a.info.drift }) a) r
  where
    noted : Option AgentDrift → Option AgentDrift
    noted none = none
    noted (some d) = some (record d { resolutions = pending })

unfoldable pub update_drift : String → AgentDrift → Registry → Registry
unfolding update
update_drift id d r = update id (λ a. with_info (record a.info { drift = some d }) a) r

unfoldable pub note_reported_adapters : String → List String → Registry → Registry
unfolding update
note_reported_adapters id ids r = update id (λ a. record a { reported_adapters = ids }) r

-- `Touch`, at the time `now`
unfoldable pub touch : ℕ → String → Registry → Registry
unfolding update
touch now id r = update id (λ a. with_info (record a.info { last_seen = now }) a) r

unfoldable pub session_done : (ℕ → Bool) → Option ℕ → Bool
session_done done none = true
session_done done (some s) = done s

unfoldable pub session : (ℕ → Bool) → String → Registry → Option ℕ
unfolding session_done
session done id r = let s = session_of (lookup id r) in if session_done done s then none else s

unfoldable pub agent_is_stale : (ℕ → Bool) → ℕ → RegistryAgent → Bool
unfolding session_done
agent_is_stale done now a =
    session_done done a.session || leb agent_stale_after (now - a.info.last_seen)
