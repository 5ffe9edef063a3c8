-- ===== src/Hub/Registry/Methods.antt =====
-- Reported outcomes and tools, `Attach` and what callers read.
use homer_cli.Base.{
  ℕ, String, Bool, false, not, ◌&&◌, ◌||◌, Option, none, some, List, [], ◌∷◌, ◌==◌, str_eq, str_leb,
  includes, if◌then◌else◌,
}
use homer_cli.Base.Dict.{lookup, put}
use homer_cli.Base.Integers.{ℤ, pos, is_below_one}
use homer_cli.Json.Keys.{is_some}
use homer_cli.Hub.Reports.{Go, HostSnapshot, Tool, clip_text, normalize_host, normalize_tools}
use homer_cli.Hub.Registry.Agents.{
  AgentDrift, AgentInfo, RegistryAgent, Registry, empty_drift, or_else, with_info, session_of,
  update, session, agent_is_stale,
}

-- The text of the error that a machine with no configuration reports.
abbrev pub no_config_text : String
no_config_text = "未找到 homer 配置"

abbrev pub reports_no_config : Option AgentDrift → Bool
reports_no_config none = false
reports_no_config (some d) = includes d.error no_config_text

abbrev pub has_conflicts : Option AgentDrift → Bool
has_conflicts none = false
has_conflicts (some d) = not (is_below_one d.conflicts)

abbrev pub resolutions_of : Option AgentDrift → ℤ
resolutions_of none = pos 0
resolutions_of (some d) = d.resolutions

-- The cached summary after a push or pull that reported `status`, `ok` and `conflicts`.
unfoldable pub drift_after : String → Bool → ℤ → Option AgentDrift → Option AgentDrift
unfolding includes is_some
drift_after status ok conflicts drift =
    if str_eq status "conflicts" || str_eq status "conflicts-remain"
    then some (record empty_drift {
      conflicts = if is_below_one conflicts then pos 1 else conflicts;
      resolutions = resolutions_of drift;
    })
    else if (str_eq status "applied"
          || str_eq status "no-drift"
          || str_eq status "resolved"
          || str_eq status "no-conflicts")
        && ok
        && (not (is_some drift) || reports_no_config drift || has_conflicts drift)
    then some empty_drift
    else drift

unfoldable pub note_write_outcome : String → String → Bool → ℤ → Registry → Registry
unfolding update drift_after
note_write_outcome id status ok conflicts r =
    update id
      (λ a. with_info (record a.info { drift = drift_after status ok conflicts a.info.drift }) a) r

-- The first tool of that ID gets the version and no error.
unfoldable pub set_tool_version : String → String → List Tool → List Tool
set_tool_version tool_id version [] = []
set_tool_version tool_id version (t ∷ tools) =
    if str_eq t.id tool_id
    then record t { version = version; error = "" } ∷ tools
    else t ∷ set_tool_version tool_id version tools

abbrev pub new_version_in : String → String → Option (List Tool) → Option (List Tool)
new_version_in tool_id version none = none
new_version_in tool_id version (some tools) = some (set_tool_version tool_id version tools)

-- A nil list of tools is kept as an empty one.
abbrev pub listed_tools : Option (List Tool) → Option (List Tool)
listed_tools none = some []
listed_tools (some tools) = some tools

-- The order of `List`
unfoldable pub insert_agent : AgentInfo → List AgentInfo → List AgentInfo
insert_agent i [] = i ∷ []
insert_agent i (j ∷ is) =
    if str_leb i.agent_id j.agent_id then i ∷ j ∷ is else j ∷ insert_agent i is

module _ ⦃go : Go⦄ where
  unfoldable pub clone_agent_info : AgentInfo → AgentInfo
  unfolding normalize_host
  clone_agent_info i = record i { host = normalize_host i.host }

  -- `info` as `Attach` stores it, beside what was known of the machine
  unfoldable pub attached : ℕ → AgentInfo → Option RegistryAgent → Option ℕ → RegistryAgent
  unfolding clone_agent_info normalize_host normalize_tools
  attached now info known session = stored known
    where
      seen : ℕ
      seen = if info.last_seen == 0 then now else info.last_seen

      stored : Option RegistryAgent → RegistryAgent
      stored none = record {
        info = clone_agent_info (record info {
          last_seen = seen;
          stale = false;
          host = normalize_host info.host;
          tools = normalize_tools info.tools;
        });
        session = session;
        reported_adapters = [];
      }
      stored (some current) = record {
        info = clone_agent_info (record info {
          last_seen = seen;
          stale = false;
          host = or_else (normalize_host info.host) current.info.host;
          tools = or_else (normalize_tools info.tools) current.info.tools;
          drift = or_else info.drift current.info.drift;
          version = if str_eq info.version "" then current.info.version else info.version;
        });
        session = session;
        reported_adapters = current.reported_adapters;
      }

  -- `Attach` at the time `now`; with it the session that it supersedes
  unfoldable pub attach : ℕ → AgentInfo → Option ℕ → Registry → Registry × Option ℕ
  unfolding attached
  attach now info session r =
      let id = go.trim_space info.agent_id in
      let known = lookup id r in
      if str_eq id ""
      then (r, none)
      else (put id (attached now (record info { agent_id = id }) known session) r, session_of known)

  unfoldable pub update_version : String → String → Registry → Registry
  unfolding update
  update_version id version r =
      let v = go.trim_space version in
      if str_eq v "" then r else update id (λ a. with_info (record a.info { version = v }) a) r

  unfoldable pub update_host : String → HostSnapshot → Registry → Registry
  unfolding update normalize_host
  update_host id host r =
      update id
        (λ a.
          with_info (record a.info { host = or_else (normalize_host (some host)) a.info.host }) a)
        r

  unfoldable pub update_tools : String → Option (List Tool) → Registry → Registry
  unfolding update normalize_tools
  update_tools id tools r =
      update id (λ a. with_info (record a.info { tools = listed_tools (normalize_tools tools) }) a)
        r

  unfoldable pub note_tool_version : String → String → String → Registry → Registry
  unfolding update clip_text set_tool_version
  note_tool_version id tool_id version r =
      let v = clip_text version 64 in
      if str_eq v ""
      then r
      else update id
          (λ a. with_info (record a.info { tools = new_version_in tool_id v a.info.tools }) a) r

  -- What a caller reads of one machine.
  unfoldable pub shown : (ℕ → Bool) → ℕ → RegistryAgent → AgentInfo
  unfolding clone_agent_info agent_is_stale
  shown done now a = record (clone_agent_info a.info) { stale = agent_is_stale done now a }

  unfoldable pub get : (ℕ → Bool) → ℕ → String → Registry → Option AgentInfo
  unfolding shown
  get done now id r = read (lookup id r)
    where
      read : Option RegistryAgent → Option AgentInfo
      read none = none
      read (some a) = some (shown done now a)

  unfoldable pub list : (ℕ → Bool) → ℕ → Registry → List AgentInfo
  unfolding shown insert_agent
  list done now [] = []
  list done now ((id, a) ∷ r) = insert_agent (shown done now a) (list done now r)
