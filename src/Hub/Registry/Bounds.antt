-- ===== src/Hub/Registry/Bounds.antt =====
-- The limits on what the registry keeps of a machine.
use homer_cli.Base.{
  ℕ, String, ◌≡◌, refl, ap, Option, none, some, List, [], ◌∷◌, arith, str_eq, contains,
  if◌then◌else◌, length, inl, inr, Bool-cases,
}
use homer_cli.Base.Dict.{lookup, lookup-put, lookup-remove}
use homer_cli.Json.Keys.{is_some}
use homer_cli.Hub.Reports.{
  Go, HostSnapshot, Tool, tool_ids, normalize_host, normalize_tools, clip_text,
}
use homer_cli.Hub.Reports.Bounds.{
  FitsHost, FitsTools, normalize_host-FitsHost, normalize_tools-FitsTools,
}
use homer_cli.Hub.Registry.{
  Registry, RegistryAgent, AgentInfo, new_registry, update, or_else, same_session, set_tool_version,
  new_version_in, listed_tools, clone_agent_info, shown, get,
}
use homer_cli.Hub.Registry
use homer_cli.Hub.Registry.History.{
  Call, attach, detach, remove, touch, version, drift, resolutions, host, tools, outcome, adapters,
  tool_version, perform, run_all, mapped, lookup-update,
}

abbrev pub FitsInfo : AgentInfo → Type 0
FitsInfo i = FitsHost i.host × FitsTools i.tools

abbrev pub FitsAgent : Option RegistryAgent → Type 0
FitsAgent none = Unit
FitsAgent (some a) = FitsInfo a.info

abbrev pub Fits : Registry → Type 0
Fits r = (j : String) → FitsAgent (lookup j r)

update-Fits :
    (id : String) (f : RegistryAgent → RegistryAgent) (r : Registry)
    → ((a : RegistryAgent) → FitsInfo a.info → FitsInfo (f a).info)
    → Fits r
    → Fits (update id f r)
unfolding mapped
update-Fits id f r keeps h j = rw lookup-update (choice (lookup j r) (h j))
  where
    choice :
        (o : Option RegistryAgent) → FitsAgent o → FitsAgent (if str_eq id j then mapped f o else o)
    choice none g = elim (Bool-cases (str_eq id j)) [ inl e ↦ rw e tt | inr e ↦ rw e tt ]
    choice (some a) g = elim (Bool-cases (str_eq id j)) [
      | inl e ↦ rw e (keeps a g)
      | inr e ↦ rw e g
    ]

tool_ids-set_tool_version :
    (t v : String) (ts : List Tool) → tool_ids (set_tool_version t v ts) ≡ tool_ids ts
unfolding set_tool_version tool_ids
tool_ids-set_tool_version t v [] = refl
tool_ids-set_tool_version t v (x ∷ ts) = elim (Bool-cases (str_eq x.id t)) [
  | inl e ↦ rw (set_tool_version, e) refl
  | inr e ↦ rw (set_tool_version, e) (ap (λ ids. x.id ∷ ids) (tool_ids-set_tool_version t v ts))
]

length-set_tool_version :
    (t v : String) (ts : List Tool) → length (set_tool_version t v ts) ≡ length ts
unfolding set_tool_version
length-set_tool_version t v [] = refl
length-set_tool_version t v (x ∷ ts) = ground (arith, length-set_tool_version t v ts)

new_version_in-FitsTools :
    (t v : String) (ts : Option (List Tool)) → FitsTools ts → FitsTools (new_version_in t v ts)
unfolding FitsTools
new_version_in-FitsTools t v none h = tt
new_version_in-FitsTools t v (some ts) h = rw (tool_ids-set_tool_version, length-set_tool_version) h

listed_tools-FitsTools : (ts : Option (List Tool)) → FitsTools ts → FitsTools (listed_tools ts)
unfolding FitsTools tool_ids contains
listed_tools-FitsTools none h = (omega arith, tt, refl)
listed_tools-FitsTools (some ts) h = h

or_else-FitsTools : (a b : Option (List Tool)) → FitsTools a → FitsTools b → FitsTools (or_else a b)
or_else-FitsTools none b h k = k
or_else-FitsTools (some x) b h k = h

module _ ⦃go : Go⦄ where
  or_else-FitsHost : (a b : Option HostSnapshot) → FitsHost a → FitsHost b → FitsHost (or_else a b)
  or_else-FitsHost none b h k = k
  or_else-FitsHost (some x) b h k = h

  attached-FitsInfo :
      (now : ℕ) (info : AgentInfo) (known : Option RegistryAgent) (s : Option ℕ)
      → FitsAgent known
      → FitsInfo (Registry.attached now info known s).info
  unfolding Registry.attached clone_agent_info
  attached-FitsInfo now info none s h =
      (normalize_host-FitsHost _, normalize_tools-FitsTools info.tools)
  attached-FitsInfo now info (some a) s h = (
    normalize_host-FitsHost _,
    or_else-FitsTools (normalize_tools info.tools) a.info.tools
        (normalize_tools-FitsTools info.tools) h.1,
  )

  attach-Fits :
      (now : ℕ) (info : AgentInfo) (s : Option ℕ) (r : Registry)
      → Fits r
      → Fits (Registry.attach now info s r).0
  unfolding Registry.attach
  attach-Fits now info s r h j =
      let id = go.trim_space info.agent_id in
      elim (Bool-cases (str_eq id "")) [
        | inl e ↦ rw (Registry.attach, e) (h j)
        | inr e ↦
            rw (Registry.attach, e, lookup-put)
              (elim (Bool-cases (str_eq id j)) [
                | inl f ↦
                    rw f
                      (attached-FitsInfo now (record info { agent_id = id }) (lookup id r) s (h id))
                | inr f ↦ rw f (h j)
              ])
      ]

  detach-Fits : (id : String) (s : ℕ) (r : Registry) → Fits r → Fits (Registry.detach id s r)
  unfolding Registry.detach
  detach-Fits id s r =
      update-Fits id _ r
        λ a k. elim (Bool-cases (same_session a.session s)) [ inl e ↦ rw e k | inr e ↦ rw e k ]

  remove-Fits : (id : String) (r : Registry) → Fits r → Fits (Registry.remove_agent id r).0
  unfolding Registry.remove_agent
  remove-Fits id r h j = elim (Bool-cases (is_some (lookup id r))) [
    | inl e ↦
        rw (Registry.remove_agent, e, lookup-remove)
          (elim (Bool-cases (str_eq id j)) [ inl f ↦ rw f tt | inr f ↦ rw f (h j) ])
    | inr e ↦ rw (Registry.remove_agent, e) (h j)
  ]

  perform-Fits : (c : Call) (r : Registry) → Fits r → Fits (perform c r)
  unfolding perform Registry.touch Registry.update_version Registry.update_drift
      Registry.note_resolutions Registry.update_host Registry.update_tools
      Registry.note_write_outcome Registry.note_reported_adapters Registry.note_tool_version
  perform-Fits (attach now info s) r h = attach-Fits now info s r h
  perform-Fits (detach id s) r h = detach-Fits id s r h
  perform-Fits (remove id) r h = remove-Fits id r h
  perform-Fits (touch now id) r h = update-Fits id _ r (λ a k. k) h
  perform-Fits (version id v) r h = elim (Bool-cases (str_eq (go.trim_space v) "")) [
    | inl e ↦ rw (Registry.update_version, e) h
    | inr e ↦ rw (Registry.update_version, e) (update-Fits id _ r (λ a k. k) h)
  ]
  perform-Fits (drift id d) r h = update-Fits id _ r (λ a k. k) h
  perform-Fits (resolutions id n) r h = update-Fits id _ r (λ a k. k) h
  perform-Fits (host id x) r h =
      update-Fits id _ r
        (λ a k. (
          or_else-FitsHost (normalize_host (some x)) a.info.host (normalize_host-FitsHost (some x))
              k.0,
          k.1,
        ))
        h
  perform-Fits (tools id ts) r h =
      update-Fits id _ r
        (λ a k. (k.0, listed_tools-FitsTools (normalize_tools ts) (normalize_tools-FitsTools ts))) h
  perform-Fits (outcome id status ok n) r h = update-Fits id _ r (λ a k. k) h
  perform-Fits (adapters id ids) r h = update-Fits id _ r (λ a k. k) h
  perform-Fits (tool_version id t v) r h = elim (Bool-cases (str_eq (clip_text v 64) "")) [
    | inl e ↦ rw (Registry.note_tool_version, e) h
    | inr e ↦
        rw (Registry.note_tool_version, e)
          (update-Fits id _ r
            (λ a k. (k.0, new_version_in-FitsTools t (clip_text v 64) a.info.tools k.1)) h)
  ]

  run_all-Fits : (cs : List Call) (r : Registry) → Fits r → Fits (run_all cs r)
  unfolding run_all
  run_all-Fits [] r h = h
  run_all-Fits (c ∷ cs) r h = run_all-Fits cs (perform c r) (perform-Fits c r h)

  -- For every sequence of calls on a new registry, whatever the machines report: what the registry
  -- stores of a machine has at most 6 disks and at most 12 interfaces with at most 8 addresses each,
  -- no disk and no interface without a name, memory, swap and disks with more than 0 bytes in all and
  -- no more used than that, and at most 16 tools with distinct IDs that are not empty.
  pub run_all-FitsAgent :
      (cs : List Call) (id : String) → FitsAgent (lookup id (run_all cs new_registry))
  unfolding lookup
  run_all-FitsAgent cs = run_all-Fits cs new_registry λ j. tt
