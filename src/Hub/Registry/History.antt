-- ===== src/Hub/Registry/History.antt =====
-- Any sequence of calls of the registry, and which session each machine has after it.
use homer_cli.Base.{
  ℕ, String, ◌≡◌, refl, ◌∙◌, ap, Bool, ◌&&◌, Option, none, some, List, [], ◌∷◌, arith, str_eq,
  str_eq_iff, if◌then◌else◌, inl, inr, Bool-cases, Option-cases,
}
use homer_cli.Base.Dict.{lookup, lookup-put, lookup-remove}
use homer_cli.Base.Integers.{ℤ}
use homer_cli.Json.Keys.{is_some}
use homer_cli.Hub.Reports.{Go, HostSnapshot, Tool, clip_text}
use homer_cli.Hub.Registry.{
  Registry, RegistryAgent, AgentInfo, AgentDrift, new_registry, same_session, session_of,
  session_done, update,
}
use homer_cli.Hub.Registry

-- A call that changes the registry, with the time at which it runs where it reads the clock.
pub data Call : Type 0 where
  attach : ℕ → AgentInfo → Option ℕ → Call
  detach : String → ℕ → Call
  remove : String → Call
  touch : ℕ → String → Call
  version : String → String → Call
  drift : String → AgentDrift → Call
  resolutions : String → ℤ → Call
  host : String → HostSnapshot → Call
  tools : String → Option (List Tool) → Call
  outcome : String → String → Bool → ℤ → Call
  adapters : String → List String → Call
  tool_version : String → String → String → Call

unfoldable pub mapped {ℓ κ} : {A : Type ℓ} {B : Type κ} → (A → B) → Option A → Option B
mapped f none = none
mapped f (some a) = some (f a)

pub lookup-update :
    (id j : String) (f : RegistryAgent → RegistryAgent) (r : Registry)
    → lookup j (update id f r) ≡ (if str_eq id j then mapped f (lookup j r) else lookup j r)
unfolding update mapped
lookup-update id j f r = elim (Option-cases (lookup id r)) [
  | inl e ↦ rw (update, e) (ground (arith, str_eq_iff id j, e))
  | inr (a, e) ↦ rw (update, e, lookup-put) (ground (arith, str_eq_iff id j, e))
]

session_of-update :
    (id j : String) (f : RegistryAgent → RegistryAgent) (r : Registry)
    → ((a : RegistryAgent) → (f a).session ≡ a.session)
    → session_of (lookup j (update id f r)) ≡ session_of (lookup j r)
unfolding mapped
session_of-update id j f r keeps = elim (Option-cases (lookup j r)) [
  | inl e ↦ rw (lookup-update, e) (choice none refl)
  | inr (a, e) ↦ rw (lookup-update, e) (choice (some a) (keeps a))
]
  where
    choice :
        (o : Option RegistryAgent)
        → session_of (mapped f o) ≡ session_of o
        → session_of (if str_eq id j then mapped f o else o) ≡ session_of o
    choice o h = elim (Bool-cases (str_eq id j)) [ inl e ↦ rw e h | inr e ↦ rw e refl ]

module _ ⦃go : Go⦄ where
  unfoldable pub perform : Call → Registry → Registry
  unfolding Registry.attach Registry.detach Registry.remove_agent Registry.touch
      Registry.update_version Registry.update_drift Registry.note_resolutions Registry.update_host
      Registry.update_tools Registry.note_write_outcome Registry.note_reported_adapters
      Registry.note_tool_version
  perform (attach now info s) r = (Registry.attach now info s r).0
  perform (detach id s) r = Registry.detach id s r
  perform (remove id) r = (Registry.remove_agent id r).0
  perform (touch now id) r = Registry.touch now id r
  perform (version id v) r = Registry.update_version id v r
  perform (drift id d) r = Registry.update_drift id d r
  perform (resolutions id n) r = Registry.note_resolutions id n r
  perform (host id h) r = Registry.update_host id h r
  perform (tools id ts) r = Registry.update_tools id ts r
  perform (outcome id status ok n) r = Registry.note_write_outcome id status ok n r
  perform (adapters id ids) r = Registry.note_reported_adapters id ids r
  perform (tool_version id t v) r = Registry.note_tool_version id t v r

  unfoldable pub run_all : List Call → Registry → Registry
  unfolding perform
  run_all [] r = r
  run_all (c ∷ cs) r = run_all cs (perform c r)

  -- The specification: which session is bound to each machine.
  unfoldable pub bind : Call → (String → Option ℕ) → String → Option ℕ
  bind (attach now info s) bound j =
      let id = go.trim_space info.agent_id in
      if str_eq id "" then bound j else if str_eq id j then s else bound j
  bind (detach id s) bound j = if str_eq id j && same_session (bound j) s then none else bound j
  bind (remove id) bound j = if str_eq id j then none else bound j
  bind _ bound j = bound j

  unfoldable pub replay : List Call → (String → Option ℕ) → String → Option ℕ
  unfolding bind
  replay [] bound = bound
  replay (c ∷ cs) bound = replay cs (bind c bound)

  attached-session :
      (now : ℕ) (info : AgentInfo) (known : Option RegistryAgent) (s : Option ℕ)
      → (Registry.attached now info known s).session ≡ s
  unfolding Registry.attached
  attached-session now info none s = refl
  attached-session now info (some a) s = refl

  attach-bind :
      (now : ℕ) (info : AgentInfo) (s : Option ℕ) (r : Registry) (j : String)
      → session_of (lookup j (Registry.attach now info s r).0)
        ≡ bind (attach now info s) (λ k. session_of (lookup k r)) j
  unfolding Registry.attach bind
  attach-bind now info s r j =
      let id = go.trim_space info.agent_id in
      elim (Bool-cases (str_eq id "")) [
        | inl e ↦ rw (Registry.attach, e) refl
        | inr e ↦
            rw (Registry.attach, e, lookup-put)
              (elim (Bool-cases (str_eq id j)) [
                | inl f ↦
                    rw f (attached-session now (record info { agent_id = id }) (lookup id r) s)
                | inr f ↦ rw f refl
              ])
      ]

  detach-bind :
      (id : String) (s : ℕ) (r : Registry) (j : String)
      → session_of (lookup j (Registry.detach id s r))
        ≡ bind (detach id s) (λ k. session_of (lookup k r)) j
  unfolding Registry.detach bind mapped
  detach-bind id s r j = elim (Option-cases (lookup j r)) [
    | inl e ↦ rw (lookup-update, e) (ground arith)
    | inr (a, e) ↦
        rw (lookup-update, e)
          (elim (Bool-cases (str_eq id j)) [
            | inl f ↦ rw f (elim (Bool-cases (same_session a.session s)) [
              | inl g ↦ rw g refl
              | inr g ↦ rw g refl
            ])
            | inr f ↦ rw f refl
          ])
  ]

  remove-bind :
      (id : String) (r : Registry) (j : String)
      → session_of (lookup j (Registry.remove_agent id r).0)
        ≡ bind (remove id) (λ k. session_of (lookup k r)) j
  unfolding Registry.remove_agent bind is_some
  remove-bind id r j = elim (Option-cases (lookup id r)) [
    | inl e ↦ rw (Registry.remove_agent, e) (ground (arith, str_eq_iff id j, e))
    | inr (a, e) ↦ rw (Registry.remove_agent, e, lookup-remove) (ground (arith, str_eq_iff id j))
  ]

  perform-bind :
      (c : Call) (r : Registry) (j : String)
      → session_of (lookup j (perform c r)) ≡ bind c (λ k. session_of (lookup k r)) j
  unfolding perform bind Registry.touch Registry.update_version Registry.update_drift
      Registry.note_resolutions Registry.update_host Registry.update_tools
      Registry.note_write_outcome Registry.note_reported_adapters Registry.note_tool_version
  perform-bind (attach now info s) r j = attach-bind now info s r j
  perform-bind (detach id s) r j = detach-bind id s r j
  perform-bind (remove id) r j = remove-bind id r j
  perform-bind (touch now id) r j = session_of-update id j _ r λ a. refl
  perform-bind (version id v) r j = elim (Bool-cases (str_eq (go.trim_space v) "")) [
    | inl e ↦ rw (Registry.update_version, e) refl
    | inr e ↦ rw (Registry.update_version, e) (session_of-update id j _ r λ a. refl)
  ]
  perform-bind (drift id d) r j = session_of-update id j _ r λ a. refl
  perform-bind (resolutions id n) r j = session_of-update id j _ r λ a. refl
  perform-bind (host id h) r j = session_of-update id j _ r λ a. refl
  perform-bind (tools id ts) r j = session_of-update id j _ r λ a. refl
  perform-bind (outcome id status ok n) r j = session_of-update id j _ r λ a. refl
  perform-bind (adapters id ids) r j = session_of-update id j _ r λ a. refl
  perform-bind (tool_version id t v) r j = elim (Bool-cases (str_eq (clip_text v 64) "")) [
    | inl e ↦ rw (Registry.note_tool_version, e) refl
    | inr e ↦ rw (Registry.note_tool_version, e) (session_of-update id j _ r λ a. refl)
  ]

  run_all-replay :
      (cs : List Call) (r : Registry) (j : String)
      → session_of (lookup j (run_all cs r)) ≡ replay cs (λ k. session_of (lookup k r)) j
  unfolding run_all replay
  run_all-replay [] r j = refl
  run_all-replay (c ∷ cs) r j =
      run_all-replay cs (perform c r) j
      ∙ ap (λ bound. replay cs bound j) (λ i k. perform-bind c r k i)

  -- For every sequence of calls on a new registry, whatever sessions have ended: the session of each
  -- machine is the one that the specification binds to it, unless that one has ended, and then there
  -- is none. An attach to a machine whose trimmed ID is not empty returns the session that the
  -- specification binds to it, and any other attach returns none.
  pub session-replay :
      (done : ℕ → Bool) (cs : List Call) (id : String) (now : ℕ) (info : AgentInfo) (s : Option ℕ)
      → (Registry.session done id (run_all cs new_registry) ≡ (
          if session_done done (replay cs (λ k. none) id) then none else replay cs (λ k. none) id))
        × ((Registry.attach now info s (run_all cs new_registry)).1 ≡ (
            if str_eq (go.trim_space info.agent_id) ""
            then none
            else replay cs (λ k. none) (go.trim_space info.agent_id)))
  unfolding Registry.session Registry.attach lookup
  session-replay done cs id now info s = (
    rw (run_all-replay cs new_registry id) refl,
    elim (Bool-cases (str_eq (go.trim_space info.agent_id) "")) [
      | inl e ↦ rw e refl
      | inr e ↦ rw e (run_all-replay cs new_registry (go.trim_space info.agent_id))
    ],
  )
