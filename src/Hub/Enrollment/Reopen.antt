-- ===== src/Hub/Enrollment/Reopen.antt =====
-- What a hub knows after a restart.
use homer_cli.Base.{
  ◌≡◌, refl, String, true, false, inl, inr, Bool-cases, Option, none, some, List, [], ◌∷◌, length,
  ==_iff, str_eq, arith,
}
use homer_cli.Base.Dict.{Dict, lookup, put, remove, lookup-put}
use homer_cli.Hub.Enrollment.{
  Codec, IsCodec, Bytes, Manager, Enrolled, ReadResult, missing, content, is_bound, is_true,
  has_secret, is_confirmed, verify_secret, with_binding, save, hex_all, load, load_agents,
  open_enrollment, Call, minting, redeeming, enrolling, binding, confirming, revoking, apply, run,
}
use homer_cli.Hub.Enrollment.Outcome.{
  Outcome, nothing, burnt, bound, redeem_and_bind-Outcome, parts-bind_agent, parts-revoke,
  parts-mark_confirmed, parts-redeem, parts-mint, ignored, acts_on,
}

-- What the next start finds at the path.
abbrev pub as_read : Option (Dict String) → ReadResult
as_read none = missing
as_read (some agents) = content agents

module _ ⦃c : Codec⦄ where
  -- Every entry has a name and the digest of a secret.
  abbrev pub IsStored : Dict Bytes → Type 0
  IsStored [] = Unit {0}
  IsStored ((agent, sum) ∷ secrets) =
      (str_eq agent "" ≡ false) × ((key : String) × (sum ≡ c.digest key)) × IsStored secrets

  IsStored-put :
      (agent key : String) (secrets : Dict Bytes)
      → str_eq agent "" ≡ false
      → IsStored secrets
      → IsStored (put agent (c.digest key) secrets)
  unfolding put
  IsStored-put agent key [] n s = (n, (key, refl), tt)
  IsStored-put agent key ((j, sum) ∷ secrets) n (named, known, rest) =
      elim (Bool-cases (str_eq j agent)) [
        | inl e ↦ rw e (named, (key, refl), rest)
        | inr e ↦ rw e (named, known, IsStored-put agent key secrets n rest)
      ]

  IsStored-remove :
      (agent : String) (secrets : Dict Bytes) → IsStored secrets → IsStored (remove agent secrets)
  unfolding remove
  IsStored-remove agent [] s = s
  IsStored-remove agent ((j, sum) ∷ secrets) (named, known, rest) =
      elim (Bool-cases (str_eq j agent)) [
        | inl e ↦ rw e (IsStored-remove agent secrets rest)
        | inr e ↦ rw e (named, known, IsStored-remove agent secrets rest)
      ]

  enroll-IsStored :
      (agent code : String) (m : Manager) (p : Manager × Enrolled)
      → Outcome agent code m p
      → IsStored m.secrets
      → IsStored p.0.secrets
  enroll-IsStored agent code m p (nothing answer g) s = s
  enroll-IsStored agent code m p (burnt answer g known) s = s
  enroll-IsStored agent code m p (bound m' random named free known codes secrets confirmed) s =
      rw secrets (IsStored-put agent (c.hex random) m.secrets named s)

  apply-IsStored :
      (call : Call) (m : Manager) → IsStored m.secrets → IsStored (apply call m).secrets
  unfolding apply
  apply-IsStored (minting ttl now random) m s = rw (parts-mint ttl now random m).0 s
  apply-IsStored (redeeming code now random) m s = rw (parts-redeem code now random m).0 s
  apply-IsStored (enrolling agent code now random disk) m s =
      enroll-IsStored agent code m _ (redeem_and_bind-Outcome agent code now random disk m) s
  apply-IsStored (binding agent key disk) m s =
      let (u, e, t) = parts-bind_agent agent key disk m in
      elim (Bool-cases (ignored agent key)) [
        | inl h ↦ rw (e, h) s
        | inr h ↦ rw (e, h) (IsStored-put agent key m.secrets (ground arith) s)
      ]
  apply-IsStored (confirming agent) m s = let (u, e, t) = parts-mark_confirmed agent m in rw e s
  apply-IsStored (revoking agent disk) m s =
      let (u, e, t) = parts-revoke agent disk m in
      elim (Bool-cases (acts_on agent m)) [
        | inl h ↦ rw (e, h) (IsStored-remove agent m.secrets s)
        | inr h ↦ rw (e, h) s
      ]

  -- If every entry of the secrets is a named machine with the digest of a secret, this is so after
  -- any calls.
  pub run-IsStored :
      (calls : List Call) (m : Manager) → IsStored m.secrets → IsStored (run calls m).secrets
  unfolding run
  run-IsStored [] m s = s
  run-IsStored (call ∷ calls) m s = run-IsStored calls (apply call m) (apply-IsStored call m s)

  -- The manager that `load_agents` gives knows these secrets, all confirmed.
  abbrev Knows : Dict Bytes → Manager → Type 0
  Knows secrets o =
      (j : String)
      → (lookup j o.secrets ≡ lookup j secrets)
        × (is_true (lookup j o.confirmed) ≡ is_bound (lookup j secrets))

  load_agents-hex_all :
      IsCodec c
      → (secrets : Dict Bytes) (m : Manager) → m.secrets ≡ []
      → m.confirmed ≡ []
      → IsStored secrets
      → (o : Manager) × (load_agents (hex_all secrets) m ≡ some o) × Knows secrets o
  unfolding load_agents lookup
  load_agents-hex_all laws [] m e f s = (m, refl, λ j. rw (e, f) (refl, refl))
  load_agents-hex_all laws ((agent, sum) ∷ secrets) m e f (named, (key, is), rest) =
      let (o, loaded, knows) = load_agents-hex_all laws secrets m e f rest in
      let size = (==_iff (length (c.digest key)) 32).1 (laws.digest_size key) in
      (
        with_binding (put agent sum o.secrets) (put agent true o.confirmed) o,
        rw (loaded, is, laws.unhex-hex key, size, named) refl,
        λ j. elim (Bool-cases (str_eq agent j)) [
          | inl same ↦
              rw (lookup-put agent j sum o.secrets, lookup-put agent j true o.confirmed, same)
                (refl, refl)
          | inr other ↦
              rw (lookup-put agent j sum o.secrets, lookup-put agent j true o.confirmed, other)
                (knows j)
        ],
      )

  -- For a codec that meets its laws, a home and a path that are not empty, and named machines with
  -- digests of secrets: a hub that saved its secrets and starts again accepts exactly the secrets
  -- that it accepted before, and takes every machine that has one as confirmed; the file is not
  -- refused.
  pub saved_and_reopened :
      IsCodec c
      → (home agent key : String) (m : Manager) → str_eq home "" ≡ false
      → str_eq m.path "" ≡ false
      → IsStored m.secrets
      → (o : Manager) × (open_enrollment home m.path true (as_read (save true m).file) ≡ some o)
        × (verify_secret agent key o ≡ verify_secret agent key m)
        × (is_confirmed agent o ≡ has_secret agent m)
  unfolding open_enrollment save load verify_secret is_confirmed has_secret
  saved_and_reopened laws home agent key m h p s =
      let agents = hex_all m.secrets in
      let opened : Manager = record {
        path = m.path;
        codes = [];
        secrets = [];
        confirmed = [];
        file = some agents;
      } in
      let (o, loaded, knows) = load_agents-hex_all laws m.secrets opened refl refl s in
      (o, rw (h, p) loaded, rw (knows agent).0 refl, rw (knows agent).1 refl)
