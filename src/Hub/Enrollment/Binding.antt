-- ===== src/Hub/Enrollment/Binding.antt =====
-- Who holds a secret: enrollment, confirmation and revocation.
use homer_cli.Base.{
  ℕ, ◌≡◌, refl, sym, ap, String, Bool, true, false, ◌&&◌, ◌||◌, inl, inr, Bool-cases, Option-cases,
  Option, some, List, [], ◌∷◌, str_eq, str_eq_iff, str_eq_refl, arith, if◌then◌else◌,
}
use homer_cli.Base.Dict.{lookup, lookup-put, lookup-remove}
use homer_cli.Hub.Enrollment.{
  Codec, Manager, Bytes, Enrolled, enrolled, is_bound, is_true, has_secret, is_confirmed, bytes_eq,
  verify_secret, redeem_and_bind, revoke, Call, minting, redeeming, enrolling, binding, confirming,
  revoking, apply, run,
}
use homer_cli.Hub.Enrollment.Outcome.{
  Outcome, nothing, burnt, bound, redeem_and_bind-Outcome, gave_binding, parts-bind_agent,
  parts-revoke, parts-mark_confirmed, parts-redeem, parts-mint, ignored, acts_on,
}

bytes_eq_refl : (b : Bytes) → bytes_eq b b ≡ true
bytes_eq_refl [] = refl
bytes_eq_refl (x ∷ xs) = ground (arith, bytes_eq_refl xs)

-- Some call binds the agent by hand or revokes it.
unfoldable pub rebinds : String → Call → Bool
rebinds agent (binding j key disk) = str_eq j agent
rebinds agent (revoking j disk) = str_eq j agent
rebinds agent _ = false

unfoldable pub rebinds_any : String → List Call → Bool
unfolding rebinds
rebinds_any agent [] = false
rebinds_any agent (call ∷ calls) = rebinds agent call || rebinds_any agent calls

-- The machine has this digest, and is confirmed.
abbrev Holds : String → Bytes → Manager → Type 0
Holds agent sum m = (lookup agent m.secrets ≡ some sum) × (lookup agent m.confirmed ≡ some true)

module _ ⦃c : Codec⦄ where
  taken :
      (j agent : String) (sum : Bytes) (m : Manager)
      → j ≡ agent
      → Holds agent sum m
      → (is_bound (lookup j m.secrets) && is_true (lookup j m.confirmed)) ≡ true
  taken j agent sum m e (h, k) = rw e (rw (h, k) refl)

  enroll-Holds :
      (j agent code : String) (sum : Bytes) (m : Manager) (p : Manager × Enrolled)
      → Outcome j code m p
      → Holds agent sum m
      → Holds agent sum p.0
  enroll-Holds j agent code sum m p (nothing answer e) h = h
  enroll-Holds j agent code sum m p (burnt answer e known) h = h
  enroll-Holds j agent code sum m p (bound m' random named free known codes secrets confirmed)
        (h, k) =
      elim (Bool-cases (str_eq j agent)) [
        | inl same ↦ ground (arith, free, taken j agent sum m ((str_eq_iff j agent).0 same) (h, k))
        | inr other ↦
            rw
              (
                secrets,
                confirmed,
                lookup-put j agent (c.digest (c.hex random)) m.secrets,
                lookup-remove j agent m.confirmed,
                other,
              )
              (h, k)
      ]

  apply-Holds :
      (call : Call) (agent : String) (sum : Bytes) (m : Manager)
      → rebinds agent call ≡ false
      → Holds agent sum m
      → Holds agent sum (apply call m)
  unfolding apply rebinds
  apply-Holds (minting ttl now random) agent sum m r h =
      let (s, t) = parts-mint ttl now random m in rw (s, t) h
  apply-Holds (redeeming code now random) agent sum m r h =
      let (s, t) = parts-redeem code now random m in rw (s, t) h
  apply-Holds (enrolling j code now random disk) agent sum m r h =
      enroll-Holds j agent code sum m _ (redeem_and_bind-Outcome j code now random disk m) h
  apply-Holds (binding j key disk) agent sum m r (h, k) =
      let (u, s, t) = parts-bind_agent j key disk m in
      elim (Bool-cases (ignored j key)) [
        | inl e ↦ rw (s, t, e) (h, k)
        | inr e ↦
            rw
              (
                s,
                t,
                e,
                lookup-put j agent (c.digest key) m.secrets,
                lookup-put j agent true m.confirmed,
                r,
              )
              (h, k)
      ]
  apply-Holds (confirming j) agent sum m r (h, k) =
      let (u, s, t) = parts-mark_confirmed j m in
      elim (Bool-cases (acts_on j m)) [
        | inl e ↦ rw (s, t, e, lookup-put j agent true m.confirmed) (h, ground (arith, k))
        | inr e ↦ rw (s, t, e) (h, k)
      ]
  apply-Holds (revoking j disk) agent sum m r (h, k) =
      let (u, s, t) = parts-revoke j disk m in
      elim (Bool-cases (acts_on j m)) [
        | inl e ↦
            rw (s, t, e, lookup-remove j agent m.secrets, lookup-remove j agent m.confirmed, r)
              (h, k)
        | inr e ↦ rw (s, t, e) (h, k)
      ]

  run-Holds :
      (calls : List Call) (agent : String) (sum : Bytes) (m : Manager)
      → rebinds_any agent calls ≡ false
      → Holds agent sum m
      → Holds agent sum (run calls m)
  unfolding run rebinds_any
  run-Holds [] agent sum m r h = h
  run-Holds (call ∷ calls) agent sum m r h =
      run-Holds calls agent sum (apply call m) (ground arith)
        (apply-Holds call agent sum m (ground arith) h)

  held_digest :
      (agent : String) (m : Manager)
      → has_secret agent m ≡ true
      → is_confirmed agent m ≡ true
      → (sum : Bytes) × Holds agent sum m
  unfolding has_secret is_confirmed
  held_digest agent m h k = elim (Option-cases (lookup agent m.secrets)) [
    | inl none_there ↦ ground (arith, h, none_there)
    | inr (sum, there) ↦ (sum, (there, ground (arith, k)))
  ]

  -- A confirmed machine cannot be displaced: its secret answers as before after any calls that
  -- neither revoke it nor bind it by hand, enrollments under its name included, and it stays
  -- confirmed.
  pub confirmed_secret_stays :
      (calls : List Call) (agent key : String) (m : Manager)
      → rebinds_any agent calls ≡ false
      → has_secret agent m ≡ true
      → is_confirmed agent m ≡ true
      → (verify_secret agent key (run calls m) ≡ verify_secret agent key m)
        × (is_confirmed agent (run calls m) ≡ true)
  unfolding is_confirmed verify_secret
  confirmed_secret_stays calls agent key m r h k =
      let (sum, now) = held_digest agent m h k in
      let (s, t) = run-Holds calls agent sum m r now in (rw (s, now.0) refl, ground (arith, k, t))

  -- The secret in an answer.
  abbrev given : Enrolled → String
  given (enrolled key) = key
  given _ = ""

  no_secret :
      (agent key : String) (m : Manager)
      → acts_on agent m ≡ false
      → verify_secret agent key m ≡ false
  unfolding verify_secret
  no_secret agent key m e = ground arith

  enroll-verifies :
      (agent code key : String) (m : Manager) (p : Manager × Enrolled)
      → Outcome agent code m p
      → p.1 ≡ enrolled key
      → str_eq key "" ≡ false
      → (verify_secret agent key p.0 ≡ true) × (is_confirmed agent p.0 ≡ false)
  unfolding verify_secret is_confirmed
  enroll-verifies agent code key m p (nothing answer g) e n = ground (arith, g, ap gave_binding e)
  enroll-verifies agent code key m p (burnt answer g known) e n =
      ground (arith, g, ap gave_binding e)
  enroll-verifies agent code key m p (bound m' random named free known codes secrets confirmed) e
        n =
      let same : bytes_eq (c.digest (c.hex random)) (c.digest key) ≡ true =
        rw (sym (ap given e)) (bytes_eq_refl (c.digest (c.hex random))) in
      (
        rw
            (
              secrets,
              lookup-put agent agent (c.digest (c.hex random)) m.secrets,
              str_eq_refl agent,
              named,
              n,
            )
            same,
        rw (confirmed, lookup-remove agent agent m.confirmed, str_eq_refl agent, named) refl,
      )

  -- After an enrollment that gives a secret that is not empty, the secret answers for the machine,
  -- and the machine is not confirmed yet.
  pub enrolled_secret_verifies :
      (agent code key : String) (now : ℕ) (random : Option Bytes) (disk : Bool) (m : Manager)
      → (redeem_and_bind agent code now random disk m).1 ≡ enrolled key
      → str_eq key "" ≡ false
      → (verify_secret agent key (redeem_and_bind agent code now random disk m).0 ≡ true)
        × (is_confirmed agent (redeem_and_bind agent code now random disk m).0 ≡ false)
  enrolled_secret_verifies agent code key now random disk m e n =
      enroll-verifies agent code key m _ (redeem_and_bind-Outcome agent code now random disk m) e n

  enroll-others :
      (agent code j key : String) (m : Manager) (p : Manager × Enrolled)
      → Outcome agent code m p
      → str_eq agent j ≡ false
      → verify_secret j key p.0 ≡ verify_secret j key m
  unfolding verify_secret
  enroll-others agent code j key m p (nothing answer g) d = refl
  enroll-others agent code j key m p (burnt answer g known) d = refl
  enroll-others agent code j key m p (bound m' random named free known codes secrets confirmed) d =
      rw (secrets, lookup-put agent j (c.digest (c.hex random)) m.secrets, d) refl

  -- However an enrollment of one machine ends, the secrets of the others answer as before.
  pub enrollment_leaves_others :
      (agent code j key : String) (now : ℕ) (random : Option Bytes) (disk : Bool) (m : Manager)
      → str_eq agent j ≡ false
      → verify_secret j key (redeem_and_bind agent code now random disk m).0 ≡ verify_secret j key m
  enrollment_leaves_others agent code j key now random disk m d =
      enroll-others agent code j key m _ (redeem_and_bind-Outcome agent code now random disk m) d

  -- After a revocation no secret answers for the machine, and the other machines' secrets answer as
  -- before.
  pub revoked_secret_fails :
      (agent j key : String) (disk : Bool) (m : Manager)
      → verify_secret j key (revoke agent disk m).0
        ≡ (if str_eq agent j then false else verify_secret j key m)
  unfolding verify_secret
  revoked_secret_fails agent j key disk m =
      let (u, s, t) = parts-revoke agent disk m in
      elim (Bool-cases (acts_on agent m)) [
        | inl e ↦ elim (Bool-cases (str_eq agent j)) [
          | inl same ↦ rw (s, e, lookup-remove agent j m.secrets, same) (ground arith)
          | inr other ↦ rw (s, e, lookup-remove agent j m.secrets, other) refl
        ]
        | inr e ↦ elim (Bool-cases (str_eq agent j)) [
          | inl same ↦
              rw (s, e, same) (no_secret j key m (rw (sym ((str_eq_iff agent j).0 same)) e))
          | inr other ↦ rw (s, e, other) refl
        ]
      ]
