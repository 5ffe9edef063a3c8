-- ===== src/Hub/Enrollment/Invariant.antt =====
-- Confirmed machines and their secrets.
use homer_cli.Base.{◌≡◌, String, Bool, true, inl, inr, Bool-cases, List, [], ◌∷◌, str_eq_iff, arith}
use homer_cli.Base.Dict.{Dict, lookup, lookup-put, lookup-remove, lookup-empty}
use homer_cli.Hub.Enrollment.{
  Codec, Manager, Bytes, Enrolled, new_manager, is_bound, is_true, has_secret, is_confirmed, Call,
  minting, redeeming, enrolling, binding, confirming, revoking, apply, run,
}
use homer_cli.Hub.Enrollment.Outcome.{
  Outcome, nothing, burnt, bound, redeem_and_bind-Outcome, parts-bind_agent, parts-revoke,
  parts-mark_confirmed, parts-redeem, parts-mint, ignored, acts_on,
}

abbrev pub IsBacked : Dict Bytes → Dict Bool → Type 0
IsBacked secrets confirmed =
    (j : String) → is_true (lookup j confirmed) ≡ true → is_bound (lookup j secrets) ≡ true

module _ ⦃c : Codec⦄ where
  enroll-IsBacked :
      (agent code : String) (m : Manager) (p : Manager × Enrolled)
      → Outcome agent code m p
      → IsBacked m.secrets m.confirmed
      → IsBacked p.0.secrets p.0.confirmed
  enroll-IsBacked agent code m p (nothing answer e) b = b
  enroll-IsBacked agent code m p (burnt answer e known) b = b
  enroll-IsBacked agent code m p (bound m' random named free known codes secrets confirmed) b =
      rw (secrets, confirmed)
        λ j h. ground (
          arith,
          h,
          b j,
          lookup-put agent j (c.digest (c.hex random)) m.secrets,
          lookup-remove agent j m.confirmed,
        )

  apply-IsBacked :
      (call : Call) (m : Manager)
      → IsBacked m.secrets m.confirmed
      → IsBacked (apply call m).secrets (apply call m).confirmed
  unfolding apply
  apply-IsBacked (minting ttl now random) m b =
      let (s, t) = parts-mint ttl now random m in rw (s, t) b
  apply-IsBacked (redeeming code now random) m b =
      let (s, t) = parts-redeem code now random m in rw (s, t) b
  apply-IsBacked (enrolling agent code now random disk) m b =
      enroll-IsBacked agent code m _ (redeem_and_bind-Outcome agent code now random disk m) b
  apply-IsBacked (binding agent key disk) m b =
      let (u, s, t) = parts-bind_agent agent key disk m in
      elim (Bool-cases (ignored agent key)) [
        | inl e ↦ rw (s, t, e) b
        | inr e ↦
            rw (s, t, e)
              λ j h. ground (
                arith,
                h,
                b j,
                lookup-put agent j (c.digest key) m.secrets,
                lookup-put agent j true m.confirmed,
              )
      ]
  apply-IsBacked (confirming agent) m b =
      let (u, s, t) = parts-mark_confirmed agent m in
      elim (Bool-cases (acts_on agent m)) [
        | inl e ↦
            rw (s, t, e)
              λ j h.
                ground (arith, e, h, b j, str_eq_iff agent j, lookup-put agent j true m.confirmed)
        | inr e ↦ rw (s, t, e) b
      ]
  apply-IsBacked (revoking agent disk) m b =
      let (u, s, t) = parts-revoke agent disk m in
      elim (Bool-cases (acts_on agent m)) [
        | inl e ↦
            rw (s, t, e)
              λ j h.
                ground (
                  arith,
                  h,
                  b j,
                  lookup-remove agent j m.secrets,
                  lookup-remove agent j m.confirmed,
                )
        | inr e ↦ rw (s, t, e) b
      ]

  run-IsBacked :
      (calls : List Call) (m : Manager)
      → IsBacked m.secrets m.confirmed
      → IsBacked (run calls m).secrets (run calls m).confirmed
  unfolding run
  run-IsBacked [] m b = b
  run-IsBacked (call ∷ calls) m b = run-IsBacked calls (apply call m) (apply-IsBacked call m b)

  -- After any calls on a new manager, every confirmed machine has a secret.
  pub confirmed_has_secret :
      (calls : List Call) (agent : String)
      → is_confirmed agent (run calls new_manager) ≡ true
      → has_secret agent (run calls new_manager) ≡ true
  unfolding is_confirmed has_secret
  confirmed_has_secret calls agent h = ground (
    arith,
    run-IsBacked calls new_manager (λ j e. ground (arith, e, lookup-empty {V = Bool} j)) agent,
  )
