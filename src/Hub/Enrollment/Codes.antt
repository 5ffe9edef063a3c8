-- ===== src/Hub/Enrollment/Codes.antt =====
-- How often a one-time code is redeemed.
use homer_cli.Base.{
  ℕ, ◌+◌, ◌≤◌, ◌≡◌, refl, sym, String, Bool, true, false, ◌||◌, inl, inr, Bool-cases, Option-cases,
  Option, none, some, List, [], ◌∷◌, str_eq, str_eq_iff, ◌+++◌, arith, if◌then◌else◌,
}
use homer_cli.Base.Dict.{lookup, lookup-put, lookup-remove}
use homer_cli.Hub.Enrollment.Outcome.{
  gave_binding, Outcome, nothing, burnt, bound, redeem_and_bind-Outcome, parts-bind_agent,
  parts-revoke, parts-mark_confirmed,
}
use homer_cli.Hub.Enrollment.{
  later, Codec, Manager, Bytes, Redeemed, secret, refused, Enrolled, is_bound, redeem,
  redeem_and_bind, Call, minting, redeeming, enrolling, binding, confirming, revoking, apply,
}

-- 1 if the code can be redeemed, with or without success.
abbrev pub present : String → Manager → ℕ
present code m = if is_bound (lookup code m.codes) then 1 else 0

abbrev pub gave_secret : Redeemed → ℕ
gave_secret (secret s) = 1
gave_secret (refused e) = 0

module _ ⦃c : Codec⦄ where
  -- 1 if the call redeems the code with success.
  unfoldable pub redeemed_by : String → Call → Manager → ℕ
  unfolding redeem redeem_and_bind
  redeemed_by code (redeeming k now random) m =
      if str_eq k code then gave_secret (redeem k now random m).1 else 0
  redeemed_by code (enrolling agent k now random disk) m =
      if str_eq k code then gave_binding (redeem_and_bind agent k now random disk m).1 else 0
  redeemed_by code _ m = 0

  unfoldable pub times_redeemed : String → List Call → Manager → ℕ
  unfolding redeemed_by apply
  times_redeemed code [] m = 0
  times_redeemed code (call ∷ calls) m =
      redeemed_by code call m + times_redeemed code calls (apply call m)

  -- Some call mints this very code.
  unfoldable pub mints : String → List Call → Bool
  mints code [] = false
  mints code (minting ttl now (some random) ∷ calls) =
      str_eq ("hr_" +++ c.hex random) code || mints code calls
  mints code (call ∷ calls) = mints code calls

  present-same :
      (code k : String) (m : Manager)
      → str_eq k code ≡ true
      → is_bound (lookup k m.codes) ≡ true
      → present code m ≡ 1
  present-same code k m same known = rw (sym ((str_eq_iff k code).0 same)) (rw known refl)

  one_secret :
      (answer : Redeemed) (code : String) (m : Manager)
      → present code m ≡ 1
      → gave_secret answer + 0 ≤ present code m
  one_secret (secret s) code m e = omega (arith, e)
  one_secret (refused r) code m e = omega arith

  redeem-present :
      (code k : String) (now : ℕ) (random : Option Bytes) (m : Manager)
      → (if str_eq k code then gave_secret (redeem k now random m).1 else 0)
          + present code (redeem k now random m).0
        ≤ present code m
  unfolding redeem
  redeem-present code k now random m = elim (Option-cases (lookup k m.codes)) [
    | inl unknown ↦ rw (redeem, unknown) (ground arith)
    | inr (expires_at, known) ↦ elim (Bool-cases (str_eq k code)) [
      | inl same ↦
          rw (redeem, known, lookup-remove k code m.codes, same)
            (one_secret _ code m (present-same code k m same (rw known refl)))
      | inr other ↦ rw (redeem, known, lookup-remove k code m.codes, other) (ground arith)
    ]
  ]

  enroll-present :
      (code agent k : String) (m : Manager) (p : Manager × Enrolled)
      → Outcome agent k m p
      → (if str_eq k code then gave_binding p.1 else 0) + present code p.0 ≤ present code m
  enroll-present code agent k m p (nothing answer e) = rw e (ground arith)
  enroll-present code agent k m p (burnt answer e known) =
      rw (lookup-remove k code m.codes, e) (ground (arith, str_eq_iff k code))
  enroll-present code agent k m p (bound m' random named free known codes secrets confirmed) =
      elim (Bool-cases (str_eq k code)) [
        | inl same ↦
            rw (codes, lookup-remove k code m.codes, same)
              (omega (arith, present-same code k m same known))
        | inr other ↦ rw (codes, lookup-remove k code m.codes, other) (ground arith)
      ]

  step-present :
      (code : String) (call : Call) (m : Manager)
      → mints code (call ∷ []) ≡ false
      → redeemed_by code call m + present code (apply call m) ≤ present code m
  unfolding redeemed_by apply mints
  step-present code (minting ttl now none) m h = omega arith
  step-present code (minting ttl now (some random)) m h =
      ground (arith, lookup-put ("hr_" +++ c.hex random) code (later now ttl) m.codes)
  step-present code (redeeming k now random) m h = redeem-present code k now random m
  step-present code (enrolling agent k now random disk) m h =
      enroll-present code agent k m _ (redeem_and_bind-Outcome agent k now random disk m)
  step-present code (binding agent key disk) m h =
      rw (parts-bind_agent agent key disk m).0 (omega arith)
  step-present code (confirming agent) m h = rw (parts-mark_confirmed agent m).0 (omega arith)
  step-present code (revoking agent disk) m h = rw (parts-revoke agent disk m).0 (omega arith)

  mints-head :
      (code : String) (call : Call) (calls : List Call)
      → mints code (call ∷ calls) ≡ (mints code (call ∷ []) || mints code calls)
  unfolding mints
  mints-head code (minting ttl now none) calls = refl
  mints-head code (minting ttl now (some random)) calls = ground arith
  mints-head code (redeeming k now random) calls = refl
  mints-head code (enrolling agent k now random disk) calls = refl
  mints-head code (binding agent key disk) calls = refl
  mints-head code (confirming agent) calls = refl
  mints-head code (revoking agent disk) calls = refl

  -- In any sequence of calls that does not mint the code anew, it is redeemed at most once, by
  -- `Redeem` or by `RedeemAndBindIfUnbound`, and never if it is not there at the start.
  pub redeemed_at_most_once :
      (code : String) (calls : List Call) (m : Manager)
      → mints code calls ≡ false
      → times_redeemed code calls m ≤ present code m
  unfolding times_redeemed mints
  redeemed_at_most_once code [] m h = omega arith
  redeemed_at_most_once code (call ∷ calls) m h = omega (
    arith,
    step-present code call m (ground (arith, mints-head code call calls)),
    redeemed_at_most_once code calls (apply call m) (ground (arith, mints-head code call calls)),
  )
