-- ===== src/Examples/Enrollment.antt =====
-- Two machines at the hub.
use homer_cli.Base.Integers.{pos}
use homer_cli.Base.{
  ℕ, ◌≡◌, ◌≤◌, refl, true, false, none, some, List, [], ◌∷◌, str_eq, if◌then◌else◌, inl, inr,
  Bool-cases,
}
use homer_cli.Base.Dict.{lookup}
use homer_cli.Hub.Enrollment.{
  Codec, IsCodec, Bytes, Manager, new_manager, bytes_eq, redeem_and_bind, revoke, verify_secret,
  has_secret, is_confirmed, save, open_enrollment, Call, minting, enrolling, binding, run,
  mark_confirmed, bind_agent,
}
use homer_cli.Hub.Enrollment.Codes.{times_redeemed, present, mints, redeemed_at_most_once}
use homer_cli.Hub.Enrollment.Invariant.{confirmed_has_secret}
use homer_cli.Hub.Enrollment.Binding.{
  rebinds_any, confirmed_secret_stays, enrolled_secret_verifies, enrollment_leaves_others,
  revoked_secret_fails,
}
use homer_cli.Hub.Enrollment.Reopen.{IsStored, as_read, run-IsStored, saved_and_reopened}

-- 32 equal bytes
abbrev filled : ℕ → Bytes
filled b =
    b ∷ b ∷ b ∷ b ∷ b ∷ b ∷ b ∷ b ∷ b ∷ b ∷ b ∷ b ∷ b ∷ b ∷ b ∷ b ∷ b ∷ b ∷ b ∷ b ∷ b ∷ b ∷ b ∷ b
    ∷ b ∷ b ∷ b ∷ b ∷ b ∷ b ∷ b ∷ b ∷ []

-- A codec that tells the text "01" from the others.
instance sample_codec : Codec
sample_codec = record {
  digest = λ s. if str_eq s "01" then filled 1 else filled 0;
  hex = λ b. if bytes_eq b (filled 1) then "01" else "00";
  unhex = λ s. some (if str_eq s "01" then filled 1 else filled 0);
}

sample-IsCodec : IsCodec sample_codec
unfolding sample_codec
sample-IsCodec = record {
  digest_size = λ s. elim (Bool-cases (str_eq s "01")) [ inl e ↦ rw e refl | inr e ↦ rw e refl ];
  unhex-hex = λ s. elim (Bool-cases (str_eq s "01")) [ inl e ↦ rw e refl | inr e ↦ rw e refl ];
}

abbrev opened : Manager
opened = record { path = "keys"; codes = []; secrets = []; confirmed = []; file = none }

-- A code, an enrollment with it, and a second try.
abbrev calls : List Call
calls =
    minting (pos 10) 5 (some (filled 1))
    ∷ enrolling "laptop" "hr_01" 9 (some (filled 1)) true
    ∷ enrolling "desktop" "hr_01" 9 (some (filled 0)) true
    ∷ []

abbrev enrolled_once : Manager
enrolled_once = run calls opened

second_try_fails : lookup "desktop" enrolled_once.secrets ≡ none
unfolding run lookup sample_codec
second_try_fails = refl

laptop_verifies : verify_secret "laptop" "01" enrolled_once ≡ true
unfolding run verify_secret sample_codec
laptop_verifies = refl

abbrev minted : Manager
minted = run (minting (pos 10) 5 (some (filled 1)) ∷ []) opened

abbrev laptop_confirmed : Manager
laptop_confirmed = mark_confirmed "laptop" enrolled_once

redeemed_at_most_once_example :
    times_redeemed "hr_01"
      (enrolling "laptop" "hr_01" 9 (some (filled 1)) true
        ∷ enrolling "desktop" "hr_01" 9 (some (filled 0)) true
        ∷ [])
      minted
    ≤ present "hr_01" minted
unfolding mints
redeemed_at_most_once_example =
    redeemed_at_most_once "hr_01"
      (enrolling "laptop" "hr_01" 9 (some (filled 1)) true
        ∷ enrolling "desktop" "hr_01" 9 (some (filled 0)) true
        ∷ [])
      minted refl

confirmed_has_secret_example :
    has_secret "laptop" (run (binding "laptop" "01" true ∷ []) new_manager) ≡ true
unfolding run is_confirmed bind_agent
confirmed_has_secret_example = confirmed_has_secret (binding "laptop" "01" true ∷ []) "laptop" refl

confirmed_secret_stays_example :
    (verify_secret "laptop" "01" (run calls laptop_confirmed)
      ≡ verify_secret "laptop" "01" laptop_confirmed)
    × (is_confirmed "laptop" (run calls laptop_confirmed) ≡ true)
unfolding rebinds_any has_secret is_confirmed run mark_confirmed sample_codec
confirmed_secret_stays_example =
    confirmed_secret_stays calls "laptop" "01" laptop_confirmed refl refl refl

enrolled_secret_verifies_example :
    (verify_secret "laptop" "01"
        (redeem_and_bind "laptop" "hr_01" 9 (some (filled 1)) true minted).0
      ≡ true)
    × (is_confirmed "laptop" (redeem_and_bind "laptop" "hr_01" 9 (some (filled 1)) true minted).0
        ≡ false)
unfolding run redeem_and_bind sample_codec
enrolled_secret_verifies_example =
    enrolled_secret_verifies "laptop" "hr_01" "01" 9 (some (filled 1)) true minted refl refl

enrollment_leaves_others_example :
    verify_secret "laptop" "01"
      (redeem_and_bind "desktop" "hr_01" 9 (some (filled 0)) true enrolled_once).0
    ≡ verify_secret "laptop" "01" enrolled_once
enrollment_leaves_others_example =
    enrollment_leaves_others "desktop" "hr_01" "laptop" "01" 9 (some (filled 0)) true enrolled_once
      refl

revoked_secret_fails_example :
    verify_secret "laptop" "01" (revoke "laptop" true enrolled_once).0
    ≡ (if str_eq "laptop" "laptop" then false else verify_secret "laptop" "01" enrolled_once)
revoked_secret_fails_example = revoked_secret_fails "laptop" "laptop" "01" true enrolled_once

run-IsStored_example : IsStored (run calls opened).secrets
run-IsStored_example = run-IsStored calls opened tt

saved_and_reopened_example :
    (o : Manager) × (open_enrollment "home" enrolled_once.path true
        (as_read (save true enrolled_once).file)
      ≡ some o)
    × (verify_secret "laptop" "01" o ≡ verify_secret "laptop" "01" enrolled_once)
    × (is_confirmed "laptop" o ≡ has_secret "laptop" enrolled_once)
unfolding run sample_codec
saved_and_reopened_example =
    saved_and_reopened sample-IsCodec "home" "laptop" "01" enrolled_once refl refl
      (run-IsStored calls opened tt)

-- A revocation whose new file cannot be written is forgotten at the next start.
unsaved_revocation_returns :
    let m = (revoke "laptop" false enrolled_once).0 in
    (verify_secret "laptop" "01" m ≡ false)
    × (elim (open_enrollment "home" "keys" true (as_read m.file)) [
      | none ↦ false
      | some o ↦ verify_secret "laptop" "01" o
    ]
        ≡ true)
unfolding run revoke verify_secret open_enrollment sample_codec
unsaved_revocation_returns = (refl, refl)
