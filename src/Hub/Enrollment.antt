-- ===== src/Hub/Enrollment.antt =====
-- internal/hub/enrollment.go: one-time codes, the secrets of the machines, and their file.
pub mod Outcome
pub mod Invariant
pub mod Codes
pub mod Binding
pub mod Reopen
use homer_cli.Base.{
  ℕ, suc, ◌+◌, ◌-◌, ◌==◌, ◌≡◌, String, Bool, true, false, not, ◌&&◌, ◌||◌, Option, none, some, List,
  [], ◌∷◌, length, str_eq, ltb, ◌+++◌, if◌then◌else◌,
}
use homer_cli.Base.Dict.{Dict, lookup, put, remove}
use homer_cli.Base.Integers.{ℤ, pos, negsuc}

abbrev pub Bytes : Type 0
Bytes = List ℕ

-- What the hub uses of Go's standard library: SHA-256 and hexadecimal texts.
pub record Codec : Type 0 where
  pub digest : String → Bytes
  pub hex : Bytes → String
  pub unhex : String → Option Bytes

-- What the file of secrets relies on.
pub record IsCodec (c : Codec) : Type 0 where
  pub digest_size : (s : String) → length (c.digest s) ≡ 32
  pub unhex-hex : (s : String) → c.unhex (c.hex (c.digest s)) ≡ some (c.digest s)

-- `EnrollmentManager`, with the document in the file at `path`. Times are numbers.
pub record Manager : Type 0 where
  pub path : String
  pub codes : Dict ℕ
  pub secrets : Dict Bytes
  pub confirmed : Dict Bool
  pub file : Option (Dict String)

pub data EnrollError : Type 0 where
  invalid_code expired_code no_randomness no_agent : EnrollError

pub data Redeemed : Type 0 where
  secret : String → Redeemed
  refused : EnrollError → Redeemed

pub data Enrolled : Type 0 where
  enrolled : String → Enrolled
  already_bound : Enrolled
  not_enrolled : EnrollError → Enrolled

-- What reading the file gives: no file, an error, a text that is no document, or its document.
pub data ReadResult : Type 0 where
  missing unreadable damaged : ReadResult
  content : Dict String → ReadResult

abbrev pub new_manager : Manager
new_manager = record { path = ""; codes = []; secrets = []; confirmed = []; file = none }

abbrev pub is_bound {ℓ} : {A : Type ℓ} → Option A → Bool
is_bound none = false
is_bound (some a) = true

-- m.confirmed[agentID], where a missing key reads as false
abbrev pub is_true : Option Bool → Bool
is_true none = false
is_true (some b) = b

abbrev pub bytes_eq : Bytes → Bytes → Bool
bytes_eq [] [] = true
bytes_eq (x ∷ xs) (y ∷ ys) = x == y && bytes_eq xs ys
bytes_eq _ _ = false

abbrev pub with_codes : Dict ℕ → Manager → Manager
with_codes codes m = record {
  path = m.path;
  codes = codes;
  secrets = m.secrets;
  confirmed = m.confirmed;
  file = m.file;
}

abbrev pub with_binding : Dict Bytes → Dict Bool → Manager → Manager
with_binding secrets confirmed m = record {
  path = m.path;
  codes = m.codes;
  secrets = secrets;
  confirmed = confirmed;
  file = m.file;
}

unfoldable pub valid_code : String → ℕ → Manager → Bool
unfolding lookup
valid_code code now m = if str_eq code "" then false else live (lookup code m.codes)
  where
    live : Option ℕ → Bool
    live none = false
    live (some expires_at) = ltb now expires_at

unfoldable pub has_secret : String → Manager → Bool
unfolding lookup
has_secret agent m = if str_eq agent "" then false else is_bound (lookup agent m.secrets)

unfoldable pub is_confirmed : String → Manager → Bool
unfolding lookup
is_confirmed agent m = if str_eq agent "" then false else is_true (lookup agent m.confirmed)

unfoldable pub mark_confirmed : String → Manager → Manager
unfolding lookup put
mark_confirmed agent m =
    if str_eq agent ""
    then m
    else if is_bound (lookup agent m.secrets)
    then with_binding m.secrets (put agent true m.confirmed) m
    else m

-- time.Now().Add(ttl), where `now` is at least -ttl
abbrev pub later : ℕ → ℤ → ℕ
later now (pos t) = now + t
later now (negsuc t) = now - suc t

-- The calls that change a manager.
pub data Call : Type 0 where
  minting : ℤ → ℕ → Option Bytes → Call
  redeeming : String → ℕ → Option Bytes → Call
  enrolling : String → String → ℕ → Option Bytes → Bool → Call
  binding : String → String → Bool → Call
  confirming : String → Call
  revoking : String → Bool → Call

module _ ⦃c : Codec⦄ where
  -- `Mint`; `random` is what `rand.Read` gives.
  unfoldable pub mint : ℤ → ℕ → Option Bytes → Manager → Manager × Option String
  unfolding put
  mint ttl now none m = (m, none)
  mint ttl now (some random) m =
      let code = "hr_" +++ c.hex random in
      (with_codes (put code (later now ttl) m.codes) m, some code)

  unfoldable pub redeem : String → ℕ → Option Bytes → Manager → Manager × Redeemed
  unfolding lookup remove
  redeem code now random m = elim (lookup code m.codes) [
    | none ↦ (m, refused invalid_code)
    | some expires_at ↦ (
      with_codes (remove code m.codes) m,
      if ltb expires_at now then refused expired_code else fresh random,
    )
  ]
    where
      fresh : Option Bytes → Redeemed
      fresh none = refused no_randomness
      fresh (some bytes) = secret (c.hex bytes)

  abbrev pub hex_all : Dict Bytes → Dict String
  hex_all [] = []
  hex_all ((agent, sum) ∷ secrets) = (agent, c.hex sum) ∷ hex_all secrets

  -- `saveLocked`; `disk` says whether the new file could be written and put in place.
  unfoldable pub save : Bool → Manager → Manager
  save disk m = if str_eq m.path "" || not disk then m else record {
    path = m.path;
    codes = m.codes;
    secrets = m.secrets;
    confirmed = m.confirmed;
    file = some (hex_all m.secrets);
  }

  unfoldable pub bind_agent : String → String → Bool → Manager → Manager
  unfolding put save
  bind_agent agent key disk m =
      if str_eq agent "" || str_eq key ""
      then m
      else save disk
          (with_binding (put agent (c.digest key) m.secrets) (put agent true m.confirmed) m)

  -- The end of `RedeemAndBindIfUnbound`: a new secret for the agent.
  unfoldable pub bind_fresh : String → Option Bytes → Bool → Manager → Manager × Enrolled
  unfolding put remove save
  bind_fresh agent none disk m = (m, not_enrolled no_randomness)
  bind_fresh agent (some random) disk m = (
    save disk
        (with_binding (put agent (c.digest (c.hex random)) m.secrets) (remove agent m.confirmed) m),
    enrolled (c.hex random),
  )

  -- `RedeemAndBindIfUnbound`
  unfoldable pub redeem_and_bind :
      String → String → ℕ → Option Bytes → Bool → Manager → Manager × Enrolled
  unfolding lookup remove bind_fresh
  redeem_and_bind agent code now random disk m =
      if str_eq agent ""
      then (m, not_enrolled no_agent)
      else if is_bound (lookup agent m.secrets) && is_true (lookup agent m.confirmed)
      then (m, already_bound)
      else elim (lookup code m.codes) [
        | none ↦ (m, not_enrolled invalid_code)
        | some expires_at ↦
            let burnt = with_codes (remove code m.codes) m in
            if ltb expires_at now
            then (burnt, not_enrolled expired_code)
            else bind_fresh agent random disk burnt
      ]

  abbrev pub same_digest : Option Bytes → Bytes → Bool
  same_digest none got = false
  same_digest (some want) got = bytes_eq want got

  unfoldable pub verify_secret : String → String → Manager → Bool
  unfolding lookup
  verify_secret agent key m =
      if str_eq agent "" || str_eq key ""
      then false
      else same_digest (lookup agent m.secrets) (c.digest key)

  -- `Revoke`, with the answer; the hook closes the connections of the agent.
  unfoldable pub revoke : String → Bool → Manager → Manager × Bool
  unfolding lookup remove save
  revoke agent disk m =
      if str_eq agent ""
      then (m, false)
      else if is_bound (lookup agent m.secrets)
      then (save disk (with_binding (remove agent m.secrets) (remove agent m.confirmed) m), true)
      else (m, false)

  -- `AuthorizedAgent`; "" is nobody.
  unfoldable pub authorized_agent : String → Manager → String
  authorized_agent bearer m = if str_eq bearer "" then "" else first m.secrets
    where
      first : Dict Bytes → String
      first [] = ""
      first ((agent, want) ∷ secrets) =
          if bytes_eq want (c.digest bearer) then agent else first secrets

  -- The loop of `load`. Go visits the entries in any order.
  unfoldable pub load_agents : Dict String → Manager → Option Manager
  unfolding put
  load_agents [] m = some m
  load_agents ((agent, encoded) ∷ agents) m = elim (load_agents agents m) [
    | none ↦ none
    | some m' ↦ elim (c.unhex encoded) [
      | none ↦ none
      | some sum ↦
          if not (length sum == 32) || str_eq agent ""
          then none
          else some (with_binding (put agent sum m'.secrets) (put agent true m'.confirmed) m')
    ]
  ]

  unfoldable pub load : ReadResult → Manager → Option Manager
  unfolding load_agents
  load missing m = some m
  load unreadable m = none
  load damaged m = none
  load (content agents) m = load_agents agents m

  -- `OpenEnrollment`; `prepared` says whether the directory could be made, `path` is the file.
  unfoldable pub open_enrollment : String → String → Bool → ReadResult → Option Manager
  unfolding load
  open_enrollment home path prepared read =
      if str_eq home ""
      then some new_manager
      else if not prepared
      then none
      else load read
          record { path = path; codes = []; secrets = []; confirmed = []; file = on_disk read }
    where
      on_disk : ReadResult → Option (Dict String)
      on_disk (content agents) = some agents
      on_disk _ = none

  unfoldable pub apply : Call → Manager → Manager
  unfolding mint redeem redeem_and_bind bind_agent mark_confirmed revoke
  apply (minting ttl now random) m = (mint ttl now random m).0
  apply (redeeming code now random) m = (redeem code now random m).0
  apply (enrolling agent code now random disk) m = (redeem_and_bind agent code now random disk m).0
  apply (binding agent key disk) m = bind_agent agent key disk m
  apply (confirming agent) m = mark_confirmed agent m
  apply (revoking agent disk) m = (revoke agent disk m).0

  unfoldable pub run : List Call → Manager → Manager
  unfolding apply
  run [] m = m
  run (call ∷ calls) m = run calls (apply call m)
