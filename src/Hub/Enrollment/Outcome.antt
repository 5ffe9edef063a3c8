-- ===== src/Hub/Enrollment/Outcome.antt =====
-- The ways in which an enrollment can end.
use homer_cli.Base.{
  ℕ, ◌≡◌, refl, String, Bool, true, false, not, ◌&&◌, ◌||◌, inl, inr, Bool-cases, Option-cases,
  Option, none, some, str_eq, ltb, arith, if◌then◌else◌,
}
use homer_cli.Base.Integers.{ℤ}
use homer_cli.Base.Dict.{lookup, put, remove}
use homer_cli.Hub.Enrollment.{
  Codec, Manager, Bytes, Enrolled, enrolled, is_bound, is_true, save, with_codes, bind_fresh,
  redeem_and_bind, bind_agent, revoke, mark_confirmed, redeem, mint,
}

abbrev pub gave_binding : Enrolled → ℕ
gave_binding (enrolled s) = 1
gave_binding _ = 0

-- What the other calls leave alone.
abbrev pub ignored : String → String → Bool
ignored agent key = str_eq agent "" || str_eq key ""

abbrev pub acts_on : String → Manager → Bool
acts_on agent m = not (str_eq agent "") && is_bound (lookup agent m.secrets)

module _ ⦃c : Codec⦄ where
  pub codes-save : (disk : Bool) (m : Manager) → (save disk m).codes ≡ m.codes
  unfolding save
  codes-save disk m = ground arith

  pub secrets-save : (disk : Bool) (m : Manager) → (save disk m).secrets ≡ m.secrets
  unfolding save
  secrets-save disk m = ground arith

  pub confirmed-save : (disk : Bool) (m : Manager) → (save disk m).confirmed ≡ m.confirmed
  unfolding save
  confirmed-save disk m = ground arith

  -- The manager `m` becomes the first of the pair, the answer is its second.
  pub data Outcome (agent code : String) (m : Manager) : Manager × Enrolled → Type 0 where
    nothing : (answer : Enrolled) → gave_binding answer ≡ 0 → Outcome agent code m (m, answer)
    burnt :
        (answer : Enrolled)
        → gave_binding answer ≡ 0
        → is_bound (lookup code m.codes) ≡ true
        → Outcome agent code m (with_codes (remove code m.codes) m, answer)
    bound :
        (m' : Manager) (random : Bytes)
        → str_eq agent "" ≡ false
        → (is_bound (lookup agent m.secrets) && is_true (lookup agent m.confirmed)) ≡ false
        → is_bound (lookup code m.codes) ≡ true
        → m'.codes ≡ remove code m.codes
        → m'.secrets ≡ put agent (c.digest (c.hex random)) m.secrets
        → m'.confirmed ≡ remove agent m.confirmed
        → Outcome agent code m (m', enrolled (c.hex random))

  bind_fresh-Outcome :
      (agent code : String) (random : Option Bytes) (disk : Bool) (m : Manager)
      → str_eq agent "" ≡ false
      → (is_bound (lookup agent m.secrets) && is_true (lookup agent m.confirmed)) ≡ false
      → is_bound (lookup code m.codes) ≡ true
      → Outcome agent code m (bind_fresh agent random disk (with_codes (remove code m.codes) m))
  unfolding bind_fresh
  bind_fresh-Outcome agent code none disk m named free known = burnt _ refl known
  bind_fresh-Outcome agent code (some random) disk m named free known =
      bound _ random named free known (codes-save disk _) (secrets-save disk _)
        (confirmed-save disk _)

  pub redeem_and_bind-Outcome :
      (agent code : String) (now : ℕ) (random : Option Bytes) (disk : Bool) (m : Manager)
      → Outcome agent code m (redeem_and_bind agent code now random disk m)
  unfolding redeem_and_bind
  redeem_and_bind-Outcome agent code now random disk m = elim (Bool-cases (str_eq agent "")) [
    | inl e ↦ rw e (nothing _ refl)
    | inr named ↦
        rw named
          (elim (Bool-cases
            (is_bound (lookup agent m.secrets) && is_true (lookup agent m.confirmed))) [
              | inl e ↦ rw e (nothing _ refl)
              | inr free ↦ rw free (elim (Option-cases (lookup code m.codes)) [
                | inl unknown ↦ rw unknown (nothing _ refl)
                | inr (expires_at, known) ↦ rw known (elim (Bool-cases (ltb expires_at now)) [
                  | inl late ↦ rw late (burnt _ refl (rw known refl))
                  | inr in_time ↦
                      rw in_time
                        (bind_fresh-Outcome agent code random disk m named free (rw known refl))
                ])
              ])
            ])
  ]

  pub parts-bind_agent :
      (agent key : String) (disk : Bool) (m : Manager)
      → ((bind_agent agent key disk m).codes ≡ m.codes)
        × ((bind_agent agent key disk m).secrets
            ≡ (if ignored agent key then m.secrets else put agent (c.digest key) m.secrets))
        × ((bind_agent agent key disk m).confirmed
            ≡ (if ignored agent key then m.confirmed else put agent true m.confirmed))
  unfolding bind_agent
  parts-bind_agent agent key disk m = elim (Bool-cases (ignored agent key)) [
    | inl e ↦ rw e (refl, refl, refl)
    | inr e ↦ rw e (codes-save disk _, secrets-save disk _, confirmed-save disk _)
  ]

  pub parts-revoke :
      (agent : String) (disk : Bool) (m : Manager)
      → ((revoke agent disk m).0.codes ≡ m.codes)
        × ((revoke agent disk m).0.secrets
            ≡ (if acts_on agent m then remove agent m.secrets else m.secrets))
        × ((revoke agent disk m).0.confirmed
            ≡ (if acts_on agent m then remove agent m.confirmed else m.confirmed))
  unfolding revoke
  parts-revoke agent disk m = elim (Bool-cases (str_eq agent "")) [
    | inl e ↦ rw e (refl, refl, refl)
    | inr named ↦ elim (Bool-cases (is_bound (lookup agent m.secrets))) [
      | inl e ↦ rw (named, e) (codes-save disk _, secrets-save disk _, confirmed-save disk _)
      | inr e ↦ rw (named, e) (refl, refl, refl)
    ]
  ]

  pub parts-mark_confirmed :
      (agent : String) (m : Manager)
      → ((mark_confirmed agent m).codes ≡ m.codes)
        × ((mark_confirmed agent m).secrets ≡ m.secrets)
        × ((mark_confirmed agent m).confirmed
            ≡ (if acts_on agent m then put agent true m.confirmed else m.confirmed))
  unfolding mark_confirmed
  parts-mark_confirmed agent m = elim (Bool-cases (str_eq agent "")) [
    | inl e ↦ rw e (refl, refl, refl)
    | inr named ↦ elim (Bool-cases (is_bound (lookup agent m.secrets))) [
      | inl e ↦ rw (named, e) (refl, refl, refl)
      | inr e ↦ rw (named, e) (refl, refl, refl)
    ]
  ]

  pub parts-redeem :
      (code : String) (now : ℕ) (random : Option Bytes) (m : Manager)
      → ((redeem code now random m).0.secrets ≡ m.secrets)
        × ((redeem code now random m).0.confirmed ≡ m.confirmed)
  unfolding redeem
  parts-redeem code now random m = elim (Option-cases (lookup code m.codes)) [
    | inl e ↦ rw (redeem, e) (refl, refl)
    | inr (t, e) ↦ rw (redeem, e) (refl, refl)
  ]

  pub parts-mint :
      (ttl : ℤ) (now : ℕ) (random : Option Bytes) (m : Manager)
      → ((mint ttl now random m).0.secrets ≡ m.secrets)
        × ((mint ttl now random m).0.confirmed ≡ m.confirmed)
  unfolding mint
  parts-mint ttl now none m = (refl, refl)
  parts-mint ttl now (some random) m = (refl, refl)
