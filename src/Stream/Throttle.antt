-- ===== src/Stream/Throttle.antt =====
-- internal/stream/throttle.go: at most one message for each key in a window. A `time.Time` counts
-- nanoseconds. The mutex makes `Log` one step; the line itself, which is only printed, is left out.
use homer_cli.Base.{
  ℕ, zero, suc, not, ◌&&◌, ◌+◌, ◌-◌, ◌≤◌, ◌<◌, String, ◌≡◌, refl, Bool, true, false, Option, none,
  some, List, [], ◌∷◌, arith, leb, ltb, sym, ap, ◌∙◌, str_eq, str_eq_iff, if◌then◌else◌, Bool-cases,
  inl, inr,
}
use mathlib.Core.Path.{subst}
use homer_cli.Base.Dict.{Dict, lookup, put, lookup-put}

pub record ThrottledLogger : Type 0 where
  pub has_logger : Bool
  pub window : ℕ
  pub last : Dict ℕ

-- A window that is not positive is written 0; the default is a minute.
unfoldable pub new_throttled_logger : Bool → ℕ → ThrottledLogger
new_throttled_logger has_logger zero = record {
  has_logger = has_logger;
  window = 60000000000;
  last = [];
}
new_throttled_logger has_logger (suc n) = record {
  has_logger = has_logger;
  window = suc n;
  last = [];
}

-- Whether the message at `now` falls in the window of the one before.
unfoldable pub too_soon : ℕ → ℕ → Option ℕ → Bool
too_soon window now none = false
too_soon window now (some last) = ltb (now - last) window

-- `Log` at the time `now`, and whether it prints
unfoldable pub log_line : ℕ → String → ThrottledLogger → ThrottledLogger × Bool
unfolding too_soon lookup put
log_line now key t =
    if not t.has_logger
    then (t, false)
    else if too_soon t.window now (lookup key t.last)
    then (t, false)
    else (record t { last = put key now t.last }, true)

-- The times at which calls print a line of the key.
unfoldable pub printed : String → List (ℕ × String) → ThrottledLogger → List ℕ
unfolding log_line
printed k [] t = []
printed k ((now, key) ∷ calls) t =
    let rest = printed k calls (log_line now key t).0 in
    if (log_line now key t).1 && str_eq key k then now ∷ rest else rest

-- Each time is at least a window after the one before.
abbrev pub IsSpaced : ℕ → Option ℕ → List ℕ → Type 0
IsSpaced window last [] = Unit {0}
IsSpaced window none (t ∷ ts) = IsSpaced window (some t) ts
IsSpaced window (some last) (t ∷ ts) = (last + window ≤ t) × IsSpaced window (some t) ts

IsSpaced-next :
    (window now : ℕ) (last : Option ℕ) (ts : List ℕ)
    → 0 < window
    → too_soon window now last ≡ false
    → IsSpaced window (some now) ts
    → IsSpaced window last (now ∷ ts)
unfolding too_soon
IsSpaced-next window now none ts w s h = h
IsSpaced-next window now (some last) ts w s h = (ground arith, h)

-- What a call does, for each of its ways out.
silent_without_logger :
    (now : ℕ) (key : String) (t : ThrottledLogger)
    → t.has_logger ≡ false
    → log_line now key t ≡ (t, false)
unfolding log_line
silent_without_logger now key t off = simp (log_line, off)

silent_too_soon :
    (now : ℕ) (key : String) (t : ThrottledLogger)
    → t.has_logger ≡ true
    → too_soon t.window now (lookup key t.last) ≡ true
    → log_line now key t ≡ (t, false)
unfolding log_line
silent_too_soon now key t on soon = simp (log_line, on, soon)

abbrev noted : ℕ → String → ThrottledLogger → ThrottledLogger
noted now key t = record t { last = put key now t.last }

prints :
    (now : ℕ) (key : String) (t : ThrottledLogger)
    → t.has_logger ≡ true
    → too_soon t.window now (lookup key t.last) ≡ false
    → log_line now key t ≡ (noted now key t, true)
unfolding log_line
prints now key t on late = simp (log_line, on, late)

printed-IsSpaced :
    (k : String) (calls : List (ℕ × String)) (t : ThrottledLogger)
    → 0 < t.window
    → IsSpaced t.window (lookup k t.last) (printed k calls t)
unfolding printed
printed-IsSpaced k [] t w = tt
printed-IsSpaced k ((now, key) ∷ calls) t w = elim (Bool-cases t.has_logger) [
  | inr off ↦ rw (printed, silent_without_logger now key t off) (printed-IsSpaced k calls t w)
  | inl on ↦ elim (Bool-cases (too_soon t.window now (lookup key t.last))) [
    | inl soon ↦ rw (printed, silent_too_soon now key t on soon) (printed-IsSpaced k calls t w)
    | inr late ↦
        let later : IsSpaced t.window (if str_eq key k then some now else lookup k t.last)
            (printed k calls (noted now key t)) =
          rw lookup-put at (printed-IsSpaced k calls (noted now key t) w) in
        rw (printed, prints now key t on late)
          (elim (Bool-cases (str_eq key k)) [
            | inl e ↦ rw e (
                IsSpaced-next t.window now (lookup k t.last) (printed k calls (noted now key t)) w
                  (subst (λ i. too_soon t.window now (lookup i t.last) ≡ false)
                    ((str_eq_iff key k).0 e) late)
                  (rw e at later))
            | inr e ↦ rw e (rw e at later)
          ])
  ]
]

-- The times of the calls of one key.
unfoldable pub times_of : String → List (ℕ × String) → List ℕ
times_of k [] = []
times_of k ((now, key) ∷ calls) =
    let rest = times_of k calls in if str_eq key k then now ∷ rest else rest

-- The specification, for one key alone: each time that is at least a window after the one kept before.
unfoldable pub kept_times : ℕ → Option ℕ → List ℕ → List ℕ
kept_times window last [] = []
kept_times window none (t ∷ ts) = t ∷ kept_times window (some t) ts
kept_times window (some last) (t ∷ ts) =
    let kept = kept_times window (some t) ts in
    let rest = kept_times window (some last) ts in if leb (last + window) t then t ∷ kept else rest

kept_times-soon :
    (window now : ℕ) (last : Option ℕ) (ts : List ℕ)
    → 0 < window
    → too_soon window now last ≡ true
    → kept_times window last (now ∷ ts) ≡ kept_times window last ts
unfolding kept_times too_soon
kept_times-soon window now none ts w s = cc
kept_times-soon window now (some last) ts w s =
    let early : leb (last + window) now ≡ false = ground arith in rw (kept_times, early) refl

kept_times-late :
    (window now : ℕ) (last : Option ℕ) (ts : List ℕ)
    → 0 < window
    → too_soon window now last ≡ false
    → kept_times window last (now ∷ ts) ≡ now ∷ kept_times window (some now) ts
unfolding kept_times too_soon
kept_times-late window now none ts w s = refl
kept_times-late window now (some last) ts w s =
    let late : leb (last + window) now ≡ true = ground arith in rw (kept_times, late) refl

printed-kept_times :
    (k : String) (calls : List (ℕ × String)) (t : ThrottledLogger)
    → 0 < t.window
    → t.has_logger ≡ true
    → printed k calls t ≡ kept_times t.window (lookup k t.last) (times_of k calls)
unfolding printed times_of kept_times
printed-kept_times k [] t w on = refl
printed-kept_times k ((now, key) ∷ calls) t w on =
    elim (Bool-cases (too_soon t.window now (lookup key t.last))) [
      | inl soon ↦
          rw (printed, silent_too_soon now key t on soon)
            (printed-kept_times k calls t w on ∙ elim (Bool-cases (str_eq key k)) [
              | inl e ↦
                  rw (times_of, e)
                    (sym (
                      kept_times-soon t.window now (lookup k t.last) (times_of k calls) w (
                        subst (λ i. too_soon t.window now (lookup i t.last) ≡ true)
                          ((str_eq_iff key k).0 e) soon)))
              | inr e ↦ rw (times_of, e) refl
            ])
      | inr late ↦
          let later : printed k calls (noted now key t)
              ≡ kept_times t.window (if str_eq key k then some now else lookup k t.last)
                  (times_of k calls) =
            rw lookup-put at (printed-kept_times k calls (noted now key t) w on) in
          rw (printed, prints now key t on late)
            (elim (Bool-cases (str_eq key k)) [
              | inl e ↦
                  rw (times_of, e)
                    (ap (λ ts. now ∷ ts) (rw e at later)
                      ∙ sym (
                          kept_times-late t.window now (lookup k t.last) (times_of k calls) w (
                            subst (λ i. too_soon t.window now (lookup i t.last) ≡ false)
                              ((str_eq_iff key k).0 e) late)))
              | inr e ↦ rw (times_of, e) (rw e at later)
            ])
    ]

-- For any calls, at any times, of a throttled logger that has a logger and a positive window: of the
-- calls of a key exactly those print that the specification keeps for the key alone, and they are at
-- least a window apart, from the last one before the calls on.
pub printed-kept_times-IsSpaced :
    (k : String) (calls : List (ℕ × String)) (t : ThrottledLogger)
    → 0 < t.window
    → t.has_logger ≡ true
    → (printed k calls t ≡ kept_times t.window (lookup k t.last) (times_of k calls))
      × IsSpaced t.window (lookup k t.last) (printed k calls t)
printed-kept_times-IsSpaced k calls t w on =
    (printed-kept_times k calls t w on, printed-IsSpaced k calls t w)
