-- ===== src/Resolutions/Unique.antt =====
-- Loaded entries: no adapter twice, and what a filter leaves of them.
use homer_cli.Base.{
  String, ◌≡◌, refl, sym, ◌∙◌, ap, Bool, true, false, Option, none, some, List, [], ◌∷◌, str_eq,
  str_eq_iff, str_leb, str_leb_refl, if◌then◌else◌, Bool-cases, Option-cases, inl, inr, arith,
}
use mathlib.Core.Path.{subst}
use homer_cli.Base.Dict.{Dict, lookup, put}
use homer_cli.Resolutions.{
  Entry, Codec, Home, Faults, done, sort_entries, insert_entry, values, remaining, taken,
}
use homer_cli.Resolutions.Store.{validate, take_valid, valid_index, load_file}
use homer_cli.Resolutions.Index.{
  last_of, IsIndex, put-IsIndex, last_of-values, last_of-insert_entry, last_of-sort_entries,
}
use homer_cli.Resolutions.Valid.{load_file-IsLoaded}

-- No adapter has two entries.
unfoldable pub IsUnique : List Entry → Type 0
unfolding last_of
IsUnique [] = Unit {0}
IsUnique (e ∷ es) = (last_of none e.adapter es ≡ none) × IsUnique es

not_equal : (e t : Entry) → str_leb e.adapter t.adapter ≡ false → str_eq e.adapter t.adapter ≡ false
not_equal e t l = elim (Bool-cases (str_eq e.adapter t.adapter)) [
  | inl q ↦
      let leb : str_leb e.adapter t.adapter ≡ true =
        subst (λ a. str_leb e.adapter a ≡ true) ((str_eq_iff e.adapter t.adapter).0 q)
          (str_leb_refl e.adapter) in
      absurd (ground arith)
  | inr q ↦ q
]

insert_entry-IsUnique :
    (e : Entry) (es : List Entry)
    → last_of none e.adapter es ≡ none
    → IsUnique es
    → IsUnique (insert_entry e es)
unfolding IsUnique insert_entry last_of
insert_entry-IsUnique e [] n u = (refl, tt)
insert_entry-IsUnique e (t ∷ ts) n u = elim (Bool-cases (str_leb e.adapter t.adapter)) [
  | inl first ↦ rw (insert_entry, first) (n, u)
  | inr later ↦
      let d : str_eq e.adapter t.adapter ≡ false = not_equal e t later in
      let d' : str_eq t.adapter e.adapter ≡ false =
        ground (arith, str_eq_iff e.adapter t.adapter, str_eq_iff t.adapter e.adapter) in
      rw (insert_entry, later)
        (
          rw (last_of-insert_entry, last_of, d) u.0,
          insert_entry-IsUnique e ts (rw (last_of, d') at n) u.1,
        )
]

sort_entries-IsUnique : (es : List Entry) → IsUnique es → IsUnique (sort_entries es)
unfolding IsUnique sort_entries
sort_entries-IsUnique [] u = tt
sort_entries-IsUnique (e ∷ es) u =
    insert_entry-IsUnique e (sort_entries es) (last_of-sort_entries none e.adapter es ∙ u.0)
      (sort_entries-IsUnique es u.1)

values-IsUnique : (d : Dict Entry) → IsIndex d → IsUnique (values d)
unfolding IsUnique IsIndex values
values-IsUnique [] h = tt
values-IsUnique ((a, e) ∷ d) h =
    (last_of-values e.adapter d h.2 ∙ ap (λ k. lookup k d) h.0 ∙ h.1, values-IsUnique d h.2)

module _ {Text Raw : Type 0} (c : Codec Text Raw) where
  valid_index-IsIndex :
      (d : Dict Entry) (os : List (Option Entry)) → IsIndex d → IsIndex (valid_index c d os)
  unfolding valid_index take_valid
  valid_index-IsIndex d [] h = h
  valid_index-IsIndex d (none ∷ os) h = valid_index-IsIndex d os h
  valid_index-IsIndex d (some e ∷ os) h = elim (Option-cases (validate c e)) [
    | inl v ↦
        rw (valid_index, take_valid, v)
          (valid_index-IsIndex (put e.adapter e d) os (put-IsIndex e d h))
    | inr (error, v) ↦ rw (valid_index, take_valid, v) (valid_index-IsIndex d os h)
  ]

  pub load_file-IsUnique :
      (faults : Faults) (h : Home Text) (es : List Entry)
      → load_file c faults h ≡ done es
      → IsUnique es
  unfolding IsIndex
  load_file-IsUnique faults h es e =
      let (os, f) = load_file-IsLoaded c faults h es e in
      subst IsUnique f (
        sort_entries-IsUnique _
          (values-IsUnique (valid_index c [] os) (valid_index-IsIndex [] os tt)))

-- The entry, unless the filter removes it.
unfoldable pub dropped : (Entry → Bool) → Option Entry → Option Entry
dropped p none = none
dropped p (some e) = if p e then none else some e

abbrev first_of : Option Entry → Option Entry → Option Entry
first_of none o = o
first_of (some e) o = some e

first_of-some :
    (x : Option Entry) (e : Entry) (acc : Option Entry)
    → first_of (first_of x (some e)) acc ≡ first_of x (some e)
first_of-some none e acc = refl
first_of-some (some t) e acc = refl

last_of-default :
    (acc : Option Entry) (a : String) (es : List Entry)
    → last_of acc a es ≡ first_of (last_of none a es) acc
unfolding last_of
last_of-default acc a [] = refl
last_of-default acc a (e ∷ es) = elim (Bool-cases (str_eq e.adapter a)) [
  | inl m ↦
      let i : last_of (some e) a es ≡ first_of (last_of none a es) (some e) =
        last_of-default (some e) a es in
      rw (last_of, m)
        (i ∙ sym (ap (λ x. first_of x acc) i ∙ first_of-some (last_of none a es) e acc))
  | inr m ↦ rw (last_of, m) (last_of-default acc a es)
]

pub last_of-remaining :
    (p : Entry → Bool) (es : List Entry) (a : String)
    → IsUnique es
    → last_of none a (remaining p es) ≡ dropped p (last_of none a es)
unfolding IsUnique remaining dropped last_of
last_of-remaining p [] a u = refl
last_of-remaining p (e ∷ es) a u = elim (Bool-cases (str_eq e.adapter a)) [
  | inl m ↦
      let n : last_of none a es ≡ none =
        subst (λ k. last_of none k es ≡ none) ((str_eq_iff e.adapter a).0 m) u.0 in
      let one : last_of (some e) a es ≡ some e =
        last_of-default (some e) a es ∙ ap (λ x. first_of x (some e)) n in
      let rest : last_of none a (remaining p es) ≡ none =
        last_of-remaining p es a u.1 ∙ ap (dropped p) n in
      elim (Bool-cases (p e)) [
        | inl q ↦
            rw (remaining, q, last_of, m) (rest ∙ sym (ap (dropped p) one ∙ rw (dropped, q) refl))
        | inr q ↦
            rw (remaining, q, last_of, m)
              (last_of-default (some e) a (remaining p es)
                ∙ ap (λ x. first_of x (some e)) rest
                ∙ sym (ap (dropped p) one ∙ rw (dropped, q) refl))
      ]
  | inr m ↦ elim (Bool-cases (p e)) [
    | inl q ↦ rw (remaining, q, last_of, m) (last_of-remaining p es a u.1)
    | inr q ↦ rw (remaining, q, last_of, m) (last_of-remaining p es a u.1)
  ]
]

-- A filter that takes nothing leaves everything.
pub taken-none : (p : Entry → Bool) (es : List Entry) → taken p es ≡ [] → remaining p es ≡ es
unfolding taken remaining
taken-none p [] e = refl
taken-none p (t ∷ ts) e = elim (Bool-cases (p t)) [
  | inl q ↦ let r : (t ∷ taken p ts) ≡ [] = rw (taken, q) at e in cc
  | inr q ↦ rw (remaining, q) (ap (λ es. t ∷ es) (taken-none p ts (rw (taken, q) at e)))
]
