-- ===== src/Resolutions/Valid.antt =====
-- Entries that pass `validate`, and what they keep doing so through.
use homer_cli.Base.{
  All, String, ◌≡◌, refl, Bool, Option, none, some, List, [], ◌∷◌, str_eq, str_leb, Bool-cases,
  Option-cases, inl, inr,
}
use mathlib.Core.Path.{subst}
use homer_cli.Base.Integers.{int_eq}
use homer_cli.Base.Dict.{Dict, lookup, put}
use homer_cli.Resolutions.{
  Entry, Codec, Attempt, done, failed, unsupported_version, read_failed, Faults, Home, index_onto,
  insert_entry, sort_entries, values, remaining,
}
use homer_cli.Resolutions.Store.{
  validate, first_error, valid_index, take_valid, decode_file, decode_entries, decode_rest,
  and_then, or_corrupt, file_version, load_file,
}

unfoldable pub somes : List Entry → List (Option Entry)
somes [] = []
somes (e ∷ es) = some e ∷ somes es

module _ (P : Entry → Type 0) where
  insert_entry-All : (e : Entry) (es : List Entry) → P e → All P es → All P (insert_entry e es)
  unfolding insert_entry
  insert_entry-All e [] p h = (p, tt)
  insert_entry-All e (t ∷ ts) p h = elim (Bool-cases (str_leb e.adapter t.adapter)) [
    | inl first ↦ rw (insert_entry, first) (p, h)
    | inr later ↦ rw (insert_entry, later) (h.0, insert_entry-All e ts p h.1)
  ]

  pub sort_entries-All : (es : List Entry) → All P es → All P (sort_entries es)
  unfolding sort_entries
  sort_entries-All [] h = tt
  sort_entries-All (e ∷ es) h = insert_entry-All e (sort_entries es) h.0 (sort_entries-All es h.1)

  pub put-All :
      (a : String) (e : Entry) (d : Dict Entry)
      → P e
      → All P (values d)
      → All P (values (put a e d))
  unfolding values put
  put-All a e [] p h = (p, tt)
  put-All a e ((b, x) ∷ d) p h = elim (Bool-cases (str_eq b a)) [
    | inl same ↦ rw (put, same) (p, h.1)
    | inr other ↦ rw (put, other) (h.0, put-All a e d p h.1)
  ]

  pub index_onto-All :
      (d : Dict Entry) (es : List Entry)
      → All P (values d)
      → All P es
      → All P (values (index_onto d es))
  unfolding index_onto
  index_onto-All d [] h g = h
  index_onto-All d (e ∷ es) h g =
      index_onto-All (put e.adapter e d) es (put-All e.adapter e d g.0 h) g.1

  pub remaining-All : (p : Entry → Bool) (es : List Entry) → All P es → All P (remaining p es)
  unfolding remaining
  remaining-All p [] h = tt
  remaining-All p (e ∷ es) h = elim (Bool-cases (p e)) [
    | inl gone ↦ rw (remaining, gone) (remaining-All p es h.1)
    | inr kept ↦ rw (remaining, kept) (h.0, remaining-All p es h.1)
  ]

module _ {Text Raw : Type 0} (c : Codec Text Raw) where
  abbrev pub IsValid : Entry → Type 0
  IsValid e = validate c e ≡ none

  pub first_error-none : (es : List Entry) → All IsValid es → first_error c es ≡ none
  unfolding first_error
  first_error-none [] h = refl
  first_error-none (e ∷ es) h = rw (first_error, h.0) (first_error-none es h.1)

  take_valid-All :
      (d : Dict Entry) (o : Option Entry)
      → All IsValid (values d)
      → All IsValid (values (take_valid c d o))
  unfolding take_valid
  take_valid-All d none h = h
  take_valid-All d (some e) h = elim (Option-cases (validate c e)) [
    | inl v ↦ rw (take_valid, v) (put-All IsValid e.adapter e d v h)
    | inr (error, v) ↦ rw (take_valid, v) h
  ]

  pub valid_index-All :
      (d : Dict Entry) (os : List (Option Entry))
      → All IsValid (values d)
      → All IsValid (values (valid_index c d os))
  unfolding valid_index
  valid_index-All d [] h = h
  valid_index-All d (o ∷ os) h = valid_index-All (take_valid c d o) os (take_valid-All d o h)

  -- Valid entries are taken as they are.
  pub valid_index-somes :
      (d : Dict Entry) (es : List Entry)
      → All IsValid es
      → valid_index c d (somes es) ≡ index_onto d es
  unfolding valid_index index_onto somes take_valid
  valid_index-somes d [] h = refl
  valid_index-somes d (e ∷ es) h =
      rw (valid_index, take_valid, h.0) (valid_index-somes (put e.adapter e d) es h.1)

  and_then-done :
      {A B : Type 0} (x : Attempt A) (f : A → Attempt B) (b : B)
      → and_then x f ≡ done b
      → (a : A) × (x ≡ done a) × (f a ≡ done b)
  and_then-done (done a) f b e = (a, refl, e)
  and_then-done (failed error) f b e = cc

  done-injective : {A : Type 0} {a b : A} → done a ≡ done b → a ≡ b
  done-injective e = cc

  -- What is loaded is an index of valid entries, as a sorted list.
  abbrev pub IsLoaded : List Entry → Type 0
  IsLoaded es = (os : List (Option Entry)) × (sort_entries (values (valid_index c [] os)) ≡ es)

  decode_rest-IsLoaded :
      (document : Dict Raw) (es : List Entry) → decode_rest c document ≡ done es → IsLoaded es
  unfolding decode_rest
  decode_rest-IsLoaded document es e =
      let (entries_data, _, e1) = and_then-done (or_corrupt (lookup "entries" document)) _ es e in
      let (raws, _, e2) = and_then-done (or_corrupt (c.decode_list entries_data)) _ es e1 in
      (decode_entries c raws, done-injective e2)

  decode_file-IsLoaded : (t : Text) (es : List Entry) → decode_file c t ≡ done es → IsLoaded es
  unfolding decode_file
  decode_file-IsLoaded t es e =
      let (document, _, e1) = and_then-done (or_corrupt (c.decode_document t)) _ es e in
      let (version_data, _, e2) = and_then-done (or_corrupt (lookup "version" document)) _ es e1 in
      let (version, _, e3) = and_then-done (or_corrupt (c.decode_version version_data)) _ es e2 in
      elim (Bool-cases (int_eq version file_version)) [
        | inl v ↦ decode_rest-IsLoaded document es (rw v at e3)
        | inr v ↦ let q : failed unsupported_version ≡ done es = rw v at e3 in cc
      ]

  pub load_file-IsLoaded :
      (faults : Faults) (h : Home Text) (es : List Entry)
      → load_file c faults h ≡ done es
      → IsLoaded es
  unfolding load_file sort_entries values valid_index
  load_file-IsLoaded faults h es e = elim (Option-cases h.file) [
    | inl f ↦ let q : done [] ≡ done es = rw (load_file, f) at e in ([], done-injective q)
    | inr (t, f) ↦ elim (Bool-cases faults.read) [
      | inl r ↦ let q : failed read_failed ≡ done es = rw (load_file, f, r) at e in cc
      | inr r ↦ decode_file-IsLoaded t es (rw (load_file, f, r) at e)
    ]
  ]

  -- Loaded entries are valid.
  pub load_file-All :
      (faults : Faults) (h : Home Text) (es : List Entry)
      → load_file c faults h ≡ done es
      → All IsValid es
  unfolding values
  load_file-All faults h es e =
      let (os, f) = load_file-IsLoaded faults h es e in
      subst (All IsValid) f (sort_entries-All IsValid _ (valid_index-All [] os tt))
