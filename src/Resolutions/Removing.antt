-- ===== src/Resolutions/Removing.antt =====
-- What the file has after `Clear` and `RemoveIfSame`.
use homer_cli.Base.{
  String, ◌≡◌, ◌⊎◌, refl, sym, ◌∙◌, ap, Bool, Option, none, some, List, [], ◌∷◌, inl, inr,
  if◌then◌else◌,
}
use homer_cli.Base.Dict.{lookup}
use homer_cli.Resolutions.{
  Entry, Codec, Home, done, no_faults, index, taken, remaining, still_expected, is_expected,
}
use homer_cli.Resolutions.Store.{load_file, remove_entries, remove_if_same}
use homer_cli.Resolutions.Index.{last_of, lookup-index_onto}
use homer_cli.Resolutions.Valid.{remaining-All, load_file-All, IsValid}
use homer_cli.Resolutions.Unique.{dropped, load_file-IsUnique, last_of-remaining, taken-none}
use homer_cli.Resolutions.Saving.{IsCodec, save_entries-Holds}

pub List-cases {ℓ} :
    {A : Type ℓ} (xs : List A) → (xs ≡ []) ⊎ ((x : A) × (ys : List A) × (xs ≡ x ∷ ys))
List-cases [] = inl refl
List-cases (x ∷ xs) = inr (x, xs, refl)

dropped-still_expected :
    (consumed : List Entry) (o : Option Entry)
    → dropped (still_expected (index consumed)) o
      ≡ dropped (λ e. is_expected e (last_of none e.adapter consumed)) o
unfolding dropped still_expected index lookup
dropped-still_expected consumed none = refl
dropped-still_expected consumed (some e) =
    ap (λ x. if is_expected e x then none else some e) (lookup-index_onto e.adapter [] consumed)

nothing_consumed :
    (o : Option Entry) → dropped (λ e. is_expected e (last_of none e.adapter [])) o ≡ o
unfolding dropped last_of
nothing_consumed none = refl
nothing_consumed (some e) = refl

module _ {Text Raw : Type 0} (c : Codec Text Raw) (law : IsCodec c) where
  remove_entries-Holds :
      (p : Entry → Bool) (h : Home Text) (current : List Entry)
      → load_file c no_faults h ≡ done current
      → (after : Home Text) × (remove_entries c no_faults p h ≡ (after, done (taken p current)))
        × ((found : List Entry) × (load_file c no_faults after ≡ done found)
            × ((a : String) → last_of none a found ≡ dropped p (last_of none a current)))
  unfolding remove_entries
  remove_entries-Holds p h current l =
      let u = load_file-IsUnique c no_faults h current l in
      elim (List-cases (taken p current)) [
        | inl t ↦ (
          h,
          rw (remove_entries, l, t) refl,
          (
            current,
            l,
            λ a.
                ap (last_of none a) (sym (taken-none p current t))
                ∙ last_of-remaining p current a u,
          ),
        )
        | inr (e, es, t) ↦
            let (after, saved, (found, loaded, same)) =
              save_entries-Holds c law (remaining p current) h
                (remaining-All (IsValid c) p current (load_file-All c no_faults h current l)) in
            (
              after,
              rw (remove_entries, l, t, saved) refl,
              (found, loaded, λ a. same a ∙ last_of-remaining p current a u),
            )
      ]

  -- For a codec that meets its laws and a file that can be read, where no call of the system fails:
  -- removing consumed decisions succeeds. What the file then has for an adapter is what it had before,
  -- but nothing where that agrees in all four fields with the last consumed decision of the adapter.
  pub remove_if_same-Holds :
      (consumed : List Entry) (h : Home Text) (current : List Entry)
      → load_file c no_faults h ≡ done current
      → (after : Home Text) × (removed : List Entry) × (remove_if_same c no_faults consumed h
          ≡ (after, done removed))
        × ((found : List Entry) × (load_file c no_faults after ≡ done found)
            × ((a : String)
                → last_of none a found
                  ≡ dropped
                      (λ e. is_expected e (last_of none e.adapter consumed))
                      (last_of none a current)))
  unfolding remove_if_same
  remove_if_same-Holds [] h current l =
      (h, [], refl, (current, l, λ a. sym (nothing_consumed (last_of none a current))))
  remove_if_same-Holds (e ∷ es) h current l =
      let (after, done_so, (found, loaded, same)) =
        remove_entries-Holds (still_expected (index (e ∷ es))) h current l in
      (
        after,
        taken (still_expected (index (e ∷ es))) current,
        done_so,
        (found, loaded, λ a. same a ∙ dropped-still_expected (e ∷ es) (last_of none a current)),
      )
