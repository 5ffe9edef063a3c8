-- ===== src/Resolutions/Saving.antt =====
-- What a saved file gives when it is loaded.
use homer_cli.Base.{String, ◌≡◌, refl, ◌∙◌, none, some, List, [], ◌∷◌, All, Option-cases, inl, inr}
use homer_cli.Base.Dict.{Dict, lookup}
use homer_cli.Base.Integers.{pos}
use homer_cli.Resolutions.{Entry, Codec, Home, done, no_faults, sort_entries, values, index_onto}
use homer_cli.Resolutions.Store.{
  file_version, decode_entries, decode_file, load_file, write_entries, save_entries,
}
use homer_cli.Resolutions.Index.{
  last_of, lookup-index_onto, last_of-sort_entries, last_of-values, IsIndex, index_onto-IsIndex,
}
use homer_cli.Resolutions.Valid.{
  IsValid, somes, first_error-none, valid_index-somes, sort_entries-All,
}

-- What the store relies on: a file that was encoded decodes to its version and its entries.
pub record IsCodec {Text Raw : Type 0} (c : Codec Text Raw) : Type 0 where
  pub document : List Entry → Dict Raw
  pub version_data : List Entry → Raw
  pub entries_data : List Entry → Raw
  pub raws : List Entry → List Raw
  pub decoded : (es : List Entry) → c.decode_document (c.encode_file es) ≡ some (document es)
  pub has_version : (es : List Entry) → lookup "version" (document es) ≡ some (version_data es)
  pub version : (es : List Entry) → c.decode_version (version_data es) ≡ some (pos 1)
  pub has_entries : (es : List Entry) → lookup "entries" (document es) ≡ some (entries_data es)
  pub list_decoded : (es : List Entry) → c.decode_list (entries_data es) ≡ some (raws es)
  pub entries : (es : List Entry) → decode_entries c (raws es) ≡ somes es

module _ {Text Raw : Type 0} (c : Codec Text Raw) (law : IsCodec c) where
  decode_file-encode_file :
      (es : List Entry)
      → All (IsValid c) es
      → decode_file c (c.encode_file es) ≡ done (sort_entries (values (index_onto [] es)))
  unfolding decode_file
  decode_file-encode_file es h =
      rw
        (
          law.decoded es,
          law.has_version es,
          law.version es,
          law.has_entries es,
          law.list_decoded es,
          law.entries es,
          valid_index-somes c [] es h,
        )
        refl

  -- The entries that a home has, adapter by adapter.
  abbrev pub Holds : Home Text → List Entry → Type 0
  Holds h es =
      (found : List Entry) × (load_file c no_faults h ≡ done found)
      × ((a : String) → last_of none a found ≡ last_of none a es)

  last_of-saved :
      (a : String) (es : List Entry)
      → last_of none a (sort_entries (values (index_onto [] es))) ≡ last_of none a es
  unfolding lookup IsIndex
  last_of-saved a es =
      last_of-sort_entries none a (values (index_onto [] es))
      ∙ last_of-values a (index_onto [] es) (index_onto-IsIndex [] es tt)
      ∙ lookup-index_onto a [] es

  write_entries-Holds :
      (es : List Entry) (h : Home Text)
      → All (IsValid c) es
      → (after : Home Text) × (write_entries c no_faults es h ≡ (after, none)) × Holds after es
  unfolding write_entries load_file
  write_entries-Holds [] h v = elim (Option-cases h.file) [
    | inl e ↦ (h, simp (write_entries, e), ([], rw (load_file, e) refl, λ a. refl))
    | inr (t, e) ↦ (record h { file = none }, rw (write_entries, e) refl, ([], refl, λ a. refl))
  ]
  write_entries-Holds (e ∷ es) h v =
      let sorted = sort_entries (e ∷ es) in
      (
        record h { file = some (c.encode_file sorted) },
        refl,
        (
          sort_entries (values (index_onto [] sorted)),
          decode_file-encode_file sorted (sort_entries-All (IsValid c) (e ∷ es) v),
          λ a. last_of-saved a sorted ∙ last_of-sort_entries none a (e ∷ es),
        ),
      )

  -- Valid entries can be saved, and then the file has them.
  pub save_entries-Holds :
      (es : List Entry) (h : Home Text)
      → All (IsValid c) es
      → (after : Home Text) × (save_entries c no_faults file_version es h ≡ (after, none))
        × Holds after es
  unfolding save_entries
  save_entries-Holds es h v =
      let (after, e, holds) = write_entries-Holds es h v in
      (after, rw (save_entries, first_error-none c es v) e, holds)
