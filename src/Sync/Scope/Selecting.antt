-- ===== src/Sync/Scope/Selecting.antt =====
-- What a selection of adapters has.
use homer_cli.Base.{
  String, ◌≡◌, ◌≢◌, refl, ◌∙◌, Bool, true, ◌||◌, List, [], ◌∷◌, ◌++◌, str_eq, str_eq_iff,
  if◌then◌else◌, contains, contains-append, arith, Bool-cases, inl, inr, All, All-append,
}
use mathlib.Core.Path.{subst}
use homer_cli.Base.Counting.{IsNodup, IsNodup-append_one}
use homer_cli.Resolutions.{valid_adapter_id}
use homer_cli.Sync.Scope.{
  Selection, selected, invalid_id, none_selected, parts_of, select_parts, parse_adapter_ids,
}

abbrev pub HasValidId : String → Type 0
HasValidId id = valid_adapter_id id ≡ true

selected-injective : {xs ys : List String} → selected xs ≡ selected ys → xs ≡ ys
selected-injective e = cc

already :
    (j id : String) (out : List String) (later : Bool)
    → contains id out ≡ true
    → (contains j out || later) ≡ (contains j out || (str_eq id j || later))
already j id out later old = elim (Bool-cases (str_eq id j)) [
  | inl e ↦
      let there : contains j out ≡ true =
        subst (λ k. contains k out ≡ true) ((str_eq_iff id j).0 e) old in
      ground arith
  | inr e ↦ ground arith
]

-- The texts between the commas, trimmed, without the blank ones.
unfoldable pub named : (String → String) → List String → List String
named trim_space [] = []
named trim_space (part ∷ parts) =
    let rest = named trim_space parts in
    let id = trim_space part in if str_eq id "" then rest else id ∷ rest

module _ (split_commas : String → List String) (trim_space : String → String) where
  -- No adapter twice, all valid, and those of `out` and of the parts.
  abbrev IsSelected : List String → List String → List String → Type 0
  IsSelected out parts ids =
      IsNodup ids
      × All HasValidId ids
      × ((id : String)
          → contains id ids ≡ (contains id out || contains id (named trim_space parts)))

  select_parts-IsSelected :
      (out parts ids : List String)
      → select_parts split_commas trim_space out parts ≡ selected ids
      → IsNodup out
      → All HasValidId out
      → IsSelected out parts ids
  unfolding select_parts named contains
  select_parts-IsSelected out [] ids e n v =
      subst (IsSelected out []) (selected-injective e) (n, v, λ j. ground arith)
  select_parts-IsSelected out (part ∷ parts) ids e n v =
      let id = trim_space part in
      elim (Bool-cases (str_eq id "")) [
        | inl blank ↦
            rw (named, blank)
              (select_parts-IsSelected out parts ids (rw (select_parts, blank) at e) n v)
        | inr filled ↦ elim (Bool-cases (valid_adapter_id id)) [
          | inr bad ↦
              let q : invalid_id id ≡ selected ids = rw (select_parts, filled, bad) at e in cc
          | inl good ↦ elim (Bool-cases (contains id out)) [
            | inl old ↦
                let (n', v', c) =
                  select_parts-IsSelected out parts ids (rw (select_parts, filled, good, old) at e)
                    n v in
                rw (named, filled)
                  (n', v', λ j. c j ∙ already j id out (contains j (named trim_space parts)) old)
            | inr new ↦
                let (n', v', c) =
                  select_parts-IsSelected (out ++ id ∷ []) parts ids
                    (rw (select_parts, filled, good, new) at e) (IsNodup-append_one id out new n)
                    (All-append HasValidId out id v good) in
                rw (named, filled)
                  (n', v', λ j. c j ∙ ground (arith, contains-append j out (id ∷ [])))
          ]
        ]
      ]

  -- For any texts, where the selection of adapters succeeds: it has at least one adapter, none twice and
  -- only valid IDs, and they are exactly the texts between the commas, trimmed, that are not blank.
  pub parse_adapter_ids-HasValidId :
      (texts ids : List String)
      → parse_adapter_ids split_commas trim_space texts ≡ selected ids
      → (ids ≢ [])
        × IsNodup ids
        × All HasValidId ids
        × ((id : String)
            → contains id ids ≡ contains id (named trim_space (parts_of split_commas texts)))
  unfolding parse_adapter_ids contains
  parse_adapter_ids-HasValidId texts ids e =
      outcome (select_parts split_commas trim_space [] (parts_of split_commas texts)) refl
    where
      outcome :
          (r : Selection)
          → select_parts split_commas trim_space [] (parts_of split_commas texts) ≡ r
          → (ids ≢ [])
            × IsNodup ids
            × All HasValidId ids
            × ((id : String)
                → contains id ids ≡ contains id (named trim_space (parts_of split_commas texts)))
      outcome none_selected f =
          let q : none_selected ≡ selected ids = rw (parse_adapter_ids, f) at e in cc
      outcome (invalid_id id) f =
          let q : invalid_id id ≡ selected ids = rw (parse_adapter_ids, f) at e in cc
      outcome (selected []) f =
          let q : none_selected ≡ selected ids = rw (parse_adapter_ids, f) at e in cc
      outcome (selected (x ∷ xs)) f =
          let q : selected (x ∷ xs) ≡ selected ids = rw (parse_adapter_ids, f) at e in
          let (nodup, valid, same) =
            select_parts-IsSelected [] (parts_of split_commas texts) ids (f ∙ q) tt tt in
          (λ empty. cc, nodup, valid, same)
