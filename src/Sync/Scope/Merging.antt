-- ===== src/Sync/Scope/Merging.antt =====
-- The store that a limited publication makes.
use homer_cli.Base.{
  either_way, String, ◌≡◌, refl, ◌∙◌, ap, none, some, Option, List, [], ◌∷◌, str_eq, str_eq_iff,
  if◌then◌else◌, contains, Bool-cases, inl, inr,
}
use homer_cli.Base.Dict.{Dict, lookup, remove, lookup-put, lookup-remove}
use homer_cli.Sync.Scope.{Store, some_files, put_files, merge_scope, merge_scoped_store}

-- One adapter of the scope.
lookup-replaced :
    (j id : String) (out : Store) (files : Option (Dict String))
    → lookup j (put_files id files (remove id out)) ≡ (if str_eq id j then files else lookup j out)
lookup-replaced j id out none = lookup-remove id j out
lookup-replaced j id out (some fs) =
    rw (lookup-put, lookup-remove)
      (elim (Bool-cases (str_eq id j)) [ inl e ↦ rw e refl | inr e ↦ rw e refl ])

-- For all stores and any scope: of an adapter in the scope, the result has the files of the patch, and
-- has not the adapter where the patch has no file of it; every other adapter is as in the base.
pub lookup-merge_scoped_store :
    (j : String) (base patch : Store) (scope : List String)
    → lookup j (merge_scoped_store base patch scope)
      ≡ (if contains j scope then some_files (lookup j patch) else lookup j base)
unfolding merge_scoped_store merge_scope contains
lookup-merge_scoped_store j base patch [] = refl
lookup-merge_scoped_store j base patch (id ∷ scope) =
    let files = some_files (lookup id patch) in
    lookup-merge_scoped_store j (put_files id files (remove id base)) patch scope
    ∙ rw lookup-replaced (elim (Bool-cases (str_eq id j)) [
      | inl e ↦ rw e (
          either_way (contains j scope) (some_files (lookup j patch)) files
            (ap (λ k. some_files (lookup k patch)) ((str_eq_iff id j).0 e)))
      | inr e ↦ rw e refl
    ])
