-- ===== src/Examples/Scope.antt =====
-- Selections of adapters, and a publication that is limited to one of two.
use homer_cli.Base.{String, ◌≡◌, ◌≢◌, refl, some, List, [], ◌∷◌, contains, All}
use homer_cli.Base.Dict.{lookup}
use homer_cli.Base.Counting.{IsNodup}
use homer_cli.Resolutions.{valid_adapter_id, is_adapter_tail}
use homer_cli.Sync.Scope.{
  selected, parts_of, select_parts, parse_adapter_ids, Store, merge_scoped_store,
}
use homer_cli.Sync.Scope.Selecting.{HasValidId, named, parse_adapter_ids-HasValidId}
use homer_cli.Sync.Scope.Merging.{lookup-merge_scoped_store}

abbrev one_text : String → List String
one_text s = s ∷ []

abbrev as_it_is : String → String
as_it_is s = s

abbrev asked : List String
asked = "pi" ∷ "codex" ∷ "pi" ∷ []

abbrev both : List String
both = "pi" ∷ "codex" ∷ []

asked_twice : parse_adapter_ids one_text as_it_is asked ≡ selected ("pi" ∷ "codex" ∷ [])
unfolding parse_adapter_ids select_parts parts_of contains valid_adapter_id is_adapter_tail
asked_twice = refl

parse_adapter_ids-HasValidId_example :
    (both ≢ [])
    × IsNodup ("pi" ∷ "codex" ∷ [])
    × All HasValidId ("pi" ∷ "codex" ∷ [])
    × ((id : String)
        → contains id ("pi" ∷ "codex" ∷ [])
          ≡ contains id (named as_it_is (parts_of one_text asked)))
parse_adapter_ids-HasValidId_example =
    parse_adapter_ids-HasValidId one_text as_it_is asked ("pi" ∷ "codex" ∷ []) asked_twice

abbrev center : Store
center = ("pi", ("a.json", "old") ∷ []) ∷ ("codex", ("b.json", "kept") ∷ []) ∷ []

abbrev sent : Store
sent = ("pi", ("a.json", "new") ∷ []) ∷ []

lookup-merge_scoped_store_example :
    lookup "pi" (merge_scoped_store center sent ("pi" ∷ [])) ≡ some (("a.json", "new") ∷ [])
unfolding contains lookup
lookup-merge_scoped_store_example = lookup-merge_scoped_store "pi" center sent ("pi" ∷ [])
