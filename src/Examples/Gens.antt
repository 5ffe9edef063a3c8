-- ===== src/Examples/Gens.antt =====
-- A store with generation 1, to which a second one is published.
use homer_cli.Base.{contains, ◌≡◌, refl, none, some, List, [], ◌∷◌}
use homer_cli.Base.Dict.{put}
use homer_cli.Base.Integers.{pos}
use homer_cli.Gens.{
  Tree, empty_tree, missing, names, Disk, with_tree, StoreMap, Fate, succeeds, stops, torn, publish,
  read_generation, safe_store_path, is_abs, segments, joined_segments, kept_segments, read_head,
  store_files, adapter_files, run_actions, actions, perform, tear, write_files, current_generation,
}
use homer_cli.Gens.Outcome.{left_by}
use homer_cli.Gens.Readers.{IsPublished, publish-IsPublished}

abbrev old_tree : Tree
old_tree = record { files = ("claude/a", "1") ∷ []; meta = some "{}" }

abbrev leftover : Tree
leftover = record { files = ("claude/b", "x") ∷ []; meta = none }

abbrev disk : Disk
disk = record {
  trees = with_tree (λ n. none) 1 (some old_tree);
  staging = with_tree (λ n. none) 2 (some leftover);
  head = names (pos 1);
  head_tmp = missing;
}

abbrev store : StoreMap
store = ("claude", ("./a", "2") ∷ []) ∷ []

abbrev good : List Fate
good =
    succeeds ∷ succeeds ∷ succeeds ∷ succeeds ∷ succeeds ∷ succeeds ∷ succeeds ∷ succeeds ∷ succeeds
    ∷ succeeds ∷ []

-- Leftovers that cannot be removed become part of the new generation.
abbrev unremoved : List Fate
unremoved = succeeds ∷ torn (some leftover) ∷ good

-- A crash between the move of the tree and the change of HEAD.
abbrev crash : List Fate
crash =
    succeeds ∷ succeeds ∷ succeeds ∷ succeeds ∷ succeeds ∷ succeeds ∷ succeeds ∷ succeeds ∷ stops
    ∷ []

safe_paths : safe_store_path "./a//b" ≡ some "a/b"
unfolding safe_store_path is_abs contains segments joined_segments kept_segments
safe_paths = refl

unsafe_paths : safe_store_path "a/../../b" ≡ none
unfolding safe_store_path is_abs contains segments joined_segments kept_segments
unsafe_paths = refl

published : (publish store "{}" good disk).1 ≡ some 2
unfolding publish read_generation read_head store_files safe_store_path is_abs contains segments
    joined_segments kept_segments adapter_files run_actions actions perform tear write_files
    current_generation put
published = refl

published_tree :
    read_generation (publish store "{}" good disk).0
    ≡ some (2, some (record { files = ("claude/a", "2") ∷ []; meta = some "{}" }))
unfolding publish read_generation read_head store_files safe_store_path is_abs contains segments
    joined_segments kept_segments adapter_files run_actions actions perform tear write_files
    current_generation put
published_tree = refl

leftovers_published :
    read_generation (publish store "{}" unremoved disk).0
    ≡ some
        (2, some (record { files = ("claude/b", "x") ∷ ("claude/a", "2") ∷ []; meta = some "{}" }))
unfolding publish read_generation read_head store_files safe_store_path is_abs contains segments
    joined_segments kept_segments adapter_files run_actions actions perform tear write_files
    current_generation put
leftovers_published = refl

crash_unseen : read_generation (publish store "{}" crash disk).0 ≡ some (1, some old_tree)
unfolding publish read_generation read_head store_files safe_store_path is_abs contains segments
    joined_segments kept_segments adapter_files run_actions actions perform tear write_files
    current_generation put
crash_unseen = refl

-- After that crash no generation can be published any more.
crash_blocks : (publish store "{}" good (publish store "{}" crash disk).0).1 ≡ none
unfolding publish read_generation read_head store_files safe_store_path is_abs contains segments
    joined_segments kept_segments adapter_files run_actions actions perform tear write_files
    current_generation put
crash_blocks = refl

publish-IsPublished_example : IsPublished store "{}" empty_tree disk (publish store "{}" good disk)
unfolding left_by
publish-IsPublished_example = publish-IsPublished store "{}" good disk
