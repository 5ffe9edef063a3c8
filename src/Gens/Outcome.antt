-- ===== src/Gens/Outcome.antt =====
-- What the calls of `Publish` come to, wherever they stop.
use homer_cli.Base.{
  ℕ, ◌≡◌, ◌⊎◌, inl, inr, refl, ap, ◌∙◌, String, Bool, true, false, Option, none, some, List, [],
  ◌∷◌, ◌++◌, Option-cases,
}
use homer_cli.Base.Integers.{pos}
use homer_cli.Gens.{
  Tree, empty_tree, names, Disk, with_tree, or_empty, StoreEntry, Action, make_store, write_meta,
  move_tree, write_head_tmp, flip_head, write_files, actions, Fate, succeeds, stops, torn, perform,
  tear, run_actions,
}
use homer_cli.Gens.Crash.{
  whole_tree, step, run_actions-write_files, tear-IsKept, run_actions-taken, with_tree_same,
  run_actions-last, IsKept, put_all, staged,
}

-- The tree that the failed removal of an earlier attempt's has left.
unfoldable pub left_by : List Fate → Tree
left_by (fate ∷ torn t ∷ fates) = or_empty t
left_by fates = empty_tree

perform-make_store :
    (n : ℕ) (d : Disk) (t : Option Tree)
    → d.staging n ≡ t
    → perform n make_store d ≡ some (staged n (or_empty t) d)
unfolding perform
perform-make_store n d t e = ap (λ (s : Option Tree). some (staged n (or_empty s) d)) e

-- What the calls come to: nothing that readers see, a generation that HEAD does not name, or the
-- new generation, written over the tree `left`.
abbrev pub IsOutcome : ℕ → Tree → List StoreEntry → String → Disk → Disk × Bool → Type 0
IsOutcome n left files meta d (d', false) =
    (d'.head ≡ d.head)
    × ((d'.trees ≡ d.trees)
        ⊎ ((t : Option Tree) × ((d.trees n ≡ none) × (d'.trees ≡ with_tree d.trees n t))))
IsOutcome n left files meta d (d', true) =
    (d'.head ≡ names (pos n))
    × (d.trees n ≡ none)
    × (d'.trees ≡ with_tree d.trees n (some (whole_tree left files meta)))

run_actions-last-IsOutcome :
    (n : ℕ) (files : List StoreEntry) (t : Tree) (meta : String) (start d : Disk)
    → IsKept start d
    → d.staging n ≡ some (record t { files = put_all files t.files })
    → (fates : List Fate)
    → IsOutcome n t files meta start
        (run_actions n (write_meta meta ∷ move_tree ∷ write_head_tmp ∷ flip_head ∷ []) fates d)
unfolding whole_tree
run_actions-last-IsOutcome n files t meta start d k e fates = elim (Option-cases (start.trees n)) [
  | inl free ↦
      run_actions-last (IsOutcome n t files meta start) n
        (record t { files = put_all files t.files }) meta d e (ap (λ f. f n) k.1 ∙ free)
        (λ d' k'. (k'.0 ∙ k.0, inl (k'.1 ∙ k.1)))
        (λ d' h ts. (h ∙ k.0, inr (some (whole_tree t files meta), (free, ts ∙ moved_to))))
        (λ d' h ts. (h, free, ts ∙ moved_to)) fates
  | inr (there, full) ↦
      run_actions-taken (IsOutcome n t files meta start) n
        (record t { files = put_all files t.files }) there meta d e (ap (λ f. f n) k.1 ∙ full)
        (λ d' k'. (k'.0 ∙ k.0, inl (k'.1 ∙ k.1))) fates
]
  where
    moved_to :
        with_tree d.trees n (some (whole_tree t files meta))
        ≡ with_tree start.trees n (some (whole_tree t files meta))
    moved_to = ap (λ f. with_tree f n (some (whole_tree t files meta))) k.1

-- The calls behind the removal.
stored-IsOutcome :
    (n : ℕ) (files : List StoreEntry) (meta : String) (d : Disk) (t : Option Tree)
    (fates : List Fate)
    → IsOutcome n (or_empty t) files meta d (
        run_actions n
          (make_store ∷ write_files files
            ++ write_meta meta ∷ move_tree ∷ write_head_tmp ∷ flip_head ∷ [])
          fates
          (record d { staging = with_tree d.staging n t }))
unfolding run_actions
stored-IsOutcome n files meta d t =
    let x : Disk = record d { staging = with_tree d.staging n t } in
    let rest : List Action = write_meta meta ∷ move_tree ∷ write_head_tmp ∷ flip_head ∷ [] in
    let left : Tree = or_empty t in
    let Q : Disk × Bool → Type 0 = IsOutcome n left files meta d in
    let unseen : (d' : Disk) → IsKept d d' → Q (d', false) = λ d' k. (k.0, inl k.1) in
    step Q n make_store (write_files files ++ rest) x (staged n left x)
      (perform-make_store n x t (with_tree_same d.staging n t)) (λ u fates. refl)
      (unseen x (refl, refl))
      (λ u. unseen (tear n make_store u x) (tear-IsKept n make_store u d x (refl, refl)))
      (run_actions-write_files Q n files rest left d (staged n left x) unseen
        (λ d' k e. run_actions-last-IsOutcome n files left meta d d' k e) (refl, refl)
        (with_tree_same x.staging n (some left)))

pub run_actions-actions-IsOutcome :
    (n : ℕ) (files : List StoreEntry) (meta : String) (d : Disk) (fates : List Fate)
    → IsOutcome n (left_by fates) files meta d (run_actions n (actions files meta) fates d)
unfolding actions perform run_actions left_by tear
run_actions-actions-IsOutcome n files meta d [] = (refl, inl refl)
run_actions-actions-IsOutcome n files meta d (stops ∷ fates) = (refl, inl refl)
run_actions-actions-IsOutcome n files meta d (torn u ∷ fates) = (refl, inl refl)
run_actions-actions-IsOutcome n files meta d (succeeds ∷ []) = (refl, inl refl)
run_actions-actions-IsOutcome n files meta d (succeeds ∷ stops ∷ fates) = (refl, inl refl)
run_actions-actions-IsOutcome n files meta d (succeeds ∷ torn t ∷ fates) =
    stored-IsOutcome n files meta d t fates
run_actions-actions-IsOutcome n files meta d (succeeds ∷ succeeds ∷ fates) =
    stored-IsOutcome n files meta d none fates
