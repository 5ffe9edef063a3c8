-- ===== src/Gens/Readers.antt =====
-- What readers of the store see of `Publish`.
use homer_cli.Base.{
  ltb, ℕ, ◌+◌, ◌==◌, ◌≡◌, ◌⊎◌, inl, inr, refl, ap, ◌∙◌, String, Bool, true, false, Option, none,
  some, List, arith, if◌then◌else◌, Bool-cases,
}
use homer_cli.Base.Integers.{pos, negsuc}
use homer_cli.Gens.{
  Tree, HeadFile, missing, malformed, names, Disk, with_tree, read_head, read_generation,
  generation_or_zero, current_generation, StoreMap, store_files, StoreEntry, Fate, numbered,
  publish_files, publish,
}
use homer_cli.Gens.Crash.{whole_tree, with_tree_same, with_tree_other}
use homer_cli.Gens.Outcome.{left_by, IsOutcome, run_actions-actions-IsOutcome}

-- Readers who see the generation before the next do not see what is in the next one's place.
read_head-with_tree :
    (h : HeadFile) (trees : ℕ → Option Tree) (t : Option Tree)
    → read_head h (with_tree trees (generation_or_zero (read_head h trees) + 1) t)
      ≡ read_head h trees
unfolding read_head
read_head-with_tree missing trees t = refl
read_head-with_tree malformed trees t = refl
read_head-with_tree (names (negsuc n)) trees t = refl
read_head-with_tree (names (pos n)) trees t = at_number (ltb 0 n)
  where
    seen : Bool → (ℕ → Option Tree) → Option (ℕ × Option Tree)
    seen b f = if b then some (n, f n) else none

    at_number :
        (b : Bool)
        → seen b (with_tree trees (generation_or_zero (seen b trees) + 1) t) ≡ seen b trees
    at_number true = ap (λ (u : Option Tree). some (n, u)) (with_tree_other trees n t)
    at_number false = refl

read_head-named :
    (n : ℕ) (trees : ℕ → Option Tree)
    → read_head (names (pos (n + 1))) trees ≡ some (n + 1, trees (n + 1))
unfolding read_head
read_head-named n trees = ground arith

-- A tree that was there is there.
abbrev IsUntouched : Disk → Disk → Type 0
IsUntouched d d' = (m : ℕ) → (d'.trees m ≡ d.trees m) ⊎ (d.trees m ≡ none)

-- What `Publish` promises of the disk it leaves and of its result.
unfoldable pub IsPublished : StoreMap → String → Tree → Disk → Disk × Option ℕ → Type 0
IsPublished store meta left d (d', none) =
    (read_generation d' ≡ read_generation d) × IsUntouched d d'
IsPublished store meta left d (d', some n) =
    (n ≡ current_generation d + 1)
    × (d.trees n ≡ none)
    × ((files : List StoreEntry) × ((store_files store ≡ some files)
          × (read_generation d' ≡ some (n, some (whole_tree left files meta)))))
    × IsUntouched d d'

with_tree-IsUntouched :
    (d d' : Disk) (n : ℕ) (t : Option Tree)
    → d.trees n ≡ none
    → d'.trees ≡ with_tree d.trees n t
    → IsUntouched d d'
with_tree-IsUntouched d d' n t free e m = elim (Bool-cases (n == m)) [
  | inl h ↦ let same : m ≡ n = ground arith in inr (ap d.trees same ∙ free)
  | inr h ↦ inl (ap (λ f. f m) e ∙ ap (λ b. if b then t else d.trees m) h)
]

outcome-IsPublished :
    (store : StoreMap) (left : Tree) (files : List StoreEntry) (meta : String) (d : Disk)
    (r : Disk × Bool)
    → store_files store ≡ some files
    → IsOutcome (current_generation d + 1) left files meta d r
    → IsPublished store meta left d (numbered (current_generation d + 1) r)
unfolding IsPublished read_generation current_generation
outcome-IsPublished store left files meta d (d', false) e (h, inl k) =
    (ap (λ x. read_head x d'.trees) h ∙ ap (read_head d.head) k, (λ m. inl (ap (λ f. f m) k)))
outcome-IsPublished store left files meta d (d', false) e (h, inr (t, (free, k))) = (
  ap (λ x. read_head x d'.trees) h ∙ ap (read_head d.head) k ∙ read_head-with_tree d.head d.trees t,
  with_tree-IsUntouched d d' (current_generation d + 1) t free k,
)
outcome-IsPublished store left files meta d (d', true) e (h, free, k) =
    let n : ℕ = current_generation d in
    let new : Option Tree = some (whole_tree left files meta) in
    (
      refl,
      free,
      (
        files,
        (
          e,
          ap (λ x. read_head x d'.trees) h
              ∙ ap (read_head (names (pos (n + 1)))) k
              ∙ read_head-named n (with_tree d.trees (n + 1) new)
              ∙ ap (λ (u : Option Tree). some (n + 1, u)) (with_tree_same d.trees (n + 1) new),
        ),
      ),
      with_tree-IsUntouched d d' (n + 1) new free k,
    )

-- Whatever becomes of each call of the system: if `Publish` gives an error or the program stops, `Read`
-- gives what it gave before; if it gives a number, that is the next one after the live generation's,
-- there was no directory for it, and `Read` gives it with a tree that has the text given as homer.json
-- and the files of the store, written over what the removal of an earlier attempt's tree has left where
-- it failed, and over no files where it succeeded. Either way every number whose directory was there has
-- the directory it had.
pub publish-IsPublished :
    (store : StoreMap) (meta : String) (fates : List Fate) (d : Disk)
    → IsPublished store meta (left_by fates) d (publish store meta fates d)
unfolding publish IsPublished
publish-IsPublished store meta fates d = from_files (store_files store) refl
  where
    from_files :
        (o : Option (List StoreEntry))
        → store_files store ≡ o
        → IsPublished store meta (left_by fates) d (publish_files o meta fates d)
    from_files none e = (refl, (λ m. inl refl))
    from_files (some files) e =
        outcome-IsPublished store (left_by fates) files meta d _ e
          (run_actions-actions-IsOutcome (current_generation d + 1) files meta d fates)
