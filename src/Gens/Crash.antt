-- ===== src/Gens/Crash.antt =====
-- The calls of `Publish`, whatever becomes of them: each leads to a disk of which a predicate holds.
use mathlib.Core.Path.{subst}
use homer_cli.Base.{
  ℕ, ◌+◌, ◌≡◌, refl, ap, sym, ◌∙◌, String, Bool, true, false, Option, none, some, List, [], ◌∷◌,
  ◌++◌, arith,
}
use homer_cli.Base.Dict.{Dict, put}
use homer_cli.Base.Integers.{pos}
use homer_cli.Gens.{
  Tree, missing, names, Disk, with_tree, StoreEntry, directory, file, Action, make_directory,
  write_file, write_meta, move_tree, write_head_tmp, flip_head, write_files, edited, moved, Fate,
  succeeds, stops, torn, perform, tear, run_actions,
}

-- Files written one after another.
unfoldable pub put_all : List StoreEntry → Dict String → Dict String
put_all [] m = m
put_all (directory ∷ files) m = put_all files m
put_all (file path content ∷ files) m = put_all files (put path content m)

-- The whole new generation, on what an earlier attempt has left behind.
unfoldable pub whole_tree : Tree → List StoreEntry → String → Tree
whole_tree t files meta = record { files = put_all files t.files; meta = some meta }

-- One call, whatever becomes of it.
pub step :
    (Q : Disk × Bool → Type 0) (n : ℕ) (a : Action) (rest : List Action) (d d' : Disk)
    → perform n a d ≡ some d'
    → ((t : Option Tree) (fates : List Fate)
        → run_actions n (a ∷ rest) (torn t ∷ fates) d ≡ (tear n a t d, false))
    → Q (d, false)
    → ((t : Option Tree) → Q (tear n a t d, false))
    → ((fates : List Fate) → Q (run_actions n rest fates d'))
    → (fates : List Fate) → Q (run_actions n (a ∷ rest) fates d)
unfolding run_actions
step Q n a rest d d' e h q tears go [] = q
step Q n a rest d d' e h q tears go (stops ∷ fates) = q
step Q n a rest d d' e h q tears go (torn t ∷ fates) = subst Q (sym (h t fates)) (tears t)
step Q n a rest d d' e h q tears go (succeeds ∷ fates) = rw (e, run_actions) (go fates)

-- A move that the system refuses.
refused :
    (Q : Disk × Bool → Type 0) (n : ℕ) (rest : List Action) (d : Disk)
    → perform n move_tree d ≡ none
    → Q (d, false)
    → (fates : List Fate) → Q (run_actions n (move_tree ∷ rest) fates d)
unfolding run_actions tear
refused Q n rest d e q [] = q
refused Q n rest d e q (stops ∷ fates) = q
refused Q n rest d e q (torn t ∷ fates) = q
refused Q n rest d e q (succeeds ∷ fates) = rw (e, run_actions) q

-- What readers see, and the finished generations.
abbrev pub IsKept : Disk → Disk → Type 0
IsKept d d' = (d'.head ≡ d.head) × (d'.trees ≡ d.trees)

abbrev pub staged : ℕ → Tree → Disk → Disk
staged n t d = record d { staging = with_tree d.staging n (some t) }

pub with_tree_same : (f : ℕ → Option Tree) (n : ℕ) (t : Option Tree) → with_tree f n t n ≡ t
with_tree_same f n t = ground arith

pub with_tree_other :
    (f : ℕ → Option Tree) (n : ℕ) (t : Option Tree) → with_tree f (n + 1) t n ≡ f n
with_tree_other f n t = ground arith

perform-write_file :
    (n : ℕ) (path content : String) (t : Tree) (d : Disk)
    → d.staging n ≡ some t
    → perform n (write_file path content) d
      ≡ some (staged n (record t { files = put path content t.files }) d)
unfolding perform
perform-write_file n path content t d e =
    ap (λ (s : Option Tree). edited n (λ u. record u { files = put path content u.files }) s d) e

perform-write_meta :
    (n : ℕ) (meta : String) (t : Tree) (d : Disk)
    → d.staging n ≡ some t
    → perform n (write_meta meta) d ≡ some (staged n (record t { meta = some meta }) d)
unfolding perform
perform-write_meta n meta t d e =
    ap (λ (s : Option Tree). edited n (λ u. record u { meta = some meta }) s d) e

pub tear-IsKept :
    (n : ℕ) (a : Action) (u : Option Tree) (start d : Disk)
    → IsKept start d
    → IsKept start (tear n a u d)
unfolding tear
tear-IsKept n move_tree u start d k = k
tear-IsKept n _ u start d k = k

-- The loop over the files.
pub run_actions-write_files :
    (Q : Disk × Bool → Type 0) (n : ℕ) (files : List StoreEntry) (rest : List Action) (t : Tree)
    (start d : Disk)
    → ((d' : Disk) → IsKept start d' → Q (d', false))
    → ((d' : Disk)
        → IsKept start d'
        → d'.staging n ≡ some (record t { files = put_all files t.files })
        → (fates : List Fate) → Q (run_actions n rest fates d'))
    → IsKept start d
    → d.staging n ≡ some t
    → (fates : List Fate) → Q (run_actions n (write_files files ++ rest) fates d)
unfolding write_files put_all perform run_actions
run_actions-write_files Q n [] rest t start d q go k e = go d k e
run_actions-write_files Q n (directory ∷ files) rest t start d q go k e =
    step Q n make_directory (write_files files ++ rest) d d refl (λ u fates. refl) (q d k)
      (λ u. q _ (tear-IsKept n make_directory u start d k))
      (run_actions-write_files Q n files rest t start d q go k e)
run_actions-write_files Q n (file path content ∷ files) rest t start d q go k e =
    let t' : Tree = record t { files = put path content t.files } in
    step Q n make_directory (write_file path content ∷ write_files files ++ rest) d d refl
      (λ u fates. refl) (q d k) (λ u. q _ (tear-IsKept n make_directory u start d k))
      (step Q n (write_file path content) (write_files files ++ rest) d (staged n t' d)
        (perform-write_file n path content t d e) (λ u fates. refl) (q d k)
        (λ u. q _ (tear-IsKept n (write_file path content) u start d k))
        (run_actions-write_files Q n files rest t' start (staged n t' d) q go k
          (with_tree_same d.staging n (some t'))))

-- The generation is in place, and HEAD is as before.
abbrev moved_in : ℕ → Tree → Disk → Disk
moved_in n t d = record d {
  trees = with_tree d.trees n (some t);
  staging = with_tree d.staging n none;
}

perform-move_tree :
    (n : ℕ) (t : Tree) (d : Disk)
    → d.staging n ≡ some t
    → d.trees n ≡ none
    → perform n move_tree d ≡ some (moved_in n t d)
unfolding perform
perform-move_tree n t d e free =
    ap (λ (s : Option Tree). moved n s (d.trees n) d) e
    ∙ ap (λ (s : Option Tree). moved n (some t) s d) free

-- The calls behind the files, where nothing is in the way.
pub run_actions-last :
    (Q : Disk × Bool → Type 0) (n : ℕ) (t : Tree) (meta : String) (d : Disk)
    → d.staging n ≡ some t
    → d.trees n ≡ none
    → ((d' : Disk) → IsKept d d' → Q (d', false))
    → ((d' : Disk)
        → d'.head ≡ d.head
        → d'.trees ≡ with_tree d.trees n (some (record t { meta = some meta }))
        → Q (d', false))
    → ((d' : Disk)
        → d'.head ≡ names (pos n)
        → d'.trees ≡ with_tree d.trees n (some (record t { meta = some meta }))
        → Q (d', true))
    → (fates : List Fate)
    → Q (run_actions n (write_meta meta ∷ move_tree ∷ write_head_tmp ∷ flip_head ∷ []) fates d)
unfolding perform run_actions
run_actions-last Q n t meta d e free q half done =
    let t' : Tree = record t { meta = some meta } in
    let d1 : Disk = staged n t' d in
    let d2 : Disk = moved_in n t' d1 in
    let d3 : Disk = record d2 { head_tmp = names (pos n) } in
    let d4 : Disk = record d3 { head = names (pos n); head_tmp = missing } in
    step Q n (write_meta meta) (move_tree ∷ write_head_tmp ∷ flip_head ∷ []) d d1
      (perform-write_meta n meta t d e) (λ u fates. refl) (q d (refl, refl))
      (λ u. q _ (tear-IsKept n (write_meta meta) u d d (refl, refl)))
      (step Q n move_tree (write_head_tmp ∷ flip_head ∷ []) d1 d2
        (perform-move_tree n t' d1 (with_tree_same d.staging n (some t')) free) (λ u fates. refl)
        (q d1 (refl, refl)) (λ u. q _ (tear-IsKept n move_tree u d d1 (refl, refl)))
        (step Q n write_head_tmp (flip_head ∷ []) d2 d3 refl (λ u fates. refl) (half d2 refl refl)
          (λ u. after (tear-IsKept n write_head_tmp u d2 d2 (refl, refl)))
          (step Q n flip_head [] d3 d4 refl (λ u fates. refl) (half d3 refl refl)
            (λ u. after (tear-IsKept n flip_head u d2 d3 (refl, refl)))
            (λ fates. done d4 refl refl))))
  where
    after :
        {x : Disk}
        → IsKept
            (moved_in n
              (record t { meta = some meta })
              (staged n (record t { meta = some meta }) d))
            x
        → Q (x, false)
    after {x} k = half x k.0 k.1

perform-taken :
    (n : ℕ) (t there : Tree) (d : Disk)
    → d.staging n ≡ some t
    → d.trees n ≡ some there
    → perform n move_tree d ≡ none
unfolding perform
perform-taken n t there d e full =
    ap (λ (s : Option Tree). moved n s (d.trees n) d) e
    ∙ ap (λ (s : Option Tree). moved n (some t) s d) full

-- The same calls, where a directory is in the way.
pub run_actions-taken :
    (Q : Disk × Bool → Type 0) (n : ℕ) (t there : Tree) (meta : String) (d : Disk)
    → d.staging n ≡ some t
    → d.trees n ≡ some there
    → ((d' : Disk) → IsKept d d' → Q (d', false))
    → (fates : List Fate)
    → Q (run_actions n (write_meta meta ∷ move_tree ∷ write_head_tmp ∷ flip_head ∷ []) fates d)
unfolding run_actions
run_actions-taken Q n t there meta d e full q =
    let t' : Tree = record t { meta = some meta } in
    let d1 : Disk = staged n t' d in
    step Q n (write_meta meta) (move_tree ∷ write_head_tmp ∷ flip_head ∷ []) d d1
      (perform-write_meta n meta t d e) (λ u fates. refl) (q d (refl, refl))
      (λ u. q _ (tear-IsKept n (write_meta meta) u d d (refl, refl)))
      (refused Q n (write_head_tmp ∷ flip_head ∷ []) d1
        (perform-taken n t' there d1 (with_tree_same d.staging n (some t')) full)
        (q d1 (refl, refl)))
