-- ===== src/Gens.antt =====
-- internal/gens/gens.go: generations of the store, of which the file HEAD names the live one. A
-- directory `generations/<n>` is found by its number n, and so is `.staging-<n>`; the files of a
-- tree are found by their cleaned path below its directory `store`.
mod Crash
pub mod Outcome
pub mod Readers
use Prim.Native.String.{[] as blank, ◌∷◌ as ◌∷ₜ◌}
use Prim.Native.Char.{code}
use homer_cli.Base.{
  ℕ, zero, suc, ◌+◌, ◌==◌, String, Bool, true, false, not, ◌&&◌, ◌||◌, Option, none, some, List, [],
  ◌∷◌, ◌++◌, str_eq, contains, ltb, ◌+++◌, if◌then◌else◌,
}
use homer_cli.Base.Dict.{Dict, put}
use homer_cli.Base.Integers.{ℤ, pos, negsuc}

-- strings.Split(name, "/")
abbrev onto_first : String → List String → List String
onto_first c [] = c ∷ []
onto_first c (s ∷ ss) = (c +++ s) ∷ ss

unfoldable pub segments : String → List String
segments blank = "" ∷ []
segments (c ∷ₜ s) = if code c == b'/' then "" ∷ segments s else onto_first (c ∷ₜ blank) (segments s)

unfoldable pub is_abs : String → Bool
is_abs blank = false
is_abs (c ∷ₜ s) = code c == b'/'

-- The segments that filepath.Join keeps, in a name without "..".
unfoldable pub kept_segments : List String → List String
kept_segments [] = []
kept_segments (s ∷ ss) =
    let rest = kept_segments ss in if str_eq s "" || str_eq s "." then rest else s ∷ rest

unfoldable pub joined_segments : List String → String
joined_segments [] = "."
joined_segments (s ∷ []) = s
joined_segments (s ∷ t ∷ ss) = s +++ "/" +++ joined_segments (t ∷ ss)

-- `safeStorePath`: the cleaned path below the root, or none where the code gives an error. A name
-- without ".." cannot leave the root; it names the root itself if no segment is kept.
unfoldable pub safe_store_path : String → Option String
safe_store_path name =
    if str_eq name ""
    then none
    else if is_abs name
    then none
    else if contains ".." (segments name)
    then none
    else (let rel = joined_segments (kept_segments (segments name)) in
        if str_eq rel "." then none else some rel)

-- What a generation's directory holds.
pub record Tree : Type 0 where
  pub files : Dict String
  pub meta : Option String

-- The file HEAD: a number, or a text that is none.
pub data HeadFile : Type 0 where
  missing malformed : HeadFile
  names : ℤ → HeadFile

pub record Disk : Type 0 where
  pub trees : ℕ → Option Tree
  pub staging : ℕ → Option Tree
  pub head : HeadFile
  pub head_tmp : HeadFile

abbrev pub empty_tree : Tree
empty_tree = record { files = []; meta = none }

abbrev pub with_tree : (ℕ → Option Tree) → ℕ → Option Tree → ℕ → Option Tree
with_tree f n t m = if n == m then t else f m

-- `Read`: the number of the generation and its directory.
unfoldable pub read_head : HeadFile → (ℕ → Option Tree) → Option (ℕ × Option Tree)
read_head missing trees = none
read_head malformed trees = none
read_head (names (negsuc n)) trees = none
read_head (names (pos n)) trees = if ltb 0 n then some (n, trees n) else none

unfoldable pub read_generation : Disk → Option (ℕ × Option Tree)
read_generation d = read_head d.head d.trees

abbrev pub generation_or_zero : Option (ℕ × Option Tree) → ℕ
generation_or_zero none = 0
generation_or_zero (some (n, t)) = n

unfoldable pub current_generation : Disk → ℕ
current_generation d = generation_or_zero (read_generation d)

-- The calls of the system that `Publish` makes, for generation n.
pub data Action : Type 0 where
  make_generations clear_staging make_store make_directory : Action
  write_file : String → String → Action
  write_meta : String → Action
  move_tree write_head_tmp flip_head : Action

-- map[string]map[string]string
abbrev pub StoreMap : Type 0
StoreMap = Dict (Dict String)

-- What the loop over the maps makes: the directory of an adapter, or a file and the directories
-- above it.
pub data StoreEntry : Type 0 where
  directory : StoreEntry
  file : String → String → StoreEntry

-- The files of an adapter, with the path of each.
unfoldable pub adapter_files : String → Dict String → Option (List StoreEntry)
adapter_files dir [] = some []
adapter_files dir ((name, content) ∷ files) =
    with_path (safe_store_path name) (adapter_files dir files)
  where
    with_path : Option String → Option (List StoreEntry) → Option (List StoreEntry)
    with_path none rest = none
    with_path (some path) none = none
    with_path (some path) (some rest) = some (file (dir +++ "/" +++ path) content ∷ rest)

abbrev both_parts : Option (List StoreEntry) → Option (List StoreEntry) → Option (List StoreEntry)
both_parts none b = none
both_parts (some a) none = none
both_parts (some a) (some b) = some (a ++ b)

abbrev files_in : Option String → Dict String → Option (List StoreEntry)
files_in none files = none
files_in (some dir) files = both_parts (some (directory ∷ [])) (adapter_files dir files)

-- The first loop of `Publish`: none if a path is not safe. Go visits the maps in any order.
unfoldable pub store_files : StoreMap → Option (List StoreEntry)
store_files [] = some []
store_files ((adapter, files) ∷ store) =
    both_parts (files_in (safe_store_path adapter) files) (store_files store)

unfoldable pub write_files : List StoreEntry → List Action
write_files [] = []
write_files (directory ∷ files) = make_directory ∷ write_files files
write_files (file path content ∷ files) =
    make_directory ∷ write_file path content ∷ write_files files

-- The calls behind the first loop.
unfoldable pub actions : List StoreEntry → String → List Action
actions files meta =
    make_generations
    ∷ clear_staging
    ∷ make_store
    ∷ (write_files files ++ write_meta meta ∷ move_tree ∷ write_head_tmp ∷ flip_head ∷ [])

-- What becomes of a call: it succeeds, it has no effect, or it leaves the staged tree half done.
-- The last two stand for an error and for a crash. The error of os.RemoveAll is not looked at, so
-- that the next call follows a removal that is half done.
pub data Fate : Type 0 where
  succeeds stops : Fate
  torn : Option Tree → Fate

-- A change of the staged tree, which has to be there.
abbrev pub edited : ℕ → (Tree → Tree) → Option Tree → Disk → Option Disk
edited n f none d = none
edited n f (some t) d = some (record d { staging = with_tree d.staging n (some (f t)) })

-- os.Rename of the staged directory: a directory in its place, which is not empty, refuses it.
abbrev pub moved : ℕ → Option Tree → Option Tree → Disk → Option Disk
moved n none there d = none
moved n (some staged) (some there) d = none
moved n (some staged) none d =
    some
      (record d { trees = with_tree d.trees n (some staged); staging = with_tree d.staging n none })

-- os.Rename of HEAD.tmp
abbrev pub flipped : HeadFile → Disk → Option Disk
flipped missing d = none
flipped tmp d = some (record d { head = tmp; head_tmp = missing })

-- os.MkdirAll keeps what is there.
abbrev pub or_empty : Option Tree → Tree
or_empty none = empty_tree
or_empty (some t) = t

-- The effect of a successful call; none where the system refuses it.
unfoldable pub perform : ℕ → Action → Disk → Option Disk
perform n make_generations d = some d
perform n clear_staging d = some (record d { staging = with_tree d.staging n none })
perform n make_store d =
    some (record d { staging = with_tree d.staging n (some (or_empty (d.staging n))) })
perform n make_directory d = some d
perform n (write_file path content) d =
    edited n (λ t. record t { files = put path content t.files }) (d.staging n) d
perform n (write_meta meta) d = edited n (λ t. record t { meta = some meta }) (d.staging n) d
perform n move_tree d = moved n (d.staging n) (d.trees n) d
perform n write_head_tmp d = some (record d { head_tmp = names (pos n) })
perform n flip_head d = flipped d.head_tmp d

-- A call that leaves its work half done: only the staged tree and HEAD.tmp can be so.
unfoldable pub tear : ℕ → Action → Option Tree → Disk → Disk
tear n move_tree t d = d
tear n flip_head t d = d
tear n write_head_tmp t d = record d { head_tmp = malformed }
tear n action t d = record d { staging = with_tree d.staging n t }

-- The calls one after another, to the first that does not succeed; whether all did.
unfoldable pub run_actions : ℕ → List Action → List Fate → Disk → Disk × Bool
run_actions n [] fates d = (d, true)
run_actions n (a ∷ rest) [] d = (d, false)
run_actions n (a ∷ rest) (stops ∷ fates) d = (d, false)
run_actions n (clear_staging ∷ rest) (torn t ∷ fates) d =
    run_actions n rest fates (tear n clear_staging t d)
run_actions n (a ∷ rest) (torn t ∷ fates) d = (tear n a t d, false)
run_actions n (a ∷ rest) (succeeds ∷ fates) d = elim (perform n a d) [
  | none ↦ (d, false)
  | some d' ↦ run_actions n rest fates d'
]

-- A result of the calls, with the number of the generation if it is published.
abbrev pub numbered : ℕ → Disk × Bool → Disk × Option ℕ
numbered n (d, ok) = (d, if ok then some n else none)

-- The calls for a store whose paths are safe, or none.
abbrev pub publish_files : Option (List StoreEntry) → String → List Fate → Disk → Disk × Option ℕ
publish_files none meta fates d = (d, none)
publish_files (some files) meta fates d =
    numbered (current_generation d + 1)
      (run_actions (current_generation d + 1) (actions files meta) fates d)

unfoldable pub publish : StoreMap → String → List Fate → Disk → Disk × Option ℕ
publish store meta fates d = publish_files (store_files store) meta fates d
