-- ===== src/Resolutions.antt =====
-- internal/resolutions/store.go and types.go: the decisions about conflicts that a machine keeps in
-- resolutions.json until they are used. `storeMu` makes each operation one step. What the file holds
-- and what fails of the calls of the system are explicit.
mod Replacing
pub mod Store
pub mod Index
pub mod Valid
pub mod Unique
pub mod Saving
pub mod Recording
pub mod Removing
mod Saved
pub mod Failing
use Prim.Native.String.{[] as empty, ◌∷◌ as ◌∷ₜ◌}
use Prim.Native.Char.{Char, code}
use homer_cli.Base.{
  String, Bool, true, false, not, ◌&&◌, ◌||◌, Option, none, some, List, [], ◌∷◌, ◌++◌, leb, str_eq,
  str_leb, ◌==◌, if◌then◌else◌, contains,
}
use homer_cli.Base.Dict.{Dict, lookup, put}
use homer_cli.Base.Integers.{ℤ, is_below_one, int_eq}

pub record Entry : Type 0 where
  pub adapter : String
  pub choice : String
  pub recorded_at : String
  pub generation_at_record : ℤ

pub data WriteStep : Type 0 where
  make_directory create_temporary change_mode write_data sync_data close_file replace_file :
      WriteStep

pub data StoreError : Type 0 where
  invalid_adapter invalid_choice : String → StoreError
  invalid_generation invalid_time no_adapters corrupt unsupported_version : StoreError
  read_failed remove_failed quarantine_failed : StoreError
  write_failed : WriteStep → StoreError

pub data Attempt {ℓ} (A : Type ℓ) : Type ℓ where
  done : A → Attempt A
  failed : StoreError → Attempt A

-- What the store uses of Go's standard library: `encoding/json` on the document, its version, its list
-- of entries and one entry, and `time.Parse` with RFC 3339. A null reads as none, as an error does.
pub record Codec (Text Raw : Type 0) : Type 0 where
  pub decode_document : Text → Option (Dict Raw)
  pub decode_version : Raw → Option ℤ
  pub decode_list : Raw → Option (List Raw)
  pub decode_entry : Raw → Option Entry
  pub encode_file : List Entry → Text
  pub is_rfc3339 : String → Bool

-- Which calls of the system fail during an operation.
pub record Faults : Type 0 where
  pub read : Bool
  pub remove : Bool
  pub quarantine : Bool
  pub write : Option WriteStep

abbrev pub no_faults : Faults
no_faults = record { read = false; remove = false; quarantine = false; write = none }

-- The file at `Path`, and the files that were set aside by their names. `aside_name` is the name that
-- `quarantineCorrupt` would form, from the second that the clock shows.
pub record Home (Text : Type 0) : Type 0 where
  pub file : Option Text
  pub quarantined : Dict Text
  pub aside_name : String

-- The file, and the temporary file that `saveUnlocked` fills; `some none` is one that is empty.
pub record Writing (Text : Type 0) : Type 0 where
  pub target : Option Text
  pub temporary : Option (Option Text)

-- core.ValidAdapterID, the expression ^[a-z][a-z0-9-]*$
abbrev pub is_lower : Char → Bool
is_lower c = leb 0x61 (code c) && leb (code c) 0x7a

unfoldable pub is_adapter_tail : String → Bool
is_adapter_tail empty = true
is_adapter_tail (c ∷ₜ s) =
    (is_lower c || leb 0x30 (code c) && leb (code c) 0x39 || code c == 0x2d) && is_adapter_tail s

unfoldable pub valid_adapter_id : String → Bool
unfolding is_adapter_tail
valid_adapter_id empty = false
valid_adapter_id (c ∷ₜ s) = is_lower c && is_adapter_tail s

unfoldable pub valid_choice : String → Bool
valid_choice choice = str_eq choice "center" || str_eq choice "local"

unfoldable pub same : Entry → Entry → Bool
same e o =
    str_eq e.adapter o.adapter
    && str_eq e.choice o.choice
    && str_eq e.recorded_at o.recorded_at
    && int_eq e.generation_at_record o.generation_at_record

unfoldable pub stale : Entry → ℤ → Bool
stale e center = is_below_one center || not (int_eq e.generation_at_record center)

-- `Index`: with duplicates the last wins.
unfoldable pub index_onto : Dict Entry → List Entry → Dict Entry
unfolding put
index_onto d [] = d
index_onto d (e ∷ es) = index_onto (put e.adapter e d) es

unfoldable pub index : List Entry → Dict Entry
unfolding index_onto
index es = index_onto [] es

unfoldable pub insert_entry : Entry → List Entry → List Entry
insert_entry e [] = e ∷ []
insert_entry e (t ∷ ts) = if str_leb e.adapter t.adapter then e ∷ t ∷ ts else t ∷ insert_entry e ts

-- `sortEntries`, a stable sort by adapter
unfoldable pub sort_entries : List Entry → List Entry
unfolding insert_entry
sort_entries [] = []
sort_entries (e ∷ es) = insert_entry e (sort_entries es)

-- `for _, entry := range byAdapter { entries = append(entries, entry) }`
unfoldable pub values : Dict Entry → List Entry
values [] = []
values ((a, e) ∷ d) = e ∷ values d

pub record RecordResult : Type 0 where
  pub recorded : List Entry
  pub replaced : List Entry

-- The loop over the adapters to record; `seen` has the different ones so far.
unfoldable pub unique_adapters : List String → List String → Attempt (List String)
unfolding valid_adapter_id contains
unique_adapters seen [] = done seen
unique_adapters seen (a ∷ more) =
    let skipped = unique_adapters seen more in
    let added = unique_adapters (seen ++ a ∷ []) more in
    if not (valid_adapter_id a)
    then failed (invalid_adapter a)
    else if contains a seen
    then skipped
    else added

unfoldable pub new_entries : String → String → ℤ → List String → List Entry
new_entries choice now generation [] = []
new_entries choice now generation (a ∷ more) =
    record { adapter = a; choice = choice; recorded_at = now; generation_at_record = generation }
    ∷ new_entries choice now generation more

-- The entries that new ones replace, while the index takes the new ones in.
unfoldable pub replaced_by : Dict Entry → List Entry → List Entry
unfolding lookup put
replaced_by d [] = []
replaced_by d (e ∷ es) =
    let rest = replaced_by (put e.adapter e d) es in
    elim (lookup e.adapter d) [ none ↦ rest | some previous ↦ previous ∷ rest ]

-- The entries that a filter removes, and those that remain.
unfoldable pub taken : (Entry → Bool) → List Entry → List Entry
taken p [] = []
taken p (e ∷ es) = let rest = taken p es in if p e then e ∷ rest else rest

unfoldable pub remaining : (Entry → Bool) → List Entry → List Entry
remaining p [] = []
remaining p (e ∷ es) = let rest = remaining p es in if p e then rest else e ∷ rest

-- Whether an entry is the one that was consumed.
abbrev pub is_expected : Entry → Option Entry → Bool
is_expected e none = false
is_expected e (some previous) = same e previous

unfoldable pub still_expected : Dict Entry → Entry → Bool
unfolding lookup same
still_expected expected e = is_expected e (lookup e.adapter expected)

abbrev pub in_adapters : List String → Entry → Bool
in_adapters adapters e = contains e.adapter adapters
