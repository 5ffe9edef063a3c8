-- ===== src/Engine/Drift/Report.antt =====
-- `ComputeDrift` over all adapters and categories, and the lookups that it uses.
use homer_cli.Base.{
  String, inl, inr, Option-cases, Option, none, some, List, [], ◌∷◌, ◌++◌, str_eq, append_new,
  if◌then◌else◌,
}
use homer_cli.Json.{Value}
use homer_cli.Json.Numbers.{FloatParser}
use homer_cli.Engine.Snapshot.{SnapshotFiles}
use homer_cli.Engine.Drift.{Drift, category_drift}
use homer_cli.Engine.Drift.Accounts.{IsAccounted, category_drift-IsAccounted}

pub record CategorySnapshot : Type 0 where
  pub category : String
  pub mode : String
  pub files : SnapshotFiles

pub record AdapterSnapshot : Type 0 where
  pub adapter_id : String
  pub categories : List CategorySnapshot

-- `CategoryDrift`, its counters and lists in `drift`.
pub record CategoryDrift : Type 0 where
  pub adapter_id : String
  pub category : String
  pub mode : String
  pub drift : Drift

unfoldable pub find_adapter : List AdapterSnapshot → String → Option AdapterSnapshot
find_adapter [] id = none
find_adapter (a ∷ more) id = if str_eq a.adapter_id id then some a else find_adapter more id

unfoldable pub find_in : List CategorySnapshot → String → Option CategorySnapshot
find_in [] name = none
find_in (c ∷ cs) name = if str_eq c.category name then some c else find_in cs name

unfoldable pub find_category : Option AdapterSnapshot → String → Option CategorySnapshot
unfolding find_in
find_category none name = none
find_category (some a) name = find_in a.categories name

abbrev pub category_files : Option CategorySnapshot → SnapshotFiles
category_files none = []
category_files (some c) = c.files

-- The first mode that is not empty.
unfoldable pub category_mode : List (Option CategorySnapshot) → Option String
category_mode [] = none
category_mode (none ∷ cs) = category_mode cs
category_mode (some c ∷ cs) = if str_eq c.mode "" then category_mode cs else some c.mode

unfoldable pub adapter_ids : List AdapterSnapshot → List String
adapter_ids [] = []
adapter_ids (a ∷ more) = a.adapter_id ∷ adapter_ids more

unfoldable pub names_in : List CategorySnapshot → List String
names_in [] = []
names_in (c ∷ cs) = c.category ∷ names_in cs

unfoldable pub category_names : Option AdapterSnapshot → List String
unfolding names_in
category_names none = []
category_names (some a) = names_in a.categories

module _ ⦃fl : FloatParser⦄ (parse : String → Option Value) where
  -- The inner loop, for the categories of one adapter.
  unfoldable pub report_categories :
      String
      → Option AdapterSnapshot
      → Option AdapterSnapshot
      → Option AdapterSnapshot
      → List String
      → List CategoryDrift
  unfolding category_drift find_category category_mode
  report_categories id base local remote [] = []
  report_categories id base local remote (name ∷ names) =
      one (
        category_mode
          (find_category local name ∷ find_category base name ∷ find_category remote name ∷ []))
      ++ report_categories id base local remote names
    where
      one : Option String → List CategoryDrift
      one none = []
      one (some mode) =
          record {
            adapter_id = id;
            category = name;
            mode = mode;
            drift =
                category_drift parse mode (category_files (find_category base name))
                  (category_files (find_category local name))
                  (category_files (find_category remote name));
          }
          ∷ []

  -- The outer loop.
  unfoldable pub report_adapters :
      List AdapterSnapshot
      → List AdapterSnapshot
      → List AdapterSnapshot
      → List String
      → List CategoryDrift
  unfolding report_categories find_adapter category_names append_new
  report_adapters base local remote [] = []
  report_adapters base local remote (id ∷ ids) =
      report_categories id (find_adapter base id) (find_adapter local id) (find_adapter remote id) (
        append_new
          (append_new (append_new [] (category_names (find_adapter base id)))
            (category_names (find_adapter local id)))
          (category_names (find_adapter remote id)))
      ++ report_adapters base local remote ids

  -- `ComputeDrift`; a nil remote stands for the base.
  unfoldable pub compute_drift :
      List AdapterSnapshot
      → List AdapterSnapshot
      → Option (List AdapterSnapshot)
      → List CategoryDrift
  unfolding report_adapters append_new adapter_ids
  compute_drift base local none = report_adapters base local base (
      append_new (append_new (append_new [] (adapter_ids base)) (adapter_ids local))
        (adapter_ids base))
  compute_drift base local (some remote) = report_adapters base local remote (
      append_new (append_new (append_new [] (adapter_ids base)) (adapter_ids local))
        (adapter_ids remote))

-- Each drift of a report is accounted for.
abbrev pub AreAccounted : List CategoryDrift → Type 0
AreAccounted [] = Unit {0}
AreAccounted (d ∷ ds) = IsAccounted d.drift × AreAccounted ds

AreAccounted-append :
    (ds es : List CategoryDrift) → AreAccounted ds → AreAccounted es → AreAccounted (ds ++ es)
AreAccounted-append [] es h k = k
AreAccounted-append (d ∷ ds) es (h, hs) k = (h, AreAccounted-append ds es hs k)

module _ ⦃fl : FloatParser⦄ (parse : String → Option Value) where
  report_categories-AreAccounted :
      (id : String) (base local remote : Option AdapterSnapshot) (names : List String)
      → AreAccounted (report_categories parse id base local remote names)
  unfolding report_categories
  report_categories-AreAccounted id base local remote [] = tt
  report_categories-AreAccounted id base local remote (name ∷ names) =
      elim (Option-cases (
        category_mode
          (find_category local name ∷ find_category base name ∷ find_category remote name ∷ []))) [
            | inl e ↦
                rw (report_categories, e)
                  (report_categories-AreAccounted id base local remote names)
            | inr (mode, e) ↦
                rw (report_categories, e)
                  (
                    category_drift-IsAccounted parse mode (category_files (find_category base name))
                        (category_files (find_category local name))
                        (category_files (find_category remote name)),
                    report_categories-AreAccounted id base local remote names,
                  )
          ]

  report_adapters-AreAccounted :
      (base local remote : List AdapterSnapshot) (ids : List String)
      → AreAccounted (report_adapters parse base local remote ids)
  unfolding report_adapters
  report_adapters-AreAccounted base local remote [] = tt
  report_adapters-AreAccounted base local remote (id ∷ ids) =
      AreAccounted-append _ _
        (report_categories-AreAccounted id (find_adapter base id) (find_adapter local id)
          (find_adapter remote id) _)
        (report_adapters-AreAccounted base local remote ids)

  -- For every parser and all snapshots, in each category that is reported: the number to push is the
  -- number of listed pushes and changed keys, the number to pull the number of listed pulls, and the
  -- number of conflicts that of the listed conflicts, of files and of keys.
  pub compute_drift-AreAccounted :
      (base local : List AdapterSnapshot) (remote : Option (List AdapterSnapshot))
      → AreAccounted (compute_drift parse base local remote)
  unfolding compute_drift
  compute_drift-AreAccounted base local none = report_adapters-AreAccounted base local base _
  compute_drift-AreAccounted base local (some remote) =
      report_adapters-AreAccounted base local remote _
