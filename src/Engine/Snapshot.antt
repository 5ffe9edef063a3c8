-- ===== src/Engine/Snapshot.antt =====
-- internal/core/types.go: what a machine, the store and the base hold.
use homer_cli.Base.{String}
use homer_cli.Base.Dict.{Dict}

pub data Kind : Type 0 where
  json file : Kind

pub record SnapshotEntry : Type 0 where
  pub kind : Kind
  pub content : String

abbrev pub SnapshotFiles : Type 0
SnapshotFiles = Dict SnapshotEntry
