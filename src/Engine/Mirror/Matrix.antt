-- ===== src/Engine/Mirror/Matrix.antt =====
-- What `compare_file` decides, against the contents that the three sides show.
use homer_cli.Base.{
  String, ◌≡◌, ◌≢◌, refl, ◌↔◌, Bool, true, false, Option, none, some, arith, str_eq, str_eq_iff,
  Bool-cases, inl, inr, if◌then◌else◌, ◌&&◌,
}
use homer_cli.Engine.Snapshot.{SnapshotEntry}
use homer_cli.Engine.Mirror.{
  OpType, noop, pull, push, pull_delete, push_delete, conflict, Reason,
  local_delete_vs_remote_modify, local_modify_vs_remote_delete, compare_file,
}

-- What a side shows of a file.
abbrev pub view : Option SnapshotEntry → Option String
view none = none
view (some e) = some e.content

-- What may be decided for the views of the base, the local and the remote side.
abbrev pub Verdict : OpType → Option String → Option String → Option String → Type 0
Verdict noop b l r = l ≡ r
Verdict pull b l r = (l ≡ b) × (r ≢ b) × (r ≢ none)
Verdict push b l r = (r ≡ b) × (l ≢ b) × (l ≢ none)
Verdict pull_delete b l r = (l ≡ b) × (b ≢ none) × (r ≡ none)
Verdict push_delete b l r = (r ≡ b) × (b ≢ none) × (l ≡ none)
Verdict conflict b l r = (l ≢ b) × (r ≢ b)

-- The last four returns, with the two tests as variables.
both_present :
    (b l r : String) (le re : Bool)
    → (le ≡ true) ↔ (l ≡ b)
    → (re ≡ true) ↔ (r ≡ b)
    → Verdict
        (if le && re then noop else if le then pull else if re then push else conflict)
        (some b)
        (some l)
        (some r)
both_present b l r true true p q = ground (arith, p.0 refl, q.0 refl)
both_present b l r true false p q = (ground (arith, p.0 refl), ground (arith, q.1), ground arith)
both_present b l r false true p q = (ground (arith, q.0 refl), ground (arith, p.1), ground arith)
both_present b l r false false p q = (ground (arith, p.1), ground (arith, q.1))

both_present_type :
    (b l r : SnapshotEntry) (path : String)
    → (compare_file (some b) (some l) (some r) path).type ≡ (
        let le = str_eq l.content b.content in
        let re = str_eq r.content b.content in
        if le && re then noop else if le then pull else if re then push else conflict)
unfolding compare_file
both_present_type b l r path = ground arith

-- For every base, local and remote state of a file: a pull or a pulled deletion leaves no local
-- change behind, a push or a pushed deletion no remote change, doing nothing means that the two
-- sides agree, and a conflict means that both sides changed.
pub compare_file-Verdict :
    (base local remote : Option SnapshotEntry) (path : String)
    → Verdict (compare_file base local remote path).type (view base) (view local) (view remote)
unfolding compare_file
compare_file-Verdict none none none path = refl
compare_file-Verdict none none (some r) path = (refl, ground arith, ground arith)
compare_file-Verdict none (some l) none path = (refl, ground arith, ground arith)
compare_file-Verdict none (some l) (some r) path = elim (Bool-cases (str_eq l.content r.content)) [
  | inl same ↦ rw same (ground (arith, str_eq_iff l.content r.content))
  | inr other ↦ rw other (ground arith, ground arith)
]
compare_file-Verdict (some b) none none path = refl
compare_file-Verdict (some b) none (some r) path = elim (Bool-cases (str_eq r.content b.content)) [
  | inl same ↦ rw same (ground (arith, str_eq_iff r.content b.content), ground arith, refl)
  | inr other ↦ rw other (ground arith, ground (arith, str_eq_iff r.content b.content))
]
compare_file-Verdict (some b) (some l) none path = elim (Bool-cases (str_eq l.content b.content)) [
  | inl same ↦ rw same (ground (arith, str_eq_iff l.content b.content), ground arith, refl)
  | inr other ↦ rw other (ground (arith, str_eq_iff l.content b.content), ground arith)
]
compare_file-Verdict (some b) (some l) (some r) path = rw (both_present_type b l r path) (
    both_present b.content l.content r.content _ _ (str_eq_iff l.content b.content)
      (str_eq_iff r.content b.content))

-- The decision seen from the other side.
abbrev pub opposite : OpType → OpType
opposite noop = noop
opposite pull = push
opposite push = pull
opposite pull_delete = push_delete
opposite push_delete = pull_delete
opposite conflict = conflict

abbrev pub opposite_reason : Reason → Reason
opposite_reason local_delete_vs_remote_modify = local_modify_vs_remote_delete
opposite_reason local_modify_vs_remote_delete = local_delete_vs_remote_modify
opposite_reason r = r

-- With local and remote exchanged, pulls and pushes are exchanged, and so are the two reasons that
-- name a side.
pub compare_file_swap :
    (base local remote : Option SnapshotEntry) (path : String)
    → compare_file base remote local path ≡ record {
      type = opposite (compare_file base local remote path).type;
      path = path;
      reason = opposite_reason (compare_file base local remote path).reason;
    }
unfolding compare_file
compare_file_swap none none none path = refl
compare_file_swap none none (some r) path = refl
compare_file_swap none (some l) none path = refl
compare_file_swap none (some l) (some r) path =
    ground (arith, str_eq_iff l.content r.content, str_eq_iff r.content l.content)
compare_file_swap (some b) none none path = refl
compare_file_swap (some b) none (some r) path = ground arith
compare_file_swap (some b) (some l) none path = ground arith
compare_file_swap (some b) (some l) (some r) path = ground arith
