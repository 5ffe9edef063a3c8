-- ===== src/Lib.antt =====
-- homer keeps the configuration of command line tools in step between machines: an agent on each
-- machine compares what it has with the last agreed state (the base) and with a central store, and
-- moves files either way or merges them. This library models the decisions of that program and
-- proves what they promise.
--
-- Parts and files:
-- Base: helpers (tests on numbers, texts, lists, association lists, lists without repeats).
-- Json: internal/orderedjson/orderedjson.go. A value is an object with its key order and its map,
--   an array, a text, a number as its source text, a Boolean or null; a nil pointer to an object
--   behaves as null in the whole package and is null here. Json.Equal has `DeepEqual`
--   (`deep_equal`), Json.Numbers `equalNumbers`, on the 64 bits that `strconv.ParseFloat` gives:
--   the parser of numbers is the parameter `FloatParser`. IsJson says that no key stands twice in
--   a map and that no number is NaN, as in every parsed value.
-- Json.Parser, Json.Printer: `Parse` and `Serialize` of the same file, on bytes; a text of a value has
--   one character for each byte. The rest of the input stands for `pos`, an error keeps the bytes at
--   which it is found, and `parse` turns them into the position. A round of the loop of `parseString` is
--   `string_piece`, a round of `writeString` `write_round`. Values are parsed with fuel for the length of
--   the input and one more, and strings with fuel for the bytes behind their quote: each value, each
--   element, each member and each round takes a byte. Json.Utf8 is what is used of unicode/utf8.
--   `FloatPrinter` is `strconv.FormatFloat` with format 'e', as its sign, its mantissa and its exponent, and
--   IsFloatPrinter what Go documents of its digits. `write_value` writes each value of a map once and looks
--   it up, where Go writes it at its key. Json.RoundTrip and Json.Ending have the proofs; `settle` is the
--   value that is read from what is written.
-- Engine.Merge: internal/engine/merge.go, `MergeJSON` and what it calls, one definition per
--   function, `merge_body` for the body of `mergeSlot` in the order of its early returns. A slot is an optional
--   value; the list of conflicts that Go appends to is returned. Both `merge_slot` and
--   `walk_diff` recurse on fuel, the height of the nesting of objects in the local, for the diff in
--   the base value: each recursive call goes to a child of it, or to a missing child, where the
--   function returns without a call. What `merge_fuelled` gives without fuel is an argument of it, for
--   which `merge_slot` takes the local slot; the result does not depend on it.
--   Engine.Merge.Specified has the specification `MergesTo` of `mergeSlot`, one constructor for each way in
--   which two sides come together.
-- Engine.Diff: `DiffJSON` of the same file.
-- Engine.Snapshot, Engine.Mirror: internal/core/types.go and internal/engine/mirror.go,
--   `CompareFile` with its early returns and `CompareCategory`. A Go map is an association list of
--   which the first entry for a key counts.
-- Engine.Drift: internal/engine/drift.go, `ComputeDrift` and what it calls, with `parse` for
--   `orderedjson.Parse`. `accumulateMergeFile` is
--   `accumulate_merge_file`, cut where its branches return; Engine.Drift.Report has the loops over
--   adapters and categories.
-- Sync.Exclusion: internal/sync/excludedkeys.go, with `StripTopKeys` in Json.Strip. Json.Rebuild is the loop
--   that these functions share: it visits the keys of an object and makes a new one of those that it
--   keeps. A test whether anything changes, before which Go returns its argument, is a function of its
--   own. Sync.Exclusion.Snapshots has the loops over files, and `StripExcludeKeys`.
-- Sync.Scope: internal/sync/scope.go without `DecideScopedPublish`. A store is a map of maps, and the
--   copies of maps that the code makes are the maps themselves.
-- Agent.TaskGate: the first half of internal/agentd/taskclass.go. `classify_task` is
--   `classifyTask`. A gate is the struct; the calls of `acquireWithMethod` and of the release
--   function are the steps `arrive`, `resume`, `cancel` and `finish`, one for each piece of code that
--   holds the mutex of the gate, and `Reachable` says what any interleaving of callers can reach.
--   Waiters are named, which stands for their pointers. Callbacks and panics are left out.
-- Hub.Enrollment: internal/hub/enrollment.go, one definition per method. Time, randomness and
--   the success of writing the file are arguments; SHA-256 and hexadecimal texts are the parameter
--   `Codec`, with `IsCodec` for what the file relies on; the file is the document that it encodes.
--   A Go map is visited in any order; `load_agents` fixes one, and the map that it gives and whether
--   it fails do not depend on it. A nil manager and the revoke hook are left out.
-- Hub.Reports, Hub.Registry: internal/hub/host.go, internal/hub/tools.go and internal/hub/registry.go, one
--   definition per function. A session is a number in place of its pointer, the sessions that have
--   ended and the time are arguments. `Go` has `strings.TrimSpace` and the arithmetic on doubles. Texts
--   are sequences of characters, so that the replacement of broken UTF-8 plays no part.
-- Stream.Queue: the fields of `Session` in internal/stream/session.go under `queueMu`. A round of the
--   waiting loop of `enqueueContext` is `enqueue`, its branch for progress frames
--   `enqueue_progress`, `dequeue` is itself, `flush` the loop that the writer runs for a flush, with
--   fuel for the number of queued frames. The uint64 counter of orders wraps around; the steps
--   suppose that it does not get that far. A negative or absent limit is written 0.
-- Stream.Throttle: internal/stream/throttle.go, with the time of each call as an argument.
-- Resolutions: internal/resolutions. The text of the file and the raw values of `encoding/json` are
--   types of their own, with `Codec` for what decodes them and `IsCodec` for what the store relies on.
--   `Faults` says which calls of the system fail during an operation. Resolutions.Replacing has the calls by
--   which `saveUnlocked` fills a temporary file and renames it; a temporary file that is left behind is not
--   followed. The clock of `quarantineCorrupt` is the name that it would form, a field of the home.
-- Gens: internal/gens/gens.go. `publish` makes the calls of `Publish` as a list of actions, one for each call
--   of the system that can fail. `Fate` says of each whether it succeeds, has no effect or leaves the staged
--   tree half done, so that an error and a crash at any call are covered; which of the two it is makes no
--   difference to the disk. Only the error of `os.RemoveAll` is not looked at, and the next call follows. `safe_store_path` gives the path below the root, as on a system whose separator
--   is the slash. The number in HEAD does not come near the largest `int`, and no directory stands where
--   the code writes a file or HEAD.
-- Examples: the theorems at concrete documents and files, and tests.
--
-- Not modelled: the rest of the stream between agent and hub, the adapters, encryption, the web console and all
-- other file and process handling, which are input and output around these decisions.
mod Base
pub mod Json
pub mod Engine
pub mod Agent
pub mod Hub
pub mod Stream
pub mod Sync
pub mod Resolutions
pub mod Gens
mod Examples
