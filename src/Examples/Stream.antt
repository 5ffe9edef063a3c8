-- ===== src/Examples/Stream.antt =====
-- A few frames in the send queues.
use homer_cli.Base.{◌≡◌, ◌≤◌, ◌+◌, refl, true, false, List, [], ◌∷◌, ◌++◌, length, arith}
use homer_cli.Stream.Queue.{
  Frame, res, prog, ping, Outbound, Queues, new_queues, enqueue, enqueue_progress, take, flush,
  reports, sends, Reachable, at_start, after,
}
use homer_cli.Stream.Queue.Order.{IsInterleaved, IsAscending}
use homer_cli.Stream.Queue.Bounds.{queues_are_bounded}
use homer_cli.Stream.Queue.Flush.{total, flush_writes_everything}

abbrev progress_frame : Frame
progress_frame = record { kind = prog; id = "1"; body = "half" }

abbrev response : Frame
response = record { kind = res; id = "1"; body = "done" }

abbrev ping_frame : Frame
ping_frame = record { kind = ping; id = "2"; body = "" }

abbrev three_queued : Queues
three_queued =
    enqueue ping_frame true
      (enqueue response false (enqueue_progress progress_frame (new_queues 8)))

three_queued-Reachable : Reachable three_queued
unfolding enqueue enqueue_progress
three_queued-Reachable =
    after
      (after (after (at_start 8) (reports (new_queues 8) progress_frame refl (omega arith)))
        (sends _ response false refl (omega arith)))
      (sends _ ping_frame true refl (omega arith))

frames_of : List Outbound → List Frame
frames_of [] = []
frames_of (x ∷ xs) = x.frame ∷ frames_of xs

ping_goes_first : frames_of (flush 3 three_queued).0 ≡ ping_frame ∷ progress_frame ∷ response ∷ []
unfolding enqueue enqueue_progress flush take frames_of
ping_goes_first = refl

queues_are_bounded_example :
    (three_queued.count ≡ length three_queued.urgent + length three_queued.normal)
    × (three_queued.count ≤ three_queued.limit)
    × (length three_queued.progress ≤ 64)
queues_are_bounded_example = queues_are_bounded three_queued three_queued-Reachable

flush_writes_everything_example :
    (others : List Outbound) × ((flush 3 three_queued).0 ≡ three_queued.urgent ++ others)
    × IsInterleaved three_queued.normal three_queued.progress others
    × IsAscending others
    × (total (flush 3 three_queued).1 ≡ 0)
    × ((flush 3 three_queued).1.count ≡ 0)
unfolding enqueue enqueue_progress
flush_writes_everything_example =
    flush_writes_everything 3 three_queued three_queued-Reachable (omega arith)
