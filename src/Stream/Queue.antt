-- ===== src/Stream/Queue.antt =====
-- The send queues of internal/stream/session.go.
pub mod Bounds
pub mod Order
pub mod Flush
use homer_cli.Base.{
  ℕ, suc, zero, ◌+◌, ◌-◌, ◌%◌, ◌^◌, ◌<◌, ◌==◌, ◌≡◌, String, Bool, true, false, not, ◌&&◌, ◌||◌,
  Option, none, some, List, [], ◌∷◌, ◌++◌, length, ltb, if◌then◌else◌,
}

pub data FrameType : Type 0 where
  req res prog cancel evt ping pong : FrameType

-- `Frame`; `body` stands for the fields that the queues do not read.
pub record Frame : Type 0 where
  pub kind : FrameType
  pub id : String
  pub body : String

pub record Outbound : Type 0 where
  pub frame : Frame
  pub order : ℕ

-- The part of `Session` under `queueMu`, with `opts.SendQueue`, whether the session is done, and
-- the counter of dropped progress frames.
pub record Queues : Type 0 where
  pub urgent : List Outbound
  pub normal : List Outbound
  pub progress : List Outbound
  pub count : ℕ
  pub seq : ℕ
  pub limit : ℕ
  pub done : Bool
  pub dropped : ℕ

-- A limit that is not positive is replaced by `DefaultSendQueue`; 0 stands for all of them.
abbrev pub new_queues : ℕ → Queues
new_queues limit = record {
  urgent = [];
  normal = [];
  progress = [];
  count = 0;
  seq = 0;
  limit = if limit == 0 then 256 else limit;
  done = false;
  dropped = 0;
}

abbrev pub is_progress : Frame → Bool
is_progress f = elim (f.kind) [ FrameType.prog ↦ true | _ ↦ false ]

-- `queueSeq.Add(1)` of a uint64
abbrev pub next_seq : Queues → ℕ
next_seq q = (q.seq + 1) % 2 ^ 64

abbrev pub without_first : List Outbound → List Outbound
without_first [] = []
without_first (x ∷ xs) = xs

-- `enqueueContext` with `progress`: a full queue drops its oldest frame.
unfoldable pub enqueue_progress : Frame → Queues → Queues
enqueue_progress frame q = if q.done then q else record {
  urgent = q.urgent;
  normal = q.normal;
  progress =
      (if length q.progress == 64 then without_first q.progress else q.progress)
      ++ record { frame = frame; order = next_seq q } ∷ [];
  count = q.count;
  seq = next_seq q;
  limit = q.limit;
  done = q.done;
  dropped = (if length q.progress == 64 then q.dropped + 1 else q.dropped);
}

-- One round of the loop of `enqueueContext`: with no space, or when the session is done, nothing is
-- queued, and the caller waits or returns an error. `enqueueCancelBestEffort` is a round with
-- an urgent frame.
unfoldable pub enqueue : Frame → Bool → Queues → Queues
enqueue frame is_urgent q =
    if q.done || not (ltb q.count q.limit)
    then q
    else let item = record { frame = frame; order = next_seq q } ∷ [] in
      record {
        urgent = (if is_urgent then q.urgent ++ item else q.urgent);
        normal = (if is_urgent then q.normal else q.normal ++ item);
        progress = q.progress;
        count = q.count + 1;
        seq = next_seq q;
        limit = q.limit;
        done = q.done;
        dropped = q.dropped;
      }

abbrev pub with_queues : List Outbound → List Outbound → List Outbound → ℕ → Queues → Queues
with_queues urgent normal progress count q = record {
  urgent = urgent;
  normal = normal;
  progress = progress;
  count = count;
  seq = q.seq;
  limit = q.limit;
  done = q.done;
  dropped = q.dropped;
}

-- The counter after taking a frame. It is positive when a frame that is no progress frame is
-- queued, so that the subtraction is exact.
abbrev pub count_after : Outbound → Queues → ℕ
count_after item q = if is_progress item.frame then q.count else q.count - 1

-- The cases of `dequeue`, on the three queues.
unfoldable pub take :
    List Outbound → List Outbound → List Outbound → Queues → Option (Outbound × Queues)
take (u ∷ us) ns ps q = some (u, with_queues us ns ps (count_after u q) q)
take [] (n ∷ ns) (p ∷ ps) q =
    if ltb n.order p.order
    then some (n, with_queues [] ns (p ∷ ps) (count_after n q) q)
    else some (p, with_queues [] (n ∷ ns) ps (count_after p q) q)
take [] (n ∷ ns) [] q = some (n, with_queues [] ns [] (count_after n q) q)
take [] [] (p ∷ ps) q = some (p, with_queues [] [] ps (count_after p q) q)
take [] [] [] q = none

unfoldable pub dequeue : Queues → Option (Outbound × Queues)
unfolding take
dequeue q = take q.urgent q.normal q.progress q

-- The queues after a call of `dequeue`.
abbrev pub rest : Queues → Option (Outbound × Queues) → Queues
rest q none = q
rest q (some (item, q')) = q'

-- The end of `Close`.
unfoldable pub close : Queues → Queues
close q = record {
  urgent = [];
  normal = [];
  progress = [];
  count = 0;
  seq = q.seq;
  limit = q.limit;
  done = true;
  dropped = q.dropped;
}

-- The loop of `writerLoop` that a flush starts: take frames until the queues are empty, while no
-- other goroutine queues frames and every write succeeds.
unfoldable pub flush : ℕ → Queues → List Outbound × Queues
unfolding dequeue
flush zero q = ([], q)
flush (suc fuel) q = elim (dequeue q) [
  | none ↦ ([], q)
  | some (item, q') ↦ let (items, q'') = flush fuel q' in (item ∷ items, q'')
]

-- What happens to the queues. Progress frames, and no others, go to the progress queue; fewer
-- than 2^64 frames are ever queued.
pub data Step : Queues → Queues → Type 0 where
  reports :
      (q : Queues) (f : Frame)
      → is_progress f ≡ true
      → q.seq + 1 < 2 ^ 64
      → Step q (enqueue_progress f q)
  sends :
      (q : Queues) (f : Frame) (is_urgent : Bool)
      → is_progress f ≡ false
      → q.seq + 1 < 2 ^ 64
      → Step q (enqueue f is_urgent q)
  takes : (q : Queues) → Step q (rest q (dequeue q))
  closes : (q : Queues) → Step q (close q)

pub data Reachable : Queues → Type 0 where
  at_start : (limit : ℕ) → Reachable (new_queues limit)
  after : {q r : Queues} → Reachable q → Step q r → Reachable r
