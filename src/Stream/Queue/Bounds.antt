-- ===== src/Stream/Queue/Bounds.antt =====
-- The sizes of the send queues.
use homer_cli.Base.{
  ◌+◌, ◌≤◌, ◌==◌, ==_iff, ◌≡◌, refl, Bool, true, false, not, ◌||◌, inl, inr, Bool-cases, List, [],
  ◌∷◌, ◌++◌, length, length-append, ltb, arith,
}
use homer_cli.Stream.Queue.{
  Outbound, Queues, is_progress, next_seq, without_first, enqueue_progress, enqueue, take, rest,
  dequeue, close, Step, reports, sends, takes, closes, Reachable, at_start, after,
}

-- All frames of a queue are progress frames, or none is.
abbrev pub IsOfKind : Bool → List Outbound → Type 0
IsOfKind b [] = Unit {0}
IsOfKind b (x ∷ xs) = (is_progress x.frame ≡ b) × IsOfKind b xs

abbrev pub IsBounded : Queues → Type 0
IsBounded q =
    (q.count ≡ length q.urgent + length q.normal)
    × (q.count ≤ q.limit)
    × (length q.progress ≤ 64)
    × IsOfKind false q.urgent
    × IsOfKind false q.normal
    × IsOfKind true q.progress

IsOfKind-snoc :
    (b : Bool) (xs : List Outbound) (x : Outbound)
    → IsOfKind b xs
    → is_progress x.frame ≡ b
    → IsOfKind b (xs ++ x ∷ [])
IsOfKind-snoc b [] x h e = (e, tt)
IsOfKind-snoc b (y ∷ ys) x (k, h) e = (k, IsOfKind-snoc b ys x h e)

IsOfKind-without_first :
    (b : Bool) (xs : List Outbound) → IsOfKind b xs → IsOfKind b (without_first xs)
IsOfKind-without_first b [] h = h
IsOfKind-without_first b (x ∷ xs) (k, h) = h

length-without_first : (xs : List Outbound) → length xs ≡ 64 → length (without_first xs) ≡ 63
length-without_first [] h = absurd (omega arith)
length-without_first (x ∷ xs) h = omega arith

take-IsBounded :
    (us ns ps : List Outbound) (q : Queues)
    → q.urgent ≡ us
    → q.normal ≡ ns
    → q.progress ≡ ps
    → q.count ≡ length us + length ns
    → q.count ≤ q.limit
    → length ps ≤ 64
    → IsOfKind false us
    → IsOfKind false ns
    → IsOfKind true ps
    → IsBounded (rest q (take us ns ps q))
unfolding take
take-IsBounded (u ∷ us) ns ps q eu en ep c l p (k, ku) kn kp =
    (rw k (omega arith), rw k (omega arith), p, ku, kn, kp)
take-IsBounded [] (n ∷ ns) (r ∷ rs) q eu en ep c l p ku (k, kn) (k', kp) =
    elim (Bool-cases (ltb n.order r.order)) [
      | inl older ↦ rw (older, k) (omega arith, omega arith, p, tt, kn, (k', kp))
      | inr newer ↦ rw (newer, k') (c, l, omega arith, tt, (k, kn), kp)
    ]
take-IsBounded [] (n ∷ ns) [] q eu en ep c l p ku (k, kn) kp =
    (rw k (omega arith), rw k (omega arith), p, tt, kn, tt)
take-IsBounded [] [] (r ∷ rs) q eu en ep c l p ku kn (k, kp) =
    (rw k c, rw k l, omega arith, tt, tt, kp)
take-IsBounded [] [] [] q eu en ep c l p ku kn kp = rw (eu, en, ep) (c, l, p, tt, tt, tt)

Step-IsBounded : {q r : Queues} → IsBounded q → Step q r → IsBounded r
unfolding enqueue_progress enqueue dequeue close
Step-IsBounded (c, l, p, ku, kn, kp) (reports q f k room) = elim (Bool-cases q.done) [
  | inl e ↦ rw e (c, l, p, ku, kn, kp)
  | inr e ↦ elim (Bool-cases (length q.progress == 64)) [
    | inl full ↦
        rw (e, full)
          (
            c,
            l,
            omega (
              arith,
              length-append (without_first q.progress)
                  (record { frame = f; order = next_seq q } ∷ []),
              length-without_first q.progress ((==_iff (length q.progress) 64).0 full),
            ),
            ku,
            kn,
            IsOfKind-snoc true _ _ (IsOfKind-without_first true q.progress kp) k,
          )
    | inr space ↦
        rw (e, space)
          (
            c,
            l,
            ground (
              arith,
              space,
              length-append q.progress (record { frame = f; order = next_seq q } ∷ []),
            ),
            ku,
            kn,
            IsOfKind-snoc true q.progress _ kp k,
          )
  ]
]
Step-IsBounded (c, l, p, ku, kn, kp) (sends q f u k room) =
    elim (Bool-cases (q.done || not (ltb q.count q.limit))) [
      | inl e ↦ rw e (c, l, p, ku, kn, kp)
      | inr e ↦ elim (Bool-cases u) [
        | inl now ↦
            rw (e, now)
              (
                omega
                    (arith, length-append q.urgent (record { frame = f; order = next_seq q } ∷ [])),
                ground (arith, e),
                p,
                IsOfKind-snoc false q.urgent _ ku k,
                kn,
                kp,
              )
        | inr later ↦
            rw (e, later)
              (
                omega
                    (arith, length-append q.normal (record { frame = f; order = next_seq q } ∷ [])),
                ground (arith, e),
                p,
                ku,
                IsOfKind-snoc false q.normal _ kn k,
                kp,
              )
      ]
    ]
Step-IsBounded (c, l, p, ku, kn, kp) (takes q) =
    take-IsBounded q.urgent q.normal q.progress q refl refl refl c l p ku kn kp
Step-IsBounded h (closes q) = (refl, omega arith, omega arith, tt, tt, tt)

pub Reachable-IsBounded : {q : Queues} → Reachable q → IsBounded q
Reachable-IsBounded (at_start limit) = (refl, omega arith, omega arith, tt, tt, tt)
Reachable-IsBounded (after r step) = Step-IsBounded (Reachable-IsBounded r) step

-- In every reachable state the counter is the number of frames in the urgent and the normal queue,
-- it is at most the limit of the session, and at most 64 progress frames are queued.
pub queues_are_bounded :
    (q : Queues)
    → Reachable q
    → (q.count ≡ length q.urgent + length q.normal) × (q.count ≤ q.limit) × (length q.progress ≤ 64)
queues_are_bounded q r = let (c, l, p, ku, kn, kp) = Reachable-IsBounded r in (c, l, p)
