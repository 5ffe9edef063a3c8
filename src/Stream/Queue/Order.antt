-- ===== src/Stream/Queue/Order.antt =====
-- The order in which the queued frames are written.
use homer_cli.Base.{
  ℕ, ◌+◌, ◌≤◌, ◌<◌, ◌==◌, ◌^◌, ◌≡◌, not, ◌||◌, inl, inr, Bool-cases, List, [], ◌∷◌, ◌++◌, length,
  ltb, arith,
}
use homer_cli.Stream.Queue.{
  Outbound, Queues, next_seq, without_first, enqueue_progress, enqueue, take, rest, dequeue, close,
  Step, reports, sends, takes, closes, Reachable, at_start, after,
}

-- No order in the queue is below `n`.
abbrev pub IsFrom : ℕ → List Outbound → Type 0
IsFrom n [] = Unit {0}
IsFrom n (x ∷ xs) = (n ≤ x.order) × IsFrom n xs

-- The orders do not decrease.
abbrev pub IsAscending : List Outbound → Type 0
IsAscending [] = Unit {0}
IsAscending (x ∷ xs) = IsFrom x.order xs × IsAscending xs

-- No order is above `n`.
abbrev pub IsUpTo : ℕ → List Outbound → Type 0
IsUpTo n [] = Unit {0}
IsUpTo n (x ∷ xs) = (x.order ≤ n) × IsUpTo n xs

abbrev pub IsStamped : ℕ → List Outbound → Type 0
IsStamped n xs = IsAscending xs × IsUpTo n xs

-- The third list is made of the other two, each in its order.
pub data IsInterleaved : List Outbound → List Outbound → List Outbound → Type 0 where
  both_empty : IsInterleaved [] [] []
  from_first :
      {xs ys zs : List Outbound} (x : Outbound)
      → IsInterleaved xs ys zs
      → IsInterleaved (x ∷ xs) ys (x ∷ zs)
  from_second :
      {xs ys zs : List Outbound} (y : Outbound)
      → IsInterleaved xs ys zs
      → IsInterleaved xs (y ∷ ys) (y ∷ zs)

pub IsFrom-weaken : (m n : ℕ) (xs : List Outbound) → m ≤ n → IsFrom n xs → IsFrom m xs
IsFrom-weaken m n [] h f = tt
IsFrom-weaken m n (x ∷ xs) h (k, f) = (omega arith, IsFrom-weaken m n xs h f)

IsUpTo-weaken : (m n : ℕ) (xs : List Outbound) → m ≤ n → IsUpTo m xs → IsUpTo n xs
IsUpTo-weaken m n [] h f = tt
IsUpTo-weaken m n (x ∷ xs) h (k, f) = (omega arith, IsUpTo-weaken m n xs h f)

IsFrom-snoc :
    (n : ℕ) (xs : List Outbound) (x : Outbound)
    → IsFrom n xs
    → n ≤ x.order
    → IsFrom n (xs ++ x ∷ [])
IsFrom-snoc n [] x f h = (h, tt)
IsFrom-snoc n (y ∷ ys) x (k, f) h = (k, IsFrom-snoc n ys x f h)

IsStamped-snoc :
    (n : ℕ) (xs : List Outbound) (x : Outbound)
    → IsStamped n xs
    → n ≤ x.order
    → IsStamped x.order (xs ++ x ∷ [])
IsStamped-snoc n [] x h k = ((tt, tt), (omega arith, tt))
IsStamped-snoc n (y ∷ ys) x ((f, a), (l, u)) k =
    let (a', u') = IsStamped-snoc n ys x (a, u) k in
    ((IsFrom-snoc y.order ys x f (omega arith), a'), (omega arith, u'))

IsStamped-weaken : (m n : ℕ) (xs : List Outbound) → m ≤ n → IsStamped m xs → IsStamped n xs
IsStamped-weaken m n xs h (a, u) = (a, IsUpTo-weaken m n xs h u)

IsStamped-without_first :
    (n : ℕ) (xs : List Outbound) → IsStamped n xs → IsStamped n (without_first xs)
IsStamped-without_first n [] h = h
IsStamped-without_first n (x ∷ xs) ((f, a), (l, u)) = (a, u)

pub IsFrom-interleaved :
    (n : ℕ) {xs ys zs : List Outbound}
    → IsInterleaved xs ys zs
    → IsFrom n xs
    → IsFrom n ys
    → IsFrom n zs
IsFrom-interleaved n both_empty f g = tt
IsFrom-interleaved n (from_first x i) (k, f) g = (k, IsFrom-interleaved n i f g)
IsFrom-interleaved n (from_second y i) f (k, g) = (k, IsFrom-interleaved n i f g)

abbrev pub IsOrdered : Queues → Type 0
IsOrdered q = IsStamped q.seq q.urgent × IsStamped q.seq q.normal × IsStamped q.seq q.progress

take-IsOrdered :
    (us ns ps : List Outbound) (q : Queues)
    → IsOrdered q
    → IsStamped q.seq us
    → IsStamped q.seq ns
    → IsStamped q.seq ps
    → IsOrdered (rest q (take us ns ps q))
unfolding take
take-IsOrdered (u ∷ us) ns ps q o ku kn kp = (IsStamped-without_first q.seq (u ∷ us) ku, kn, kp)
take-IsOrdered [] (n ∷ ns) (r ∷ rs) q o ku kn kp = elim (Bool-cases (ltb n.order r.order)) [
  | inl older ↦ rw older (ku, IsStamped-without_first q.seq (n ∷ ns) kn, kp)
  | inr newer ↦ rw newer (ku, kn, IsStamped-without_first q.seq (r ∷ rs) kp)
]
take-IsOrdered [] (n ∷ ns) [] q o ku kn kp = (ku, IsStamped-without_first q.seq (n ∷ ns) kn, kp)
take-IsOrdered [] [] (r ∷ rs) q o ku kn kp = (ku, kn, IsStamped-without_first q.seq (r ∷ rs) kp)
take-IsOrdered [] [] [] q o ku kn kp = o

next_seq-room : (q : Queues) → q.seq + 1 < 2 ^ 64 → next_seq q ≡ q.seq + 1
next_seq-room q h = omega arith

Step-IsOrdered : {q r : Queues} → IsOrdered q → Step q r → IsOrdered r
unfolding enqueue_progress enqueue dequeue close
Step-IsOrdered (ku, kn, kp) (reports q f k room) = elim (Bool-cases q.done) [
  | inl e ↦ rw e (ku, kn, kp)
  | inr e ↦
      let le : q.seq ≤ next_seq q = omega (arith, next_seq-room q room) in
      elim (Bool-cases (length q.progress == 64)) [
        | inl full ↦
            rw (e, full)
              (
                IsStamped-weaken _ _ q.urgent le ku,
                IsStamped-weaken _ _ q.normal le kn,
                IsStamped-snoc q.seq _ (record { frame = f; order = next_seq q })
                    (IsStamped-without_first q.seq q.progress kp) le,
              )
        | inr space ↦
            rw (e, space)
              (
                IsStamped-weaken _ _ q.urgent le ku,
                IsStamped-weaken _ _ q.normal le kn,
                IsStamped-snoc q.seq q.progress (record { frame = f; order = next_seq q }) kp le,
              )
      ]
]
Step-IsOrdered (ku, kn, kp) (sends q f u k room) =
    let le : q.seq ≤ next_seq q = omega (arith, next_seq-room q room) in
    elim (Bool-cases (q.done || not (ltb q.count q.limit))) [
      | inl e ↦ rw e (ku, kn, kp)
      | inr e ↦ elim (Bool-cases u) [
        | inl now ↦
            rw (e, now)
              (
                IsStamped-snoc q.seq q.urgent (record { frame = f; order = next_seq q }) ku le,
                IsStamped-weaken _ _ q.normal le kn,
                IsStamped-weaken _ _ q.progress le kp,
              )
        | inr later ↦
            rw (e, later)
              (
                IsStamped-weaken _ _ q.urgent le ku,
                IsStamped-snoc q.seq q.normal (record { frame = f; order = next_seq q }) kn le,
                IsStamped-weaken _ _ q.progress le kp,
              )
      ]
    ]
Step-IsOrdered (ku, kn, kp) (takes q) =
    take-IsOrdered q.urgent q.normal q.progress q (ku, kn, kp) ku kn kp
Step-IsOrdered h (closes q) = ((tt, tt), (tt, tt), (tt, tt))

pub Reachable-IsOrdered : {q : Queues} → Reachable q → IsOrdered q
Reachable-IsOrdered (at_start limit) = ((tt, tt), (tt, tt), (tt, tt))
Reachable-IsOrdered (after r step) = Step-IsOrdered (Reachable-IsOrdered r) step
