-- ===== src/Stream/Queue/Flush.antt =====
-- What a flush writes.
use homer_cli.Base.{
  ℕ, suc, zero, ◌+◌, ◌≤◌, ◌≡◌, refl, sym, ap, inl, inr, Bool-cases, Option-cases, Option, some,
  List, [], ◌∷◌, ◌++◌, length, ltb, arith,
}
use homer_cli.Stream.Queue.{
  Outbound, Queues, count_after, take, rest, dequeue, flush, with_queues, takes, Reachable, after,
}
use homer_cli.Stream.Queue.Order.{
  IsFrom, IsAscending, IsInterleaved, both_empty, from_first, from_second, IsFrom-weaken,
  IsFrom-interleaved, Reachable-IsOrdered,
}
use homer_cli.Stream.Queue.Bounds.{queues_are_bounded}

-- How many frames are queued.
abbrev pub total : Queues → ℕ
total q = length q.urgent + length q.normal + length q.progress

-- What a flush of these queues gives: the frames that follow the urgent ones, in order, and empty
-- queues.
abbrev IsFlushed : List Outbound → List Outbound → List Outbound → List Outbound × Queues → Type 0
IsFlushed us ns ps (items, q) =
    (others : List Outbound) × (items ≡ us ++ others)
    × IsInterleaved ns ps others
    × IsAscending others
    × (total q ≡ 0)

IsFrom-head :
    (x : Outbound) (n : ℕ) (xs : List Outbound)
    → n ≤ x.order
    → IsFrom x.order xs
    → IsFrom n (x ∷ xs)
IsFrom-head x n xs h f = (h, IsFrom-weaken n x.order xs h f)

flush-IsFlushed :
    (n : ℕ) (us ns ps : List Outbound) (q : Queues)
    → q.urgent ≡ us
    → q.normal ≡ ns
    → q.progress ≡ ps
    → length us + length ns + length ps ≤ n
    → IsAscending ns
    → IsAscending ps
    → IsFlushed us ns ps (flush n q)
unfolding flush take
flush-IsFlushed zero [] [] [] q eu en ep h an ap' = ([], refl, both_empty, tt, rw (eu, en, ep) refl)
flush-IsFlushed zero (u ∷ us) ns ps q eu en ep h an ap' = absurd (omega arith)
flush-IsFlushed zero [] (n ∷ ns) ps q eu en ep h an ap' = absurd (omega arith)
flush-IsFlushed zero [] [] (r ∷ rs) q eu en ep h an ap' = absurd (omega arith)
flush-IsFlushed (suc m) [] [] [] q eu en ep h an ap' =
    rw (eu, en, ep) ([], refl, both_empty, tt, refl)
flush-IsFlushed (suc m) (u ∷ us) ns ps q eu en ep h an ap' =
    let (os, e, i, a, z) =
      flush-IsFlushed m us ns ps (with_queues us ns ps (count_after u q) q) refl refl refl
        (omega arith) an ap' in
    rw (eu, en, ep) (os, ap (λ l. u ∷ l) e, i, a, z)
flush-IsFlushed (suc m) [] (x ∷ ns) [] q eu en ep h (f, an) ap' =
    let (os, e, i, a, z) =
      flush-IsFlushed m [] ns [] (with_queues [] ns [] (count_after x q) q) refl refl refl
        (omega arith) an ap' in
    rw (eu, en, ep)
      (x ∷ os, ap (λ l. x ∷ l) e, from_first x i, (IsFrom-interleaved x.order i f tt, a), z)
flush-IsFlushed (suc m) [] [] (y ∷ ps) q eu en ep h an (g, ap') =
    let (os, e, i, a, z) =
      flush-IsFlushed m [] [] ps (with_queues [] [] ps (count_after y q) q) refl refl refl
        (omega arith) an ap' in
    rw (eu, en, ep)
      (y ∷ os, ap (λ l. y ∷ l) e, from_second y i, (IsFrom-interleaved y.order i tt g, a), z)
flush-IsFlushed (suc m) [] (x ∷ ns) (y ∷ ps) q eu en ep h (f, an) (g, ap') =
    elim (Bool-cases (ltb x.order y.order)) [
      | inl older ↦
          let (os, e, i, a, z) =
            flush-IsFlushed m [] ns (y ∷ ps) (with_queues [] ns (y ∷ ps) (count_after x q) q) refl
              refl refl (omega arith) an (g, ap') in
          rw (flush, eu, en, ep, older)
            (
              x ∷ os,
              ap (λ l. x ∷ l) e,
              from_first x i,
              (IsFrom-interleaved x.order i f (IsFrom-head y x.order ps (ground arith) g), a),
              z,
            )
      | inr newer ↦
          let (os, e, i, a, z) =
            flush-IsFlushed m [] (x ∷ ns) ps (with_queues [] (x ∷ ns) ps (count_after y q) q) refl
              refl refl (omega arith) (f, an) ap' in
          rw (flush, eu, en, ep, newer)
            (
              y ∷ os,
              ap (λ l. y ∷ l) e,
              from_second y i,
              (IsFrom-interleaved y.order i (IsFrom-head x y.order ns (ground arith) f) g, a),
              z,
            )
    ]

reached :
    (q : Queues) (o : Option (Outbound × Queues))
    → dequeue q ≡ o
    → Reachable q
    → Reachable (rest q o)
reached q o e r = rw (sym e) (after r (takes q))

flush-Reachable : (n : ℕ) (q : Queues) → Reachable q → Reachable (flush n q).1
unfolding flush
flush-Reachable zero q r = r
flush-Reachable (suc n) q r = elim (Option-cases (dequeue q)) [
  | inl e ↦ rw (flush, e) r
  | inr ((item, q'), e) ↦ rw (flush, e) (flush-Reachable n q' (reached q (some (item, q')) e r))
]

-- In every reachable state, with fuel for the number of queued frames, a flush writes the urgent
-- frames, in their order, and then the normal and the progress frames, each in their order and
-- together in the order in which they were queued; it leaves no frame behind, and the counter at 0.
pub flush_writes_everything :
    (n : ℕ) (q : Queues)
    → Reachable q
    → total q ≤ n
    → (others : List Outbound) × ((flush n q).0 ≡ q.urgent ++ others)
      × IsInterleaved q.normal q.progress others
      × IsAscending others
      × (total (flush n q).1 ≡ 0)
      × ((flush n q).1.count ≡ 0)
flush_writes_everything n q r h =
    let (u, (an, bn), (ap', bp)) = Reachable-IsOrdered r in
    let (os, e, i, a, z) =
      flush-IsFlushed n q.urgent q.normal q.progress q refl refl refl h an ap' in
    (os, e, i, a, z, omega (arith, z, (queues_are_bounded _ (flush-Reachable n q r)).0))
