-- ===== src/Json/RoundTrip/Collected.antt =====
-- The members that the loop of `parseObject` collects from distinct keys.
use homer_cli.Base.{
  ◌≡◌, refl, ◌∙◌, true, false, ◌||◌, String, List, [], ◌∷◌, ◌++◌, arith, contains, str_eq,
  str_eq_iff, str_eq_refl, append_assoc, append-nil, Bool-cases, inl, inr,
}
use homer_cli.Base.Counting.{IsNodup}
use homer_cli.Json.{Value, Members, end, member, Object, value_at, set_value}
use homer_cli.Json.Keys.{has_key}
use homer_cli.Json.Rebuild.{empty, value_or_null}
use homer_cli.Json.Parser.{add_member}
use homer_cli.Json.RoundTrip.Settled.{pick}
use homer_cli.Json.RoundTrip.Objects.{added}

join : Members → Members → Members
join end m = m
join (member k v n) m = member k v (join n m)

set_value-join :
    (k : String) (v : Value) (n m : Members)
    → has_key k n ≡ false
    → join (set_value k v n) m ≡ join n (member k v m)
unfolding join set_value has_key value_at
set_value-join k v end m h = refl
set_value-join k v (member j w n) m h = elim (Bool-cases (str_eq j k)) [
  | inl same ↦ ground arith
  | inr other ↦ rw other (rw (set_value-join k v n m (rw other at h)))
]

has_key-set_value :
    (j k : String) (v : Value) (m : Members)
    → has_key j (set_value k v m) ≡ (str_eq k j || has_key j m)
unfolding has_key set_value value_at
has_key-set_value j k v end = ground arith
has_key-set_value j k v (member i w m) =
    ground (arith, has_key-set_value j k v m, str_eq_iff k j, str_eq_iff i k, str_eq_iff i j)

join-end : (n : Members) → join n end ≡ n
unfolding join
join-end end = refl
join-end (member k v n) = rw (join-end n)

-- A new key goes behind the others.
add_member-new :
    (k : String) (v : Value) (out : Object)
    → has_key k out.members ≡ false
    → add_member k v out ≡ record { keys = out.keys ++ k ∷ []; members = set_value k v out.members }
unfolding add_member
add_member-new k v out h = rw h

still_new :
    (j k : String) (v : Value) (ks : List String) (out : Object)
    → contains k ks ≡ false
    → contains j ks ≡ true
    → has_key j out.members ≡ false
    → has_key j (set_value k v out.members) ≡ false
still_new j k v ks out new old h =
    ground (arith, has_key-set_value j k v out.members, str_eq_iff k j)

-- New keys are added in their order.
added-new :
    (ks : List String) (m : Members) (out : Object)
    → IsNodup ks
    → ((k : String) → contains k ks ≡ true → has_key k out.members ≡ false)
    → added ks m out ≡ record { keys = out.keys ++ ks; members = join out.members (pick ks m) }
unfolding added pick
added-new [] m out n fresh = rw (append-nil, join-end)
added-new (k ∷ ks) m out n fresh =
    let v = value_or_null (value_at k m) in
    let here = fresh k (unfold contains in rw (str_eq_refl k)) in
    rw (add_member-new k v out here) (
      added-new ks m (record { keys = out.keys ++ k ∷ []; members = set_value k v out.members }) n.1
        (λ j c. still_new j k v ks out n.0 c (fresh j (unfold contains in ground arith)))
      ∙ rw (append_assoc, set_value-join k v out.members (pick ks m) here))

pub added-empty :
    (ks : List String) (m : Members)
    → IsNodup ks
    → added ks m empty ≡ record { keys = ks; members = pick ks m }
unfolding join
added-empty ks m n = added-new ks m empty n (λ k c. unfold has_key value_at in refl)
