-- ===== src/Resolutions/Index.antt =====
-- The last entry of an adapter, through indices, sorting and lists of values.
use homer_cli.Base.{
  String, ◌≡◌, refl, sym, ◌∙◌, ap, true, false, Option, none, some, List, [], ◌∷◌, arith, str_eq,
  str_eq_iff, str_leb, str_leb_refl, if◌then◌else◌, Bool-cases, inl, inr,
}
use homer_cli.Base.Dict.{Dict, lookup, put, lookup-put}
use homer_cli.Resolutions.{Entry, index_onto, insert_entry, sort_entries, values}

-- The last entry of the adapter in the list, or `acc` where there is none.
unfoldable pub last_of : Option Entry → String → List Entry → Option Entry
last_of acc a [] = acc
last_of acc a (e ∷ es) = last_of (if str_eq e.adapter a then some e else acc) a es

pub lookup-index_onto :
    (a : String) (d : Dict Entry) (es : List Entry)
    → lookup a (index_onto d es) ≡ last_of (lookup a d) a es
unfolding index_onto last_of
lookup-index_onto a d [] = refl
lookup-index_onto a d (e ∷ es) =
    lookup-index_onto a (put e.adapter e d) es
    ∙ ap (λ acc. last_of acc a es) (lookup-put e.adapter a e d)

apart :
    (a : String) (e t : Entry)
    → str_leb e.adapter t.adapter ≡ false
    → str_eq e.adapter a ≡ true
    → str_eq t.adapter a ≡ false
apart a e t l p = elim (Bool-cases (str_eq t.adapter a)) [
  | inl q ↦
      let same : t.adapter ≡ e.adapter =
        (str_eq_iff t.adapter a).0 q ∙ sym ((str_eq_iff e.adapter a).0 p) in
      let leb : str_leb e.adapter t.adapter ≡ true = rw same (str_leb_refl e.adapter) in
      absurd (ground (arith))
  | inr q ↦ q
]

-- Entries of different adapters replace one another in either order.
swap :
    (a : String) (e t : Entry) (acc : Option Entry)
    → str_leb e.adapter t.adapter ≡ false
    → (if str_eq e.adapter a then some e else (if str_eq t.adapter a then some t else acc))
      ≡ (if str_eq t.adapter a then some t else (if str_eq e.adapter a then some e else acc))
swap a e t acc l = elim (Bool-cases (str_eq e.adapter a)) [
  | inl p ↦ rw (p, apart a e t l p) refl
  | inr p ↦ rw p refl
]

pub last_of-insert_entry :
    (acc : Option Entry) (a : String) (e : Entry) (es : List Entry)
    → last_of acc a (insert_entry e es) ≡ last_of acc a (e ∷ es)
unfolding insert_entry last_of
last_of-insert_entry acc a e [] = refl
last_of-insert_entry acc a e (t ∷ ts) = elim (Bool-cases (str_leb e.adapter t.adapter)) [
  | inl first ↦ rw (insert_entry, first) refl
  | inr later ↦
      rw (insert_entry, later)
        (last_of-insert_entry (if str_eq t.adapter a then some t else acc) a e ts
          ∙ ap (λ x. last_of x a ts) (swap a e t acc later))
]

pub last_of-sort_entries :
    (acc : Option Entry) (a : String) (es : List Entry)
    → last_of acc a (sort_entries es) ≡ last_of acc a es
unfolding sort_entries last_of
last_of-sort_entries acc a [] = refl
last_of-sort_entries acc a (e ∷ es) =
    last_of-insert_entry acc a e (sort_entries es)
    ∙ last_of-sort_entries (if str_eq e.adapter a then some e else acc) a es

-- Each entry stands under its own adapter, and no adapter twice.
unfoldable pub IsIndex : Dict Entry → Type 0
unfolding lookup
IsIndex [] = Unit {0}
IsIndex ((a, e) ∷ d) = (e.adapter ≡ a) × (lookup a d ≡ none) × IsIndex d

pub put-IsIndex : (e : Entry) (d : Dict Entry) → IsIndex d → IsIndex (put e.adapter e d)
unfolding IsIndex put lookup
put-IsIndex e [] h = (refl, refl, tt)
put-IsIndex e ((a, x) ∷ d) h = elim (Bool-cases (str_eq a e.adapter)) [
  | inl same ↦ rw (put, same) (sym ((str_eq_iff a e.adapter).0 same), h.1, h.2)
  | inr other ↦
      rw (put, other)
        (
          h.0,
          rw lookup-put (ground (arith, h.1, str_eq_iff a e.adapter, str_eq_iff e.adapter a)),
          put-IsIndex e d h.2,
        )
]

pub index_onto-IsIndex : (d : Dict Entry) (es : List Entry) → IsIndex d → IsIndex (index_onto d es)
unfolding index_onto
index_onto-IsIndex d [] h = h
index_onto-IsIndex d (e ∷ es) h = index_onto-IsIndex (put e.adapter e d) es (put-IsIndex e d h)

last_of-absent :
    (acc : Option Entry) (a : String) (d : Dict Entry)
    → IsIndex d
    → lookup a d ≡ none
    → last_of acc a (values d) ≡ acc
unfolding IsIndex values last_of lookup
last_of-absent acc a [] h n = refl
last_of-absent acc a ((b, e) ∷ d) h n = elim (Bool-cases (str_eq b a)) [
  | inl p ↦ let q : some e ≡ none = rw p at n in cc
  | inr p ↦
      let q : lookup a d ≡ none = rw p at n in
      let r : str_eq e.adapter a ≡ false = ap (λ k. str_eq k a) h.0 ∙ p in
      rw (values, last_of, r) (last_of-absent acc a d h.2 q)
]

pub last_of-values :
    (a : String) (d : Dict Entry) → IsIndex d → last_of none a (values d) ≡ lookup a d
unfolding IsIndex values last_of lookup
last_of-values a [] h = refl
last_of-values a ((b, e) ∷ d) h = elim (Bool-cases (str_eq b a)) [
  | inl p ↦
      let r : str_eq e.adapter a ≡ true = ap (λ k. str_eq k a) h.0 ∙ p in
      rw (values, last_of, lookup, r, p)
        (last_of-absent (some e) a d h.2 (ap (λ k. lookup k d) (sym ((str_eq_iff b a).0 p)) ∙ h.1))
  | inr p ↦
      let r : str_eq e.adapter a ≡ false = ap (λ k. str_eq k a) h.0 ∙ p in
      rw (values, last_of, lookup, r, p) (last_of-values a d h.2)
]
