-- ===== src/Hub/Reports/Bounds.antt =====
-- The limits on a stored report.
use homer_cli.Base.{
  All, All-append, or-false, ℕ, String, ◌≡◌, ◌≢◌, ◌<◌, ◌≤◌, refl, ap, Bool, true, false, ◌||◌,
  Option, none, some, List, [], ◌∷◌, ◌++◌, arith, length, length-append, contains, contains-append,
  str_eq, str_eq_iff, ltb, leb, ◌==◌, if◌then◌else◌, inl, inr, Bool-cases,
}
use homer_cli.Base.Counting.{IsNodup, IsNodup-append_one}
use homer_cli.Hub.Reports.{
  Go, Tool, HostMemory, HostDisk, HostNet, HostSnapshot, clip_text, normalize_memory, keep_disks,
  keep_addrs, keep_nets, keep_tools, clean_host, normalize_host, normalize_tools, tool_ids,
  is_nothing,
}

abbrev pub FitsMemory : Option HostMemory → Type 0
FitsMemory none = Unit
FitsMemory (some m) = (0 < m.total) × (m.used ≤ m.total)

abbrev pub FitsDisk : HostDisk → Type 0
FitsDisk d = (d.mount ≢ "") × (0 < d.total) × (d.used ≤ d.total)

abbrev pub FitsNet : HostNet → Type 0
FitsNet n = (n.name ≢ "") × (length n.addrs ≤ 8)

-- At most 6 disks and 12 interfaces of at most 8 addresses; nothing uses more than there is.
abbrev pub FitsHost : Option HostSnapshot → Type 0
FitsHost none = Unit
FitsHost (some h) =
    FitsMemory h.memory
    × FitsMemory h.swap
    × (length h.disks ≤ 6)
    × All FitsDisk h.disks
    × (length h.nets ≤ 12)
    × All FitsNet h.nets

-- At most 16 tools, no ID empty and none twice.
unfoldable pub FitsTools : Option (List Tool) → Type 0
unfolding tool_ids contains
FitsTools none = Unit
FitsTools (some tools) =
    (length tools ≤ 16) × IsNodup (tool_ids tools) × (contains "" (tool_ids tools) ≡ false)

-- One round of a loop that adds at most one element, below a limit.
length-next {ℓ} :
    {A : Type ℓ} (limit : ℕ) (skip : Bool) (out : List A) (x : A)
    → leb limit (length out) ≡ false
    → length (if skip then out else out ++ x ∷ []) ≤ limit
length-next limit true out x h = ground arith
length-next limit false out x h = ground (arith, length-append out (x ∷ []))

All-next {ℓ κ} :
    {A : Type ℓ} (P : A → Type κ) (skip : Bool) (out : List A) (x : A)
    → All P out
    → (skip ≡ false → P x)
    → All P (if skip then out else out ++ x ∷ [])
All-next P true out x h p = h
All-next P false out x h p = All-append P out x h (p refl)

ne_of_str_eq : (s t : String) → str_eq s t ≡ false → s ≢ t
ne_of_str_eq s t h e = ground (arith, str_eq_iff s t)

capped : (used total : ℕ) → (if ltb total used then total else used) ≤ total
capped used total = ground arith

normalize_memory-FitsMemory : (m : Option HostMemory) → FitsMemory (normalize_memory m)
unfolding normalize_memory
normalize_memory-FitsMemory none = tt
normalize_memory-FitsMemory (some m) = elim (Bool-cases (m.total == 0)) [
  | inl e ↦ rw (normalize_memory, e) tt
  | inr e ↦ rw (normalize_memory, e) (ground arith, capped m.used m.total)
]

module _ ⦃go : Go⦄ where
  keep_disks-FitsDisk :
      (out disks : List HostDisk)
      → length out ≤ 6
      → All FitsDisk out
      → (length (keep_disks out disks) ≤ 6) × All FitsDisk (keep_disks out disks)
  unfolding keep_disks
  keep_disks-FitsDisk out [] l h = (l, h)
  keep_disks-FitsDisk out (d ∷ disks) l h = elim (Bool-cases (leb 6 (length out))) [
    | inl e ↦ rw (keep_disks, e) (l, h)
    | inr e ↦
        let mount = clip_text d.mount 128 in
        let skip = str_eq mount "" || d.total == 0 in
        let kept : HostDisk = record {
          mount = mount;
          total = d.total;
          used = if ltb d.total d.used then d.total else d.used;
        } in
        rw (keep_disks, e)
          (keep_disks-FitsDisk (if skip then out else out ++ kept ∷ []) disks
            (length-next 6 skip out kept e)
            (All-next FitsDisk skip out kept h λ s.
              let (m, t) = or-false (str_eq mount "") (d.total == 0) s in
              (ne_of_str_eq mount "" m, ground arith, capped d.used d.total)))
  ]

  length-keep_addrs : (out addrs : List String) → length out ≤ 8 → length (keep_addrs out addrs) ≤ 8
  unfolding keep_addrs
  length-keep_addrs out [] l = l
  length-keep_addrs out (a ∷ addrs) l = ground (
    arith,
    length-append out (clip_text a 80 ∷ []),
    length-keep_addrs out addrs,
    length-keep_addrs (out ++ clip_text a 80 ∷ []) addrs,
  )

  keep_nets-FitsNet :
      (out nets : List HostNet)
      → length out ≤ 12
      → All FitsNet out
      → (length (keep_nets out nets) ≤ 12) × All FitsNet (keep_nets out nets)
  unfolding keep_nets
  keep_nets-FitsNet out [] l h = (l, h)
  keep_nets-FitsNet out (n ∷ nets) l h = elim (Bool-cases (leb 12 (length out))) [
    | inl e ↦ rw (keep_nets, e) (l, h)
    | inr e ↦
        let name = clip_text n.name 32 in
        let kept : HostNet = record {
          name = name;
          mac = clip_text n.mac 32;
          addrs = keep_addrs [] n.addrs;
          up = n.up;
        } in
        let skip = str_eq name "" in
        rw (keep_nets, e)
          (keep_nets-FitsNet (if skip then out else out ++ kept ∷ []) nets
            (length-next 12 skip out kept e)
            (All-next FitsNet skip out kept h
              λ s. (ne_of_str_eq name "" s, length-keep_addrs [] n.addrs (omega arith))))
  ]

  pub normalize_host-FitsHost : (h : Option HostSnapshot) → FitsHost (normalize_host h)
  unfolding normalize_host clean_host
  normalize_host-FitsHost none = tt
  normalize_host-FitsHost (some h) = elim (Bool-cases (is_nothing (clean_host h))) [
    | inl e ↦ rw (normalize_host, e) tt
    | inr e ↦
        let (dl, ds) = keep_disks-FitsDisk [] h.disks (omega arith) tt in
        let (nl, ns) = keep_nets-FitsNet [] h.nets (omega arith) tt in
        rw (normalize_host, e)
          (normalize_memory-FitsMemory h.memory, normalize_memory-FitsMemory h.swap, dl, ds, nl, ns)
  ]

tool_ids-append : (xs ys : List Tool) → tool_ids (xs ++ ys) ≡ tool_ids xs ++ tool_ids ys
unfolding tool_ids
tool_ids-append [] ys = refl
tool_ids-append (x ∷ xs) ys = ap (λ ids. x.id ∷ ids) (tool_ids-append xs ys)

-- The same limits, on the list alone.
abbrev FitsList : List Tool → Type 0
FitsList tools =
    (length tools ≤ 16) × IsNodup (tool_ids tools) × (contains "" (tool_ids tools) ≡ false)

FitsList-append :
    (out : List Tool) (t : Tool)
    → FitsList out
    → leb 16 (length out) ≡ false
    → (str_eq t.id "" || contains t.id (tool_ids out)) ≡ false
    → FitsList (out ++ t ∷ [])
unfolding contains tool_ids
FitsList-append out t (l, n, c) e s =
    let (blank, fresh) = or-false (str_eq t.id "") (contains t.id (tool_ids out)) s in
    rw tool_ids-append (
      ground (arith, length-append out (t ∷ [])),
      IsNodup-append_one t.id (tool_ids out) fresh n,
      ground (arith, contains-append "" (tool_ids out) (t.id ∷ []), blank),
    )

module _ ⦃go : Go⦄ where
  keep_tools-FitsList : (out tools : List Tool) → FitsList out → FitsList (keep_tools out tools)
  unfolding keep_tools
  keep_tools-FitsList out [] h = h
  keep_tools-FitsList out (t ∷ tools) h = elim (Bool-cases (leb 16 (length out))) [
    | inl e ↦ rw (keep_tools, e) h
    | inr e ↦
        let id = clip_text t.id 64 in
        let kept : Tool = record {
          id = id;
          adapter = clip_text t.adapter 64;
          label = clip_text t.label 64;
          version = clip_text t.version 64;
          error = clip_text t.error 200;
          upgradable = t.upgradable;
        } in
        let skip = str_eq id "" || contains id (tool_ids out) in
        elim (Bool-cases skip) [
          | inl s ↦ rw (keep_tools, e, s) (keep_tools-FitsList out tools h)
          | inr s ↦
              rw (keep_tools, e, s)
                (keep_tools-FitsList (out ++ kept ∷ []) tools (FitsList-append out kept h e s))
        ]
  ]

  pub normalize_tools-FitsTools : (tools : Option (List Tool)) → FitsTools (normalize_tools tools)
  unfolding normalize_tools FitsTools tool_ids contains
  normalize_tools-FitsTools none = tt
  normalize_tools-FitsTools (some tools) = keep_tools-FitsList [] tools (omega arith, tt, refl)
