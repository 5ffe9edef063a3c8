-- ===== src/Hub/Reports/Kept.antt =====
-- What is kept of a report.
use Prim.Native.String.{count}
use homer_cli.Base.{
  ℕ, String, not, ◌||◌, Option, none, some, List, [], ◌∷◌, ◌++◌, ltb, leb, ◌==◌, length, str_eq,
  contains, if◌then◌else◌,
}
use homer_cli.Base.Integers.{is_below_one}
use homer_cli.Json.Keys.{is_some}
use homer_cli.Json.Numbers.{is_nan}
use homer_cli.Hub.Reports.Values.{
  Go, HostCpu, HostLoad, HostDisk, HostNet, HostSnapshot, Tool, strip_controls, take_runes,
  plausible_addr, normalize_memory, is_infinite, clamp_cores, clamp_uptime, is_nothing, tool_ids,
}

module _ ⦃go : Go⦄ where
  unfoldable pub clip_text : String → ℕ → String
  unfolding strip_controls take_runes
  clip_text s max_runes =
      let t = go.trim_space (strip_controls s) in
      if ltb max_runes (count t) then take_runes max_runes t else t

  -- 10, 100 and 10000 as doubles
  unfoldable pub clean_percent : Option ℕ → Option ℕ
  clean_percent none = none
  clean_percent (some v) =
      if is_nan v || is_infinite v
      then none
      else (let low = if go.less v 0 then 0 else v in
          let pct = if go.less 0x4059000000000000 low then 0x4059000000000000 else low in
          some (go.over (go.round (go.times pct 0x4024000000000000)) 0x4024000000000000))

  unfoldable pub clean_load : ℕ → ℕ
  clean_load v =
      if is_nan v || is_infinite v || go.less v 0
      then 0
      else if go.less 0x40c3880000000000 v
      then 0x40c3880000000000
      else go.over (go.round (go.times v 0x4059000000000000)) 0x4059000000000000

  unfoldable pub normalize_cpu : Option HostCpu → Option HostCpu
  unfolding clip_text clean_percent is_some
  normalize_cpu none = none
  normalize_cpu (some c) =
      let cores = clamp_cores c.cores in
      let model = clip_text c.model 80 in
      let usage = clean_percent c.usage in
      if not (is_below_one cores) || not (str_eq model "") || is_some usage
      then some (record { cores = cores; model = model; usage = usage })
      else none

  unfoldable pub normalize_load : Option HostLoad → Option HostLoad
  unfolding clean_load
  normalize_load none = none
  normalize_load (some l) =
      some (record {
        one = clean_load l.one;
        five = clean_load l.five;
        fifteen = clean_load l.fifteen;
      })

  -- The loop over the disks; `out` has what is kept.
  unfoldable pub keep_disks : List HostDisk → List HostDisk → List HostDisk
  unfolding clip_text
  keep_disks out [] = out
  keep_disks out (d ∷ disks) =
      let mount = clip_text d.mount 128 in
      let skip = str_eq mount "" || d.total == 0 in
      let kept : HostDisk = record {
        mount = mount;
        total = d.total;
        used = if ltb d.total d.used then d.total else d.used;
      } in
      let rest = keep_disks (if skip then out else out ++ kept ∷ []) disks in
      if leb 6 (length out) then out else rest

  unfoldable pub keep_addrs : List String → List String → List String
  unfolding clip_text plausible_addr
  keep_addrs out [] = out
  keep_addrs out (a ∷ addrs) =
      let addr = clip_text a 80 in
      let rest = keep_addrs (if plausible_addr addr then out ++ addr ∷ [] else out) addrs in
      if leb 8 (length out) then out else rest

  unfoldable pub keep_nets : List HostNet → List HostNet → List HostNet
  unfolding clip_text keep_addrs
  keep_nets out [] = out
  keep_nets out (n ∷ nets) =
      let name = clip_text n.name 32 in
      let kept : HostNet = record {
        name = name;
        mac = clip_text n.mac 32;
        addrs = keep_addrs [] n.addrs;
        up = n.up;
      } in
      let rest = keep_nets (if str_eq name "" then out else out ++ kept ∷ []) nets in
      if leb 12 (length out) then out else rest

  unfoldable pub clean_host : HostSnapshot → HostSnapshot
  unfolding clip_text normalize_cpu normalize_memory normalize_load keep_disks keep_nets
  clean_host h = record {
    os = clip_text h.os 32;
    arch = clip_text h.arch 32;
    distro = clip_text h.distro 80;
    kernel = clip_text h.kernel 80;
    uptime_sec = clamp_uptime h.uptime_sec;
    cpu = normalize_cpu h.cpu;
    memory = normalize_memory h.memory;
    swap = normalize_memory h.swap;
    load = normalize_load h.load;
    disks = keep_disks [] h.disks;
    nets = keep_nets [] h.nets;
  }

  unfoldable pub normalize_host : Option HostSnapshot → Option HostSnapshot
  unfolding clean_host
  normalize_host none = none
  normalize_host (some h) = let out = clean_host h in if is_nothing out then none else some out

  -- The loop over the tools; the IDs in `out` are those in `seen`.
  unfoldable pub keep_tools : List Tool → List Tool → List Tool
  unfolding clip_text contains tool_ids
  keep_tools out [] = out
  keep_tools out (t ∷ tools) =
      let id = clip_text t.id 64 in
      let skip = str_eq id "" || contains id (tool_ids out) in
      let kept : Tool = record {
        id = id;
        adapter = clip_text t.adapter 64;
        label = clip_text t.label 64;
        version = clip_text t.version 64;
        error = clip_text t.error 200;
        upgradable = t.upgradable;
      } in
      let rest = keep_tools (if skip then out else out ++ kept ∷ []) tools in
      if leb 16 (length out) then out else rest

  unfoldable pub normalize_tools : Option (List Tool) → Option (List Tool)
  unfolding keep_tools
  normalize_tools none = none
  normalize_tools (some tools) = some (keep_tools [] tools)
