-- ===== src/Hub/Reports/Values.antt =====
-- The reported values, and what looks at a text or a number alone.
use Prim.Native.String.{[] as empty, ◌∷◌ as ◌∷ₜ◌}
use Prim.Native.Char.{code}
use homer_cli.Base.{
  ℕ, zero, suc, String, Bool, true, false, not, ◌&&◌, ◌||◌, Option, none, some, List, [], ◌∷◌, ◌%◌,
  ◌^◌, ltb, ◌==◌, str_eq, if◌then◌else◌,
}
use homer_cli.Base.Integers.{ℤ, pos, negsuc, is_below_one}
use homer_cli.Json.Keys.{is_some}

-- What the hub uses of Go's standard library: `strings.TrimSpace`, and arithmetic on doubles, each
-- given by its 64 bits.
pub record Go : Type 0 where
  pub trim_space : String → String
  pub less : ℕ → ℕ → Bool
  pub times : ℕ → ℕ → ℕ
  pub over : ℕ → ℕ → ℕ
  pub round : ℕ → ℕ

pub record HostCpu : Type 0 where
  pub cores : ℤ
  pub model : String
  pub usage : Option ℕ

pub record HostMemory : Type 0 where
  pub total : ℕ
  pub used : ℕ

pub record HostLoad : Type 0 where
  pub one : ℕ
  pub five : ℕ
  pub fifteen : ℕ

pub record HostDisk : Type 0 where
  pub mount : String
  pub total : ℕ
  pub used : ℕ

pub record HostNet : Type 0 where
  pub name : String
  pub mac : String
  pub addrs : List String
  pub up : Bool

pub record HostSnapshot : Type 0 where
  pub os : String
  pub arch : String
  pub distro : String
  pub kernel : String
  pub uptime_sec : ℤ
  pub cpu : Option HostCpu
  pub memory : Option HostMemory
  pub swap : Option HostMemory
  pub load : Option HostLoad
  pub disks : List HostDisk
  pub nets : List HostNet

-- `toolctl.Status`
pub record Tool : Type 0 where
  pub id : String
  pub adapter : String
  pub label : String
  pub version : String
  pub error : String
  pub upgradable : Bool

-- Where the loop of `stripControls` stands: in plain text, right after ESC, or inside a sequence.
pub data Scan : Type 0 where
  plain after_escape in_sequence : Scan

unfoldable pub strip_from : Scan → String → String
strip_from state empty = empty
strip_from in_sequence (c ∷ₜ s) =
    let rest = strip_from in_sequence s in
    let done = strip_from plain s in if ltb (code c) 0x40 || ltb 0x7e (code c) then rest else done
strip_from after_escape (c ∷ₜ s) =
    let sequence = strip_from in_sequence s in
    let escape = strip_from after_escape s in
    let rest = strip_from plain s in
    if code c == 0x5b
    then sequence
    else if code c == 0x1b
    then escape
    else if ltb (code c) 0x20 || code c == 0x7f
    then rest
    else c ∷ₜ rest
strip_from plain (c ∷ₜ s) =
    let escape = strip_from after_escape s in
    let rest = strip_from plain s in
    if code c == 0x1b
    then escape
    else if ltb (code c) 0x20 || code c == 0x7f
    then rest
    else c ∷ₜ rest

unfoldable pub strip_controls : String → String
unfolding strip_from
strip_controls s = strip_from plain s

-- string(runes[:n])
unfoldable pub take_runes : ℕ → String → String
take_runes zero s = empty
take_runes (suc n) empty = empty
take_runes (suc n) (c ∷ₜ s) = c ∷ₜ take_runes n s

unfoldable pub plausible_addr : String → Bool
plausible_addr empty = false
plausible_addr (c ∷ₜ s) = code c == 0x2e || code c == 0x3a || plausible_addr s

unfoldable pub normalize_memory : Option HostMemory → Option HostMemory
normalize_memory none = none
normalize_memory (some m) =
    if m.total == 0
    then none
    else some (record { total = m.total; used = if ltb m.total m.used then m.total else m.used })

abbrev pub is_infinite : ℕ → Bool
is_infinite bits = bits % 2 ^ 63 == 0x7ff0000000000000

-- if cores < 0 { 0 }; if cores > 4096 { 4096 }
abbrev pub clamp_cores : ℤ → ℤ
clamp_cores (pos n) = if ltb 4096 n then pos 4096 else pos n
clamp_cores (negsuc n) = pos 0

abbrev pub clamp_uptime : ℤ → ℤ
clamp_uptime (pos n) = pos n
clamp_uptime (negsuc n) = pos 0

abbrev pub none_listed {ℓ} : {A : Type ℓ} → List A → Bool
none_listed [] = true
none_listed (x ∷ xs) = false

-- The test for a report that carries nothing.
unfoldable pub is_nothing : HostSnapshot → Bool
unfolding is_some
is_nothing h =
    str_eq h.os ""
    && str_eq h.arch ""
    && str_eq h.distro ""
    && str_eq h.kernel ""
    && is_below_one h.uptime_sec
    && not (is_some h.cpu)
    && not (is_some h.memory)
    && not (is_some h.swap)
    && not (is_some h.load)
    && none_listed h.disks
    && none_listed h.nets

unfoldable pub tool_ids : List Tool → List String
tool_ids [] = []
tool_ids (t ∷ tools) = t.id ∷ tool_ids tools
