-- ===== src/Sync/Exclusion/Judgement.antt =====
-- The difference of two objects that is judged once the excluded keys are stripped.
use homer_cli.Base.{String, ◌≡◌, ◌↔◌, true, false, List, [], contains}
use homer_cli.Json.{Members, object, value_at}
use homer_cli.Json.Numbers.{FloatParser}
use homer_cli.Json.Equal.{same_slot}
use homer_cli.Json.Pointwise.{IsMap}
use homer_cli.Json.Strip.{strip_top_keys}
use homer_cli.Json.Strip.Exact.{strip_top_keys_exact, strip_top_keys-IsJson}
use homer_cli.Engine.Diff.{diff_json}
use homer_cli.Engine.Diff.Exact.{diff_json_exact}

module _ ⦃fl : FloatParser⦄ where
  -- For two objects of JSON values, with no key twice, and any excluded keys: the difference of what is
  -- left after stripping the excluded keys names no key exactly if, at every other key, both objects
  -- have no value or equal ones.
  pub diff_json-strip_top_keys :
      (ks ls keys : List String) (m n : Members)
      → IsMap m
      → IsMap n
      → ((diff_json (strip_top_keys (object ks m) keys) (strip_top_keys (object ls n) keys)).keys
          ≡ [])
        ↔ ((k : String) → contains k keys ≡ false → same_slot (value_at k m) (value_at k n) ≡ true)
  diff_json-strip_top_keys ks ls keys m n hm hn =
      let (reported, silent) =
        diff_json_exact (strip_top_keys (object ks m) keys) (strip_top_keys (object ls n) keys)
          (strip_top_keys-IsJson ks keys m hm) (strip_top_keys-IsJson ls keys n hn) in
      let (agrees, equal) = strip_top_keys_exact ks ls keys m n hm hn in
      (λ e. agrees (reported e), λ h. silent (equal h))
