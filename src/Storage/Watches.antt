-- ===== src/Storage/Watches.antt =====
-- helper/opatchy_helper/storage_watches.py: the rules for one watch. `fullmatch` of the three
-- regular expressions walks the code points.
use Prim.Native.Char.{code}
use opatchy.Base.{
  Bool, List, Option, Result, String, after_prefix, all_chars, any, bool_eq, class_run, err, false,
  if◌then◌else◌, is_digit, is_letter, is_some, is_unique, leb, length, ltb, nat_eq, none, not, ok,
  refuse, some, string_eq, test_after, text_length, ℕ, ◌&&◌, ◌==◌, ◌>>◌, ◌||◌,
}
use opatchy.Models.{SecurityFixCondition, WatchMode, WatchRecord}

-- A `StateCorruptError` is its reason.
abbrev pub Checked : Type 0 → Type 0
Checked A = Result String A

-- [A-Za-z0-9@_+]
is_package_start : ℕ → Bool
unfolding is_digit is_letter
is_package_start c = is_letter c || (is_digit c || (c == b'@' || (c == b'_' || c == b'+')))

-- [A-Za-z0-9@._+-]
is_package_char : ℕ → Bool
unfolding is_package_start
is_package_char c = is_package_start c || (c == b'.' || c == b'-')

package_name : String → Bool
package_name String.[] = false
package_name (String.◌∷◌ c s) = is_package_start (code c) && class_run is_package_char 0 127 s

-- `_ARCH_ITEM_ID.fullmatch(value) is not None`
unfoldable pub is_arch_item_id : String → Bool
unfolding package_name after_prefix class_run is_package_start is_package_char
is_arch_item_id value = test_after package_name (after_prefix "arch:" value)

-- `_ADVISORY_ID.fullmatch(value) is not None`
unfoldable pub is_advisory_id : String → Bool
unfolding after_prefix class_run is_digit
is_advisory_id value = test_after (class_run is_digit 1 120) (after_prefix "AVG-" value)

-- the digits up to the first dash, and what follows that dash
split_dash : String → Option (String × String)
split_dash String.[] = none
split_dash (String.◌∷◌ c s) = if code c == b'-' then some ("", s) else elim (split_dash s) [
  | none ↦ none
  | some (before, after) ↦ some (String.◌∷◌ c before, after)
]

cve_numbers : Option (String × String) → Bool
unfolding is_digit class_run
cve_numbers none = false
cve_numbers (some (year, number)) = class_run is_digit 4 4 year && class_run is_digit 4 19 number

-- `_CVE_ID.fullmatch(value) is not None`
unfoldable pub is_cve_id : String → Bool
unfolding cve_numbers split_dash after_prefix
is_cve_id value = test_after (λ rest. cve_numbers (split_dash rest)) (after_prefix "CVE-" value)

-- `value.isascii() and value.isprintable()`
unfoldable pub is_printable_ascii : String → Bool
unfolding all_chars
is_printable_ascii value = all_chars (λ c. leb 32 c && leb c 126) value

abbrev pub max_version_length : ℕ
max_version_length = 256

abbrev pub max_cve_ids : ℕ
max_cve_ids = 16

-- `_validate_condition`
unfoldable pub validate_condition : SecurityFixCondition → Checked (Unit {0})
validate_condition condition = do
  refuse (not (is_advisory_id condition.advisory_id)) "watch.condition advisory is invalid"
  refuse
      (length condition.cve_ids == 0
        || (ltb max_cve_ids (length condition.cve_ids)
            || (not (is_unique condition.cve_ids)
                || any (λ cve_id. not (is_cve_id cve_id)) condition.cve_ids)))
      "watch.condition CVE evidence is invalid"
  refuse
      (condition.fixed_version == ""
        || (ltb max_version_length (text_length condition.fixed_version)
            || not (is_printable_ascii condition.fixed_version)))
      "watch.condition fixed version is invalid"

unfoldable pub security_fix_condition : String → List String → String → Checked SecurityFixCondition
security_fix_condition advisory_id cve_ids fixed_version =
    let condition : SecurityFixCondition = record {
      advisory_id = advisory_id;
      cve_ids = cve_ids;
      fixed_version = fixed_version;
    } in
    (do validate_condition condition; ok condition)

unfoldable pub check_condition : String → Option SecurityFixCondition → Checked (Unit {0})
check_condition item_id none = ok tt
check_condition item_id (some condition) = do
  refuse (not (is_arch_item_id item_id)) "conditional watches require a canonical Arch item ID"
  validate_condition condition

unfoldable pub validate_watch : WatchRecord → Checked (Unit {0})
unfolding check_condition
validate_watch watch = elim watch.mode [
  | WatchMode.permanent ↦
      refuse
        (is_some watch.installed_fingerprint
          || (is_some watch.candidate_fingerprint || (watch.armed || is_some watch.condition)))
        "permanent watches must not retain temporary internals"
  | WatchMode.temporary ↦ do
    refuse (not (is_some watch.installed_fingerprint))
        "temporary watches require an installed baseline"
    refuse (not (watch.armed == is_some watch.candidate_fingerprint))
        "temporary watch candidate and arming are inconsistent"
    check_condition watch.item_id watch.condition
  | WatchMode.off ↦ err "off watches are not durable"
]
