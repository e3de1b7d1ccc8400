-- ===== src/Base/Patterns.antt =====
-- The pieces of the helper's regular expressions, over the code points of a text.
use Prim.Native.Nat.{ℕ}
use Prim.Native.Char.{code}
use Prim.Native.String.{String}
use mathlib.Core.Bool.{Bool, true, false, ◌&&◌, ◌||◌}
use mathlib.Core.Option.{Option, none, some}
use opatchy.Base.Tests.{leb, if◌then◌else◌, ◌==◌, nat_eq}
use opatchy.Base.Text.{text_length}

unfoldable pub is_digit : ℕ → Bool
is_digit c = leb b'0' c && leb c b'9'

unfoldable pub is_letter : ℕ → Bool
is_letter c = leb b'A' c && leb c b'Z' || (leb b'a' c && leb c b'z')

unfoldable pub all_chars : (ℕ → Bool) → String → Bool
all_chars p String.[] = true
all_chars p (String.◌∷◌ c s) = p (code c) && all_chars p s

-- between `lo` and `hi` characters of the class, and nothing else
unfoldable pub class_run : (ℕ → Bool) → ℕ → ℕ → String → Bool
unfolding all_chars
class_run p lo hi s = leb lo (text_length s) && (leb (text_length s) hi && all_chars p s)

-- what follows a fixed prefix
unfoldable pub after_prefix : String → String → Option String
after_prefix String.[] s = some s
after_prefix (String.◌∷◌ p ps) String.[] = none
after_prefix (String.◌∷◌ p ps) (String.◌∷◌ c s) =
    if code p == code c then after_prefix ps s else none

abbrev pub test_after : (String → Bool) → Option String → Bool
test_after p none = false
test_after p (some s) = p s

-- `AVG-[0-9]+`, matched in full
unfoldable pub is_avg_id : String → Bool
unfolding after_prefix all_chars is_digit
is_avg_id value =
    test_after (λ digits. leb 1 (text_length digits) && all_chars is_digit digits)
      (after_prefix "AVG-" value)
