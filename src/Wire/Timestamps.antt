-- ===== src/Wire/Timestamps.antt =====
-- The timestamps of wire.py and parser_fields.py. `Calendar` stands for `datetime.isoformat`, at
-- microseconds and in UTC, and for `datetime.fromisoformat`, which raises or gives a datetime.
use Prim.Native.Char.{code}
use text.Mathlib.TextLemmas.{cons-append}
use opatchy.Base.{
  Bool, Option, String, after_prefix, all_chars, ap, arith, bool_eq, false, if◌then◌else◌, is_some,
  list_eq, nat_eq, none, not, option_eq, refl, some, string_eq, suc, text_length, true, zero, ℕ,
  ◌+++◌, ◌-◌, ◌==◌, ◌≡◌,
}
use opatchy.Models.{
  Datetime, arch_status_eq, condition_eq, item_source_eq, provenance_eq, severity_eq,
  source_name_eq, source_scope_eq, source_status_eq, watch_eq, watch_mode_eq,
}

pub record Calendar : Type 0 where
  pub isoformat : Datetime → String
  pub fromisoformat : String → Option Datetime

-- `value.replace(old, new)`; the number counts what is left of an occurrence
unfoldable pub replace_from : String → String → ℕ → String → String
unfolding after_prefix
replace_from old new skip String.[] = ""
replace_from old new (suc skip) (String.◌∷◌ c s) = replace_from old new skip s
replace_from old new zero (String.◌∷◌ c s) =
    let inside = replace_from old new (text_length old - 1) s in
    let outside = replace_from old new zero s in
    if is_some (after_prefix old (String.◌∷◌ c s)) then new +++ inside else String.◌∷◌ c outside

abbrev pub replace_text : String → String → String → String
replace_text old new value = replace_from old new 0 value

-- `_timestamp`; every datetime of the helper is in UTC
unfoldable pub timestamp_text : Calendar → Datetime → String
unfolding replace_from
timestamp_text calendar value = replace_text "+00:00" "Z" (calendar.isoformat value)

-- `value[n]`, where there is such a character
unfoldable pub code_at : ℕ → String → Option ℕ
code_at n String.[] = none
code_at zero (String.◌∷◌ c s) = some (code c)
code_at (suc n) (String.◌∷◌ c s) = code_at n s

-- `value.endswith("Z")`
unfoldable pub ends_with_z : String → Bool
ends_with_z String.[] = false
ends_with_z (String.◌∷◌ c String.[]) = code c == b'Z'
ends_with_z (String.◌∷◌ c (String.◌∷◌ d s)) = ends_with_z (String.◌∷◌ d s)

-- `value[:-1]`
unfoldable pub without_last : String → String
without_last String.[] = ""
without_last (String.◌∷◌ c String.[]) = ""
without_last (String.◌∷◌ c (String.◌∷◌ d s)) = String.◌∷◌ c (without_last (String.◌∷◌ d s))

-- What the text of a datetime is: 26 characters with a `T` at the eleventh and no `+`, and the offset
-- of UTC; and the datetime is read back from it.
pub record IsIso (calendar : Calendar) (value : Datetime) : Type 0 where
  pub local : String
  pub text : calendar.isoformat value ≡ local +++ "+00:00"
  pub size : text_length local ≡ 26
  pub separator : code_at 10 local ≡ some b'T'
  pub plain : all_chars (λ c. not (c == b'+')) local ≡ true
  pub back : calendar.fromisoformat (local +++ "+00:00") ≡ some value

pub replace-plain :
    (local : String)
    → all_chars (λ c. not (c == b'+')) local ≡ true
    → replace_text "+00:00" "Z" (local +++ "+00:00") ≡ local +++ "Z"
unfolding replace_from all_chars after_prefix
replace-plain String.[] h = refl
replace-plain (String.◌∷◌ c s) h =
    rw (cons-append c s "+00:00", cons-append c s "Z") (ground (arith, replace-plain s))

pub code_at-append :
    (n : ℕ) (s t : String) {c : ℕ} → code_at n s ≡ some c → code_at n (s +++ t) ≡ some c
unfolding code_at
code_at-append n String.[] t h = absurd cc
code_at-append zero (String.◌∷◌ c s) t h = rw (cons-append c s t) h
code_at-append (suc n) (String.◌∷◌ c s) t h = rw (cons-append c s t) (code_at-append n s t h)

pub ends_with_z-append : (s : String) → ends_with_z (s +++ "Z") ≡ true
unfolding ends_with_z
ends_with_z-append String.[] = refl
ends_with_z-append (String.◌∷◌ c s) =
    rw (cons-append c s "Z") (go (s +++ "Z") (ends_with_z-append s))
  where
    go : (t : String) → ends_with_z t ≡ true → ends_with_z (String.◌∷◌ c t) ≡ true
    go String.[] h = absurd cc
    go (String.◌∷◌ d t) h = h

pub without_last-append : (s : String) → without_last (s +++ "Z") ≡ s
unfolding without_last ends_with_z
without_last-append String.[] = refl
without_last-append (String.◌∷◌ c s) =
    rw (cons-append c s "Z") (go (s +++ "Z") (ends_with_z-append s) (without_last-append s))
  where
    go :
        (t : String)
        → ends_with_z t ≡ true
        → without_last t ≡ s
        → without_last (String.◌∷◌ c t) ≡ String.◌∷◌ c s
    go String.[] h e = absurd cc
    go (String.◌∷◌ d t) h e = ap (λ r. String.◌∷◌ c r) e
