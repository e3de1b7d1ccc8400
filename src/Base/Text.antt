-- ===== src/Base/Text.antt =====
-- Text: prefixes, joins and the order of Python's `str`, which compares code points.
use Prim.Native.Nat.{ℕ, zero, suc, Ordering, compare as compare_ℕ}
use Prim.Native.Char.{code}
use Prim.Native.String.{String, [], ◌∷◌, ◌++◌, compare, count}
use mathlib.Core.Bool.{Bool, true, false}
use mathlib.Core.List.{List}
use text.Mathlib.Text.{starts_with as begins_with}

infixr 65 ◌+++◌
-- the join that an f-string makes
abbrev pub ◌+++◌ : String → String → String
s +++ t = s ++ t

-- `s.startswith(t)`
abbrev pub starts_with : String → String → Bool
starts_with s t = begins_with s t

-- `s <= t`
abbrev pub text_leb : String → String → Bool
text_leb s t = elim (compare s t) [ Ordering.gt ↦ false | _ ↦ true ]

-- `s[:n]`, in code points
abbrev pub text_take : ℕ → String → String
text_take zero s = ""
text_take (suc n) [] = ""
text_take (suc n) (c ∷ s) = c ∷ text_take n s

-- `sep.join(parts)`
abbrev pub join : String → List String → String
join sep List.[] = ""
join sep (List.◌∷◌ s List.[]) = s
join sep (List.◌∷◌ s (List.◌∷◌ t parts)) = s ++ (sep ++ join sep (List.◌∷◌ t parts))

-- `len(s)`
abbrev pub text_length : String → ℕ
text_length s = count s

-- `"\0" in s`
abbrev pub has_nul : String → Bool
has_nul [] = false
has_nul (c ∷ s) = elim (compare_ℕ (code c) 0) [ Ordering.eq ↦ true | _ ↦ has_nul s ]

-- `sorted(values)` of texts
abbrev pub insert_text : String → List String → List String
insert_text s List.[] = List.◌∷◌ s List.[]
insert_text s (List.◌∷◌ t ts) = elim (text_leb s t) [
  | true ↦ List.◌∷◌ s (List.◌∷◌ t ts)
  | false ↦ List.◌∷◌ t (insert_text s ts)
]

abbrev pub sort_texts : List String → List String
sort_texts List.[] = List.[]
sort_texts (List.◌∷◌ s ss) = insert_text s (sort_texts ss)
