-- ===== src/Base/Unicode.antt =====
-- `bytes.decode("utf-8")` in its strict form, `str.strip` and the decimal form of an integer.
use Prim.Native.Nat.{ℕ, zero, suc, ◌+◌, ◌-◌, ◌*◌, ◌/◌, ◌%◌, compare, Ordering}
use Prim.Native.Char.{Char, char, code}
use Prim.Native.String
use Prim.Native.String.{String}
use mathlib.Core.Path.{◌≡◌, refl}
use mathlib.Core.Bool.{Bool, ◌&&◌, ◌||◌}
use mathlib.Core.Option.{Option, none, some}
use mathlib.Core.List.{List, [], ◌∷◌}
use opatchy.Base.Tests.{leb, ltb, nat_beq, if◌then◌else◌}
use opatchy.Base.Results.{ℤ}

high_char :
    (n : ℕ) (a b : Ordering)
    → compare n 55296 ≡ Ordering.gt
    → compare 57343 n ≡ a
    → compare n 1114112 ≡ b
    → Option Char
high_char n Ordering.lt Ordering.lt e f g = some (char n (rw (e, f, g) tt))
high_char n _ _ e f g = none

low_char : (n : ℕ) (o : Ordering) → compare n 55296 ≡ o → Option Char
unfolding high_char
low_char n Ordering.lt e = some (char n (rw e tt))
low_char n Ordering.eq e = none
low_char n Ordering.gt e = high_char n (compare 57343 n) (compare n 1114112) e refl refl

-- the character with a number; none for a surrogate and above U+10FFFF
unfoldable pub to_char : ℕ → Option Char
unfolding low_char
to_char n = low_char n (compare n 55296) refl

-- How many continuation bytes are to come, the bits so far, and the range of the next byte.
pub record Decoder : Type 0 where
  pub left : ℕ
  pub bits : ℕ
  pub low : ℕ
  pub high : ℕ

abbrev start : Decoder
start = record { left = 0; bits = 0; low = 128; high = 191 }

abbrev expect : ℕ → ℕ → ℕ → ℕ → Decoder
expect left bits low high = record { left = left; bits = bits; low = low; high = high }

-- the first byte of a character of two or more bytes
lead_byte : ℕ → Option Decoder
lead_byte b =
    if leb 194 b && leb b 223
    then some (expect 1 (b - 192) 128 191)
    else if nat_beq b 224
    then some (expect 2 0 160 191)
    else if nat_beq b 237
    then some (expect 2 13 128 159)
    else if leb 225 b && leb b 239
    then some (expect 2 (b - 224) 128 191)
    else if nat_beq b 240
    then some (expect 3 0 144 191)
    else if leb 241 b && leb b 243
    then some (expect 3 (b - 240) 128 191)
    else if nat_beq b 244
    then some (expect 3 4 128 143)
    else none

-- one byte: the next decoder, and a character that it completes
decode_byte : Decoder → ℕ → Option (Decoder × Option ℕ)
unfolding lead_byte
decode_byte d b =
    if nat_beq d.left 0
    then (if ltb b 128
        then some (start, some b)
        else elim (lead_byte b) [ none ↦ none | some d' ↦ some (d', none) ])
    else if leb d.low b && leb b d.high
    then (if nat_beq d.left 1
        then some (start, some (d.bits * 64 + (b - 128)))
        else some (expect (d.left - 1) (d.bits * 64 + (b - 128)) 128 191, none))
    else none

abbrev prepend : Option ℕ → Option String → Option String
prepend none rest = rest
prepend (some n) none = none
prepend (some n) (some rest) = elim (to_char n) [ none ↦ none | some c ↦ some (String.◌∷◌ c rest) ]

decode_from : Decoder → List ℕ → Option String
unfolding decode_byte to_char
decode_from d [] = if nat_beq d.left 0 then some "" else none
decode_from d (b ∷ bs) = elim (decode_byte d b) [
  | none ↦ none
  | some (d', found) ↦ prepend found (decode_from d' bs)
]

-- `raw.decode("utf-8")`; none is a `UnicodeDecodeError`
unfoldable pub decode_utf8 : List ℕ → Option String
unfolding decode_from
decode_utf8 raw = decode_from start raw

-- the characters that `str.isspace` accepts
unfoldable pub is_space : ℕ → Bool
is_space c =
    leb 9 c && leb c 13
    || (leb 28 c && leb c 32
        || (nat_beq c 133
            || (nat_beq c 160
                || (nat_beq c 5760
                    || (leb 8192 c && leb c 8202
                        || (nat_beq c 8232
                            || (nat_beq c 8233
                                || (nat_beq c 8239 || (nat_beq c 8287 || nat_beq c 12288)))))))))

unfoldable pub strip_left : String → String
unfolding is_space
strip_left String.[] = ""
strip_left (String.◌∷◌ c s) = if is_space (code c) then strip_left s else String.◌∷◌ c s

strip_right : String → String
unfolding is_space
strip_right String.[] = ""
strip_right (String.◌∷◌ c s) = elim (strip_right s) [
  | String.[] ↦ if is_space (code c) then "" else String.◌∷◌ c String.[]
  | String.◌∷◌ d t ↦ String.◌∷◌ c (String.◌∷◌ d t)
]

-- `s.strip()`
unfoldable pub strip : String → String
unfolding strip_left strip_right
strip s = strip_left (strip_right s)

digit : ℕ → String
digit n = elim (to_char (48 + n)) [ none ↦ "" | some c ↦ String.◌∷◌ c String.[] ]

-- the decimal digits, on fuel that is above the number
decimal_from : ℕ → ℕ → String
unfolding digit to_char
decimal_from zero n = ""
decimal_from (suc fuel) n =
    let rest = decimal_from fuel (n / 10) in
    if ltb n 10 then digit n else String.◌++◌ rest (digit (n % 10))

-- `str(n)`; the fuel suffices, since each round divides by ten
unfoldable pub decimal : ℤ → String
unfolding decimal_from
decimal (ℤ.pos n) = decimal_from (suc n) n
decimal (ℤ.negsuc n) = String.◌++◌ "-" (decimal_from (suc (suc n)) (suc n))

decode_test :
    (decode_utf8 (226 ∷ 130 ∷ 172 ∷ 10 ∷ []) ≡ some "€\n")
    × (decode_utf8 (237 ∷ 160 ∷ 128 ∷ []) ≡ none)
unfolding decode_utf8
decode_test = (refl, refl)

strip_test : (strip " \t1\n" ≡ "1") × (decimal (ℤ.negsuc 119) ≡ "-120")
unfolding strip decimal
strip_test = (refl, refl)
