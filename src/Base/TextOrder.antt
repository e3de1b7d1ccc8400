-- ===== src/Base/TextOrder.antt =====
-- The order of texts by their characters is total.
use Prim.Native.Nat.compare as compare_ℕ
use Prim.Native.Nat.{ℕ, zero, suc, Ordering, compare as compare_ℕ}
use Prim.Native.Char.{code}
use Prim.Native.String.compare
use Prim.Native.String.{String, [], ◌∷◌, compare, then}
use mathlib.Core.Bool.{Bool, true, false}
use mathlib.Core.Path.{◌≡◌, refl, sym, ap, ◌∙◌}
use opatchy.Base.Text.{text_leb}

-- the order of a comparison the other way round
converse : Ordering → Ordering
converse Ordering.lt = Ordering.gt
converse Ordering.eq = Ordering.eq
converse Ordering.gt = Ordering.lt

converse-then : (a b : Ordering) → converse (then a b) ≡ then (converse a) (converse b)
unfolding converse
converse-then Ordering.lt b = refl
converse-then Ordering.eq b = refl
converse-then Ordering.gt b = refl

compare_ℕ-converse : (m n : ℕ) → compare_ℕ n m ≡ converse (compare_ℕ m n)
unfolding converse
compare_ℕ-converse zero zero = compare_ℕ.zero-zero ∙ ap converse (sym compare_ℕ.zero-zero)
compare_ℕ-converse zero (suc n) = compare_ℕ.suc-zero n ∙ ap converse (sym (compare_ℕ.zero-suc n))
compare_ℕ-converse (suc m) zero = compare_ℕ.zero-suc m ∙ ap converse (sym (compare_ℕ.suc-zero m))
compare_ℕ-converse (suc m) (suc n) =
    compare_ℕ.suc-suc n m ∙ compare_ℕ-converse m n ∙ ap converse (sym (compare_ℕ.suc-suc m n))

compare-converse : (s t : String) → compare t s ≡ converse (compare s t)
unfolding converse
compare-converse [] [] = compare.nil-nil ∙ ap converse (sym compare.nil-nil)
compare-converse [] (d ∷ t) = compare.cons-nil d t ∙ ap converse (sym (compare.nil-cons d t))
compare-converse (c ∷ s) [] = compare.nil-cons c s ∙ ap converse (sym (compare.cons-nil c s))
compare-converse (c ∷ s) (d ∷ t) =
    compare.cons-cons d c t s
    ∙ ap (λ o. then o (compare t s)) (compare_ℕ-converse (code c) (code d))
    ∙ ap (then (converse (compare_ℕ (code c) (code d)))) (compare-converse s t)
    ∙ sym (converse-then (compare_ℕ (code c) (code d)) (compare s t))
    ∙ ap converse (sym (compare.cons-cons c d s t))

-- `o` is that of a text at most another one
abbrev leb_of : Ordering → Bool
leb_of o = elim o [ Ordering.gt ↦ false | _ ↦ true ]

leb_of-converse : (o : Ordering) → leb_of o ≡ false → leb_of (converse o) ≡ true
unfolding converse
leb_of-converse Ordering.lt h = absurd cc
leb_of-converse Ordering.eq h = absurd cc
leb_of-converse Ordering.gt h = refl

-- Of two texts, one is at most the other.
pub text_leb-total : (s t : String) → text_leb s t ≡ false → text_leb t s ≡ true
text_leb-total s t h = ap leb_of (compare-converse s t) ∙ leb_of-converse (compare s t) h
