-- ===== src/Base/Members.antt =====
-- Membership in the lists that the helper builds by filters, maps and joins.
use opatchy.Base.{
  Bool, List, Option, [], ap, false, inl, inr, map, none, refl, some, true, ◌++◌, ◌∷◌, ◌≡◌, ◌⊎◌,
}
use opatchy.Base.Lists.{All, In, filter, filter_map, here, there}
use opatchy.Base.Results.{>>=-eq-ok, Result, each, ok}
use opatchy.Base.Tests.{Bool-cases, Option-cases, if◌then◌else◌}

pub In-cons {ℓ} : {A : Type ℓ} {a x : A} {xs : List A} → In a (x ∷ xs) → (a ≡ x) ⊎ In a xs
In-cons here = inl refl
In-cons (there m) = inr m

-- What a filter keeps passes its test, and stood in the list.
pub test_of_In-filter {ℓ} :
    {A : Type ℓ} (p : A → Bool) (a : A) (xs : List A) → In a (filter p xs) → (p a ≡ true) × In a xs
test_of_In-filter p a [] m = elim m [ ]
test_of_In-filter p a (x ∷ xs) m = elim (Bool-cases (p x)) [
  | inl kept ↦ elim (In-cons (rw kept at m)) [
    | inl same ↦ rw same (kept, here)
    | inr n ↦ let (t, i) = test_of_In-filter p a xs n in (t, there i)
  ]
  | inr dropped ↦ let (t, i) = test_of_In-filter p a xs (rw dropped at m) in (t, there i)
]

pub filter_all {ℓ} :
    {A : Type ℓ} (p : A → Bool) (xs : List A) → ((a : A) → In a xs → p a ≡ true) → filter p xs ≡ xs
filter_all p [] h = refl
filter_all p (x ∷ xs) h = rw (h x here) (rw (filter_all p xs (λ a m. h a (there m))))

module _ {ℓ} {A B : Type ℓ} (f : A → Option B) where
  pub In-filter_map :
      {b : B} (xs : List A) → In b (filter_map f xs) → (a : A) × In a xs × (f a ≡ some b)
  In-filter_map [] m = elim m [ ]
  In-filter_map {b} (x ∷ xs) m = elim (Option-cases (f x)) [
    | inl dropped ↦
        let (a, i, e) = In-filter_map xs (rw (dropped, filter_map) at m) in (a, there i, e)
    | inr (y, made) ↦ elim (In-cons (rw (made, filter_map) at m)) [
      | inl same ↦ (x, here, rw same made)
      | inr n ↦ let (a, i, e) = In-filter_map xs n in (a, there i, e)
    ]
  ]

  pub In-filter_map_of :
      {a : A} {b : B} {xs : List A} → In a xs → f a ≡ some b → In b (filter_map f xs)
  In-filter_map_of (here {xs}) e = rw (e, filter_map) here
  In-filter_map_of {b} (there {x} {xs} m) e = go (f x) refl (In-filter_map_of m e)
    where
      go : (o : Option B) → f x ≡ o → In b (filter_map f xs) → In b (filter_map f (x ∷ xs))
      go none h n = rw (h, filter_map) n
      go (some y) h n = rw (h, filter_map) (there n)

pub In-append {ℓ} : {A : Type ℓ} {a : A} (xs ys : List A) → In a (xs ++ ys) → In a xs ⊎ In a ys
In-append [] ys m = inr m
In-append (x ∷ xs) ys m = elim (In-cons m) [
  | inl same ↦ inl (rw same here)
  | inr n ↦ elim (In-append xs ys n) [ inl l ↦ inl (there l) | inr r ↦ inr r ]
]

pub In-append_left {ℓ} :
    {A : Type ℓ} {a : A} {xs : List A} (ys : List A) → In a xs → In a (xs ++ ys)
In-append_left ys here = here
In-append_left ys (there m) = there (In-append_left ys m)

pub In-append_right {ℓ} :
    {A : Type ℓ} {a : A} (xs : List A) {ys : List A} → In a ys → In a (xs ++ ys)
In-append_right [] m = m
In-append_right (x ∷ xs) m = there (In-append_right xs m)

pub In-map {ℓ} :
    {A B : Type ℓ} (f : A → B) {b : B} (xs : List A)
    → In b (map f xs)
    → (a : A) × In a xs × (b ≡ f a)
In-map f [] m = elim m [ ]
In-map f (x ∷ xs) m = elim (In-cons m) [
  | inl same ↦ (x, here, same)
  | inr n ↦ let (a, i, e) = In-map f xs n in (a, there i, e)
]

-- `if b: return ()`
pub In-guarded {ℓ} :
    {A : Type ℓ} {a : A} (b : Bool) (xs : List A)
    → In a (if b then [] else xs)
    → (b ≡ false) × In a xs
In-guarded true xs m = elim m [ ]
In-guarded false xs m = (refl, m)

pub In-filter {ℓ} :
    {A : Type ℓ} (p : A → Bool) {a : A} {xs : List A} → In a xs → p a ≡ true → In a (filter p xs)
In-filter p (here {xs}) h = rw h here
In-filter p (there {x} {xs} m) h = elim (Bool-cases (p x)) [
  | inl kept ↦ rw kept (there (In-filter p m h))
  | inr dropped ↦ rw dropped (In-filter p m h)
]

pub In-map_of {ℓ} : {A B : Type ℓ} (f : A → B) {a : A} {xs : List A} → In a xs → In (f a) (map f xs)
In-map_of f here = here
In-map_of f (there m) = there (In-map_of f m)

-- what holds of every value holds of those of a list
pub All-of {ℓ κ} : {A : Type ℓ} {P : A → Type κ} (xs : List A) → ((a : A) → P a) → All P xs
All-of [] h = tt
All-of (x ∷ xs) h = (h x, All-of xs h)

pub All-map {ℓ κ μ} :
    {A : Type ℓ} {P : A → Type κ} {Q : A → Type μ} (xs : List A)
    → ((a : A) → P a → Q a)
    → All P xs
    → All Q xs
All-map [] f hs = tt
All-map (x ∷ xs) f (h, hs) = (f x h, All-map xs f hs)

-- a loop of checks that raises nothing
pub All-each {ℓ} :
    {E A : Type ℓ} (f : A → Result E (Unit {ℓ})) (xs : List A)
    → each f xs ≡ ok tt
    → All (λ a. f a ≡ ok tt) xs
All-each f [] h = tt
All-each f (x ∷ xs) h =
    let step = >>=-eq-ok (f x) (λ _. each f xs) h in (step.1, All-each f xs step.2)

module _ {ℓ} {E A : Type ℓ} (f : A → Result E (Unit {ℓ})) where
  pub ok_of_In : {a : A} {xs : List A} → In a xs → each f xs ≡ ok tt → f a ≡ ok tt
  ok_of_In {a} (here {xs}) h = let step = >>=-eq-ok (f a) (λ _. each f xs) h in step.1
  ok_of_In {a} (there {x} {xs} m) h =
      let step = >>=-eq-ok (f x) (λ _. each f xs) h in ok_of_In m step.2

  pub each_of_In : (xs : List A) → ((a : A) → In a xs → f a ≡ ok tt) → each f xs ≡ ok tt
  each_of_In [] h = refl
  each_of_In (x ∷ xs) h = rw (h x here) (each_of_In xs (λ a m. h a (there m)))

pub map_of_append {ℓ κ} :
    {A : Type ℓ} {B : Type κ} (f : A → B) (xs ys : List A) → map f (xs ++ ys) ≡ map f xs ++ map f ys
map_of_append f [] ys = refl
map_of_append f (x ∷ xs) ys = ap (λ rest. f x ∷ rest) (map_of_append f xs ys)
