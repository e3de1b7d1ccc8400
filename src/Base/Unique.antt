-- ===== src/Base/Unique.antt =====
-- Uniqueness of keys under the list operations of the helper.
use opatchy.Base.{
  Bool, List, [], arith, false, inl, inr, map, none, not, refl, some, sym, true, ◌++◌, ◌||◌, ◌∷◌,
  ◌≡◌, ◌≢◌,
}
use opatchy.Base.Lists.{In, contains, filter, find, here, is_unique, there}
use opatchy.Base.Members.{In-cons}
use opatchy.Base.Tests.{
  Bool-cases, Eq, bool_eq, if◌then◌else◌, list_eq, nat_eq, option_eq, string_eq, ◌==◌,
}

-- `ys` is `xs` with elements left out.
pub data Sub {ℓ} {A : Type ℓ} : List A → List A → Type ℓ where
  stop : Sub [] []
  take_one : {x : A} {xs ys : List A} → Sub ys xs → Sub (x ∷ ys) (x ∷ xs)
  skip_one : {x : A} {xs ys : List A} → Sub ys xs → Sub ys (x ∷ xs)

pub Sub-refl {ℓ} : {A : Type ℓ} (xs : List A) → Sub xs xs
Sub-refl [] = stop
Sub-refl (x ∷ xs) = take_one (Sub-refl xs)

pub Sub-map-filter {ℓ κ} :
    {A : Type ℓ} {B : Type κ} (f : A → B) (p : A → Bool) (xs : List A)
    → Sub (map f (filter p xs)) (map f xs)
Sub-map-filter f p [] = stop
Sub-map-filter f p (x ∷ xs) = elim (Bool-cases (p x)) [
  | inl kept ↦ rw kept (take_one (Sub-map-filter f p xs))
  | inr dropped ↦ rw dropped (skip_one (Sub-map-filter f p xs))
]

pub eq_false {ℓ} : {A : Type ℓ} ⦃e : Eq A⦄ → (a b : A) → a ≢ b → (a == b) ≡ false
eq_false ⦃e⦄ a b h = ground (arith, e.beq_iff a b)

pub eq_false_sym {ℓ} : {A : Type ℓ} ⦃e : Eq A⦄ → (a b : A) → (a == b) ≡ false → (b == a) ≡ false
eq_false_sym ⦃e⦄ a b h = ground (arith, e.beq_iff a b, e.beq_iff b a)

module _ {ℓ} {A : Type ℓ} ⦃e : Eq A⦄ where
  pub contains-Sub :
      {ys xs : List A} (a : A) → Sub ys xs → contains a xs ≡ false → contains a ys ≡ false
  contains-Sub a stop h = h
  contains-Sub a (take_one {x} {xs} s) h = ground (arith, contains-Sub a s (ground arith))
  contains-Sub a (skip_one {x} {xs} s) h = contains-Sub a s (ground arith)

  pub is_unique-Sub : {ys xs : List A} → Sub ys xs → is_unique xs ≡ true → is_unique ys ≡ true
  is_unique-Sub stop h = h
  is_unique-Sub (take_one {x} {xs} s) h =
      ground (arith, contains-Sub x s (ground arith), is_unique-Sub s (ground arith))
  is_unique-Sub (skip_one {x} {xs} s) h = is_unique-Sub s (ground arith)

  pub contains-append :
      (a : A) (xs ys : List A) → contains a (xs ++ ys) ≡ (contains a xs || contains a ys)
  contains-append a [] ys = refl
  contains-append a (x ∷ xs) ys = ground (arith, contains-append a xs ys)

  pub is_unique-append_one :
      (xs : List A) (a : A)
      → is_unique xs ≡ true
      → contains a xs ≡ false
      → is_unique (xs ++ a ∷ []) ≡ true
  is_unique-append_one [] a h n = refl
  is_unique-append_one (x ∷ xs) a h n = ground (
    arith,
    contains-append x xs (a ∷ []),
    is_unique-append_one xs a,
    e.beq_iff a x,
    e.beq_iff x a,
  )

  pub contains_of_In : {a : A} {xs : List A} → In a xs → contains a xs ≡ true
  contains_of_In {a} here = ground (arith, e.beq_iff a a)
  contains_of_In (there m) = ground (arith, contains_of_In m)

module _ {ℓ} {A K : Type ℓ} ⦃e : Eq K⦄ (key : A → K) where
  -- A search by key that finds nothing.
  pub contains_of_find-none :
      (k : K) (xs : List A) → find (λ x. key x == k) xs ≡ none → contains k (map key xs) ≡ false
  contains_of_find-none k [] h = refl
  contains_of_find-none k (x ∷ xs) h =
      ground (arith, e.beq_iff k (key x), e.beq_iff (key x) k, contains_of_find-none k xs)

  pub find_of_contains-false :
      (k : K) (xs : List A) → contains k (map key xs) ≡ false → find (λ x. key x == k) xs ≡ none
  find_of_contains-false k [] h = refl
  find_of_contains-false k (x ∷ xs) h =
      ground (arith, e.beq_iff k (key x), e.beq_iff (key x) k, find_of_contains-false k xs)

  -- What a search by key finds has the key.
  pub key_of_find : (k : K) (xs : List A) (a : A) → find (λ x. key x == k) xs ≡ some a → key a ≡ k
  key_of_find k [] a h = cc
  key_of_find k (x ∷ xs) a h = ground (arith, e.beq_iff (key x) k, key_of_find k xs a)

pub contains-In {ℓ} : {A : Type ℓ} ⦃e : Eq A⦄ {a : A} {xs : List A} → In a xs → contains a xs ≡ true
contains-In ⦃e⦄ {a} here = ground (arith, e.beq_iff a a)
contains-In ⦃e⦄ {a} (there m) = ground (arith, contains-In m)

module _ {ℓ} {A : Type ℓ} ⦃e : Eq A⦄ where
  pub is_unique-append :
      (xs ys : List A)
      → is_unique xs ≡ true
      → is_unique ys ≡ true
      → ((a : A) → In a xs → contains a ys ≡ false)
      → is_unique (xs ++ ys) ≡ true
  is_unique-append [] ys h k apart = k
  is_unique-append (x ∷ xs) ys h k apart = ground (
    arith,
    contains-append x xs ys,
    apart x here,
    is_unique-append xs ys (ground arith) k (λ a m. apart a (there m)),
  )

module _ {ℓ} {A K : Type ℓ} ⦃e : Eq K⦄ (key : A → K) where
  -- An element with the key `k` is in a list if its keys have `k`.
  pub In-map-key : {k : K} (xs : List A) → In k (map key xs) → (a : A) × In a xs × (key a ≡ k)
  In-map-key [] m = elim m [ ]
  In-map-key (x ∷ xs) m = elim (In-cons m) [
    | inl same ↦ (x, here, sym same)
    | inr n ↦ let (a, i, h) = In-map-key xs n in (a, there i, h)
  ]

  pub In-map-of : {a : A} {xs : List A} → In a xs → In (key a) (map key xs)
  In-map-of here = here
  In-map-of (there m) = there (In-map-of m)

  -- Elements of a list with unique keys are the same if their keys are.
  pub same_of_key :
      {a b : A} {xs : List A}
      → In a xs
      → In b xs
      → is_unique (map key xs) ≡ true
      → key a ≡ key b
      → a ≡ b
  same_of_key {a} {b} (here {xs}) m u h = elim (In-cons m) [
    | inl same ↦ sym same
    | inr n ↦ absurd (ground (arith, contains_of_In (In-map-of n), e.beq_iff (key a) (key b)))
  ]
  same_of_key {a} {b} (there {x} {xs} m) n u h = elim (In-cons n) [
    | inl same ↦ absurd (ground (arith, contains_of_In (In-map-of m), e.beq_iff (key x) (key a)))
    | inr k ↦ same_of_key m k (ground arith) h
  ]

module _ {ℓ} {A : Type ℓ} ⦃e : Eq A⦄ where
  pub In-of_contains : {a : A} (xs : List A) → contains a xs ≡ true → In a xs
  In-of_contains [] h = cc
  In-of_contains {a} (x ∷ xs) h = elim (Bool-cases (a == x)) [
    | inl same ↦ let path : a ≡ x = ground (arith, e.beq_iff a x) in rw path here
    | inr other ↦ there (In-of_contains xs (ground arith))
  ]

-- A search by key after the elements with the key of `a` are replaced by `a`.
pub find-replaced {ℓ} :
    {A K : Type ℓ} ⦃e : Eq K⦄ (key : A → K) (k : K) (a : A) (xs : List A)
    → find (λ x. key x == k) (filter (λ x. not (key x == key a)) xs ++ (a ∷ []))
      ≡ (if key a == k then some a else find (λ x. key x == k) xs)
find-replaced key k a [] = refl
find-replaced ⦃e = e⦄ key k a (x ∷ xs) = ground (
  arith,
  find-replaced key k a xs,
  e.beq_iff (key x) (key a),
  e.beq_iff (key x) k,
  e.beq_iff (key a) k,
)

-- No element has the key of `a` once they are taken out.
pub contains-taken_out {ℓ} :
    {A K L : Type ℓ} ⦃e : Eq K⦄ ⦃f : Eq L⦄ (key : A → K) (name : K → L) (a : A) (xs : List A)
    → ((k l : K) → name k ≡ name l → k ≡ l)
    → contains (name (key a)) (map (λ x. name (key x)) (filter (λ x. not (key x == key a)) xs))
      ≡ false
contains-taken_out key name a [] inj = refl
contains-taken_out ⦃e = e⦄ ⦃f = f⦄ key name a (x ∷ xs) inj = ground (
  arith,
  contains-taken_out key name a xs inj,
  e.beq_iff (key x) (key a),
  f.beq_iff (name (key a)) (name (key x)),
  inj (key x) (key a),
)
