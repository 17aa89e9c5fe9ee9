-- ===== src/Shared/Lists.antt =====
-- Lists with Boolean tests, as the source's comprehensions and set operations use them. A Python
-- set or frozenset of texts is a list of texts, read through `contains` alone.
use Prim.Native.Nat.{ℕ, suc, ◌+◌}
use Prim.Native.String.{String}
use mathlib.Core.Path.{◌≡◌, refl}
use mathlib.Core.Logic.{◌⊎◌, inl, inr}
use mathlib.Core.Bool.{Bool, true, false, ◌&&◌, ◌||◌}
use mathlib.Core.Option.{Option, none, some}
use mathlib.Core.List.{List, [], ◌∷◌, ◌++◌, map}
use native.Mathlib.Omega.{arith}
use campus_id.Shared.Tests.{◌==◌, text_le, if◌then◌else◌, Bool-cases, Option-cases}

module _ {ℓ} {A : Type ℓ} where
  abbrev pub length : List A → ℕ
  length [] = 0
  length (x ∷ xs) = suc (length xs)

  -- `[x for x in xs if p(x)]`
  abbrev pub filter : (A → Bool) → List A → List A
  filter p [] = []
  filter p (x ∷ xs) = let rest = filter p xs in if p x then x ∷ rest else rest

  abbrev pub any : (A → Bool) → List A → Bool
  any p [] = false
  any p (x ∷ xs) = p x || any p xs

  abbrev pub all : (A → Bool) → List A → Bool
  all p [] = true
  all p (x ∷ xs) = p x && all p xs

  -- The first element that passes the test, as a loop with a `return` in it finds it.
  abbrev pub find? : (A → Bool) → List A → Option A
  find? p [] = none
  find? p (x ∷ xs) = let rest = find? p xs in if p x then some x else rest

  abbrev pub is_empty : List A → Bool
  is_empty [] = true
  is_empty (x ∷ xs) = false

  -- An element stands in a list, with its place.
  pub data Within (a : A) : List A → Type ℓ where
    here : {xs : List A} → Within a (a ∷ xs)
    there : {x : A} {xs : List A} → Within a xs → Within a (x ∷ xs)

  pub Within-cons : {a x : A} {xs : List A} → Within a (x ∷ xs) → (a ≡ x) ⊎ Within a xs
  Within-cons here = inl refl
  Within-cons (there w) = inr w

  pub length-append : (xs ys : List A) → length (xs ++ ys) ≡ length xs + length ys
  length-append [] ys = omega arith
  length-append (x ∷ xs) ys = omega (arith, length-append xs ys)

abbrev pub contains : String → List String → Bool
contains k [] = false
contains k (x ∷ xs) = (x == k) || contains k xs

-- Whether two sets share an element: the truth of `xs & ys`.
abbrev pub intersects : List String → List String → Bool
intersects xs ys = any (λ x. contains x ys) xs

-- `xs <= ys` on sets.
abbrev pub subset : List String → List String → Bool
subset xs ys = all (λ x. contains x ys) xs

-- `sorted(set(xs))`: insertion that drops duplicates.
abbrev pub insert : String → List String → List String
insert k [] = k ∷ []
insert k (x ∷ xs) =
    let rest = insert k xs in
    if x == k then x ∷ xs else if text_le k x then k ∷ x ∷ xs else x ∷ rest

abbrev pub sorted_set : List String → List String
sorted_set [] = []
sorted_set (x ∷ xs) = insert x (sorted_set xs)

-- What a loop that returns at the first match finds among the elements that a filter keeps.
module _ {ℓ} {A : Type ℓ} (p q : A → Bool) where
  pub find?-filter_sound :
      (xs : List A) (x : A)
      → find? p (filter q xs) ≡ some x
      → Within x xs × (q x ≡ true) × (p x ≡ true)
  find?-filter_sound [] x h = cc
  find?-filter_sound (y ∷ xs) x h = elim (Bool-cases (q y)) [
    | inl kept ↦ elim (Bool-cases (p y)) [
      | inl hit ↦ let e : y ≡ x = ground arith in (rw (← e) here, rw (← e) kept, rw (← e) hit)
      | inr miss ↦ let (w, a, b) = find?-filter_sound xs x (rw (kept, miss) at h) in (there w, a, b)
    ]
    | inr dropped ↦ let (w, a, b) = find?-filter_sound xs x (rw dropped at h) in (there w, a, b)
  ]

  pub find?-filter-none :
      {x : A} {xs : List A} → Within x xs → find? p (filter q xs) ≡ none → q x ≡ true → p x ≡ false
  find?-filter-none {x = x} (here {xs}) h kept = ground arith
  find?-filter-none (there {x = y} {xs} w) h kept = find?-filter-none w (ground arith) kept

  pub find?-filter-some :
      {xs : List A} {x : A}
      → Within x xs
      → q x ≡ true
      → p x ≡ true
      → (y : A) × (find? p (filter q xs) ≡ some y)
  find?-filter-some {xs} w kept hit = elim (Option-cases (find? p (filter q xs))) [
    | inl gone ↦ cc (find?-filter-none w gone kept)
    | inr found ↦ found
  ]

pub Within-filter {ℓ} :
    {A : Type ℓ} (p : A → Bool) {a : A} (xs : List A)
    → Within a (filter p xs)
    → Within a xs × (p a ≡ true)
Within-filter p [] w = elim w [ ]
Within-filter p (x ∷ xs) w = elim (Bool-cases (p x)) [
  | inl kept ↦ elim (Within-cons (rw kept at w)) [
    | inl e ↦ (rw e here, rw e kept)
    | inr v ↦ let (u, h) = Within-filter p xs v in (there u, h)
  ]
  | inr dropped ↦ let (u, h) = Within-filter p xs (rw dropped at w) in (there u, h)
]

pub Within-map {ℓ κ} :
    {A : Type ℓ} {B : Type κ} (f : A → B) {a : A} {xs : List A}
    → Within a xs
    → Within (f a) (map f xs)
Within-map f here = here
Within-map f (there w) = there (Within-map f w)

pub Within-of_map {ℓ κ} :
    {A : Type ℓ} {B : Type κ} (f : A → B) {b : B} (xs : List A)
    → Within b (map f xs)
    → (a : A) × Within a xs × (b ≡ f a)
Within-of_map f [] w = elim w [ ]
Within-of_map f (x ∷ xs) w = elim (Within-cons w) [
  | inl e ↦ (x, here, e)
  | inr v ↦ let (a, u, e) = Within-of_map f xs v in (a, there u, e)
]
