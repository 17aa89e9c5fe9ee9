-- ===== src/Shared/Sorting.antt =====
-- `sorted(xs, key=...)`: a stable sort by a numeric key, and one by a text.
use Prim.Native.Nat.{ℕ, ◌≤◌}
use mathlib.Core.Path.{◌≡◌, refl}
use mathlib.Core.Logic.{◌⊎◌, inl, inr}
use mathlib.Core.Bool.{Bool, true, false}
use mathlib.Core.Option.{none, some}
use mathlib.Core.List.{List, [], ◌∷◌}
use native.Mathlib.Omega.{arith}
use campus_id.Shared.Tests.{leb, if◌then◌else◌, Bool-cases}
use campus_id.Shared.Lists.{find?, Within, here, there, Within-cons}

module _ {ℓ} {A : Type ℓ} where
  -- An element goes before the first one that it does not come after, so equal keys keep their
  -- order.
  pub insert_by : (A → A → Bool) → A → List A → List A
  insert_by le x [] = x ∷ []
  insert_by le x (y ∷ ys) = let rest = insert_by le x ys in if le x y then x ∷ y ∷ ys else y ∷ rest

  unfoldable pub sort_by : (A → A → Bool) → List A → List A
  unfolding insert_by
  sort_by le [] = []
  sort_by le (x ∷ xs) = insert_by le x (sort_by le xs)

module _ {ℓ} {A : Type ℓ} (le : A → A → Bool) where
  Within-insert_by :
      {a : A} (x : A) (ys : List A) → Within a (insert_by le x ys) → (a ≡ x) ⊎ Within a ys
  unfolding insert_by
  Within-insert_by x [] here = inl refl
  Within-insert_by x [] (there w) = inr w
  Within-insert_by {a} x (y ∷ ys) w = elim (Bool-cases (le x y)) [
    | inl before ↦ Within-cons (rw before at w)
    | inr after ↦ elim (Within-cons (rw after at w)) [
      | inl e ↦ inr (rw e here)
      | inr v ↦ elim (Within-insert_by x ys v) [ inl e ↦ inl e | inr u ↦ inr (there u) ]
    ]
  ]

  insert_by-here : (x : A) (ys : List A) → Within x (insert_by le x ys)
  unfolding insert_by
  insert_by-here x [] = here
  insert_by-here x (y ∷ ys) = elim (Bool-cases (le x y)) [
    | inl before ↦ rw before here
    | inr after ↦ rw after (there (insert_by-here x ys))
  ]

  insert_by-there : {a : A} (x : A) {ys : List A} → Within a ys → Within a (insert_by le x ys)
  unfolding insert_by
  insert_by-there {a} x (here {xs = ys}) = elim (Bool-cases (le x a)) [
    | inl before ↦ rw before (there here)
    | inr after ↦ rw after here
  ]
  insert_by-there x (there {x = y} w) = elim (Bool-cases (le x y)) [
    | inl before ↦ rw before (there (there w))
    | inr after ↦ rw after (there (insert_by-there x w))
  ]

  -- A sorted list holds the elements of the list.
  pub Within-of_sort_by : {a : A} (xs : List A) → Within a (sort_by le xs) → Within a xs
  unfolding sort_by
  Within-of_sort_by [] w = w
  Within-of_sort_by (x ∷ xs) w = elim (Within-insert_by x (sort_by le xs) w) [
    | inl e ↦ rw e here
    | inr v ↦ there (Within-of_sort_by xs v)
  ]

  pub Within-sort_by : {a : A} {xs : List A} → Within a xs → Within a (sort_by le xs)
  unfolding sort_by
  Within-sort_by {a} (here {xs}) = insert_by-here a (sort_by le xs)
  Within-sort_by (there {x} w) = insert_by-there x (Within-sort_by w)

-- Sorting by a number.
module _ {ℓ} {A : Type ℓ} (key : A → ℕ) where
  abbrev pub by_key : A → A → Bool
  by_key x y = leb (key x) (key y)

  abbrev AllAbove : ℕ → List A → Type 0
  AllAbove n [] = Unit
  AllAbove n (x ∷ xs) = (n ≤ key x) × AllAbove n xs

  abbrev IsSorted : List A → Type 0
  IsSorted [] = Unit
  IsSorted (x ∷ xs) = AllAbove (key x) xs × IsSorted xs

  AllAbove-le : (m n : ℕ) (xs : List A) → m ≤ n → AllAbove n xs → AllAbove m xs
  AllAbove-le m n [] h a = tt
  AllAbove-le m n (x ∷ xs) h a = (omega arith, AllAbove-le m n xs h a.1)

  AllAbove-insert_by :
      (n : ℕ) (x : A) (ys : List A) → n ≤ key x → AllAbove n ys → AllAbove n (insert_by by_key x ys)
  unfolding insert_by
  AllAbove-insert_by n x [] h a = (h, tt)
  AllAbove-insert_by n x (y ∷ ys) h a = elim (Bool-cases (by_key x y)) [
    | inl before ↦ rw before (h, a)
    | inr after ↦ rw after (a.0, AllAbove-insert_by n x ys h a.1)
  ]

  insert_by-IsSorted : (x : A) (ys : List A) → IsSorted ys → IsSorted (insert_by by_key x ys)
  unfolding insert_by
  insert_by-IsSorted x [] s = (tt, tt)
  insert_by-IsSorted x (y ∷ ys) s = elim (Bool-cases (by_key x y)) [
    | inl before ↦
        let h : key x ≤ key y = ground arith in
        rw before ((h, AllAbove-le (key x) (key y) ys h s.0), s)
    | inr after ↦
        let h : key y ≤ key x = ground arith in
        rw after (AllAbove-insert_by (key y) x ys h s.0, insert_by-IsSorted x ys s.1)
  ]

  sort_by-IsSorted : (xs : List A) → IsSorted (sort_by by_key xs)
  unfolding sort_by
  sort_by-IsSorted [] = tt
  sort_by-IsSorted (x ∷ xs) = insert_by-IsSorted x (sort_by by_key xs) (sort_by-IsSorted xs)

  AllAbove-Within : {n : ℕ} {a : A} {xs : List A} → Within a xs → AllAbove n xs → n ≤ key a
  AllAbove-Within here h = h.0
  AllAbove-Within (there w) h = AllAbove-Within w h.1

  find?-least :
      (p : A → Bool) {r : A} {s : A} {xs : List A}
      → Within s xs
      → IsSorted xs
      → find? p xs ≡ some r
      → p s ≡ true
      → key r ≤ key s
  find?-least p {r} {s} (here {xs}) sorted found hit =
      let e : s ≡ r = ground arith in rw e (omega arith)
  find?-least p {r} {s} (there {x} {xs} w) sorted found hit = elim (Bool-cases (p x)) [
    | inl first ↦ let e : x ≡ r = ground arith in rw (← e) (AllAbove-Within w sorted.0)
    | inr miss ↦ find?-least p w sorted.1 (rw miss at found) hit
  ]

  -- The first element of the sorted list that passes a test has the least key of all that pass.
  pub find?-sort_by_least :
      (p : A → Bool) (xs : List A) {r s : A}
      → find? p (sort_by by_key xs) ≡ some r
      → Within s xs
      → p s ≡ true
      → key r ≤ key s
  find?-sort_by_least p xs found w hit =
      find?-least p (Within-sort_by by_key w) (sort_by-IsSorted xs) found hit

module _ {ℓ} {A : Type ℓ} (p : A → Bool) where
  pub find?-sound : (xs : List A) {r : A} → find? p xs ≡ some r → Within r xs × (p r ≡ true)
  find?-sound [] h = cc
  find?-sound (x ∷ xs) {r} h = elim (Bool-cases (p x)) [
    | inl hit ↦ let e : x ≡ r = ground arith in (rw (← e) here, rw (← e) hit)
    | inr miss ↦ let (w, a) = find?-sound xs (rw miss at h) in (there w, a)
  ]

  pub find?-none : {s : A} {xs : List A} → Within s xs → find? p xs ≡ none → p s ≡ false
  find?-none (here {xs}) h = ground arith
  find?-none (there {x} {xs} w) h = find?-none w (ground arith)
