-- ===== src/Shared/Members.antt =====
-- Membership in a list of texts and its place, through filters, appends and `sorted(set(...))`.
use campus_id.Shared.{
  String, ◌≡◌, refl, ◌∙◌, ◌⊎◌, inl, inr, Bool, true, ◌&&◌, ◌||◌, List, [], ◌∷◌, ◌++◌, ◌==◌, ==_iff,
  ==_self, arith, Bool-cases, contains, filter, subset, insert, sorted_set, Within, here, there,
  Within-cons,
}

contains-insert :
    (x k : String) (xs : List String) → contains x (insert k xs) ≡ ((k == x) || contains x xs)
contains-insert x k [] = refl
contains-insert x k (y ∷ ys) =
    ground (arith, contains-insert x k ys, ==_iff y k, ==_iff k x, ==_iff y x)

pub contains-sorted_set :
    (x : String) (xs : List String) → contains x (sorted_set xs) ≡ contains x xs
contains-sorted_set x [] = refl
contains-sorted_set x (y ∷ ys) = contains-insert x y (sorted_set ys) ∙ rw (contains-sorted_set x ys)

pub contains-filter :
    (p : String → Bool) (x : String) (xs : List String)
    → contains x (filter p xs) ≡ (p x && contains x xs)
contains-filter p x [] = ground arith
contains-filter p x (y ∷ ys) = elim (Bool-cases (y == x)) [
  | inl e ↦ let d = (==_iff y x).0 e in rw d (ground (arith, contains-filter p x ys, ==_self x))
  | inr e ↦ ground (arith, contains-filter p x ys)
]

pub contains-Within : {x : String} {xs : List String} → contains x xs ≡ true → Within x xs
contains-Within {xs = []} h = ground arith
contains-Within {x = x} {xs = y ∷ ys} h = elim (Bool-cases (y == x)) [
  | inl e ↦ rw ((==_iff y x).0 e) here
  | inr e ↦ there (contains-Within (ground arith))
]

pub Within-contains : {x : String} {xs : List String} → Within x xs → contains x xs ≡ true
Within-contains {x = x} (here {xs}) = rw (==_self x) refl
Within-contains (there w) = ground (arith, Within-contains w)

pub Within-append_left {ℓ} :
    {A : Type ℓ} {a : A} {xs : List A} (ys : List A) → Within a xs → Within a (xs ++ ys)
Within-append_left ys here = here
Within-append_left ys (there w) = there (Within-append_left ys w)

pub Within-append_right {ℓ} :
    {A : Type ℓ} {a : A} (xs : List A) {ys : List A} → Within a ys → Within a (xs ++ ys)
Within-append_right [] w = w
Within-append_right (x ∷ xs) w = there (Within-append_right xs w)

pub Within-of_append {ℓ} :
    {A : Type ℓ} {a : A} (xs : List A) {ys : List A}
    → Within a (xs ++ ys)
    → Within a xs ⊎ Within a ys
Within-of_append [] w = inr w
Within-of_append (x ∷ xs) w = elim (Within-cons w) [
  | inl e ↦ inl (rw e here)
  | inr v ↦ elim (Within-of_append xs v) [ inl u ↦ inl (there u) | inr u ↦ inr u ]
]

subset-each : {x : String} (xs ys : List String) → subset xs ys ≡ true → Within x xs → Within x ys
subset-each [] ys h w = elim w [ ]
subset-each (y ∷ xs) ys h w = elim (Within-cons w) [
  | inl e ↦ rw e (contains-Within (ground (arith, h)))
  | inr v ↦ subset-each xs ys (ground (arith, h)) v
]

pub subset-Within :
    (xs ys : List String) → subset xs ys ≡ true → (x : String) → Within x xs → Within x ys
subset-Within xs ys h x w = subset-each xs ys h w

pub Within-subset :
    (xs ys : List String) → ((x : String) → Within x xs → Within x ys) → subset xs ys ≡ true
Within-subset [] ys h = refl
Within-subset (x ∷ xs) ys h =
    rw (Within-contains (h x here)) (Within-subset xs ys (λ y w. h y (there w)))

pub Within-kept {ℓ} :
    {A : Type ℓ} (p : A → Bool) {a : A} {xs : List A}
    → Within a xs
    → p a ≡ true
    → Within a (filter p xs)
Within-kept p here h = rw h here
Within-kept p (there {x = y} {xs = ys} w) h = elim (Bool-cases (p y)) [
  | inl e ↦ rw e (there (Within-kept p w h))
  | inr e ↦ rw e (Within-kept p w h)
]
