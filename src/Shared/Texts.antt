-- ===== src/Shared/Texts.antt =====
-- Texts as lists of code points, with the tests and splits of Python's `str` on them.
use Prim.Native.Char.{code}
use Prim.Native.String.{String}
use campus_id.Shared.{
  ℕ, ◌≡◌, refl, ap, inl, inr, Bool-cases, Option-cases, ◌↔◌, Bool, true, false, ◌&&◌, ◌||◌, Option,
  none, some, List, [], ◌∷◌, ◌++◌, eqb, arith, if◌then◌else◌,
}

abbrev pub Text : Type 0
Text = List ℕ

abbrev pub codes : String → Text
codes String.[] = []
codes (String.◌∷◌ c s) = code c ∷ codes s

abbrev pub text_eq : Text → Text → Bool
text_eq [] [] = true
text_eq (x ∷ xs) (y ∷ ys) = eqb x y && text_eq xs ys
text_eq _ _ = false

pub text_eq_iff : (s t : Text) → (text_eq s t ≡ true) ↔ (s ≡ t)
text_eq_iff [] [] = ((λ h. refl), (λ e. refl))
text_eq_iff [] (y ∷ ys) = grind arith
text_eq_iff (x ∷ xs) [] = grind arith
text_eq_iff (x ∷ xs) (y ∷ ys) = grind (arith, text_eq_iff xs ys)

pub text_eq_self : (s : Text) → text_eq s s ≡ true
text_eq_self s = (text_eq_iff s s).1 refl

-- `c in s`, for one character.
abbrev pub has : ℕ → Text → Bool
has c [] = false
has c (x ∷ xs) = eqb x c || has c xs

-- `s.startswith(p)`
abbrev pub begins_with : Text → Text → Bool
begins_with s [] = true
begins_with [] (y ∷ ys) = false
begins_with (x ∷ xs) (y ∷ ys) = eqb x y && begins_with xs ys

-- `p in s`
abbrev pub includes : Text → Text → Bool
includes [] p = begins_with [] p
includes (x ∷ xs) p = begins_with (x ∷ xs) p || includes xs p

-- `s.endswith(p)`
abbrev pub finishes_with : Text → Text → Bool
finishes_with [] p = text_eq [] p
finishes_with (x ∷ xs) p = text_eq (x ∷ xs) p || finishes_with xs p

abbrev pub before_with : ℕ → Option (Text × Text) → Option (Text × Text)
before_with c none = none
before_with c (some (a, b)) = some (c ∷ a, b)

-- `s.partition(c)`: what stands around the first `c`, if there is one.
abbrev pub partition : ℕ → Text → Option (Text × Text)
partition c [] = none
partition c (x ∷ xs) =
    let later = before_with x (partition c xs) in if eqb x c then some ([], xs) else later

abbrev pub or_here : Bool → Text → Option (Text × Text) → Option (Text × Text)
or_here b rest (some p) = some p
or_here true rest none = some ([], rest)
or_here false rest none = none

-- `s.rpartition(c)`: what stands around the last one.
abbrev pub rpartition : ℕ → Text → Option (Text × Text)
rpartition c [] = none
rpartition c (x ∷ xs) = or_here (eqb x c) xs (before_with x (rpartition c xs))

pub partition-lacks : (c : ℕ) (s : Text) → has c s ≡ false → partition c s ≡ none
partition-lacks c [] h = refl
partition-lacks c (x ∷ xs) h = let e = partition-lacks c xs (ground arith) in ground (arith, e)

pub partition-append :
    (c : ℕ) (s rest : Text) → has c s ≡ false → partition c (s ++ (c ∷ rest)) ≡ some (s, rest)
partition-append c [] rest h = ground arith
partition-append c (x ∷ xs) rest h =
    let e = partition-append c xs rest (ground arith) in ground (arith, e)

pub rpartition-lacks : (c : ℕ) (s : Text) → has c s ≡ false → rpartition c s ≡ none
rpartition-lacks c [] h = refl
rpartition-lacks c (x ∷ xs) h = let e = rpartition-lacks c xs (ground arith) in ground (arith, e)

pub rpartition-append :
    (c : ℕ) (s rest : Text) → has c rest ≡ false → rpartition c (s ++ (c ∷ rest)) ≡ some (s, rest)
rpartition-append c [] rest h = let e = rpartition-lacks c rest h in ground (arith, e)
rpartition-append c (x ∷ xs) rest h = let e = rpartition-append c xs rest h in ground (arith, e)

pub rpartition-some : (c : ℕ) (s a b : Text) → rpartition c s ≡ some (a, b) → s ≡ a ++ (c ∷ b)
rpartition-some c [] a b h = cc
rpartition-some c (x ∷ xs) a b h = elim (Option-cases (rpartition c xs)) [
  | inl e ↦ elim (Bool-cases (eqb x c)) [
    | inl f ↦
        let k = rw (e, f) at h in
        let first : [] ≡ a = cc in
        let rest : xs ≡ b = cc in let same : x ≡ c = ground arith in rw (← first, ← rest, same) refl
    | inr f ↦ let k = rw (e, f) at h in cc
  ]
  | inr ((a', b'), e) ↦
      let k = rw e at h in
      let first : (x ∷ a') ≡ a = cc in
      let rest : b' ≡ b = cc in
      rw (← first, ← rest) (ap (λ t. x ∷ t) (rpartition-some c xs a' b' e))
]
