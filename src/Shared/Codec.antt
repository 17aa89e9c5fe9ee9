-- ===== src/Shared/Codec.antt =====
-- A self-delimiting encoding of texts, numbers and lists as one text, for the concrete hosts of the
-- examples: an injective stand-in for JSON.
pub mod Lists
use Prim.Native.Nat.{ℕ, zero, suc}
use Prim.Native.String.{String, [], ◌∷◌}
use campus_id.Shared.Tests.{◌==◌, if◌then◌else◌}
use mathlib.Core.Path.{◌≡◌, refl, ap}

abbrev pub put_text : String → String → String
put_text [] rest = "e" ∷ ("e" ∷ rest)
put_text (c ∷ s) rest = "c" ∷ (c ∷ put_text s rest)

abbrev pub take_text : String → String × String
take_text [] = ([], [])
take_text (k ∷ []) = ([], [])
take_text (k ∷ (c ∷ rest)) =
    let tail = take_text rest in if (k ∷ []) == "e" then ([], rest) else (c ∷ tail.0, tail.1)

pub take_text-put_text : (s rest : String) → take_text (put_text s rest) ≡ (s, rest)
take_text-put_text [] rest = refl
take_text-put_text (c ∷ s) rest = rw (take_text-put_text s rest)

-- A number in the unary notation.
abbrev pub digits_of : ℕ → String
digits_of zero = []
digits_of (suc n) = "1" ∷ digits_of n

abbrev pub number_of : String → ℕ
number_of [] = zero
number_of (c ∷ s) = suc (number_of s)

pub number_of-digits_of : (n : ℕ) → number_of (digits_of n) ≡ n
number_of-digits_of zero = refl
number_of-digits_of (suc n) = ap suc (number_of-digits_of n)
