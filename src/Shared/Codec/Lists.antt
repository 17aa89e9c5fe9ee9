-- ===== src/Shared/Codec/Lists.antt =====
-- A list of texts, and an optional text, as one text.
use campus_id.Shared.{
  ℕ, zero, suc, String, ◌≡◌, refl, ap, Option, none, some, List, [], ◌∷◌, length,
}
use campus_id.Shared.Codec.{
  put_text, take_text, take_text-put_text, digits_of, number_of, number_of-digits_of,
}

abbrev pub put_all : List String → String
put_all [] = ""
put_all (x ∷ xs) = put_text x (put_all xs)

abbrev pub take_all : ℕ → String → List String
take_all zero s = []
take_all (suc n) s = let head = take_text s in head.0 ∷ take_all n head.1

take_all-put_all : (xs : List String) → take_all (length xs) (put_all xs) ≡ xs
take_all-put_all [] = refl
take_all-put_all (x ∷ xs) =
    rw (take_text-put_text x (put_all xs)) (ap (λ ys. x ∷ ys) (take_all-put_all xs))

unfoldable pub encode : List String → String
encode xs = put_text (digits_of (length xs)) (put_all xs)

unfoldable pub decode : String → List String
decode s = let head = take_text s in take_all (number_of head.0) head.1

pub decode-encode : (xs : List String) → decode (encode xs) ≡ xs
unfolding decode encode
decode-encode xs =
    rw (take_text-put_text (digits_of (length xs)) (put_all xs), number_of-digits_of (length xs))
      (take_all-put_all xs)

unfoldable pub encode_option : Option String → String
unfolding encode
encode_option none = encode []
encode_option (some s) = encode (s ∷ [])

abbrev pub first_of : List String → Option String
first_of [] = none
first_of (s ∷ rest) = some s

pub first_of-encode_option : (o : Option String) → first_of (decode (encode_option o)) ≡ o
unfolding encode_option
first_of-encode_option none = ap first_of (decode-encode [])
first_of-encode_option (some s) = ap first_of (decode-encode (s ∷ []))
