-- ===== src/Request/Distinct.antt =====
-- Requests that differ are hashed from texts that differ.
use kailo_be.Prelude.{
  suc, ◌≡◌, ◌≢◌, refl, sym, ap, ◌∙◌, arith, true, List, [], ◌∷◌, ◌++◌, length, all,
}
use kailo_be.Amount.{Bytes, digits, is_digit, value_from}
use kailo_be.Amount.Digits.{value_from-digits, all-digits}
use kailo_be.Request.{request_text}

-- Digits end at the first byte that is none.
cut_digits :
    (xs ys s t : Bytes)
    → all is_digit xs ≡ true
    → all is_digit ys ≡ true
    → xs ++ b':' ∷ s ≡ ys ++ b':' ∷ t
    → (xs ≡ ys) × (s ≡ t)
cut_digits [] [] s t h k e = ground arith
cut_digits [] (y ∷ ys) s t h k e = ground arith
cut_digits (x ∷ xs) [] s t h k e = ground arith
cut_digits (x ∷ xs) (y ∷ ys) s t h k e =
    let r = cut_digits xs ys s t (ground arith) (ground arith) (cc) in (cc, r.1)

cut_length : (xs ys s t : Bytes) → length xs ≡ length ys → xs ++ s ≡ ys ++ t → (xs ≡ ys) × (s ≡ t)
cut_length [] [] s t h e = (refl, e)
cut_length [] (y ∷ ys) s t h e = ground arith
cut_length (x ∷ xs) [] s t h e = ground arith
cut_length (x ∷ xs) (y ∷ ys) s t h e = let r = cut_length xs ys s t (omega arith) (cc) in (cc, r.1)

nonempty : (xs s : Bytes) → [] ≢ xs ++ b':' ∷ s
nonempty [] s e = cc
nonempty (x ∷ xs) s e = cc

-- The number in front of a part is its length.
part_of :
    (x y s t : Bytes)
    → digits (suc (length x)) (length x) ++ b':' ∷ (x ++ s)
      ≡ digits (suc (length y)) (length y) ++ b':' ∷ (y ++ t)
    → (x ≡ y) × (s ≡ t)
part_of x y s t e =
    let r =
      cut_digits (digits (suc (length x)) (length x)) (digits (suc (length y)) (length y)) (x ++ s)
        (y ++ t) (all-digits (suc (length x)) (length x)) (all-digits (suc (length y)) (length y))
        e in
    cut_length x y s t
      (sym (value_from-digits (suc (length x)) (length x) (omega arith))
        ∙ ap (value_from 0) r.0
        ∙ value_from-digits (suc (length y)) (length y) (omega arith))
      r.1

-- The text that is hashed for a request tells its parts, their number and their order, whatever
-- bytes are in them.
pub request_text_injective : (xs ys : List Bytes) → request_text xs ≡ request_text ys → xs ≡ ys
unfolding request_text
request_text_injective [] [] e = refl
request_text_injective [] (y ∷ ys) e = absurd (nonempty _ _ e)
request_text_injective (x ∷ xs) [] e = absurd (nonempty _ _ (sym e))
request_text_injective (x ∷ xs) (y ∷ ys) e =
    let r = part_of x y (request_text xs) (request_text ys) e in
    let rest = request_text_injective xs ys r.1 in cc
