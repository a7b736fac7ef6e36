-- ===== src/Text/Hex.antt =====
-- `dump_hex` of src/common/utils/string.cpp.
use w3m.Prelude.{
  is_empty, false, ℕ, ◌*◌, ◌/◌, ◌%◌, ◌<◌, ◌≡◌, refl, sym, ◌∙◌, ap, List, [], ◌∷◌, arith, length,
  All,
}
use w3m.Prelude.Words.{IsByte}
use w3m.Text.{hex_digit, hex_byte, dump_rest, dump_hex}

length-dump_rest : (text : List ℕ) → length (dump_rest [] text) ≡ 2 * length text
unfolding dump_rest
length-dump_rest [] = omega arith
length-dump_rest (c ∷ text) = omega (arith, length-dump_rest text)

pub length-dump_hex : (text : List ℕ) → length (dump_hex text []) ≡ 2 * length text
unfolding dump_hex
length-dump_hex [] = omega arith
length-dump_hex (c ∷ text) = omega (arith, length-dump_rest text)

hex_digit_injective : (m n : ℕ) → m < 16 → n < 16 → hex_digit m ≡ hex_digit n → m ≡ n
unfolding hex_digit
hex_digit_injective m n hm hn e = ground arith

abbrev first_two : List ℕ → ℕ × ℕ
first_two [] = (0, 0)
first_two (a ∷ []) = (a, 0)
first_two (a ∷ b ∷ rest) = (a, b)

abbrev behind_two : List ℕ → List ℕ
behind_two [] = []
behind_two (a ∷ []) = []
behind_two (a ∷ b ∷ rest) = rest

dump_rest_injective :
    (s t : List ℕ) → All IsByte s → All IsByte t → dump_rest [] s ≡ dump_rest [] t → s ≡ t
unfolding dump_rest
dump_rest_injective [] [] hs ht e = refl
dump_rest_injective [] (d ∷ t) hs ht e = cc
dump_rest_injective (c ∷ s) [] hs ht e = cc
dump_rest_injective (c ∷ s) (d ∷ t) (hc, hs) (hd, ht) e =
    let high : c % 256 / 16 ≡ d % 256 / 16 =
      hex_digit_injective (c % 256 / 16) (d % 256 / 16) (omega arith) (omega arith)
        (ap (λ x. (first_two x).0) e) in
    let low : c % 16 ≡ d % 16 =
      hex_digit_injective (c % 16) (d % 16) (omega arith) (omega arith)
        (ap (λ x. (first_two x).1) e) in
    let same : c ≡ d = omega arith in
    let rest : s ≡ t = dump_rest_injective s t hs ht (ap behind_two e) in cc

dump_hex-rest : (text : List ℕ) → dump_hex text [] ≡ dump_rest [] text
unfolding dump_hex
dump_hex-rest [] = refl
dump_hex-rest (c ∷ text) = refl

-- Without a separator, different texts of bytes have different dumps.
pub dump_hex_injective :
    (s t : List ℕ) → All IsByte s → All IsByte t → dump_hex s [] ≡ dump_hex t [] → s ≡ t
dump_hex_injective s t hs ht e =
    dump_rest_injective s t hs ht (sym (dump_hex-rest s) ∙ e ∙ dump_hex-rest t)

pub dump_hex-filled :
    (text separator : List ℕ) → is_empty text ≡ false → is_empty (dump_hex text separator) ≡ false
unfolding dump_hex hex_byte
dump_hex-filled [] separator h = cc
dump_hex-filled (c ∷ text) separator h = refl
