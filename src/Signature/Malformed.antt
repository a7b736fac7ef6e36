-- ===== src/Signature/Malformed.antt =====
-- Which texts `load_pattern` of src/common/utils/signature.cpp refuses.
use w3m.Prelude.{
  ℕ, ◌≡◌, refl, ◌⊎◌, inl, inr, Bool, true, false, not, ◌&&◌, ◌||◌, List, [], ◌∷◌, arith, leb, ◌==◌,
  if◌then◌else◌, Bool-cases,
}
use w3m.Prelude.Outcome.{Outcome, returns, throws, ◌>>=◌, invalid_pattern}
use w3m.Signature.{
  Loading, is_no_digit, load_char, load_chars, nothing_loaded, finish_pattern, load_pattern,
}

abbrev in_range : ℕ → ℕ → ℕ → Bool
in_range low high c = leb low c && leb c high

-- The hexadecimal digits of both cases.
unfoldable pub is_hex_digit : ℕ → Bool
is_hex_digit c = in_range b'0' b'9' c || in_range b'A' b'F' c || in_range b'a' b'f' c

-- A text of blanks, wildcards and digits, from a place on where a digit waits for its second one or
-- not: the digits come in pairs.
unfoldable pub is_pattern : Bool → List ℕ → Bool
unfolding is_hex_digit
is_pattern waits [] = not waits
is_pattern waits (c ∷ text) =
    if c == b' ' || c == b'?'
    then is_pattern waits text
    else is_hex_digit c && is_pattern (not waits) text

is_no_digit_lem : (c : ℕ) → is_no_digit c ≡ not (is_hex_digit c)
unfolding is_no_digit is_hex_digit
is_no_digit_lem c = ground arith

abbrev pub LoadsOrThrows : Bool → Outcome (List ℕ × List ℕ) → Type 0
LoadsOrThrows good result =
    ((good ≡ true) × (loaded : List ℕ × List ℕ) × (result ≡ returns loaded))
    ⊎ ((good ≡ false) × (result ≡ throws invalid_pattern))

finish_pattern_lem :
    (sse : Bool) (s : Loading) → LoadsOrThrows (not s.has_nibble) (finish_pattern sse s)
unfolding finish_pattern
finish_pattern_lem sse s = elim (Bool-cases s.has_nibble) [
  | inl e ↦ rw e (inr (refl, refl))
  | inr e ↦ rw e (inl (refl, _, refl))
]

load_chars_lem :
    (sse : Bool) (text : List ℕ) (s : Loading)
    → LoadsOrThrows
        (is_pattern s.has_nibble text)
        (load_chars text s >>= λ s'. finish_pattern sse s')
unfolding load_chars is_pattern load_char
load_chars_lem sse [] s = finish_pattern_lem sse s
load_chars_lem sse (c ∷ text) s = elim (Bool-cases (c == b' ')) [
  | inl blank ↦ rw (blank, load_char) (load_chars_lem sse text s)
  | inr dark ↦ elim (Bool-cases (c == b'?')) [
    | inl wild ↦ rw (dark, wild, load_char) (load_chars_lem sse text _)
    | inr other ↦ elim (Bool-cases (is_hex_digit c)) [
      | inl digit ↦
          rw (dark, other, is_no_digit_lem c, digit, load_char)
            (elim (Bool-cases s.has_nibble) [
              | inl e ↦ rw (e, load_char) (load_chars_lem sse text _)
              | inr e ↦ rw (e, load_char) (load_chars_lem sse text _)
            ])
      | inr letter ↦ rw (dark, other, is_no_digit_lem c, letter, load_char) (inr (refl, refl))
    ]
  ]
]

-- Loading a pattern returns, on every processor, where the text consists of blanks, question marks
-- and hexadecimal digits, with an even number of digits; on every other text it throws.
pub load_pattern-throws :
    (sse : Bool) (text : List ℕ) → LoadsOrThrows (is_pattern false text) (load_pattern sse text)
unfolding load_pattern
load_pattern-throws sse text = load_chars_lem sse text nothing_loaded
