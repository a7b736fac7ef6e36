-- ===== src/Signature/Pattern.antt =====
-- What `load_pattern` of src/common/utils/signature.cpp reads: texts of tokens, each a wildcard or a
-- byte in hexadecimal.
use mathlib.Core.Path.{subst}
use w3m.Prelude.{
  ℕ, zero, suc, ◌*◌, ◌/◌, ◌%◌, ◌≤◌, ◌<◌, ◌≡◌, refl, sym, ap, ◌∙◌, Bool, true, false, ◌&&◌, List, [],
  ◌∷◌, ◌++◌, append-nil, append_assoc, arith, bit_or, leb, ◌==◌, if◌then◌else◌, ==_iff, length,
  length-append, All, is_empty,
}
use w3m.Prelude.Words.{IsByte}
use w3m.Prelude.Outcome.{returns}
use w3m.Text.{hex_digit, hex_byte}
use w3m.Signature.{
  Loading, is_no_digit, digit_value, load_char, load_chars, back, pop_back_char, trim_loop, fill,
  has_sse_support, finish_pattern, load_pattern,
}

pub data Token : Type 0 where
  wildcard : Token
  exact : ℕ → Token

abbrev pub IsToken : Token → Type 0
IsToken wildcard = Unit {0}
IsToken (exact b) = IsByte b

-- A wildcard is one question mark, a byte two digits; a blank stands behind each.
unfoldable pub print_token : Token → List ℕ
unfolding hex_byte
print_token wildcard = b'?' ∷ b' ' ∷ []
print_token (exact b) = hex_byte b ++ (b' ' ∷ [])

unfoldable pub print_tokens : List Token → List ℕ
unfolding print_token
print_tokens [] = []
print_tokens (t ∷ ts) = print_token t ++ print_tokens ts

abbrev pub mask_char : Token → ℕ
mask_char wildcard = b'?'
mask_char (exact b) = b'x'

abbrev pub pattern_byte : Token → ℕ
pattern_byte wildcard = 0
pattern_byte (exact b) = b

unfoldable pub mask_of : List Token → List ℕ
mask_of [] = []
mask_of (t ∷ ts) = mask_char t ∷ mask_of ts

unfoldable pub pattern_of : List Token → List ℕ
pattern_of [] = []
pattern_of (t ∷ ts) = pattern_byte t ∷ pattern_of ts

abbrev is_wildcard : Token → Bool
is_wildcard wildcard = true
is_wildcard (exact b) = false

-- The tokens up to the last byte.
unfoldable pub strip : List Token → List Token
strip [] = []
strip (t ∷ ts) = let rest = strip ts in if is_wildcard t && is_empty rest then [] else t ∷ rest

abbrev nibble_of : Token → ℕ → ℕ
nibble_of wildcard n = n
nibble_of (exact b) n = b % 256 / 16

last_nibble : List Token → ℕ → ℕ
last_nibble [] n = n
last_nibble (t ∷ ts) n = last_nibble ts (nibble_of t n)

abbrev loaded : List ℕ → List ℕ → ℕ → Loading
loaded mask pattern nibble = record {
  mask = mask;
  pattern = pattern;
  nibble = nibble;
  has_nibble = false;
}

abbrev all_below : ℕ → (ℕ → Bool) → Bool
all_below zero p = true
all_below (suc n) p = p n && all_below n p

all_below-lt : (n : ℕ) (p : ℕ → Bool) → all_below n p ≡ true → (i : ℕ) → i < n → p i ≡ true
all_below-lt zero p h i lt = absurd (omega arith)
all_below-lt (suc n) p h i lt = grind (arith, all_below-lt n p)

-- The two digits of a byte, put together by the loader.
same_byte : ℕ → Bool
same_byte b = bit_or (b % 16) (b % 256 / 16 * 16 % 256) == b

byte_of_digits : (b : ℕ) → IsByte b → bit_or (b % 16) (b % 256 / 16 * 16 % 256) ≡ b
unfolding same_byte
byte_of_digits b h = (==_iff _ _).0 (all_below-lt 256 same_byte refl b h)

load_char-first :
    (d : ℕ) (mask pattern : List ℕ) (n : ℕ)
    → d < 16
    → load_char (hex_digit d) (loaded mask pattern n)
      ≡ returns (record { mask = mask; pattern = pattern; nibble = d; has_nibble = true })
unfolding load_char is_no_digit digit_value hex_digit
load_char-first d mask pattern n h = ground arith

load_char-second :
    (d : ℕ) (mask pattern : List ℕ) (n : ℕ)
    → d < 16
    → load_char
        (hex_digit d)
        (record { mask = mask; pattern = pattern; nibble = n; has_nibble = true })
      ≡ returns (loaded (mask ++ (b'x' ∷ [])) (pattern ++ (bit_or d (n * 16 % 256) ∷ [])) n)
unfolding load_char is_no_digit digit_value hex_digit
load_char-second d mask pattern n h = ground arith

load_chars-print_token :
    (t : Token) (cs mask pattern : List ℕ) (n : ℕ)
    → IsToken t
    → load_chars (print_token t ++ cs) (loaded mask pattern n)
      ≡ load_chars cs
          (loaded (mask ++ (mask_char t ∷ [])) (pattern ++ (pattern_byte t ∷ [])) (nibble_of t n))
unfolding load_chars print_token load_char
load_chars-print_token wildcard cs mask pattern n h = refl
load_chars-print_token (exact b) cs mask pattern n h =
    let high : b % 256 / 16 < 16 = omega arith in
    let low : b % 16 < 16 = omega arith in
    let first = load_char-first (b % 256 / 16) mask pattern n high in
    let second = load_char-second (b % 16) mask pattern (b % 256 / 16) low in
    rw (first, second, byte_of_digits b h, load_char)

load_chars-print_tokens :
    (ts : List Token) (mask pattern : List ℕ) (n : ℕ)
    → All IsToken ts
    → load_chars (print_tokens ts) (loaded mask pattern n)
      ≡ returns (loaded (mask ++ mask_of ts) (pattern ++ pattern_of ts) (last_nibble ts n))
unfolding load_chars print_tokens mask_of pattern_of last_nibble
load_chars-print_tokens [] mask pattern n h = rw (append-nil mask, append-nil pattern)
load_chars-print_tokens (t ∷ ts) mask pattern n (ht, h) =
    load_chars-print_token t (print_tokens ts) mask pattern n ht
    ∙ load_chars-print_tokens ts (mask ++ (mask_char t ∷ [])) (pattern ++ (pattern_byte t ∷ []))
        (nibble_of t n) h
    ∙ rw (append_assoc, append_assoc)

back-mask_of :
    (us : List Token) (t : Token) (d : ℕ) → back (mask_of (us ++ (t ∷ []))) d ≡ mask_char t
unfolding back mask_of
back-mask_of [] t d = refl
back-mask_of (u ∷ us) t d = back-mask_of us t (mask_char u)

pop_back_char-mask_of :
    (us : List Token) (t : Token) → pop_back_char (mask_of (us ++ (t ∷ []))) ≡ mask_of us
unfolding pop_back_char mask_of
pop_back_char-mask_of [] t = refl
pop_back_char-mask_of (u ∷ []) t = refl
pop_back_char-mask_of (u ∷ v ∷ us) t = ap (◌∷◌ (mask_char u)) (pop_back_char-mask_of (v ∷ us) t)

pop_back_char-pattern_of :
    (us : List Token) (t : Token) → pop_back_char (pattern_of (us ++ (t ∷ []))) ≡ pattern_of us
unfolding pop_back_char pattern_of
pop_back_char-pattern_of [] t = refl
pop_back_char-pattern_of (u ∷ []) t = refl
pop_back_char-pattern_of (u ∷ v ∷ us) t =
    ap (◌∷◌ (pattern_byte u)) (pop_back_char-pattern_of (v ∷ us) t)

is_empty-mask_of : (us : List Token) (t : Token) → is_empty (mask_of (us ++ (t ∷ []))) ≡ false
unfolding mask_of
is_empty-mask_of [] t = refl
is_empty-mask_of (u ∷ us) t = refl

strip-wildcard : (us : List Token) → strip (us ++ (wildcard ∷ [])) ≡ strip us
unfolding strip
strip-wildcard [] = refl
strip-wildcard (u ∷ us) = rw (strip-wildcard us)

strip-exact : (us : List Token) (b : ℕ) → strip (us ++ (exact b ∷ [])) ≡ us ++ (exact b ∷ [])
unfolding strip
strip-exact [] b = refl
strip-exact (wildcard ∷ []) b = refl
strip-exact (wildcard ∷ v ∷ us) b = rw (strip-exact (v ∷ us) b)
strip-exact (exact c ∷ us) b = ap (◌∷◌ (exact c)) (strip-exact us b)

unsnoc : (t : Token) (ts : List Token) → (us : List Token) × (u : Token) × (t ∷ ts ≡ us ++ (u ∷ []))
unsnoc t [] = ([], t, refl)
unsnoc t (v ∷ ts) = let (us, u, e) = unsnoc v ts in (t ∷ us, u, ap (◌∷◌ t) e)

abbrev Trims : ℕ → List Token → Type 0
Trims fuel ts =
    trim_loop fuel (mask_of ts) (pattern_of ts) ≡ (mask_of (strip ts), pattern_of (strip ts))

trim_loop-snoc :
    (fuel : ℕ) (us : List Token) (t : Token) → Trims fuel us → Trims (suc fuel) (us ++ (t ∷ []))
unfolding trim_loop
trim_loop-snoc fuel us wildcard ih =
    rw
      (
        is_empty-mask_of us wildcard,
        back-mask_of us wildcard 0,
        pop_back_char-mask_of us wildcard,
        pop_back_char-pattern_of us wildcard,
        strip-wildcard us,
      )
      ih
trim_loop-snoc fuel us (exact b) ih =
    rw (is_empty-mask_of us (exact b), back-mask_of us (exact b) 0, strip-exact us b)

trim_loop_lem : (fuel : ℕ) (ts : List Token) → length ts ≤ fuel → Trims fuel ts
unfolding trim_loop mask_of pattern_of strip
trim_loop_lem zero [] h = refl
trim_loop_lem (suc fuel) [] h = refl
trim_loop_lem zero (t ∷ ts) h = absurd (omega arith)
trim_loop_lem (suc fuel) (t ∷ ts) h =
    let (us, u, e) = unsnoc t ts in
    let shorter : length us ≤ fuel = omega (arith, h, ap length e, length-append us (u ∷ [])) in
    subst (Trims (suc fuel)) (sym e) (trim_loop-snoc fuel us u (trim_loop_lem fuel us shorter))

pub length-mask_of : (ts : List Token) → length (mask_of ts) ≡ length ts
unfolding mask_of
length-mask_of [] = refl
length-mask_of (t ∷ ts) = ap suc (length-mask_of ts)

-- The bytes that are kept for a processor with vector instructions are filled up to sixteen.
abbrev pub filled : Bool → List Token → List ℕ
filled sse ts = if leb (length ts) 16 && sse then fill (pattern_of ts) else pattern_of ts

-- The text of any tokens whose bytes are below 256 is read back: the mask and the pattern are those
-- of the tokens up to the last byte, and the pattern is filled with zeros up to sixteen bytes where
-- vector instructions are used.
pub load_pattern-print_tokens :
    (sse : Bool) (ts : List Token)
    → All IsToken ts
    → load_pattern sse (print_tokens ts) ≡ returns (mask_of (strip ts), filled sse (strip ts))
unfolding load_pattern finish_pattern has_sse_support
load_pattern-print_tokens sse ts h =
    rw (load_chars-print_tokens ts [] [] 0 h) (
      rw (length-mask_of ts, trim_loop_lem (length ts) ts (omega arith), length-mask_of (strip ts)))
