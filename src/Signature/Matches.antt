-- ===== src/Signature/Matches.antt =====
-- What the two comparisons of src/common/utils/signature.cpp, byte by byte and with vector
-- instructions, find at an address whose bytes can be read.
use w3m.Prelude.{
  ℕ, zero, suc, ◌+◌, ◌-◌, ◌≤◌, ◌<◌, ◌≡◌, refl, sym, ap, ◌∙◌, inl, inr, Bool, true, false, ◌&&◌,
  List, [], ◌∷◌, ◌++◌, some, arith, ◌==◌, length, length-append, length-replicate, take,
  take-length, replicate, is_empty, Bool-cases,
}
use w3m.Prelude.Outcome.{returns}
use w3m.Signature.{
  Memory, fill, compare_linear, load_bytes, load_comparand, equal_each, and_bits, xor_bits,
  test_all_zeros, desired_mask, compare_vectorized,
}
use w3m.Signature.Pattern.{Token, wildcard, exact, mask_of, pattern_of, strip, length-mask_of}

-- Whether the bytes from an address on are those of the tokens.
unfoldable pub matches_at : (ℕ → ℕ) → List Token → ℕ → Bool
matches_at bytes [] a = true
matches_at bytes (wildcard ∷ ts) a = matches_at bytes ts (suc a)
matches_at bytes (exact b ∷ ts) a = bytes a == b && matches_at bytes ts (suc a)

-- The addresses from `low` on and below `high` can be read.
abbrev pub IsReadable : Memory → (ℕ → ℕ) → ℕ → ℕ → Type 0
IsReadable memory bytes low high = (a : ℕ) → low ≤ a → a < high → memory a ≡ some (bytes a)

strip_nil :
    (bytes : ℕ → ℕ) (ts : List Token) (a : ℕ)
    → is_empty (strip ts) ≡ true
    → matches_at bytes ts a ≡ true
unfolding strip matches_at
strip_nil bytes [] a h = refl
strip_nil bytes (wildcard ∷ ts) a h = elim (Bool-cases (is_empty (strip ts))) [
  | inl e ↦ strip_nil bytes ts (suc a) e
  | inr e ↦ let no : false ≡ true = rw e at h in cc
]
strip_nil bytes (exact b ∷ ts) a h = cc

-- The wildcards at the end do not matter.
pub matches_at-strip :
    (bytes : ℕ → ℕ) (ts : List Token) (a : ℕ)
    → matches_at bytes (strip ts) a ≡ matches_at bytes ts a
unfolding strip matches_at
matches_at-strip bytes [] a = refl
matches_at-strip bytes (wildcard ∷ ts) a = elim (Bool-cases (is_empty (strip ts))) [
  | inl e ↦ rw e (sym (strip_nil bytes ts (suc a) e))
  | inr e ↦ rw e (matches_at-strip bytes ts (suc a))
]
matches_at-strip bytes (exact b ∷ ts) a = rw (matches_at-strip bytes ts (suc a))

pub length-pattern_of : (ts : List Token) → length (pattern_of ts) ≡ length ts
unfolding pattern_of
length-pattern_of [] = refl
length-pattern_of (t ∷ ts) = ap suc (length-pattern_of ts)

==_comm : (m n : ℕ) → (m == n) ≡ (n == m)
==_comm m n = ground arith

take-whole : (n : ℕ) (xs : List ℕ) → length xs ≡ n → take n xs ≡ xs
take-whole n xs h = ap (λ k. take k xs) (sym h) ∙ take-length xs

module _ (memory : Memory) (bytes : ℕ → ℕ) where
  pub compare_linear_lem :
      (ts : List Token) (a high : ℕ)
      → a + length ts ≤ high
      → IsReadable memory bytes a high
      → compare_linear memory (mask_of ts) (pattern_of ts) a ≡ returns (matches_at bytes ts a)
  unfolding compare_linear mask_of pattern_of matches_at
  compare_linear_lem [] a high fits readable = refl
  compare_linear_lem (wildcard ∷ ts) a high fits readable =
      compare_linear_lem ts (suc a) high (omega arith)
        (λ b low below. readable b (omega arith) below)
  compare_linear_lem (exact b ∷ ts) a high fits readable =
      let rest =
        compare_linear_lem ts (suc a) high (omega arith)
          (λ c low below. readable c (omega arith) below) in
      rw (readable a (omega arith) (omega arith), ==_comm b (bytes a))
        (elim (Bool-cases (bytes a == b)) [ inl e ↦ rw e rest | inr e ↦ rw e ])

  bytes_from : ℕ → ℕ → List ℕ
  bytes_from zero a = []
  bytes_from (suc n) a = bytes a ∷ bytes_from n (suc a)

  load_bytes_lem :
      (n a high : ℕ)
      → a + n ≤ high
      → IsReadable memory bytes a high
      → load_bytes memory n a ≡ returns (bytes_from n a)
  unfolding load_bytes bytes_from
  load_bytes_lem zero a high fits readable = refl
  load_bytes_lem (suc n) a high fits readable = rw (
    readable a (omega arith) (omega arith),
    load_bytes_lem n (suc a) high (omega arith) (λ c low below. readable c (omega arith) below),
  )

  all_zeros_lem :
      (ts : List Token) (junk : List ℕ) (n a : ℕ)
      → length ts ≤ n
      → (let desired = desired_mask (mask_of ts) in
          test_all_zeros (
            xor_bits desired
              (and_bits desired (equal_each (bytes_from n a) (pattern_of ts ++ junk) (length ts)))))
        ≡ matches_at bytes ts a
  unfolding test_all_zeros xor_bits and_bits equal_each mask_of pattern_of bytes_from matches_at
  all_zeros_lem [] junk n a h = refl
  all_zeros_lem (t ∷ ts) junk zero a h = absurd (omega arith)
  all_zeros_lem (wildcard ∷ ts) junk (suc n) a h = all_zeros_lem ts junk n (suc a) (omega arith)
  all_zeros_lem (exact b ∷ ts) junk (suc n) a h =
      rw (all_zeros_lem ts junk n (suc a) (omega arith))
        (elim (Bool-cases (bytes a == b)) [ inl e ↦ rw e | inr e ↦ rw e ])

  pub load_comparand-fill :
      (ts : List Token)
      → length ts ≤ 16
      → load_comparand (fill (pattern_of ts)) ≡ returns (fill (pattern_of ts))
  unfolding load_comparand fill
  load_comparand-fill ts h =
      let whole : length (pattern_of ts ++ replicate (16 - length (pattern_of ts)) 0) ≡ 16 = omega (
        arith,
        length-append (pattern_of ts) (replicate (16 - length (pattern_of ts)) 0),
        length-replicate {A = ℕ} (16 - length (pattern_of ts)) 0,
        length-pattern_of ts,
      ) in
      rw (whole, take-whole 16 _ whole)

  pub compare_vectorized_lem :
      (ts : List Token) (a high : ℕ)
      → length ts ≤ 16
      → a + 16 ≤ high
      → IsReadable memory bytes a high
      → compare_vectorized memory (mask_of ts) (fill (pattern_of ts)) a
        ≡ returns (matches_at bytes ts a)
  unfolding compare_vectorized fill
  compare_vectorized_lem ts a high short fits readable = rw (
    load_bytes_lem 16 a high fits readable,
    length-mask_of ts,
    all_zeros_lem ts (replicate (16 - length (pattern_of ts)) 0) 16 a short,
  )
