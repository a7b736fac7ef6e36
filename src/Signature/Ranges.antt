-- ===== src/Signature/Ranges.antt =====
-- What the loops over a range of addresses in src/common/utils/signature.cpp collect, and how the
-- parts of the threads make up the whole region.
use w3m.Prelude.{
  ℕ, zero, suc, ◌+◌, ◌≤◌, ◌<◌, ◌≡◌, ◌∙◌, inl, inr, Bool, true, List, [], ◌∷◌, ◌++◌, append_assoc,
  append-nil, arith, leb, if◌then◌else◌, length, keep, Bool-cases, ◌&&◌,
}
use w3m.Prelude.Outcome.{Outcome, returns, ◌>>=◌}
use w3m.Signature.{
  Signature, Memory, has_sse_support, range_loop, process_range, fill, load_comparand,
  compare_linear, compare_vectorized,
}
use w3m.Signature.Pattern.{Token, mask_of, pattern_of, filled, length-mask_of}
use w3m.Signature.Matches.{
  matches_at, IsReadable, compare_linear_lem, load_comparand-fill, compare_vectorized_lem,
}
use w3m.Signature.Sorting.{count_up}

range_loop_lem :
    (test : ℕ → Outcome Bool) (p : ℕ → Bool) (n a : ℕ) (result : List ℕ)
    → ((x : ℕ) → a ≤ x → x < a + n → test x ≡ returns (p x))
    → range_loop test n a result ≡ returns (result ++ keep p (count_up a n))
unfolding range_loop count_up
range_loop_lem test p zero a result h = rw (append-nil result)
range_loop_lem test p (suc n) a result h =
    let rest = λ (r : List ℕ).
      range_loop_lem test p n (suc a) r (λ x low high. h x (omega arith) (omega arith)) in
    rw (h a (omega arith) (omega arith), range_loop)
      (elim (Bool-cases (p a)) [
        | inl e ↦ rw e (rest (result ++ (a ∷ [])) ∙ rw (append_assoc result))
        | inr e ↦ rw e (rest result)
      ])

-- The bytes that are compared at one address.
abbrev pub window : Bool → List Token → ℕ
window sse ts = if leb (length ts) 16 && sse then 16 else length ts

module _ (sse : Bool) (ts : List Token) (start size : ℕ) where
  abbrev pub loaded_signature : Signature
  loaded_signature = record {
    mask = mask_of ts;
    pattern = filled sse ts;
    start = start;
    size = size;
  }

module _ (sse : Bool) (cores : ℕ) (memory : Memory) (bytes : ℕ → ℕ) (ts : List Token)
    (start size : ℕ) (readable : IsReadable memory bytes start (start + size)) where
  abbrev loaded : Signature
  loaded = loaded_signature sse ts start size

  abbrev hits : ℕ → ℕ → List ℕ
  hits a n = keep (matches_at bytes ts) (count_up a n)

  IsReadable-from :
      (a n w : ℕ)
      → start ≤ a
      → a + n + w ≤ start + size
      → (x : ℕ) → a ≤ x
      → x < a + n
      → (x + w ≤ start + size) × IsReadable memory bytes x (start + size)
  IsReadable-from a n w low high x from to =
      (omega arith, λ b above below. readable b (omega arith) below)

  range_vectorized :
      (a n : ℕ)
      → length ts ≤ 16
      → start ≤ a
      → a + n + 16 ≤ start + size
      → (load_comparand (fill (pattern_of ts)) >>= λ comparand.
          range_loop (compare_vectorized memory (mask_of ts) comparand) n a [])
        ≡ returns (hits a n)
  range_vectorized a n short low high = rw (load_comparand-fill memory bytes ts short) (
      range_loop_lem (compare_vectorized memory (mask_of ts) (fill (pattern_of ts)))
        (matches_at bytes ts) n a []
        λ x from to.
          let (fits, rest) = IsReadable-from a n 16 low high x from to in
          compare_vectorized_lem memory bytes ts x (start + size) short fits rest)

  range_linear :
      (a n : ℕ)
      → start ≤ a
      → a + n + length ts ≤ start + size
      → range_loop (compare_linear memory (mask_of ts) (pattern_of ts)) n a [] ≡ returns (hits a n)
  range_linear a n low high =
      range_loop_lem (compare_linear memory (mask_of ts) (pattern_of ts)) (matches_at bytes ts) n a
        []
        λ x from to.
          let (fits, rest) = IsReadable-from a n (length ts) low high x from to in
          compare_linear_lem memory bytes ts x (start + size) fits rest

  pub process_range_lem :
      (a n : ℕ)
      → start ≤ a
      → a + n + window sse ts ≤ start + size
      → process_range sse cores memory loaded a n ≡ returns (hits a n)
  unfolding process_range has_sse_support
  process_range_lem a n low high = elim (Bool-cases (leb (length ts) 16 && sse)) [
    | inl e ↦ rw (length-mask_of ts, e) (range_vectorized a n (fewer e) low (rw e at high))
    | inr e ↦ rw (length-mask_of ts, e) (range_linear a n low (rw e at high))
  ]
    where
      fewer : (leb (length ts) 16 && sse) ≡ true → length ts ≤ 16
      fewer h = ground arith
