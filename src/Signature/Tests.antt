-- ===== src/Signature/Tests.antt =====
-- Runs of the search of src/common/utils/signature.cpp.
use mathlib.Core.List.{Permᴰ}
use w3m.Prelude.{
  ℕ, ◌-◌, ◌≤◌, ◌≡◌, refl, true, false, ◌&&◌, ◌||◌, le→leb, lt→ltb, List, [], ◌∷◌, none, some, arith,
  ltb, leb, ◌==◌, if◌then◌else◌, keep, codes,
}
use w3m.Prelude.Outcome.{returns, throws, ◌>>=◌, invalid_pattern}
use w3m.Signature.{Memory, thread_count, signature, process, load_pattern}
use w3m.Signature.Pattern.{
  Token, wildcard, exact, print_tokens, strip, filled, mask_of, load_pattern-print_tokens,
}
use w3m.Signature.Malformed.{LoadsOrThrows, load_pattern-throws, is_pattern}
use w3m.Signature.Matches.{matches_at, IsReadable}
use w3m.Signature.Sorting.{count_up}
use w3m.Signature.Ranges.{window}
use w3m.Signature.Search.{process-signature}

abbrev needle : List Token
needle = exact 0x48 ∷ wildcard ∷ exact 0x8b ∷ wildcard ∷ []

abbrev bytes : ℕ → ℕ
bytes a = if a == 1013 || a == 1070 then 0x48 else if a == 1015 || a == 1072 then 0x8b else 0

-- Nothing but the region can be read.
abbrev memory : Memory
memory a = if leb 1000 a && ltb a 1100 then some (bytes a) else none

memory-IsReadable : IsReadable memory bytes 1000 1100
memory-IsReadable a low high = rw (le→leb 1000 a low, lt→ltb a 1100 high)

abbrev two_threads : List ℕ
two_threads = 1 ∷ 0 ∷ []

two_threads-Perm : Permᴰ two_threads (count_up 0 (thread_count 4))
unfolding count_up thread_count
two_threads-Perm = Permᴰ.swap refl refl

printed : print_tokens needle ≡ codes "48 ? 8B ? "
unfolding print_tokens
printed = refl

-- The second thread is the first to add what it has found.
found :
    (signature true (codes "48 ? 8b") 1000 100 >>= λ s. process true 4 memory s two_threads)
    ≡ returns (1013 ∷ 1070 ∷ [])
unfolding signature process
found = refl

-- A match in the last sixteen bytes is found without vector instructions only.
at_the_end :
    (signature true (codes "48 ? 8b") 1000 75 >>= λ s. process true 4 memory s two_threads)
    ≡ returns (1013 ∷ [])
unfolding signature process
at_the_end = refl

refused : load_pattern true (codes "4 8 ? 8") ≡ throws invalid_pattern
unfolding load_pattern
refused = refl

needle-fits : window true (strip needle) ≤ 100
unfolding strip
needle-fits = omega arith

process-signature_example :
    (signature true (print_tokens needle) 1000 100 >>= λ s. process true 4 memory s two_threads)
    ≡ returns (keep (matches_at bytes needle) (count_up 1000 (100 - window true (strip needle))))
process-signature_example =
    process-signature true 4 memory bytes needle 1000 100 two_threads (omega arith)
      memory-IsReadable (omega arith) needle-fits two_threads-Perm

load_pattern-print_tokens_example :
    load_pattern true (print_tokens needle)
    ≡ returns (mask_of (strip needle), filled true (strip needle))
load_pattern-print_tokens_example = load_pattern-print_tokens true needle (omega arith)

load_pattern-throws_example :
    LoadsOrThrows (is_pattern false (codes "4 8? 0")) (load_pattern true (codes "4 8? 0"))
load_pattern-throws_example = load_pattern-throws true (codes "4 8? 0")
