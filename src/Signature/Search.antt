-- ===== src/Signature/Search.antt =====
-- What `process` of src/common/utils/signature.cpp returns for a region that can be read: with and
-- without vector instructions, on one thread or several, in whatever order these end.
use mathlib.Core.List.{Permᴰ}
use mathlib.Core.Path.{subst}
use native.Mathlib.Nat.{div-mul-le_self, mul-le-mul_right}
use w3m.Prelude.{
  ℕ, zero, suc, ◌+◌, ◌-◌, ◌*◌, ◌/◌, ◌%◌, ◌≤◌, ◌<◌, ◌≡◌, sym, ap, ◌∙◌, fun_ext, inl, inr, Bool, true,
  false, List, [], ◌∷◌, ◌++◌, append_assoc, append-nil, arith, leb, ◌==◌, if◌then◌else◌, length,
  keep, All, Bool-cases, ==_iff, ==_ne,
}
use w3m.Prelude.Words.{size_mod}
use w3m.Prelude.Outcome.{returns, ◌>>=◌}
use w3m.Signature.{
  Signature, Memory, has_sse_support, sub, searched, thread_count, grid, process_range, run_thread,
  run_threads, sort, process_serial, process_parallel, process, signature,
}
use w3m.Signature.Pattern.{
  Token, IsToken, print_tokens, mask_of, strip, length-mask_of, load_pattern-print_tokens,
}
use w3m.Signature.Matches.{matches_at, IsReadable, matches_at-strip}
use w3m.Signature.Sorting.{
  count_up, count_up-append, keep-append, blocks, sort-blocks, sort-keep-count_up,
}
use w3m.Signature.Ranges.{loaded_signature, window, process_range_lem}

module _ {A : Type 0} (P : A → Type 0) where
  All-Permᴰ : {xs ys : List A} → Permᴰ xs ys → All P ys → All P xs
  All-Permᴰ Permᴰ.nil h = h
  All-Permᴰ (Permᴰ.cons e p) (h, hs) = (subst P (sym e) h, All-Permᴰ p hs)
  All-Permᴰ (Permᴰ.swap e e') (h, r) = (subst P (sym e) r.0, (subst P (sym e') h, r.1))
  All-Permᴰ (Permᴰ.trans p q) h = All-Permᴰ p (All-Permᴰ q h)

count_up-below : (a n k : ℕ) → a + n ≤ k → All (λ i. i < k) (count_up a n)
unfolding count_up
count_up-below a zero k h = tt
count_up-below a (suc n) k h = (omega arith, count_up-below (suc a) n k (omega arith))

module _ (sse : Bool) (cores : ℕ) (memory : Memory) (bytes : ℕ → ℕ) (ts : List Token)
    (start size : ℕ) (readable : IsReadable memory bytes start (start + size))
    (small : size < size_mod) (fits : window sse ts ≤ size) where
  abbrev s : Signature
  s = loaded_signature sse ts start size

  -- The addresses that are compared.
  abbrev total : ℕ
  total = size - window sse ts

  abbrev hits : ℕ → ℕ → List ℕ
  hits a n = keep (matches_at bytes ts) (count_up a n)

  abbrev threads : ℕ
  threads = thread_count cores

  sub_lem : sub sse cores memory s ≡ window sse ts
  unfolding sub has_sse_support
  sub_lem = rw (length-mask_of ts)

  searched_lem : searched sse cores memory s (sub sse cores memory s) ≡ total
  unfolding searched
  searched_lem = rw sub_lem (wrap size (window sse ts) fits small)
    where
      wrap : (n m : ℕ) → m ≤ n → n < size_mod → (n + size_mod - m) % size_mod ≡ n - m
      wrap n m h k = omega arith

  process_serial_lem : process_serial sse cores memory s ≡ returns (hits start total)
  unfolding process_serial
  process_serial_lem = rw searched_lem (
      process_range_lem sse cores memory bytes ts start size readable start total (omega arith)
        (omega arith))

  part : ℕ → ℕ
  part i = if i + 1 == threads then total - grid sse cores memory s * i else grid sse cores memory s

  found : ℕ → List ℕ
  unfolding part
  found i = hits (start + grid sse cores memory s * i) (part i)

  grid_le : (i : ℕ) → i < threads → grid sse cores memory s * i + grid sse cores memory s ≤ total
  unfolding grid
  grid_le i h =
      let whole = div-mul-le_self total threads in
      let more = mul-le-mul_right (total / threads) h in
      rw searched_lem (omega (arith, whole, more))

  part-fits : (i : ℕ) → i < threads → grid sse cores memory s * i + part i ≤ total
  unfolding part
  part-fits i h = ground (arith, grid_le i h)

  run_thread-part :
      (i : ℕ)
      → run_thread sse cores memory s i
        ≡ process_range sse cores memory s (start + grid sse cores memory s * i) (part i)
  unfolding run_thread part
  run_thread-part i =
      ap
        (λ n.
          process_range sse cores memory s (start + grid sse cores memory s * i)
            (if i + 1 == threads then n - grid sse cores memory s * i else grid sse cores memory s))
        searched_lem

  run_thread_lem : (i : ℕ) → i < threads → run_thread sse cores memory s i ≡ returns (found i)
  unfolding found
  run_thread_lem i h =
      run_thread-part i
      ∙ process_range_lem sse cores memory bytes ts start size readable
          (start + grid sse cores memory s * i) (part i) (omega arith)
          (omega (arith, part-fits i h, fits))

  run_threads_lem :
      (order result : List ℕ)
      → All (λ i. i < threads) order
      → run_threads sse cores memory s order result ≡ returns (result ++ blocks found order)
  unfolding run_threads blocks
  run_threads_lem [] result h = rw (append-nil result)
  run_threads_lem (i ∷ order) result (h, hs) =
      rw (run_thread_lem i h, run_threads)
        (run_threads_lem order (result ++ found i) hs ∙ rw (append_assoc result))

  -- The parts from thread `i` on are all that is left of the region.
  blocks-found :
      (n i : ℕ)
      → i + suc n ≡ threads
      → blocks found (count_up i (suc n))
        ≡ hits (start + grid sse cores memory s * i) (total - grid sse cores memory s * i)
  unfolding blocks count_up found part
  blocks-found zero i h =
      let here : (i + 1 == threads) ≡ true = (==_iff _ _).1 (omega arith) in rw (here, append-nil)
  blocks-found (suc n) i h =
      let g = grid sse cores memory s in
      let here : (i + 1 == threads) ≡ false = ==_ne _ _ (omega arith) in
      let more = grid_le (suc i) (omega arith) in
      let step : start + g * suc i ≡ start + g * i + g = omega arith in
      let sum : g + (total - g * suc i) ≡ total - g * i = omega arith in
      rw (here, blocks-found n (suc i) (omega arith), step)
        (sym (keep-append (matches_at bytes ts) (count_up (start + g * i) g) _)
          ∙ ap (keep (matches_at bytes ts)) (
              sym (count_up-append (start + g * i) g (total - g * suc i))
              ∙ ap (count_up (start + g * i)) sum))

  thread_count-positive : 1 ≤ threads
  unfolding thread_count
  thread_count-positive = ground arith

  blocks-all : blocks found (count_up 0 threads) ≡ hits start total
  blocks-all =
      let g = grid sse cores memory s in
      let all : suc (threads - 1) ≡ threads = omega (arith, thread_count-positive) in
      ap (λ n. blocks found (count_up 0 n)) (sym all)
      ∙ blocks-found (threads - 1) 0 (omega (arith, all))
      ∙ rw (
        let e : start + g * 0 ≡ start = omega arith in e,
        let e : total - g * 0 ≡ total = omega arith in e,
      )

  process_parallel_lem :
      (order : List ℕ)
      → Permᴰ order (count_up 0 threads)
      → process_parallel sse cores memory s order ≡ returns (hits start total)
  unfolding process_parallel
  process_parallel_lem order p =
      let inside =
        All-Permᴰ (λ i. i < threads) p (count_up-below 0 threads threads (omega arith)) in
      let sorted : sort (blocks found order) ≡ hits start total =
        sort-blocks found p
        ∙ ap sort blocks-all
        ∙ sort-keep-count_up (matches_at bytes ts) start total in
      rw (run_threads_lem order [] inside, sorted)

  pub process_lem :
      (order : List ℕ)
      → Permᴰ order (count_up 0 threads)
      → process sse cores memory s order ≡ returns (hits start total)
  unfolding process
  process_lem order p =
      elim (Bool-cases (
        leb (searched sse cores memory s (length (mask_of ts)))
          ((if leb 1 cores then cores else 1) * 10))) [
            | inl e ↦ rw e process_serial_lem
            | inr e ↦ rw e (process_parallel_lem order p)
          ]

keep_ext : (p q : ℕ → Bool) (xs : List ℕ) → ((x : ℕ) → p x ≡ q x) → keep p xs ≡ keep q xs
keep_ext p q xs h = rw (fun_ext h)

-- A search for the text of any tokens, whose bytes are below 256, in a region that can be read, is
-- shorter than 2 ^ 64 and holds the bytes that are compared at once (sixteen with vector
-- instructions and at most sixteen tokens up to the last byte, else those tokens), reads nothing
-- outside the region and returns, in ascending order, exactly the addresses where the tokens match
-- and behind which there is at least one byte more than is compared, whatever the number of cores
-- and in whatever order the threads add what they find.
pub process-signature :
    (sse : Bool) (cores : ℕ) (memory : Memory) (bytes : ℕ → ℕ) (ts : List Token) (start size : ℕ)
    (order : List ℕ)
    → All IsToken ts
    → IsReadable memory bytes start (start + size)
    → size < size_mod
    → window sse (strip ts) ≤ size
    → Permᴰ order (count_up 0 (thread_count cores))
    → (signature sse (print_tokens ts) start size >>= λ s. process sse cores memory s order)
      ≡ returns (keep (matches_at bytes ts) (count_up start (size - window sse (strip ts))))
unfolding signature
process-signature sse cores memory bytes ts start size order h readable small fits p =
    rw (load_pattern-print_tokens sse ts h) (
      process_lem sse cores memory bytes (strip ts) start size readable small fits order p
      ∙ rw (
          keep_ext (matches_at bytes (strip ts)) (matches_at bytes ts) _
            (matches_at-strip bytes ts)))
