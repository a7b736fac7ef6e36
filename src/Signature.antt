-- ===== src/Signature.antt =====
-- src/common/utils/signature.hpp and signature.cpp: the search of a region of memory for a pattern
-- of bytes, with vector instructions or without them, by one thread or by several. The memory is a
-- function that gives no byte where an address cannot be read.
pub mod Pattern
pub mod Malformed
pub mod Matches
pub mod Sorting
pub mod Ranges
pub mod Search
pub mod Tests
use w3m.Prelude.{
  ℕ, zero, suc, ◌+◌, ◌-◌, ◌*◌, ◌/◌, ◌%◌, ◌≤◌, min, bit_or, Bool, true, false, not, ◌&&◌, ◌||◌, List,
  [], ◌∷◌, ◌++◌, Option, none, some, map, ltb, leb, ◌==◌, if◌then◌else◌, length, take, is_empty,
  replicate, get_elem?,
}
use w3m.Prelude.Words.{size_mod}
use w3m.Prelude.Outcome.{
  Outcome, returns, throws, terminates, undefined, ◌>>=◌, invalid_pattern, invalid_index,
}

-- `mask_`, of the characters `x` and `?`, and `pattern_`, with the region they are looked for in.
pub record Signature : Type 0 where
  pub mask : List ℕ
  pub pattern : List ℕ
  pub start : ℕ
  pub size : ℕ

-- What the loop of `load_pattern` changes.
pub record Loading : Type 0 where
  pub mask : List ℕ
  pub pattern : List ℕ
  pub nibble : ℕ
  pub has_nibble : Bool

-- `(val < '0' || val > '9') && (val < 'A' || val > 'F') && (val < 'a' || val > 'f')`
unfoldable pub is_no_digit : ℕ → Bool
is_no_digit val =
    (ltb val b'0' || ltb b'9' val)
    && ((ltb val b'A' || ltb b'F' val) && (ltb val b'a' || ltb b'f' val))

-- `strtol(str, nullptr, 16)` on one digit
unfoldable pub digit_value : ℕ → ℕ
digit_value val =
    if leb val b'9' then val - b'0' else if leb val b'F' then val - b'A' + 10 else val - b'a' + 10

unfoldable pub load_char : ℕ → Loading → Outcome Loading
unfolding is_no_digit digit_value
load_char val s =
    if val == b' '
    then returns s
    else if val == b'?'
    then returns (record s { mask = s.mask ++ (val ∷ []); pattern = s.pattern ++ (0 ∷ []) })
    else if is_no_digit val
    then throws invalid_pattern
    else if not s.has_nibble
    then returns (record s { nibble = digit_value val; has_nibble = true })
    else returns (record s {
      mask = s.mask ++ (b'x' ∷ []);
      pattern = s.pattern ++ (bit_or (digit_value val) (s.nibble * 16 % 256) ∷ []);
      has_nibble = false;
    })

unfoldable pub load_chars : List ℕ → Loading → Outcome Loading
unfolding load_char
load_chars [] s = returns s
load_chars (val ∷ pattern) s = load_char val s >>= λ s'. load_chars pattern s'

unfoldable pub back : List ℕ → ℕ → ℕ
back [] default = default
back (x ∷ xs) default = back xs x

unfoldable pub pop_back_char : List ℕ → List ℕ
pop_back_char [] = []
pop_back_char (x ∷ []) = []
pop_back_char (x ∷ y ∷ xs) = x ∷ pop_back_char (y ∷ xs)

-- The loop that drops the wildcards at the end; each round takes one, so their number is enough
-- fuel.
unfoldable pub trim_loop : ℕ → List ℕ → List ℕ → List ℕ × List ℕ
unfolding back pop_back_char
trim_loop zero mask pattern = (mask, pattern)
trim_loop (suc fuel) mask pattern =
    let rest = trim_loop fuel (pop_back_char mask) (pop_back_char pattern) in
    if not (is_empty mask) && back mask 0 == b'?' then rest else (mask, pattern)

-- `while (pattern_.size() < 16) pattern_.push_back(0)`
unfoldable pub fill : List ℕ → List ℕ
fill pattern = pattern ++ replicate (16 - length pattern) 0

-- `sse` is what `cpuid` says of the processor.
unfoldable pub has_sse_support : Bool → List ℕ → Bool
has_sse_support sse mask = leb (length mask) 16 && sse

abbrev pub nothing_loaded : Loading
nothing_loaded = record { mask = []; pattern = []; nibble = 0; has_nibble = false }

-- The mask and the pattern, from the wildcards at the end on.
unfoldable pub finish_pattern : Bool → Loading → Outcome (List ℕ × List ℕ)
unfolding trim_loop fill has_sse_support
finish_pattern sse s =
    let (mask, pattern) = trim_loop (length s.mask) s.mask s.pattern in
    let filled = if has_sse_support sse mask then fill pattern else pattern in
    if s.has_nibble then throws invalid_pattern else returns (mask, filled)

unfoldable pub load_pattern : Bool → List ℕ → Outcome (List ℕ × List ℕ)
unfolding load_chars finish_pattern
load_pattern sse pattern = load_chars pattern nothing_loaded >>= λ s. finish_pattern sse s

-- The constructor from a start and a length.
unfoldable pub signature : Bool → List ℕ → ℕ → ℕ → Outcome Signature
unfolding load_pattern
signature sse pattern start size = load_pattern sse pattern >>= λ loaded.
    returns (record { mask = loaded.0; pattern = loaded.1; start = start; size = size })

abbrev pub Memory : Type 0
Memory = ℕ → Option ℕ

abbrev pub read_byte : Option ℕ → Outcome ℕ
read_byte none = undefined
read_byte (some value) = returns value

-- The inner loop of `process_range_linear`: the rest of the mask and of the pattern, and the
-- address of their first byte.
unfoldable pub compare_linear : Memory → List ℕ → List ℕ → ℕ → Outcome Bool
compare_linear memory [] pattern address = returns true
compare_linear memory (m ∷ mask) [] address = undefined
compare_linear memory (m ∷ mask) (p ∷ pattern) address =
    let rest = compare_linear memory mask pattern (suc address) in
    if m == b'?'
    then rest
    else read_byte (memory address) >>= λ value. if p == value then rest else returns false

-- A loop over `count` addresses, with what `push_back` has collected.
unfoldable pub range_loop : (ℕ → Outcome Bool) → ℕ → ℕ → List ℕ → Outcome (List ℕ)
range_loop test zero address result = returns result
range_loop test (suc count) address result = test address >>= λ hit.
    range_loop test count (suc address) (if hit then result ++ (address ∷ []) else result)

-- `_mm_loadu_si128`
unfoldable pub load_bytes : Memory → ℕ → ℕ → Outcome (List ℕ)
load_bytes memory zero address = returns []
load_bytes memory (suc count) address = read_byte (memory address) >>= λ value.
    load_bytes memory count (suc address) >>= λ values. returns (value ∷ values)

unfoldable pub load_comparand : List ℕ → Outcome (List ℕ)
load_comparand pattern = if ltb (length pattern) 16 then undefined else returns (take 16 pattern)

-- `_mm_cmpestrm(value, 16, comparand, n, _SIDD_CMP_EQUAL_EACH)`: one bit for each byte, which is
-- not set for the bytes of `value` with no partner among the first `n` of the comparand. A register
-- is the list of its low bits, lowest first; those above are not set.
unfoldable pub equal_each : List ℕ → List ℕ → ℕ → List Bool
equal_each [] comparand n = []
equal_each (v ∷ value) [] n = false ∷ equal_each value [] n
equal_each (v ∷ value) (c ∷ comparand) zero = false ∷ equal_each value comparand zero
equal_each (v ∷ value) (c ∷ comparand) (suc n) = (v == c) ∷ equal_each value comparand n

-- Bit `i` is set where character `i` of the mask is no wildcard.
abbrev pub desired_mask : List ℕ → List Bool
desired_mask mask = map (λ m. not (m == b'?')) mask

unfoldable pub and_bits : List Bool → List Bool → List Bool
and_bits [] b = []
and_bits (x ∷ a) [] = []
and_bits (x ∷ a) (y ∷ b) = (x && y) ∷ and_bits a b

unfoldable pub xor_bits : List Bool → List Bool → List Bool
xor_bits [] b = b
xor_bits (x ∷ a) [] = x ∷ a
xor_bits (x ∷ a) (y ∷ b) = (if x then not y else y) ∷ xor_bits a b

unfoldable pub test_all_zeros : List Bool → Bool
test_all_zeros [] = true
test_all_zeros (x ∷ a) = not x && test_all_zeros a

unfoldable pub compare_vectorized : Memory → List ℕ → List ℕ → ℕ → Outcome Bool
unfolding load_bytes load_comparand equal_each and_bits xor_bits test_all_zeros
compare_vectorized memory mask comparand address = load_bytes memory 16 address >>= λ value.
    let desired = desired_mask mask in
    let comparison = equal_each value comparand (length mask) in
    returns (test_all_zeros (xor_bits desired (and_bits desired comparison)))

-- `std::sort` on numbers, by insertion.
unfoldable pub insert_sorted : ℕ → List ℕ → List ℕ
insert_sorted x [] = x ∷ []
insert_sorted x (y ∷ ys) = if leb x y then x ∷ y ∷ ys else y ∷ insert_sorted x ys

unfoldable pub sort : List ℕ → List ℕ
unfolding insert_sorted
sort [] = []
sort (x ∷ xs) = insert_sorted x (sort xs)

-- `std::max(1u, std::thread::hardware_concurrency() / 2)`
unfoldable pub thread_count : ℕ → ℕ
thread_count hardware_concurrency =
    if leb 1 (hardware_concurrency / 2) then hardware_concurrency / 2 else 1

module _ (sse : Bool) (hardware_concurrency : ℕ) (memory : Memory) (s : Signature) where
  unfoldable pub process_range : ℕ → ℕ → Outcome (List ℕ)
  unfolding has_sse_support compare_linear range_loop compare_vectorized load_comparand
  process_range start count =
      if has_sse_support sse s.mask
      then (load_comparand s.pattern >>= λ comparand.
          range_loop (compare_vectorized memory s.mask comparand) count start [])
      else range_loop (compare_linear memory s.mask s.pattern) count start []

  -- `has_sse_support() ? 16 : mask_.size()`
  unfoldable pub sub : ℕ
  unfolding has_sse_support
  sub = if has_sse_support sse s.mask then 16 else length s.mask

  -- `length_ - sub`, of unsigned numbers
  unfoldable pub searched : ℕ → ℕ
  searched n = (s.size + size_mod - n) % size_mod

  unfoldable pub process_serial : Outcome (List ℕ)
  unfolding process_range sub searched
  process_serial = process_range s.start (searched sub)

  unfoldable pub grid : ℕ
  unfolding sub searched thread_count
  grid = searched sub / thread_count hardware_concurrency

  -- The part of one thread; the last one takes what the division leaves over.
  unfoldable pub run_thread : ℕ → Outcome (List ℕ)
  unfolding process_range sub searched thread_count grid
  run_thread i =
      process_range (s.start + grid * i)
        (if i + 1 == thread_count hardware_concurrency then searched sub - grid * i else grid)

  -- `order` lists the threads as they take the lock; each adds all that it has found.
  unfoldable pub run_threads : List ℕ → List ℕ → Outcome (List ℕ)
  unfolding run_thread
  run_threads [] result = returns result
  run_threads (i ∷ order) result = run_thread i >>= λ found. run_threads order (result ++ found)

  unfoldable pub process_parallel : List ℕ → Outcome (List ℕ)
  unfolding run_threads sort
  process_parallel order = run_threads order [] >>= λ result. returns (sort result)

  -- One thread does a region of at most ten addresses for each core.
  unfoldable pub process : List ℕ → Outcome (List ℕ)
  unfolding process_serial process_parallel searched
  process order =
      let cores = if leb 1 hardware_concurrency then hardware_concurrency else 1 in
      if leb (searched (length s.mask)) (cores * 10) then process_serial else process_parallel order

-- `signature_result::get`
unfoldable pub get_match : List ℕ → ℕ → Outcome ℕ
get_match matches index = elim (get_elem? matches index) [
  | none ↦ throws invalid_index
  | some address ↦ returns address
]
