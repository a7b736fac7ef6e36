-- ===== src/ByteBuffer/Refinement.antt =====
-- The deserializer of src/common/utils/byte_buffer.hpp as a parser of the bytes that are left.
use w3m.Prelude.{
  ℕ, ◌+◌, ◌-◌, ◌*◌, ◌%◌, ◌^◌, ◌≤◌, ◌<◌, ◌≡◌, refl, sym, ap, inl, inr, List, arith, ltb, leb,
  if◌then◌else◌, length, take, drop, take-length, All-take, All-drop, leb→le, le→leb, leb-false,
  lt→ltb, ltb-false, length-drop, length-take, drop-add, All, Bool-cases,
}
use mathlib.Core.Path.{subst}
use native.Mathlib.Decide.{dec_le}
use native.Mathlib.Nat.{le_refl}
use w3m.Prelude.Outcome.{Outcome, returns, throws, terminates, undefined, ◌>>=◌, out_of_bounds_read}
use w3m.Prelude.Words.{size_mod, IsByte, le_value, le_value-lt}
use w3m.ByteBuffer.{
  Deserializer, open_buffer, read, read_data, read_object, read_elements, read_vector,
  read_characters, read_string, get_remaining_data,
}
use w3m.ByteBuffer.Objects.{Layout, u32, decode_all}

-- The offset lies in the buffer, and the buffer is no larger than an object can be.
pub record IsValid (d : Deserializer) : Type 0 where
  pub inside : d.offset ≤ length d.buffer
  pub small : length d.buffer < 2 ^ 63
  pub bytes : All IsByte d.buffer

abbrev pub remaining : Deserializer → List ℕ
remaining d = drop d.offset d.buffer

abbrev first : {B : Type 0} → Outcome (ℕ × B) → ℕ
first (returns (n, b)) = n
first (throws e) = 0
first terminates = 0
first undefined = 0

pair_path : {A B : Type 0} {a a' : A} {b b' : B} → a ≡ a' → b ≡ b' → ◌≡◌ {A = A × B} (a, b) (a', b')
pair_path p q = λ i. (p i, q i)

-- Cut `n` bytes off the front, or fail.
unfoldable pub cut : ℕ → List ℕ → Outcome (List ℕ × List ℕ)
cut n bytes =
    if leb n (length bytes) then returns (take n bytes, drop n bytes) else throws out_of_bounds_read

unfoldable pub cut_object : {A : Type 0} → Layout A → List ℕ → Outcome (A × List ℕ)
cut_object t bytes = do (front, rest) ← cut t.size bytes; returns (t.decode front, rest)

unfoldable pub cut_string : List ℕ → Outcome (List ℕ × List ℕ)
cut_string bytes = do (size, rest) ← cut_object u32 bytes; cut size rest

unfoldable pub cut_vector : {A : Type 0} → Layout A → List ℕ → Outcome (List A × List ℕ)
cut_vector t bytes = do
  (size, rest) ← cut_object u32 bytes
  (front, rest') ← cut (size * t.size) rest
  returns (decode_all t size front, rest')

-- The reader does what the parser does: it returns the same value and is left with the same bytes,
-- in a valid state, or throws the same exception; it is never undefined.
abbrev pub Refines : {A : Type 0} → Outcome (A × Deserializer) → Outcome (A × List ℕ) → Type 0
Refines (returns (a, d)) (returns (b, rest)) = (a ≡ b) × (remaining d ≡ rest) × IsValid d
Refines (returns p) (throws e) = ⊥
Refines (returns p) terminates = ⊥
Refines (returns p) undefined = ⊥
Refines (throws e) (returns p) = ⊥
Refines (throws e) (throws e') = e ≡ e'
Refines (throws e) terminates = ⊥
Refines (throws e) undefined = ⊥
Refines terminates r = ⊥
Refines undefined r = ⊥

pub open_buffer-IsValid :
    (bytes : List ℕ) → length bytes < 2 ^ 63 → All IsByte bytes → IsValid (open_buffer bytes)
unfolding open_buffer
open_buffer-IsValid bytes h b = record { inside = omega arith; small = h; bytes = b }

pub open_buffer-remaining : (bytes : List ℕ) → remaining (open_buffer bytes) ≡ bytes
unfolding open_buffer
open_buffer-remaining bytes = refl

length-remaining : (d : Deserializer) → length (remaining d) ≡ length d.buffer - d.offset
length-remaining d = length-drop d.offset d.buffer

read-fits :
    (d : Deserializer) (n : ℕ)
    → IsValid d
    → n ≤ length (remaining d)
    → Refines (read d n) (cut n (remaining d))
unfolding read cut
read-fits d n v h =
    let fits : d.offset + n ≤ length d.buffer = omega (arith, length-remaining d) in
    let no_wrap : (d.offset + n) % size_mod ≡ d.offset + n = omega arith in
    rw (no_wrap, ltb-false _ _ fits, le→leb _ _ fits, le→leb _ _ h)
      (
        refl,
        drop-add d.offset n d.buffer,
        record { inside = fits; small = v.small; bytes = v.bytes },
      )

read-throws :
    (d : Deserializer) (n : ℕ)
    → IsValid d
    → n < 2 ^ 63
    → length (remaining d) < n
    → Refines (read d n) (cut n (remaining d))
unfolding read cut
read-throws d n v small h =
    let past : length d.buffer < d.offset + n = omega (arith, length-remaining d) in
    let no_wrap : (d.offset + n) % size_mod ≡ d.offset + n = omega arith in
    rw (no_wrap, lt→ltb _ _ past, leb-false _ _ h) refl

pub read-Refines :
    (d : Deserializer) (n : ℕ) → IsValid d → n < 2 ^ 63 → Refines (read d n) (cut n (remaining d))
read-Refines d n v small = elim (dec_le n (length (remaining d))) [
  | yes h ↦ read-fits d n v h
  | no h ↦ read-throws d n v small (omega arith)
]

pub Refines-bind :
    {A B : Type 0} (m : Outcome (A × Deserializer)) (n : Outcome (A × List ℕ))
    (f : A × Deserializer → Outcome (B × Deserializer)) (g : A × List ℕ → Outcome (B × List ℕ))
    → Refines m n
    → ((a : A) (d : Deserializer)
        → n ≡ returns (a, remaining d)
        → IsValid d
        → Refines (f (a, d)) (g (a, remaining d)))
    → Refines (m >>= f) (n >>= g)
Refines-bind (returns (a, d)) (returns (b, rest)) f g (e, r, v) k =
    subst (λ p. Refines (f (a, d)) (g p)) (pair_path e r)
      (k a d (ap returns (sym (pair_path e r))) v)
Refines-bind (returns p) (throws e) f g h k = elim h [ ]
Refines-bind (returns p) terminates f g h k = elim h [ ]
Refines-bind (returns p) undefined f g h k = elim h [ ]
Refines-bind (throws e) (returns p) f g h k = elim h [ ]
Refines-bind (throws e) (throws e') f g h k = h
Refines-bind (throws e) terminates f g h k = elim h [ ]
Refines-bind (throws e) undefined f g h k = elim h [ ]
Refines-bind terminates n f g h k = elim h [ ]
Refines-bind undefined n f g h k = elim h [ ]

pub read_object-Refines :
    {A : Type 0} (t : Layout A) (d : Deserializer)
    → IsValid d
    → t.size < 2 ^ 63
    → Refines (read_object t d) (cut_object t (remaining d))
unfolding read_object cut_object
read_object-Refines t d v small =
    Refines-bind (read d t.size) (cut t.size (remaining d)) _ _ (read-Refines d t.size v small)
      (λ bytes d' e v'. (refl, refl, v'))

-- `read_string` and `read_vector` make the check of `read` before they call it.
check_again :
    {B : Type 0} (d : Deserializer) (n : ℕ) (f : List ℕ × Deserializer → Outcome B)
    → (if ltb (length d.buffer) ((d.offset + n) % size_mod)
        then throws out_of_bounds_read
        else read d n >>= f)
      ≡ (read d n >>= f)
unfolding read
check_again d n f = elim (Bool-cases (ltb (length d.buffer) ((d.offset + n) % size_mod))) [
  | inl e ↦ rw e
  | inr e ↦ rw e
]

check_again_read :
    (d : Deserializer) (n : ℕ)
    → (if ltb (length d.buffer) ((d.offset + n) % size_mod)
        then throws out_of_bounds_read
        else read d n)
      ≡ read d n
unfolding read
check_again_read d n = elim (Bool-cases (ltb (length d.buffer) ((d.offset + n) % size_mod))) [
  | inl e ↦ rw e
  | inr e ↦ rw e
]

read_characters-Refines :
    (size : ℕ) (d : Deserializer)
    → IsValid d
    → size < 2 ^ 63
    → Refines (read_characters size d) (cut size (remaining d))
unfolding read_characters
read_characters-Refines size d v small = rw (check_again_read d size) (read-Refines d size v small)

read_elements-Refines :
    {A : Type 0} (t : Layout A) (size : ℕ) (d : Deserializer)
    → IsValid d
    → size * t.size < 2 ^ 63
    → Refines
        (read_elements t size d)
        (cut (size * t.size) (remaining d) >>= λ p. returns (decode_all t size p.0, p.1))
unfolding read_elements
read_elements-Refines t size d v small =
    let no_wrap : size * t.size % size_mod ≡ size * t.size = omega arith in
    rw (no_wrap, check_again)
      (Refines-bind (read d (size * t.size)) (cut (size * t.size) (remaining d)) _ _
        (read-Refines d (size * t.size) v small) (λ bytes d' e v'. (refl, refl, v')))

-- A size that is read from the buffer has 32 bits.
cut_u32-lt :
    (bytes : List ℕ)
    → All IsByte bytes
    → (size : ℕ) (rest : List ℕ) → cut_object u32 bytes ≡ returns (size, rest)
    → size < 2 ^ 32
unfolding cut_object cut
cut_u32-lt bytes h size rest e = elim (Bool-cases (leb 4 (length bytes))) [
  | inl fits ↦
      let e' : ◌≡◌ {A = Outcome (ℕ × List ℕ)} (returns (le_value (take 4 bytes), drop 4 bytes))
          (returns (size, rest)) =
        rw fits at e in
      let value : le_value (take 4 bytes) ≡ size = ap first e' in
      let four : length (take 4 bytes) ≡ 4 =
        omega (arith, length-take 4 bytes, leb→le 4 (length bytes) fits) in
      let bound : le_value (take 4 bytes) < 256 ^ 4 =
        subst (λ (n : ℕ). le_value (take 4 bytes) < 256 ^ n) four
          (le_value-lt (take 4 bytes) (All-take _ 4 bytes h)) in
      omega arith
  | inr short ↦ cc (rw short at e)
]

-- In every valid state `read_string` is the parser of a length of four bytes and that many characters
-- on the bytes that are left: it returns the same text and is left with the same bytes, in a valid
-- state, or throws where the parser fails; it is never undefined.
pub read_string-Refines :
    (d : Deserializer) → IsValid d → Refines (read_string d) (cut_string (remaining d))
unfolding read_string cut_string
read_string-Refines d v =
    Refines-bind (read_object u32 d) (cut_object u32 (remaining d)) _ _
      (read_object-Refines u32 d v (omega arith))
      (λ size d' e v'.
        read_characters-Refines size d' v'
          (omega (arith, cut_u32-lt (remaining d) (All-drop _ d.offset d.buffer v.bytes) size _ e)))

-- In every valid state `read_vector`, of a type of less than 2^31 bytes, is the parser of a length of
-- four bytes and that many objects on the bytes that are left: it returns the same objects and is
-- left with the same bytes, in a valid state, or throws where the parser fails.
pub read_vector-Refines :
    {A : Type 0} (t : Layout A) (d : Deserializer)
    → IsValid d
    → t.size < 2 ^ 31
    → Refines (read_vector t d) (cut_vector t (remaining d))
unfolding read_vector cut_vector
read_vector-Refines t d v small =
    Refines-bind (read_object u32 d) (cut_object u32 (remaining d)) _ _
      (read_object-Refines u32 d v (omega arith))
      (λ size d' e v'. read_elements-Refines t size d' v' (
        size_fits size t.size
          (cut_u32-lt (remaining d) (All-drop _ d.offset d.buffer v.bytes) size _ e) small))
  where
    size_fits : (m n : ℕ) → m < 2 ^ 32 → n < 2 ^ 31 → m * n < 2 ^ 63
    size_fits m n hm hn = grind arith

-- In a valid state `get_remaining_data` returns the bytes that are left and moves the offset to the
-- end.
pub get_remaining_data-remaining :
    (d : Deserializer)
    → IsValid d
    → get_remaining_data d ≡ returns (remaining d, record d { offset = length d.buffer })
unfolding get_remaining_data read_data read
get_remaining_data-remaining d v =
    let size : (length d.buffer + size_mod - d.offset) % size_mod ≡ length d.buffer - d.offset =
      omega arith in
    let end : d.offset + (length d.buffer - d.offset) ≡ length d.buffer = omega arith in
    let no_wrap : length d.buffer % size_mod ≡ length d.buffer = omega arith in
    rw
      (
        size,
        end,
        no_wrap,
        ltb-false _ _ (le_refl (length d.buffer)),
        le→leb _ _ (le_refl (length d.buffer)),
      )
      (rw (← length-remaining d, take-length))
