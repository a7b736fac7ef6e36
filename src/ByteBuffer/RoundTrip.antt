-- ===== src/ByteBuffer/RoundTrip.antt =====
-- What the serializer of src/common/utils/byte_buffer.hpp writes, the deserializer reads back.
use w3m.Prelude.{
  ℕ, ◌%◌, ◌^◌, ◌≤◌, ◌<◌, ◌≡◌, ap, ◌∙◌, List, ◌++◌, append_assoc, arith, length, le→leb,
  length-append, take-append, drop-append, All,
}
use mathlib.Core.Path.{subst}
use w3m.Prelude.Outcome.{Outcome, returns, throws, terminates, undefined}
use w3m.ByteBuffer.{
  Deserializer, Serializer, write_string, write_vector, read_object, read_string, read_vector,
}
use w3m.ByteBuffer.Objects.{Layout, u32, encode_all, length-encode_all, decode_all-encode_all}
use w3m.ByteBuffer.Refinement.{
  cut, cut_object, cut_string, cut_vector, IsValid, remaining, Refines, read_object-Refines,
  read_string-Refines, read_vector-Refines,
}

pub cut-append : (front rest : List ℕ) → cut (length front) (front ++ rest) ≡ returns (front, rest)
unfolding cut
cut-append front rest =
    let fits : length front ≤ length (front ++ rest) = omega (arith, length-append front rest) in
    rw (le→leb _ _ fits, take-append, drop-append)

pub cut_object-encode :
    {A : Type 0} (t : Layout A) (a : A) (rest : List ℕ)
    → t.IsObject a
    → cut_object t (t.encode a ++ rest) ≡ returns (a, rest)
unfolding cut_object
cut_object-encode t a rest h = rw (← t.length-encode a h, cut-append, t.decode-encode a h)

-- The bytes that the three writers append.
unfoldable pub string_bytes : List ℕ → List ℕ
string_bytes str = u32.encode (length str) ++ str

unfoldable pub vector_bytes : {A : Type 0} → Layout A → List A → List ℕ
vector_bytes t vec = u32.encode (length vec) ++ encode_all t vec

pub write_string-buffer :
    (s : Serializer) (str : List ℕ)
    → length str < 2 ^ 32
    → (write_string s str).buffer ≡ s.buffer ++ string_bytes str
unfolding write_string string_bytes
write_string-buffer s str h =
    let no_cut : length str % 2 ^ 32 ≡ length str = omega arith in rw (no_cut, append_assoc)

pub write_vector-buffer :
    {A : Type 0} (t : Layout A) (s : Serializer) (vec : List A)
    → length vec < 2 ^ 32
    → (write_vector t s vec).buffer ≡ s.buffer ++ vector_bytes t vec
unfolding write_vector vector_bytes
write_vector-buffer t s vec h =
    let no_cut : length vec % 2 ^ 32 ≡ length vec = omega arith in rw (no_cut, append_assoc)

pub cut_string-string_bytes :
    (str rest : List ℕ)
    → length str < 2 ^ 32
    → cut_string (string_bytes str ++ rest) ≡ returns (str, rest)
unfolding cut_string string_bytes
cut_string-string_bytes str rest h =
    rw (append_assoc, cut_object-encode u32 (length str) (str ++ rest) h) (cut-append str rest)

pub cut_vector-vector_bytes :
    {A : Type 0} (t : Layout A) (vec : List A) (rest : List ℕ)
    → length vec < 2 ^ 32
    → All t.IsObject vec
    → cut_vector t (vector_bytes t vec ++ rest) ≡ returns (vec, rest)
unfolding cut_vector vector_bytes
cut_vector-vector_bytes t vec rest h objects =
    rw (append_assoc, cut_object-encode u32 (length vec) (encode_all t vec ++ rest) h)
      (rw (← length-encode_all t vec objects, cut-append)
        (rw (decode_all-encode_all t vec objects)))

-- The call returns the value and stops in front of the rest.
abbrev pub Reads : {A : Type 0} → Outcome (A × Deserializer) → A → List ℕ → Type 0
Reads r a rest = (d : Deserializer) × (r ≡ returns (a, d)) × (remaining d ≡ rest) × IsValid d

pub Refines-returns :
    {A : Type 0} (m : Outcome (A × Deserializer)) (a : A) (rest : List ℕ)
    → Refines m (returns (a, rest))
    → Reads m a rest
Refines-returns (returns (b, d)) a rest (e, r, v) = (d, ap (λ x. returns (x, d)) e, r, v)
Refines-returns (throws e) a rest h = elim h [ ]
Refines-returns terminates a rest h = elim h [ ]
Refines-returns undefined a rest h = elim h [ ]

module _ (d : Deserializer) (v : IsValid d) (rest : List ℕ) where
  pub read_object-Reads :
      {A : Type 0} (t : Layout A) (a : A)
      → t.size < 2 ^ 63
      → t.IsObject a
      → remaining d ≡ t.encode a ++ rest
      → Reads (read_object t d) a rest
  read_object-Reads t a small object e = Refines-returns (read_object t d) a rest (
      subst (Refines (read_object t d)) (ap (cut_object t) e ∙ cut_object-encode t a rest object)
        (read_object-Refines t d v small))

  pub read_string-Reads :
      (str : List ℕ)
      → length str < 2 ^ 32
      → remaining d ≡ string_bytes str ++ rest
      → Reads (read_string d) str rest
  read_string-Reads str h e = Refines-returns (read_string d) str rest (
      subst (Refines (read_string d)) (ap cut_string e ∙ cut_string-string_bytes str rest h)
        (read_string-Refines d v))

  pub read_vector-Reads :
      {A : Type 0} (t : Layout A) (vec : List A)
      → t.size < 2 ^ 31
      → length vec < 2 ^ 32
      → All t.IsObject vec
      → remaining d ≡ vector_bytes t vec ++ rest
      → Reads (read_vector t d) vec rest
  read_vector-Reads t vec small h objects e = Refines-returns (read_vector t d) vec rest (
      subst (Refines (read_vector t d))
        (ap (cut_vector t) e ∙ cut_vector-vector_bytes t vec rest h objects)
        (read_vector-Refines t d v small))

module _ (s : Serializer) (rest : List ℕ) (d : Deserializer) (v : IsValid d)
    (at_end : d.offset ≡ length s.buffer) where
  behind : (bytes : List ℕ) → d.buffer ≡ (s.buffer ++ bytes) ++ rest → remaining d ≡ bytes ++ rest
  behind bytes e = rw (at_end, e, append_assoc) (drop-append s.buffer (bytes ++ rest))

  -- A string of less than 4 GiB that was appended to a buffer is read back by a deserializer, in a
  -- valid state, that stands at its start, whatever follows it, and the deserializer then stands
  -- behind it, in a valid state.
  pub read_string-write_string :
      (str : List ℕ)
      → length str < 2 ^ 32
      → d.buffer ≡ (write_string s str).buffer ++ rest
      → Reads (read_string d) str rest
  read_string-write_string str h e =
      read_string-Reads d v rest str h
        (behind (string_bytes str) (e ∙ ap (λ b. b ++ rest) (write_string-buffer s str h)))

  -- A vector of less than 2^32 objects of a type of less than 2^31 bytes that was appended to a buffer
  -- is read back by a deserializer, in a valid state, that stands at its start, whatever follows it,
  -- and the deserializer then stands behind it, in a valid state.
  pub read_vector-write_vector :
      {A : Type 0} (t : Layout A) (vec : List A)
      → t.size < 2 ^ 31
      → length vec < 2 ^ 32
      → All t.IsObject vec
      → d.buffer ≡ (write_vector t s vec).buffer ++ rest
      → Reads (read_vector t d) vec rest
  read_vector-write_vector t vec small h objects e =
      read_vector-Reads d v rest t vec small h objects
        (behind (vector_bytes t vec) (e ∙ ap (λ b. b ++ rest) (write_vector-buffer t s vec h)))
