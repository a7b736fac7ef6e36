-- ===== src/ByteBuffer.antt =====
-- src/common/utils/byte_buffer.hpp: the serializer that packets are written with, and the
-- deserializer that reads them. `Objects` describes a trivially copyable type by its object
-- representation; `Refinement` relates the reader to plain functions on the bytes that are left;
-- `RoundTrip` reads back what was written.
pub mod Objects
pub mod Refinement
pub mod RoundTrip
pub mod Tests
use w3m.Prelude.{
  ℕ, zero, suc, ◌+◌, ◌-◌, ◌*◌, ◌%◌, ◌^◌, ◌≤◌, ◌<◌, Bool, List, [], ◌∷◌, ◌++◌, ltb, leb, ◌==◌,
  if◌then◌else◌, length, take, drop,
}
use w3m.Prelude.Outcome.{Outcome, returns, throws, undefined, ◌>>=◌, ◌>>◌, out_of_bounds_read}
use w3m.Prelude.Words.{size_mod, le_bytes}
use Objects.{Layout, u32, encode_all, decode_all}

pub record Deserializer : Type 0 where
  pub offset : ℕ
  pub buffer : List ℕ

pub open_buffer : List ℕ → Deserializer
open_buffer bytes = record { offset = 0; buffer = bytes }

-- `memcpy` out of the buffer: undefined where the source range is not inside of it.
copy_out : Deserializer → ℕ → Outcome (List ℕ × Deserializer)
copy_out d length_ =
    if leb (d.offset + length_) (length d.buffer)
    then returns (
      take length_ (drop d.offset d.buffer),
      record d { offset = (d.offset + length_) % size_mod },
    )
    else undefined

-- `this->offset_ + length` is a sum of `size_t` and may wrap.
pub read : Deserializer → ℕ → Outcome (List ℕ × Deserializer)
unfolding copy_out
read d length_ =
    if ltb (length d.buffer) ((d.offset + length_) % size_mod)
    then throws out_of_bounds_read
    else copy_out d length_

pub read_data : Deserializer → ℕ → Outcome (List ℕ × Deserializer)
read_data d length_ = read d length_

-- `read<T>()`
pub read_object : {A : Type 0} → Layout A → Deserializer → Outcome (A × Deserializer)
read_object t d = do (bytes, d') ← read d t.size; returns (t.decode bytes, d')

-- `size * sizeof(T)` is computed in `size_t`.
read_elements : {A : Type 0} → Layout A → ℕ → Deserializer → Outcome (List A × Deserializer)
read_elements t size d =
    let total_size = size * t.size % size_mod in
    if ltb (length d.buffer) ((d.offset + total_size) % size_mod)
    then throws out_of_bounds_read
    else do (bytes, d') ← read d total_size; returns (decode_all t size bytes, d')

pub read_vector : {A : Type 0} → Layout A → Deserializer → Outcome (List A × Deserializer)
unfolding read_elements
read_vector t d = do (size, d') ← read_object u32 d; read_elements t size d'

read_characters : ℕ → Deserializer → Outcome (List ℕ × Deserializer)
read_characters size d =
    if ltb (length d.buffer) ((d.offset + size) % size_mod)
    then throws out_of_bounds_read
    else read d size

pub read_string : Deserializer → Outcome (List ℕ × Deserializer)
unfolding read_characters
read_string d = do (size, d') ← read_object u32 d; read_characters size d'

pub get_remaining_size : Deserializer → ℕ
get_remaining_size d = (length d.buffer + size_mod - d.offset) % size_mod

pub get_remaining_data : Deserializer → Outcome (List ℕ × Deserializer)
unfolding get_remaining_size
get_remaining_data d = read_data d (get_remaining_size d)

pub record Serializer : Type 0 where
  pub buffer : List ℕ

unfoldable pub empty_buffer : Serializer
empty_buffer = record { buffer = [] }

unfoldable pub write : Serializer → List ℕ → Serializer
write s bytes = record s { buffer = s.buffer ++ bytes }

unfoldable pub write_object : {A : Type 0} → Layout A → Serializer → A → Serializer
unfolding write
write_object t s object = write s (t.encode object)

-- `static_cast<uint32_t>(length)` keeps the low 32 bits of the length.
unfoldable pub write_string : Serializer → List ℕ → Serializer
unfolding write_object write
write_string s str = write (write_object u32 s (length str % 2 ^ 32)) str

unfoldable pub write_vector : {A : Type 0} → Layout A → Serializer → List A → Serializer
unfolding write_object write
write_vector t s vec = write (write_object u32 s (length vec % 2 ^ 32)) (encode_all t vec)

-- `write(const buffer_serializer& object)`
pub write_serializer : Serializer → Serializer → Serializer
unfolding write
write_serializer s object = write s object.buffer

pub get_buffer : Serializer → List ℕ
get_buffer s = s.buffer
