-- ===== src/ByteBuffer/Tests.antt =====
-- Examples for src/common/utils/byte_buffer.hpp.
use w3m.Prelude.{◌≡◌, ◌++◌, refl, [], ◌∷◌, arith}
use w3m.Prelude.Words.{le_bytes}
use w3m.ByteBuffer.{
  Deserializer, empty_buffer, write_string, write_vector, write_object, write, read_string,
}
use w3m.ByteBuffer.Objects.{u32, encode_all}
use w3m.ByteBuffer.Refinement.{IsValid, remaining, Refines, cut_string, read_string-Refines}
use w3m.ByteBuffer.RoundTrip.{Reads, read_string-write_string}

abbrev text_buffer : Deserializer
text_buffer = record { buffer = 1 ∷ 0 ∷ 0 ∷ 0 ∷ 65 ∷ 9 ∷ []; offset = 0 }

text_buffer-IsValid : IsValid text_buffer
text_buffer-IsValid = record { inside = omega arith; small = omega arith; bytes = omega arith }

abbrev number_buffer : Deserializer
number_buffer = record { buffer = 1 ∷ 0 ∷ 0 ∷ 0 ∷ 7 ∷ 0 ∷ 0 ∷ 0 ∷ []; offset = 0 }

number_buffer-IsValid : IsValid number_buffer
number_buffer-IsValid = record { inside = omega arith; small = omega arith; bytes = omega arith }

read_string-Refines_example : Refines (read_string text_buffer) (cut_string (remaining text_buffer))
read_string-Refines_example = read_string-Refines text_buffer text_buffer-IsValid

text_written : text_buffer.buffer ≡ (write_string empty_buffer (65 ∷ [])).buffer ++ (9 ∷ [])
unfolding write_string write_object write le_bytes empty_buffer
text_written = refl

numbers_written : number_buffer.buffer ≡ (write_vector u32 empty_buffer (7 ∷ [])).buffer ++ []
unfolding write_vector write_object write le_bytes encode_all empty_buffer
numbers_written = refl

read_string-write_string_example : Reads (read_string text_buffer) (65 ∷ []) (9 ∷ [])
unfolding empty_buffer
read_string-write_string_example =
    read_string-write_string empty_buffer (9 ∷ []) text_buffer text_buffer-IsValid refl (65 ∷ [])
      (omega arith) text_written
