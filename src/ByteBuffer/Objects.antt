-- ===== src/ByteBuffer/Objects.antt =====
-- Trivially copyable types as the bytes of their objects: what `memcpy` of `sizeof(T)` bytes does
-- in src/common/utils/byte_buffer.hpp. Structs are built from their members in order; the structs
-- of the program have no padding.
use w3m.Prelude.{
  ℕ, zero, suc, ◌+◌, ◌*◌, ◌^◌, ◌<◌, ◌≡◌, refl, ap, ◌∙◌, List, [], ◌∷◌, ◌++◌, arith, length, take,
  drop, length-append, take-append, drop-append, All,
}
use w3m.Prelude.Words.{le_bytes, le_value, length-le_bytes, le_value-le_bytes}

pub record Layout (A : Type 0) : Type 1 where
  pub size : ℕ
  pub encode : A → List ℕ
  pub decode : List ℕ → A
  -- Which values of the model are objects of the type.
  pub IsObject : A → Type 0
  pub length-encode : (a : A) → IsObject a → length (encode a) ≡ size
  pub decode-encode : (a : A) → IsObject a → decode (encode a) ≡ a

abbrev pub u32 : Layout ℕ
u32 = record {
  size = 4;
  encode = le_bytes 4;
  decode = le_value;
  IsObject = λ v. v < 256 ^ 4;
  length-encode = λ v h. length-le_bytes 4 v;
  decode-encode = λ v h. le_value-le_bytes 4 v h;
}

abbrev pub u64 : Layout ℕ
u64 = record {
  size = 8;
  encode = le_bytes 8;
  decode = le_value;
  IsObject = λ v. v < 256 ^ 8;
  length-encode = λ v h. length-le_bytes 8 v;
  decode-encode = λ v h. le_value-le_bytes 8 v h;
}

-- `std::array<char, n>`
abbrev pub chars : ℕ → Layout (List ℕ)
chars n = record {
  size = n;
  encode = λ bytes. bytes;
  decode = λ bytes. bytes;
  IsObject = λ bytes. length bytes ≡ n;
  length-encode = λ bytes h. h;
  decode-encode = λ bytes h. refl;
}

module _ {A : Type 0} (t : Layout A) where
  unfoldable pub encode_all : List A → List ℕ
  encode_all [] = []
  encode_all (a ∷ vs) = t.encode a ++ encode_all vs

  pub decode_all : ℕ → List ℕ → List A
  decode_all zero bytes = []
  decode_all (suc n) bytes = t.decode (take t.size bytes) ∷ decode_all n (drop t.size bytes)

  pub length-encode_all :
      (vs : List A) → All t.IsObject vs → length (encode_all vs) ≡ length vs * t.size
  unfolding encode_all
  length-encode_all [] h = omega arith
  length-encode_all (a ∷ vs) (ha, h) = omega (
    arith,
    length-append (t.encode a) (encode_all vs),
    t.length-encode a ha,
    length-encode_all vs h,
  )

  pub decode_all-encode_all :
      (vs : List A) → All t.IsObject vs → decode_all (length vs) (encode_all vs) ≡ vs
  unfolding encode_all decode_all
  decode_all-encode_all [] h = refl
  decode_all-encode_all (a ∷ vs) (ha, h) =
      rw (← t.length-encode a ha, take-append, drop-append, t.decode-encode a ha)
        (ap (◌∷◌ a) (decode_all-encode_all vs h))

-- `std::array<T, n>`
abbrev pub array : {A : Type 0} → Layout A → ℕ → Layout (List A)
array t n = record {
  size = n * t.size;
  encode = encode_all t;
  decode = decode_all t n;
  IsObject = λ vs. (length vs ≡ n) × All t.IsObject vs;
  length-encode = λ vs h. length-encode_all t vs h.1 ∙ ap (λ (k : ℕ). k * t.size) h.0;
  decode-encode = λ vs h. rw (← h.0) (decode_all-encode_all t vs h.1);
}

module _ {A B : Type 0} (s : Layout A) (t : Layout B) where
  pub length-encode_pair :
      (a : A) (b : B)
      → s.IsObject a
      → t.IsObject b
      → length (s.encode a ++ t.encode b) ≡ s.size + t.size
  length-encode_pair a b ha hb =
      omega
        (arith, length-append (s.encode a) (t.encode b), s.length-encode a ha, t.length-encode b hb)

  pub decode-encode_pair :
      (a : A) (b : B)
      → s.IsObject a
      → t.IsObject b
      → ◌≡◌ {A = A × B}
          (
            s.decode (take s.size (s.encode a ++ t.encode b)),
            t.decode (drop s.size (s.encode a ++ t.encode b)),
          )
          (a, b)
  decode-encode_pair a b ha hb =
      rw (
        ← s.length-encode a ha,
        take-append,
        drop-append,
        s.decode-encode a ha,
        t.decode-encode b hb,
      )

-- Two members, one behind the other.
abbrev pub pair : {A B : Type 0} → Layout A → Layout B → Layout (A × B)
pair s t = record {
  size = s.size + t.size;
  encode = λ p. s.encode p.0 ++ t.encode p.1;
  decode = λ bytes. (s.decode (take s.size bytes), t.decode (drop s.size bytes));
  IsObject = λ p. s.IsObject p.0 × t.IsObject p.1;
  length-encode = λ p h. length-encode_pair s t p.0 p.1 h.0 h.1;
  decode-encode = λ p h. decode-encode_pair s t p.0 p.1 h.0 h.1;
}

-- A struct, by the tuple of its members.
abbrev pub struct :
    {A B : Type 0} (to : A → B) (from : B → A) → ((a : A) → from (to a) ≡ a) → Layout B → Layout A
struct to from back t = record {
  size = t.size;
  encode = λ a. t.encode (to a);
  decode = λ bytes. from (t.decode bytes);
  IsObject = λ a. t.IsObject (to a);
  length-encode = λ a h. t.length-encode (to a) h;
  decode-encode = λ a h. ap from (t.decode-encode (to a) h) ∙ back a;
}
