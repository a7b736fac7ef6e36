-- ===== src/Hook/Bytes.antt =====
-- Reading what was written into code, for src/common/utils/hook.cpp.
use w3m.Prelude.{
  ℕ, zero, suc, ◌+◌, ◌≤◌, ◌<◌, ◌≡◌, refl, ap, ◌∙◌, ◌⊎◌, inl, inr, List, [], ◌∷◌, ◌++◌, arith,
  if◌then◌else◌, ◌==◌, ==_refl, ==_ne, length,
}
use w3m.Hook.{Code, write_bytes, read_bytes}

-- Bytes outside the place stay.
pub write_bytes_outside :
    (bytes : List ℕ) (place a : ℕ) (code : Code)
    → (a < place) ⊎ (place + length bytes ≤ a)
    → write_bytes place bytes code a ≡ code a
unfolding write_bytes
write_bytes_outside [] place a code h = refl
write_bytes_outside (b ∷ bytes) place a code (inl h) =
    write_bytes_outside bytes (suc place) a _ (inl (omega arith))
    ∙ rw (==_ne a place (λ e. absurd (omega arith)))
write_bytes_outside (b ∷ bytes) place a code (inr h) =
    write_bytes_outside bytes (suc place) a _ (inr (omega arith))
    ∙ rw (==_ne a place (λ e. absurd (omega arith)))

pub read_bytes_same :
    (n place : ℕ) (code other : Code)
    → ((a : ℕ) → place ≤ a → a < place + n → code a ≡ other a)
    → read_bytes n place code ≡ read_bytes n place other
unfolding read_bytes
read_bytes_same zero place code other h = refl
read_bytes_same (suc n) place code other h = rw (
  h place (omega arith) (omega arith),
  read_bytes_same n (suc place) code other (λ a low high. h a (omega arith) (omega arith)),
)

-- What was written is read.
pub read_bytes-write_bytes :
    (bytes : List ℕ) (place : ℕ) (code : Code)
    → read_bytes (length bytes) place (write_bytes place bytes code) ≡ bytes
unfolding read_bytes write_bytes
read_bytes-write_bytes [] place code = refl
read_bytes-write_bytes (b ∷ bytes) place code =
    let first : write_bytes place (b ∷ bytes) code place ≡ b =
      write_bytes_outside bytes (suc place) place (λ a. if a == place then b else code a)
        (inl (omega arith))
      ∙ rw (==_refl place) in
    rw (first, read_bytes-write_bytes bytes (suc place) (λ a. if a == place then b else code a))

pub read_bytes_add :
    (m n place : ℕ) (code : Code)
    → read_bytes (m + n) place code ≡ read_bytes m place code ++ read_bytes n (place + m) code
unfolding read_bytes
read_bytes_add zero n place code =
    rw (let e : zero + n ≡ n = omega arith in e, let e : place + zero ≡ place = omega arith in e)
read_bytes_add (suc m) n place code =
    rw
      (
        let e : suc m + n ≡ suc (m + n) = omega arith in e,
        let e : place + suc m ≡ suc place + m = omega arith in e,
      )
      (ap (◌∷◌ (code place)) (read_bytes_add m n (suc place) code))
