-- ===== src/Cryptography.antt =====
-- The parts of src/common/utils/cryptography.cpp that authentication uses. The library that does the
-- cryptography (libtomcrypt) is a parameter: its key type, import and export, hashes and signatures.
use w3m.Prelude.{ℕ, Bool, List, [], Option, none, some, leb, if◌then◌else◌, length, take}
use w3m.Prelude.Words.{le_value}
use w3m.Text.{dump_hex}

-- `PK_PUBLIC` and `PK_PRIVATE`
pub data KeyType : Type 0 where
  pk_public : KeyType
  pk_private : KeyType

-- A key is a public or a private one. `ecc_import` gives no key, and `ecc_export` no text, where they
-- fail.
pub record Tomcrypt : Type 1 where
  pub Key : Type 0
  pub ecc_import : List ℕ → Option Key
  pub ecc_export : KeyType → Key → Option (List ℕ)
  pub ecc_ansi_x963_export : Key → List ℕ
  pub sha1 : List ℕ → List ℕ
  pub sha512 : List ℕ → List ℕ
  pub ecc_sign_hash : Key → List ℕ → List ℕ
  pub ecc_verify_hash : Key → List ℕ → List ℕ → Bool

module _ (t : Tomcrypt) where
  open t use {
    Key, ecc_import, ecc_export, ecc_ansi_x963_export, sha1, sha512, ecc_sign_hash, ecc_verify_hash,
  }

  -- `ecc::key::deserialize`; no key is a key for which `is_valid` is false.
  unfoldable pub deserialize : List ℕ → Option Key
  deserialize key = ecc_import key

  abbrev pub exported : Option (List ℕ) → List ℕ
  exported none = []
  exported (some buffer) = buffer

  unfoldable pub serialize : KeyType → Key → List ℕ
  serialize type key = exported (ecc_export type key)

  -- The first eight bytes of the hash of the public key.
  unfoldable pub get_hash : Key → ℕ
  get_hash key =
      let digest = sha1 (ecc_ansi_x963_export key) in
      if leb 8 (length digest) then le_value (take 8 digest) else 0

  unfoldable pub sign_message : Key → List ℕ → List ℕ
  sign_message key message = ecc_sign_hash key (sha512 message)

  unfoldable pub verify_message : Key → List ℕ → List ℕ → Bool
  verify_message key message signature = ecc_verify_hash key (sha512 message) signature

-- `random::get_challenge`: eight random bytes in hexadecimal.
unfoldable pub get_challenge : List ℕ → List ℕ
get_challenge random = dump_hex random []
