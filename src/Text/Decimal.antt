-- ===== src/Text/Decimal.antt =====
-- Decimal numbers in texts: the C++ library's `std::to_string` and `atoi`, and `find_last_of`, as
-- src/common/network/address.cpp uses them.
use native.Mathlib.Nat.{pow-suc}
use w3m.Prelude.{
  ℕ, zero, suc, ◌+◌, ◌-◌, ◌*◌, ◌/◌, ◌%◌, ◌^◌, ◌≤◌, ◌<◌, ◌≡◌, ◌≢◌, inl, inr, Bool-cases, refl, ap,
  ◌∙◌, Bool, true, false, List, [], ◌∷◌, ◌++◌, Option, none, some, arith, ltb, ◌==◌, ==_refl, ==_ne,
  if◌then◌else◌, length, All, All-append,
}
use w3m.Text.{isdigit, isspace, ltrim}

-- The digits of a number below `10 ^ (k + 1)`.
unfoldable pub decimal : ℕ → ℕ → List ℕ
decimal zero n = (b'0' + n) ∷ []
decimal (suc k) n =
    let front = decimal k (n / 10) in
    if ltb n 10 then (b'0' + n) ∷ [] else front ++ (b'0' + n % 10) ∷ []

pub digits_value : ℕ → List ℕ → ℕ
digits_value acc [] = acc
digits_value acc (c ∷ text) =
    let rest = digits_value (acc * 10 + (c - b'0')) text in if isdigit c then rest else acc

pub record Number : Type 0 where
  pub negative : Bool
  pub magnitude : ℕ

signed : List ℕ → Number
unfolding digits_value
signed [] = record { negative = false; magnitude = 0 }
signed (c ∷ text) =
    if c == b'-'
    then record { negative = true; magnitude = digits_value 0 text }
    else if c == b'+'
    then record { negative = false; magnitude = digits_value 0 text }
    else record { negative = false; magnitude = digits_value 0 (c ∷ text) }

-- `atoi`: white space, a sign, digits.
pub atoi : List ℕ → Number
unfolding signed
atoi text = signed (ltrim text)

unfoldable pub find_last_of : ℕ → List ℕ → Option ℕ
find_last_of c [] = none
find_last_of c (d ∷ text) = elim (find_last_of c text) [
  | none ↦ if d == c then some 0 else none
  | some n ↦ some (suc n)
]

find_last_of-none : (c : ℕ) (text : List ℕ) → All (λ d. d ≢ c) text → find_last_of c text ≡ none
unfolding find_last_of
find_last_of-none c [] h = refl
find_last_of-none c (d ∷ text) (hd, h) = rw (find_last_of-none c text h, ==_ne d c hd)

pub find_last_of-append :
    (c : ℕ) (front back : List ℕ)
    → All (λ d. d ≢ c) back
    → find_last_of c (front ++ (c ∷ back)) ≡ some (length front)
unfolding find_last_of
find_last_of-append c [] back h = rw (find_last_of-none c back h, ==_refl c)
find_last_of-append c (d ∷ front) back h = rw (find_last_of-append c front back h)

abbrev IsDigits : List ℕ → Type 0
IsDigits = All (λ c. (b'0' ≤ c) × (c ≤ b'9'))

decimal-IsDigits : (k n : ℕ) → n < 10 ^ suc k → IsDigits (decimal k n)
unfolding decimal
decimal-IsDigits zero n h = omega arith
decimal-IsDigits (suc k) n h =
    let small : n / 10 < 10 ^ suc k = omega (arith, pow-suc 10 (suc k)) in
    ground (
      arith,
      All-append (λ c. (b'0' ≤ c) × (c ≤ b'9')) (decimal k (n / 10)) ((b'0' + n % 10) ∷ [])
          (decimal-IsDigits k (n / 10) small) ((omega arith, omega arith), tt),
    )

digits_value-append :
    (acc : ℕ) (text : List ℕ) (d : ℕ)
    → IsDigits text
    → d < 10
    → digits_value acc (text ++ (b'0' + d) ∷ []) ≡ digits_value acc text * 10 + d
unfolding digits_value isdigit
digits_value-append acc [] d h hd = ground arith
digits_value-append acc (c ∷ text) d (hc, h) hd =
    ground (arith, digits_value-append (acc * 10 + (c - b'0')) text d h hd)

digits_value-digit : (n : ℕ) → n < 10 → digits_value 0 ((b'0' + n) ∷ []) ≡ n
unfolding digits_value isdigit
digits_value-digit n h = ground arith

digits_value-decimal : (k n : ℕ) → n < 10 ^ suc k → digits_value 0 (decimal k n) ≡ n
unfolding decimal
digits_value-decimal zero n h = digits_value-digit n (omega arith)
digits_value-decimal (suc k) n h =
    let small : n / 10 < 10 ^ suc k = omega (arith, pow-suc 10 (suc k)) in
    ground (
      arith,
      digits_value-digit n,
      digits_value-append 0 (decimal k (n / 10)) (n % 10) (decimal-IsDigits k (n / 10) small),
      digits_value-decimal k (n / 10) small,
    )

atoi-digits :
    (text : List ℕ)
    → text ≢ []
    → IsDigits text
    → atoi text ≡ record { negative = false; magnitude = digits_value 0 text }
unfolding atoi signed ltrim isspace
atoi-digits [] ne h = absurd (ne refl)
atoi-digits (c ∷ text) ne (hc, h) = ground arith

decimal-ne-nil : (k n : ℕ) → decimal k n ≢ []
unfolding decimal
decimal-ne-nil zero n e = cc
decimal-ne-nil (suc k) n e = elim (Bool-cases (ltb n 10)) [
  | inl small ↦ ground arith
  | inr large ↦ snoc-ne-nil (decimal k (n / 10)) (rw large at e)
]
  where
    snoc-ne-nil : (xs : List ℕ) → xs ++ (b'0' + n % 10) ∷ [] ≢ []
    snoc-ne-nil [] e = cc
    snoc-ne-nil (x ∷ xs) e = cc

-- A number is read back from its digits.
pub atoi-decimal :
    (k n : ℕ) → n < 10 ^ suc k → atoi (decimal k n) ≡ record { negative = false; magnitude = n }
atoi-decimal k n h =
    atoi-digits (decimal k n) (decimal-ne-nil k n) (decimal-IsDigits k n h)
    ∙ ap (λ m. record { negative = false; magnitude = m }) (digits_value-decimal k n h)

-- No digit is a character below `'0'` or above `'9'`.
pub decimal-without : (k n c : ℕ) → n < 10 ^ suc k → b'9' < c → All (λ d. d ≢ c) (decimal k n)
decimal-without k n c h above = weaken (decimal k n) (decimal-IsDigits k n h)
  where
    weaken : (text : List ℕ) → IsDigits text → All (λ d. d ≢ c) text
    weaken [] h = tt
    weaken (d ∷ text) (hd, h) = (omega arith, weaken text h)
