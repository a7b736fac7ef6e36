-- ===== src/Text.antt =====
-- src/common/utils/string.cpp and string.hpp, over texts as lists of character codes, and the
-- functions of the C and C++ libraries that it calls (`tolower`, `isspace`, `isdigit`, `find`).
pub mod Case
pub mod Search
pub mod Split
pub mod Trim
pub mod Hex
pub mod Copy
pub mod Decimal
pub mod Tests
use w3m.Prelude.{
  ℕ, zero, suc, ◌+◌, ◌-◌, ◌/◌, ◌%◌, Bool, true, false, not, ◌&&◌, ◌||◌, List, [], ◌∷◌, ◌++◌, map,
  Option, none, some, ltb, leb, ◌==◌, if◌then◌else◌, is_empty, length, drop, take, get_elem?,
}
use mathlib.Core.List.{reverse}

-- The C locale's `tolower` and `toupper` on an `unsigned char`.
unfoldable pub tolower : ℕ → ℕ
tolower c = if leb b'A' c && leb c b'Z' then c + 32 else c

pub toupper : ℕ → ℕ
toupper c = if leb b'a' c && leb c b'z' then c - 32 else c

unfoldable pub to_lower : List ℕ → List ℕ
unfolding tolower
to_lower = map tolower

pub to_upper : List ℕ → List ℕ
unfolding toupper
to_upper = map toupper

-- The wide versions leave what is no `uint8_t` alone.
pub to_lower_wide : List ℕ → List ℕ
unfolding tolower
to_lower_wide = map (λ c. if ltb c 256 then tolower c % 256 else c)

pub to_upper_wide : List ℕ → List ℕ
unfolding toupper
to_upper_wide = map (λ c. if ltb c 256 then toupper c % 256 else c)

-- Does `text` begin with `substring`? The comparison that `find` makes at a position.
pub matches_at : List ℕ → List ℕ → Bool
matches_at [] text = true
matches_at (c ∷ substring) [] = false
matches_at (c ∷ substring) (d ∷ text) = c == d && matches_at substring text

-- `std::string::find`: the first position at which the substring stands; `none` is `npos`.
unfoldable pub find : List ℕ → List ℕ → Option ℕ
unfolding matches_at
find substring [] = if is_empty substring then some 0 else none
find substring (c ∷ text) =
    let later = find substring text in
    if matches_at substring (c ∷ text)
    then some 0
    else elim later [ none ↦ none | some n ↦ some (suc n) ]

pub starts_with : List ℕ → List ℕ → Bool
unfolding find
starts_with text substring = elim (find substring text) [ none ↦ false | some n ↦ n == 0 ]

-- `std::equal` over the reversed texts, where the second is at least as long.
pub ends_with : List ℕ → List ℕ → Bool
unfolding matches_at
ends_with text substring =
    if ltb (length text) (length substring)
    then false
    else matches_at (reverse substring) (reverse text)

pub isdigit : ℕ → Bool
isdigit c = leb b'0' c && leb c b'9'

-- `while (it != text.end() && isdigit(*it)) ++it`: what is left where the loop stops.
pub skip_digits : List ℕ → List ℕ
unfolding isdigit
skip_digits [] = []
skip_digits (c ∷ text) = if isdigit c then skip_digits text else c ∷ text

pub is_numeric : List ℕ → Bool
unfolding skip_digits
is_numeric text = not (is_empty text) && is_empty (skip_digits text)

pub isspace : ℕ → Bool
isspace c = (leb 9 c && leb c 13) || c == 32

pub ltrim : List ℕ → List ℕ
unfolding isspace
ltrim [] = []
ltrim (c ∷ str) = if isspace c then ltrim str else c ∷ str

-- `find_if` from the back, and `erase` of what stands behind it.
pub rtrim : List ℕ → List ℕ
unfolding ltrim
rtrim str = reverse (ltrim (reverse str))

pub trim : List ℕ → List ℕ
unfolding rtrim ltrim
trim str = ltrim (rtrim str)

-- `while (std::getline(ss, item, delim)) elems.push_back(item)`: a call that meets the end of the
-- stream with no character taken fails.
split_loop : ℕ → List ℕ → List ℕ → List (List ℕ)
split_loop delim item [] = if is_empty item then [] else item ∷ []
split_loop delim item (c ∷ s) = elim (c == delim) [
  | true ↦ item ∷ split_loop delim [] s
  | false ↦ split_loop delim (item ++ c ∷ []) s
]

pub split : List ℕ → ℕ → List (List ℕ)
unfolding split_loop
split s delim = split_loop delim [] s

-- `while ((start_pos = str.find(from, start_pos)) != npos)`, on the text from `start_pos` on. Each
-- round but the last takes `from` off it, so its length is enough fuel.
replace_loop : ℕ → List ℕ → List ℕ → List ℕ → List ℕ
replace_loop zero str from to = str
replace_loop (suc fuel) str from to = elim (find from str) [
  | none ↦ str
  | some pos ↦ take pos str ++ (to ++ replace_loop fuel (drop (pos + length from) str) from to)
]

pub replace : List ℕ → List ℕ → List ℕ → List ℕ
unfolding replace_loop
replace str from to = if is_empty from then str else replace_loop (suc (length str)) str from to

-- `printf("%02X", data[i] & 0xFF)`
unfoldable pub hex_digit : ℕ → ℕ
hex_digit n = if ltb n 10 then b'0' + n else b'A' + (n - 10)

unfoldable pub hex_byte : ℕ → List ℕ
unfolding hex_digit
hex_byte c = hex_digit (c % 256 / 16) ∷ hex_digit (c % 16) ∷ []

dump_rest : List ℕ → List ℕ → List ℕ
unfolding hex_byte
dump_rest separator [] = []
dump_rest separator (c ∷ text) = separator ++ (hex_byte c ++ dump_rest separator text)

-- The separator stands in front of each byte but the first.
unfoldable pub dump_hex : List ℕ → List ℕ → List ℕ
unfolding hex_byte dump_rest
dump_hex [] separator = []
dump_hex (c ∷ text) separator = hex_byte c ++ dump_rest separator text

-- `copy(char* dest, size_t max_size, const char* src)`: `dest` is the whole array of `max_size`
-- characters, and `src` the text in front of its terminating zero.
unfoldable pub copy : List ℕ → List ℕ → List ℕ
copy [] src = []
copy (x ∷ []) src = 0 ∷ []
copy (x ∷ y ∷ dest) [] = 0 ∷ y ∷ dest
copy (x ∷ y ∷ dest) (c ∷ src) =
    let rest = copy (y ∷ dest) src in c ∷ (if c == 0 then y ∷ dest else rest)

-- `std::string{buffer, strnlen(buffer, size)}`: the characters in front of the first zero.
unfoldable pub up_to_zero : List ℕ → List ℕ
up_to_zero [] = []
up_to_zero (c ∷ text) = if c == 0 then [] else c ∷ up_to_zero text
