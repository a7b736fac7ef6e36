-- ===== src/Console.antt =====
-- src/server/console.cpp on a POSIX system: messages with the colour codes `^0` to `^;`. What is
-- printed is a list of characters and colour changes; `printf`'s expansion of a message is a
-- parameter, the text that it makes.
pub mod Colors
pub mod Tests
use w3m.Prelude.{
  ℕ, ◌+◌, ◌-◌, ◌<◌, Bool, true, false, not, ◌&&◌, ◌||◌, List, [], ◌∷◌, ◌++◌, leb, ltb, ◌==◌,
  if◌then◌else◌, length, take, codes, min,
}
use w3m.Prelude.Outcome.{Outcome, returns, undefined, ◌>>=◌}

-- `COLOR_LOG_*`, the entries of `color_array`, and what `reset_color` sets.
pub data Color : Type 0 where
  log_info : Color
  log_warn : Color
  log_error : Color
  log_debug : Color
  color_array : ℕ → Color
  default : Color

pub data Output : Type 0 where
  set_color : Color → Output
  putchar : ℕ → Output

-- `data[index + 1] - '0'` is between 0 and 11.
abbrev pub is_code : ℕ → Bool
is_code c = leb b'0' c && leb c (b'0' + 11)

-- Everything above white is white, and white is the base colour.
abbrev pub code_color : Color → ℕ → Color
code_color base_color c =
    if min (c - b'0') 7 == 7 then base_color else color_array (min (c - b'0') 7)

-- `apply_color` on the rest of the line, which starts at the index: the colour that it sets, or none
-- where it returns false.
pub apply_color : List ℕ → Color → List Output
apply_color [] base_color = []
apply_color (c ∷ []) base_color = []
apply_color (c ∷ d ∷ rest) base_color =
    if c == b'^' && is_code d then set_color (code_color base_color d) ∷ [] else []

-- The loop of `print_colored`; a colour code takes two characters.
pub print_loop : List ℕ → Color → List Output
unfolding apply_color
print_loop [] base_color = []
print_loop (c ∷ []) base_color = putchar c ∷ []
print_loop (c ∷ d ∷ rest) base_color =
    let behind_code = print_loop rest base_color in
    let behind_one = print_loop (d ∷ rest) base_color in
    elim (apply_color (c ∷ d ∷ rest) base_color) [
      | [] ↦ putchar c ∷ behind_one
      | x ∷ xs ↦ x ∷ behind_code
    ]

pub print_colored : List ℕ → Color → List Output
unfolding print_loop
print_colored line base_color =
    set_color base_color ∷ (print_loop line base_color ++ (set_color default ∷ []))

-- `vsnprintf` into a buffer of 0x1000 characters returns the length of the whole text; as many
-- characters are copied out of the buffer.
pub format : List ℕ → Outcome (List ℕ)
format text =
    if leb (length text) 0x1000
    then returns (take (length text) (take 0xFFF text ++ (0 ∷ [])))
    else undefined

pub print_message : List ℕ → Color → List ℕ → Outcome (List Output)
unfolding format print_colored
print_message prefix base_color text =
    format text >>= λ message. returns (print_colored (prefix ++ (message ++ (10 ∷ []))) base_color)

pub info : List ℕ → Outcome (List Output)
unfolding print_message
info text = print_message (codes "[+] ") log_info text

pub warn : List ℕ → Outcome (List Output)
unfolding print_message
warn text = print_message (codes "[!] ") log_warn text

pub error : List ℕ → Outcome (List Output)
unfolding print_message
error text = print_message (codes "[-] ") log_error text

pub log : List ℕ → Outcome (List Output)
unfolding print_message
log text = print_message (codes "[*] ") log_debug text
