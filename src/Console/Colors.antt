-- ===== src/Console/Colors.antt =====
-- What src/server/console.cpp prints of a message.
use w3m.Prelude.{
  ℕ, zero, suc, ◌≤◌, ◌<◌, ◌≡◌, ◌≢◌, ◌⊎◌, refl, ap, ◌∙◌, inl, inr, false, List, [], ◌∷◌, ◌++◌, map,
  arith, ==_ne, leb, le→leb, if◌then◌else◌, Bool-cases, length, All-append, All-take, append-nil,
  length-append, length-take, take, take-append, All, codes,
}
use mathlib.Core.Path.{subst}
use native.Mathlib.Decide.{dec_lt}
use w3m.Prelude.Outcome.{returns, undefined}
use w3m.Console.{
  Color, Output, default, log_debug, set_color, putchar, is_code, code_color, apply_color,
  print_loop, print_colored, format, print_message, log,
}

print_loop-plain_head :
    (c : ℕ) (rest : List ℕ) (base_color : Color)
    → c ≢ b'^'
    → print_loop (c ∷ rest) base_color ≡ putchar c ∷ print_loop rest base_color
unfolding print_loop apply_color
print_loop-plain_head c [] base_color h = refl
print_loop-plain_head c (d ∷ rest) base_color h = rw (==_ne c b'^' h, print_loop)

-- Characters that are no `^` are printed as they are.
print_loop-append :
    (text rest : List ℕ) (base_color : Color)
    → All (λ c. c ≢ b'^') text
    → print_loop (text ++ rest) base_color ≡ map putchar text ++ print_loop rest base_color
print_loop-append [] rest base_color h = refl
print_loop-append (c ∷ text) rest base_color (hc, h) =
    print_loop-plain_head c (text ++ rest) base_color hc
    ∙ ap (◌∷◌ (putchar c)) (print_loop-append text rest base_color h)

print_loop-caret :
    (d : ℕ) (rest : List ℕ) (base_color : Color)
    → print_loop (b'^' ∷ d ∷ rest) base_color ≡ (
        if is_code d
        then set_color (code_color base_color d) ∷ print_loop rest base_color
        else putchar b'^' ∷ print_loop (d ∷ rest) base_color)
unfolding print_loop apply_color
print_loop-caret d rest base_color = elim (Bool-cases (is_code d)) [
  | inl e ↦ rw (e, print_loop)
  | inr e ↦ rw (e, print_loop)
]

-- Text in front of a `^` is printed as it is. A `^` with a character from `0` to `;` behind it prints
-- neither and sets a colour, which for `7` and above is the base colour; with any other character
-- behind it, it is printed itself, and that character is the next to be looked at.
pub print_loop-code :
    (text rest : List ℕ) (d : ℕ) (base_color : Color)
    → All (λ c. c ≢ b'^') text
    → print_loop (text ++ (b'^' ∷ d ∷ rest)) base_color ≡ (
        if is_code d
        then map putchar text ++ (set_color (code_color base_color d) ∷ print_loop rest base_color)
        else map putchar text ++ (putchar b'^' ∷ print_loop (d ∷ rest) base_color))
print_loop-code text rest d base_color h =
    print_loop-append text (b'^' ∷ d ∷ rest) base_color h ∙ elim (Bool-cases (is_code d)) [
      | inl e ↦ rw e (ap (◌++◌ (map putchar text)) (print_loop-caret d rest base_color ∙ rw e))
      | inr e ↦ rw e (ap (◌++◌ (map putchar text)) (print_loop-caret d rest base_color ∙ rw e))
    ]

take-long : (n : ℕ) (xs : List ℕ) → length xs ≤ n → take n xs ≡ xs
take-long zero [] h = refl
take-long zero (x ∷ xs) h = absurd (omega arith)
take-long (suc n) [] h = refl
take-long (suc n) (x ∷ xs) h = ap (◌∷◌ x) (take-long n xs (omega arith))

format-short : (text : List ℕ) → length text < 0x1000 → format text ≡ returns text
unfolding format
format-short text h =
    rw (le→leb (length text) 0x1000 (omega arith), take-long 0xFFF text (omega arith), take-append)

format-full :
    (text : List ℕ) → length text ≡ 0x1000 → format text ≡ returns (take 0xFFF text ++ (0 ∷ []))
unfolding format
format-full text h =
    let l : length (take 0xFFF text ++ (0 ∷ [])) ≤ length text =
      omega (arith, h, length-append (take 0xFFF text) (0 ∷ []), length-take 0xFFF text) in
    rw (
      le→leb (length text) 0x1000 (omega arith),
      take-long (length text) (take 0xFFF text ++ (0 ∷ [])) l,
    )

-- The characters of a line, between its colour and the default one.
abbrev pub plainly : Color → List ℕ → List Output
plainly base_color line = set_color base_color ∷ (map putchar line ++ (set_color default ∷ []))

print_colored-plainly :
    (line : List ℕ) (base_color : Color)
    → All (λ c. c ≢ b'^') line
    → print_colored line base_color ≡ plainly base_color line
unfolding print_colored print_loop
print_colored-plainly line base_color h =
    let whole : line ++ [] ≡ line = append-nil line in
    let printed : print_loop line base_color ≡ map putchar line =
      subst (λ l. print_loop l base_color ≡ map putchar line) whole
        (print_loop-append line [] base_color h ∙ append-nil (map putchar line)) in
    rw printed refl

message-plainly :
    (message : List ℕ)
    → All (λ c. c ≢ b'^') message
    → print_colored (codes "[*] " ++ (message ++ (10 ∷ []))) log_debug
      ≡ plainly log_debug (codes "[*] " ++ (message ++ (10 ∷ [])))
message-plainly message h =
    let no_caret : All (λ c. c ≢ b'^') (message ++ (10 ∷ [])) =
      All-append (λ c. c ≢ b'^') message (10 ∷ []) h (λ e. absurd (omega arith), tt) in
    print_colored-plainly (codes "[*] " ++ (message ++ (10 ∷ []))) log_debug (
      no 91 (omega arith),
      (no 42 (omega arith), (no 93 (omega arith), (no 32 (omega arith), no_caret))),
    )
  where
    no : (c : ℕ) → c < b'^' → c ≢ b'^'
    no c h e = absurd (omega arith)

-- For a message with no `^` in it: `log` prints a message of less than 0x1000 characters as it is,
-- behind its mark and in its colour, in one line, and then sets the default colour. Of one of 0x1000
-- it prints a zero in place of the last character. A longer message is undefined: characters behind
-- the end of the buffer are read.
pub log_lem :
    (text : List ℕ)
    → All (λ c. c ≢ b'^') text
    → ((length text < 0x1000)
        × (log text ≡ returns (plainly log_debug (codes "[*] " ++ (text ++ (10 ∷ []))))))
      ⊎ (((length text ≡ 0x1000)
            × (log text
                ≡ returns (
                    plainly log_debug
                      (codes "[*] " ++ ((take 0xFFF text ++ (0 ∷ [])) ++ (10 ∷ []))))))
          ⊎ ((0x1000 < length text) × (log text ≡ undefined)))
unfolding log print_message
log_lem text plain = elim (dec_lt (length text) 0x1000) [
  | yes short ↦ inl (short, rw (format-short text short) (ap returns (message-plainly text plain)))
  | no other ↦ inr (elim (dec_lt 0x1000 (length text)) [
    | yes long ↦ inr (long, too_long long)
    | no other' ↦
        let full : length text ≡ 0x1000 = omega arith in
        inl (
          full,
          rw (format-full text full) (
              ap returns (
                message-plainly (take 0xFFF text ++ (0 ∷ [])) (
                  All-append (λ c. c ≢ b'^') (take 0xFFF text) (0 ∷ [])
                    (All-take (λ c. c ≢ b'^') 0xFFF text plain) (λ e. absurd (omega arith), tt)))),
        )
  ])
]
  where
    too_long : 0x1000 < length text → log text ≡ undefined
    too_long long = let e : leb (length text) 0x1000 ≡ false = ground arith in rw (e, format)
