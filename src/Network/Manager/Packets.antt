-- ===== src/Network/Manager/Packets.antt =====
-- The packet format of src/common/network/manager.cpp: four bytes 0xFF, a command, a divider, data.
use w3m.Prelude.{
  ℕ, zero, suc, ◌+◌, ◌≤◌, ◌≡◌, ◌↔◌, refl, sym, ap, ◌∙◌, inl, inr, true, false, ◌||◌, not, List, [],
  ◌∷◌, ◌++◌, Option, none, some, arith, ltb, ltb-false, length, length-append, take, drop,
  take-append, drop-append_one, All, Bool-cases, Option-cases, is_empty, bytes_eq, bytes_eq_refl,
  bytes_eq→eq, take-append-drop,
}
use w3m.Network.Manager.{is_divider, find_divider, magic, cut_command, read_packet, packet_of}

-- The names of commands: not empty, and with neither a blank nor a line break.
abbrev pub NoDivider : List ℕ → Type 0
NoDivider = All (λ c. is_divider c ≡ false)

pub record IsCommand (command : List ℕ) : Type 0 where
  pub filled : is_empty command ≡ false
  pub undivided : NoDivider command

find_divider-append :
    (command payload : List ℕ) (separator : ℕ)
    → NoDivider command
    → is_divider separator ≡ true
    → find_divider (command ++ (separator ∷ payload)) ≡ some (length command)
unfolding find_divider
find_divider-append [] payload separator h e = rw e
find_divider-append (c ∷ command) payload separator (hc, h) e =
    rw hc (rw (find_divider-append command payload separator h e))

-- Where the divider is found: a text is what stands in front of it, the divider, and the rest.
record Divided (text : List ℕ) (n : ℕ) : Type 0 where
  separator : ℕ
  whole : text ≡ take n text ++ (separator ∷ drop (suc n) text)
  divides : is_divider separator ≡ true
  undivided : NoDivider (take n text)

find_divider-Divided : (text : List ℕ) (n : ℕ) → find_divider text ≡ some n → Divided text n
unfolding find_divider
find_divider-Divided [] n e = cc
find_divider-Divided (c ∷ text) n e = elim (Bool-cases (is_divider c)) [
  | inl here ↦ at_head n (ground arith) here
  | inr later ↦ elim (Option-cases (find_divider text)) [
    | inl absent ↦ cc (rw (later, absent) at e)
    | inr (m, found) ↦ behind m n (ground arith) later (find_divider-Divided text m found)
  ]
]
  where
    at_head : (n : ℕ) → n ≡ 0 → is_divider c ≡ true → Divided (c ∷ text) n
    at_head zero h d = record { separator = c; whole = refl; divides = d; undivided = tt }
    at_head (suc n) h d = absurd (omega arith)

    behind : (m n : ℕ) → n ≡ suc m → is_divider c ≡ false → Divided text m → Divided (c ∷ text) n
    behind m n h d r = rw h (record {
      separator = r.separator;
      whole = ap (◌∷◌ c) r.whole;
      divides = r.divides;
      undivided = (d, r.undivided);
    })

cut_command-append :
    (command payload : List ℕ) (separator : ℕ)
    → is_empty command ≡ false
    → cut_command (command ++ (separator ∷ payload)) (length command) ≡ some (command, payload)
unfolding cut_command
cut_command-append command payload separator h = rw (take-append, h, drop-append_one)

cut_command-inverse :
    (buffer : List ℕ) (pos : ℕ) (command payload : List ℕ)
    → cut_command buffer pos ≡ some (command, payload)
    → (take pos buffer ≡ command) × (drop (suc pos) buffer ≡ payload) × (is_empty command ≡ false)
unfolding cut_command
cut_command-inverse buffer pos command payload e = elim (Bool-cases (is_empty (take pos buffer))) [
  | inl empty ↦ cc (rw empty at e)
  | inr filled ↦
      let parts : ◌≡◌ {A = Option (List ℕ × List ℕ)} (some (take pos buffer, drop (pos + 1) buffer))
          (some (command, payload)) =
        rw filled at e in
      let next : pos + 1 ≡ suc pos = omega arith in
      let c : take pos buffer ≡ command = ap (λ o. first o) parts in
      let p : drop (pos + 1) buffer ≡ payload = ap (λ o. second o) parts in
      (c, rw (← next) p, rw (← c) filled)
]
  where
    first : Option (List ℕ × List ℕ) → List ℕ
    first none = []
    first (some (a, b)) = a

    second : Option (List ℕ × List ℕ) → List ℕ
    second none = []
    second (some (a, b)) = b

read_packet-packet_of :
    (command payload : List ℕ) (separator : ℕ)
    → IsCommand command
    → is_divider separator ≡ true
    → read_packet (packet_of command payload separator) ≡ some (command, payload)
unfolding read_packet packet_of
read_packet-packet_of command payload separator h e =
    let long : 5 ≤ length (magic ++ (command ++ (separator ∷ payload))) =
      omega (arith, length-append command (separator ∷ payload)) in
    rw (
      find_divider-append command payload separator h.undivided e,
      ltb-false _ _ long,
      bytes_eq_refl magic,
      cut_command-append command payload separator h.filled,
    )

-- Only such packets are read.
read_packet-inverse :
    (packet command payload : List ℕ)
    → read_packet packet ≡ some (command, payload)
    → (separator : ℕ) × (packet ≡ packet_of command payload separator)
      × (is_divider separator ≡ true)
      × IsCommand command
unfolding read_packet packet_of
read_packet-inverse packet command payload e =
    elim (Bool-cases (ltb (length packet) 5 || not (bytes_eq (take 4 packet) magic))) [
      | inl bad ↦ cc (rw bad at e)
      | inr good ↦ elim (Option-cases (find_divider (drop 4 packet))) [
        | inl absent ↦ cc (rw (good, absent) at e)
        | inr (pos, found) ↦
            let d = find_divider-Divided (drop 4 packet) pos found in
            let cut : cut_command (drop 4 packet) pos ≡ some (command, payload) =
              rw (good, found) at e in
            let (c, p, filled) = cut_command-inverse (drop 4 packet) pos command payload cut in
            let front : take 4 packet ≡ magic = bytes_eq→eq (take 4 packet) magic (ground arith) in
            (
              d.separator,
              sym (take-append-drop 4 packet)
                  ∙ ap (λ x. x ++ drop 4 packet) front
                  ∙ ap (◌++◌ magic) (d.whole ∙ (rw (c, p))),
              d.divides,
              record { filled = filled; undivided = rw c at d.undivided },
            )
      ]
    ]

-- A packet is read as a command and its data exactly if it is what `send` makes of them, with a
-- blank or a line break between them and a command that is not empty and holds neither.
pub read_packet_iff :
    (packet command payload : List ℕ)
    → (read_packet packet ≡ some (command, payload)) ↔ (
        (separator : ℕ) × (packet ≡ packet_of command payload separator)
        × (is_divider separator ≡ true)
        × IsCommand command)
read_packet_iff packet command payload = (
  read_packet-inverse packet command payload,
  λ (separator, e, d, c). rw e (read_packet-packet_of command payload separator c d),
)
