-- ===== src/Hook/Moved.antt =====
-- What the moving of a branch in src/common/utils/hook.cpp keeps, and how it is taken back.
use mathlib.Core.Path.{subst}
use w3m.Prelude.{
  ℕ, zero, suc, ◌+◌, ◌≤◌, ◌<◌, ◌≡◌, refl, sym, ap, ◌∙◌, ◌⊎◌, inl, inr, Bool, true, false, ◌&&◌,
  ◌||◌, [], ◌∷◌, some, arith, ◌==◌, ==_iff, if◌then◌else◌, Bool-cases, length, take, drop,
}
use w3m.Prelude.Words.{size_mod, le_value, length-le_bytes}
use w3m.Prelude.Outcome.{Outcome, returns, throws, no_branch_instruction}
use w3m.Hook.{
  sign_extend, is_relatively_far, Code, System, Process, read_bytes, write_bytes, near_branch,
  patch, jump, extract, follow_branch,
}
use w3m.Hook.Bytes.{write_bytes_outside, read_bytes-write_bytes, read_bytes_same}
use w3m.Hook.Branches.{destination, head_or, written_near}
use w3m.Hook.Detours.{move_hook, nop, Detour, move, un_move}

-- Bytes that are written back bring back the code, where nothing else changed.
write_bytes-read_bytes :
    (n place : ℕ) (code other : Code)
    → ((a : ℕ) → (a < place) ⊎ (place + n ≤ a) → other a ≡ code a)
    → (a : ℕ) → write_bytes place (read_bytes n place code) other a ≡ code a
unfolding write_bytes read_bytes
write_bytes-read_bytes zero place code other same a =
    same a (let e : (a < place) ⊎ (place + 0 ≤ a) = omega arith in e)
write_bytes-read_bytes (suc n) place code other same a =
    write_bytes-read_bytes n (suc place) code (λ b. if b == place then code place else other b) kept
      a
  where
    kept :
        (b : ℕ)
        → (b < suc place) ⊎ (suc place + n ≤ b)
        → (if b == place then code place else other b) ≡ code b
    kept b h = elim (Bool-cases (b == place)) [
      | inl here ↦ rw here (ap code (sym ((==_iff b place).0 here)))
      | inr there ↦ rw there (same b (ground arith))
    ]

length-read_bytes : (n place : ℕ) (code : Code) → length (read_bytes n place code) ≡ n
unfolding read_bytes
length-read_bytes zero place code = refl
length-read_bytes (suc n) place code = ap suc (length-read_bytes n (suc place) code)

copied :
    (n place from : ℕ) (code : Code)
    → read_bytes n place (write_bytes place (read_bytes n from code) code) ≡ read_bytes n from code
copied n place from code =
    subst
      (λ m.
        read_bytes m place (write_bytes place (read_bytes n from code) code)
        ≡ read_bytes n from code)
      (length-read_bytes n from code) (read_bytes-write_bytes (read_bytes n from code) place code)

-- A far branch leads where the bytes of it say, wherever they stand.
destination_same :
    (a b : ℕ) (code other : Code)
    → code a ≡ 0xff
    → read_bytes 14 b other ≡ read_bytes 14 a code
    → destination other b ≡ destination code a
unfolding destination read_bytes le_value
destination_same a b code other far e =
    let first : other b ≡ 0xff = ap head_or e ∙ far in
    let second : other (suc b) ≡ code (suc a) = ap (λ l. head_or (drop 1 l)) e in
    let zeros : le_value (read_bytes 4 (suc (suc b)) other)
        ≡ le_value (read_bytes 4 (suc (suc a)) code) =
      ap (λ l. le_value (take 4 (drop 2 l))) e in
    let target : le_value (read_bytes 8 (b + 6) other) ≡ le_value (read_bytes 8 (a + 6) code) =
      let left : b + 6 ≡ suc (suc (suc (suc (suc (suc b))))) = omega arith in
      let right : a + 6 ≡ suc (suc (suc (suc (suc (suc a))))) = omega arith in
      rw (left, right) (ap (λ l. le_value (drop 6 l)) e) in
    rw (first, far, second, zeros, target)

-- The branch led to an address, the moved one leads to the same, and the bytes that were kept bring all of the code
-- back.
abbrev pub IsMoved : Detour → Process → Outcome (Detour × Process) → Type 0
IsMoved detour p result =
    (moved : Detour) × (p' : Process) × (to : ℕ) × (result ≡ returns (moved, p'))
    × (destination p.code detour.place ≡ some to)
    × (destination p'.code (suc detour.place) ≡ some to)
    × ((a : ℕ) → (un_move moved p').code a ≡ p.code a)

-- A near jump, or one by an address behind it.
abbrev pub hooked : Code → ℕ → Bool
hooked code place = code place == 0xe9 || (code place == 0xff && code (suc place) == 0x25)

length-near_branch : (opcode pointer to : ℕ) → length (near_branch opcode pointer to) ≡ 5
unfolding near_branch
length-near_branch opcode pointer to = ap suc (length-le_bytes 4 _)

un_move-moved_data :
    (n : ℕ) (detour : Detour) (code : Code) (p : Process)
    → un_move (record detour { moved_data = read_bytes (suc n) detour.place code }) p
      ≡ patch detour.place (read_bytes (suc n) detour.place code) p
unfolding un_move read_bytes
un_move-moved_data n detour code p = refl

module _ (system : System) (detour : Detour) (p : Process)
    (low : detour.place + 15 < size_mod) where
  open detour use {place}

  led_far :
      (p.code place ≡ 0xff)
      → p.code (suc place) ≡ 0x25
      → le_value (read_bytes 4 (suc (suc place)) p.code) ≡ 0
      → destination p.code place ≡ some (le_value (read_bytes 8 (place + 6) p.code))
  unfolding destination
  led_far far safe behind = rw (far, safe, behind)

  IsMoved-far :
      p.code place ≡ 0xff
      → p.code (suc place) ≡ 0x25
      → le_value (read_bytes 4 (suc (suc place)) p.code) ≡ 0
      → IsMoved detour p (move system detour p)
  unfolding move move_hook
  IsMoved-far far safe behind = (
    record detour { moved_data = read_bytes 15 place p.code },
    nop place 1 (patch (suc place) (read_bytes 14 place p.code) p),
    le_value (read_bytes 8 (place + 6) p.code),
    rw (far, safe, move) refl,
    led_far far safe behind,
    destination_same place (suc place) p.code after far shifted ∙ led_far far safe behind,
    λ a.
        ap (λ q. q.code a)
          (un_move-moved_data 14 detour p.code
            (nop place 1 (patch (suc place) (read_bytes 14 place p.code) p)))
        ∙ write_bytes-read_bytes 15 place p.code after outside a,
  )
    where
      between : Code
      between = write_bytes (suc place) (read_bytes 14 place p.code) p.code

      after : Code
      after = write_bytes place (0x90 ∷ []) between

      shifted : read_bytes 14 (suc place) after ≡ read_bytes 14 place p.code
      shifted =
          read_bytes_same 14 (suc place) after between
            (λ a least below. write_bytes_outside (0x90 ∷ []) place a between (inr (omega arith)))
          ∙ copied 14 (suc place) place p.code

      outside : (a : ℕ) → (a < place) ⊎ (place + 15 ≤ a) → after a ≡ p.code a
      outside a (inl h) =
          write_bytes_outside (0x90 ∷ []) place a between (inl h)
          ∙ write_bytes_outside (read_bytes 14 place p.code) (suc place) a p.code
              (inl (omega arith))
      outside a (inr h) =
          write_bytes_outside (0x90 ∷ []) place a between (inr (omega arith))
          ∙ write_bytes_outside (read_bytes 14 place p.code) (suc place) a p.code
              (inr (omega (arith, length-read_bytes 14 place p.code)))

  module _ (near : is_relatively_far (suc place) (extract (place + 1) p.code) 5 ≡ false) where
    target : ℕ
    target = extract (place + 1) p.code

    led : p.code place ≡ 0xe9 → destination p.code place ≡ some target
    unfolding destination target extract
    led branch =
        let next : place + 1 ≡ suc place = omega arith in
        let d = sign_extend (le_value (read_bytes 4 (suc place) p.code)) in
        let same : place + 5 + sign_extend (le_value (read_bytes 4 (suc place) p.code))
            ≡ suc place + sign_extend (le_value (read_bytes 4 (suc place) p.code)) + 4 =
          omega arith in
        rw (branch, next, same)

    followed : p.code place ≡ 0xe9 → follow_branch place p.code ≡ returns target
    unfolding follow_branch target
    followed branch = rw branch refl

    jumped :
        jump system 2 (suc place) target false false (nop place 1 p)
        ≡ returns (patch (suc place) (near_branch 0xe9 (suc place) target) (nop place 1 p))
    unfolding jump target
    jumped = rw (near, jump) refl

    small : target < size_mod
    unfolding extract target
    small = omega arith

    arrives :
        destination
          (write_bytes (suc place) (near_branch 0xe9 (suc place) target) (nop place 1 p).code)
          (suc place)
        ≡ some target
    unfolding target
    arrives =
        written_near (suc place) (extract (place + 1) p.code) (omega arith) small 0xe9
          (nop place 1 p).code refl near

    IsMoved-near : p.code place ≡ 0xe9 → IsMoved detour p (move system detour p)
    unfolding move move_hook
    IsMoved-near branch = (
      record detour { moved_data = read_bytes 6 place p.code },
      patch (suc place) (near_branch 0xe9 (suc place) target) (nop place 1 p),
      target,
      rw (branch, followed branch, jumped, move) refl,
      led branch,
      arrives,
      λ a.
          ap (λ q. q.code a)
            (un_move-moved_data 5 detour p.code
              (patch (suc place) (near_branch 0xe9 (suc place) target) (nop place 1 p)))
          ∙ write_bytes-read_bytes 6 place p.code after outside a,
    )
      where
        after : Code
        after = write_bytes (suc place) (near_branch 0xe9 (suc place) target) (nop place 1 p).code

        five : length (near_branch 0xe9 (suc place) target) ≡ 5
        five = length-near_branch 0xe9 (suc place) target

        outside : (a : ℕ) → (a < place) ⊎ (place + 6 ≤ a) → after a ≡ p.code a
        outside a (inl h) =
            write_bytes_outside (near_branch 0xe9 (suc place) target) (suc place) a
              (nop place 1 p).code (inl (omega arith))
            ∙ write_bytes_outside (0x90 ∷ []) place a p.code (inl h)
        outside a (inr h) =
            write_bytes_outside (near_branch 0xe9 (suc place) target) (suc place) a
              (nop place 1 p).code (inr (omega (arith, five)))
            ∙ write_bytes_outside (0x90 ∷ []) place a p.code (inr (omega arith))

  -- Where the fifteen bytes from the place on lie inside of the address space, where a near jump at
  -- the place would, from the byte behind it, not be far from its target, and where a jump by an
  -- address there takes the address right behind it: `move` throws exactly if there is neither a near
  -- jump nor a jump by an address at the place. Else the branch at the place led to an address, there
  -- is one afterwards one byte further on that leads to the same, and `un_move` then brings back every
  -- byte of the code.
  pub move_lem :
      (p.code place ≡ 0xe9 → is_relatively_far (suc place) (extract (place + 1) p.code) 5 ≡ false)
      → (p.code place ≡ 0xff
          → p.code (suc place) ≡ 0x25
          → le_value (read_bytes 4 (suc (suc place)) p.code) ≡ 0)
      → ((hooked p.code place ≡ true) × IsMoved detour p (move system detour p))
        ⊎ ((hooked p.code place ≡ false) × (move system detour p ≡ throws no_branch_instruction))
  unfolding move move_hook
  move_lem near behind = elim (Bool-cases (p.code place == 0xe9)) [
    | inl branch ↦
        inl (rw branch refl, IsMoved-near (near ((==_iff _ _).0 branch)) ((==_iff _ _).0 branch))
    | inr other ↦ elim (Bool-cases (p.code place == 0xff && p.code (suc place) == 0x25)) [
      | inl safe ↦
          let first = (==_iff (p.code place) 0xff).0 (both _ _ safe).0 in
          let second = (==_iff (p.code (suc place)) 0x25).0 (both _ _ safe).1 in
          inl (rw (other, safe) refl, IsMoved-far first second (behind first second))
      | inr neither ↦ inr (rw (other, neither) refl, rw (other, neither, move) refl)
    ]
  ]
    where
      both : (a b : Bool) → (a && b) ≡ true → (a ≡ true) × (b ≡ true)
      both true b h = (refl, h)
      both false b h = cc
