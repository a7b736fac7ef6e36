-- ===== src/Text/Split.antt =====
-- `split` of src/common/utils/string.cpp.
use w3m.Prelude.{
  ℕ, ◌≡◌, ◌≢◌, refl, sym, ap, ◌∙◌, List, [], ◌∷◌, ◌++◌, append-nil, append_assoc, ==_refl, ==_ne,
  All,
}
use w3m.Text.{split_loop, split}

abbrev pub join : List (List ℕ) → ℕ → List ℕ
join [] delim = []
join (item ∷ []) delim = item
join (item ∷ item' ∷ items) delim = item ++ (delim ∷ join (item' ∷ items) delim)

abbrev Without : ℕ → List ℕ → Type 0
Without delim item = All (λ c. c ≢ delim) item

abbrev LastFilled : List (List ℕ) → Type 0
LastFilled [] = Unit
LastFilled (item ∷ []) = item ≢ []
LastFilled (item ∷ item' ∷ items) = LastFilled (item' ∷ items)

split_loop-item :
    (delim : ℕ) (acc item rest : List ℕ)
    → Without delim item
    → split_loop delim acc (item ++ rest) ≡ split_loop delim (acc ++ item) rest
unfolding split_loop
split_loop-item delim acc [] rest h = rw append-nil
split_loop-item delim acc (c ∷ item) rest (hc, h) =
    rw (==_ne c delim hc, split_loop)
      (split_loop-item delim (acc ++ c ∷ []) item rest h
        ∙ ap (λ x. split_loop delim x rest) (append_assoc acc (c ∷ []) item))

split_loop-end : (delim : ℕ) (item : List ℕ) → item ≢ [] → split_loop delim item [] ≡ item ∷ []
unfolding split_loop
split_loop-end delim [] h = absurd (h refl)
split_loop-end delim (c ∷ item) h = refl

split_loop-delim :
    (delim : ℕ) (item s : List ℕ) → split_loop delim item (delim ∷ s) ≡ item ∷ split_loop delim [] s
unfolding split_loop
split_loop-delim delim item s = rw (==_refl delim, split_loop)

-- Items that do not hold the delimiter, the last of them not empty, are split up again after they were
-- joined by it.
pub split-join :
    (delim : ℕ) (items : List (List ℕ))
    → All (Without delim) items
    → LastFilled items
    → split (join items delim) delim ≡ items
unfolding split
split-join delim [] h last = unfold split_loop in refl
split-join delim (item ∷ []) (hi, h) last =
    ap (split_loop delim []) (sym (append-nil item))
    ∙ split_loop-item delim [] item [] hi
    ∙ split_loop-end delim item last
split-join delim (item ∷ item' ∷ items) (hi, h) last =
    split_loop-item delim [] item _ hi
    ∙ split_loop-delim delim item _
    ∙ ap (◌∷◌ item) (split-join delim (item' ∷ items) h last)
