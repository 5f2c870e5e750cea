-- ===== src/FileOps/Views/Buffers.antt =====
-- What the listings put in their buffers, and that it fits.
use Prim.Native.String.{count}
use text.Mathlib.TextLemmas.{length-append}
use academia_cr.Prelude.{
  ℕ, suc, ◌≤◌, ◌≡◌, ap, ◌∙◌, String, str_append, Bool, some, List, [], ◌∷◌, arith, Option-cases,
  Bool-cases, inl, inr,
}
use academia_cr.FileOps.Views.{Buffer, append, append_all, append_none, listing}

-- the text of the lines, one after the other, behind a head
abbrev pub joined : String → List String → String
joined head [] = head
joined head (line ∷ lines) = joined (str_append head line) lines

-- the text of a listing
abbrev pub listed_text : String → List String → String → String
listed_text head [] nothing = str_append head nothing
listed_text head (line ∷ lines) nothing = joined head (line ∷ lines)

-- A text that fits in its buffer with the NUL behind it.
abbrev pub Fits : Buffer → Type 0
Fits b = suc (count b.text) ≤ b.size

module _ (memory : ℕ → Bool) where
  append-Fits :
      (part : String) (b c : Buffer)
      → append memory part b ≡ some c
      → (c.text ≡ str_append b.text part) × Fits c
  unfolding append
  append-Fits part b c h = (ground (arith, h), ground (arith, h, length-append b.text part))

  append_all-Fits :
      (lines : List String) (b c : Buffer)
      → Fits b
      → append_all memory lines b ≡ some c
      → (c.text ≡ joined b.text lines) × Fits c
  unfolding append_all
  append_all-Fits [] b c fit h = (ground (arith, h), ground (arith, h, fit))
  append_all-Fits (line ∷ lines) b c fit h = elim (Option-cases (append memory line b)) [
    | inl k ↦ absurd (ground (arith, h, k))
    | inr (next, k) ↦
        let (text, fits) = append-Fits line b next k in
        let (rest, end_fits) = append_all-Fits lines next c fits (ground (arith, h, k)) in
        (rest ∙ ap (λ (t : String). joined t lines) text, end_fits)
  ]

  -- A listing that returns has the text of its head and its lines, or of the text for none, and with
  -- the NUL behind it that text fits in the memory that the listing has asked for, if the head fits in
  -- 2048 bytes.
  pub listing-Fits :
      (head : String) (lines : List String) (nothing : String) (b : Buffer)
      → suc (count head) ≤ 2048
      → listing memory head lines nothing ≡ some b
      → (b.text ≡ listed_text head lines nothing) × Fits b
  unfolding listing append_none
  listing-Fits head [] nothing b fit h =
      append-Fits nothing (record { text = head; size = 2048 }) b
        (ground (arith, h, Bool-cases (memory 2048)))
  listing-Fits head (line ∷ lines) nothing b fit h =
      elim (Option-cases (append_all memory (line ∷ lines) (record { text = head; size = 2048 }))) [
        | inl k ↦ absurd (ground (arith, h, k, Bool-cases (memory 2048)))
        | inr (c, k) ↦
            append_all-Fits (line ∷ lines) (record { text = head; size = 2048 }) b fit
              (ground (arith, h, k, Bool-cases (memory 2048)))
      ]
