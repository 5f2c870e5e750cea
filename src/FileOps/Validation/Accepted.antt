-- ===== src/FileOps/Validation/Accepted.antt =====
-- What the checks of academia/file_ops.c accept.
use Prim.Native.Char.{Char, code}
use Prim.Native.String.{count}
use text.Mathlib.TextLemmas.{length-cons}
use academia_cr.Prelude.{
  ℕ, zero, suc, ◌≤◌, ◌≡◌, refl, ap, ◌⊎◌, inl, inr, String, true, false, ◌==◌, ℤ, pos, ◌≤ℤ◌, ltb_ℤ,
  arith, Bool-cases,
}
use academia_cr.Text.{is_empty}
use academia_cr.FileOps.{strncpy, err_invalid_input}
use academia_cr.FileOps.Validation.{
  every, is_digit, is_name_char, validate_name, validate_password, validate_number,
}

strncpy-long_enough : (s : String) (n : ℕ) → count s ≤ n → strncpy s n ≡ s
unfolding strncpy
strncpy-long_enough String.[] n h = refl
strncpy-long_enough (String.◌∷◌ c s) zero h = absurd (omega (arith, length-cons c s, h))
strncpy-long_enough (String.◌∷◌ c s) (suc n) h =
    ap (λ (t : String). String.◌∷◌ c t)
      (strncpy-long_enough s n (omega (arith, length-cons c s, h)))

-- A text that is not empty and fits in an array of n + 1 bytes with its NUL.
abbrev pub Proper : ℕ → String → Type 0
Proper n s = (is_empty s ≡ false) × (strncpy s n ≡ s)

some_char : (s : String) → (count s == 0) ≡ false → is_empty s ≡ false
some_char String.[] h = absurd (ground (arith, h))
some_char (String.◌∷◌ c s) h = refl

proper : (n : ℕ) (s : String) → (count s == 0) ≡ false → count s ≤ n → Proper n s
proper n s some_text fits = (some_char s some_text, strncpy-long_enough s n fits)

-- A letter or a digit, by its code.
abbrev pub LetterOrDigit : Char → Type 0
LetterOrDigit c =
    ((48 ≤ code c) × (code c ≤ 57))
    ⊎ (((65 ≤ code c) × (code c ≤ 90)) ⊎ ((97 ≤ code c) × (code c ≤ 122)))

-- The same of a name, with its own characters.
pub validate_name-Proper :
    (s : String) → validate_name s ≡ pos 0 → Proper 49 s × (every is_name_char s ≡ true)
unfolding validate_name
validate_name-Proper s h = (proper 49 s (ground (arith, h)) (ground (arith, h)), ground (arith, h))

pub validate_password-Proper : (s : String) → validate_password s ≡ pos 0 → Proper 49 s
unfolding validate_password
validate_password-Proper s h = proper 49 s (ground (arith, h)) (ground (arith, h))

-- validate_number returns the code for an invalid input or a number between its two bounds.
pub validate_number-bounds :
    (atoi : String → ℤ) (input : String) (low high : ℤ)
    → (validate_number atoi input low high ≡ err_invalid_input)
      ⊎ ((low ≤ℤ validate_number atoi input low high)
          × (validate_number atoi input low high ≤ℤ high))
unfolding validate_number
validate_number-bounds atoi input low high = elim (Bool-cases (every is_digit input)) [
  | inl digits ↦ elim (Bool-cases (ltb_ℤ (atoi input) low)) [
    | inl below ↦ inl (ground (arith, digits, below))
    | inr reached ↦ elim (Bool-cases (ltb_ℤ high (atoi input))) [
      | inl above ↦ inl (ground (arith, digits, reached, above))
      | inr within ↦
          inr (ground (arith, digits, reached, within), ground (arith, digits, reached, within))
    ]
  ]
  | inr other ↦ inl (ground (arith, other))
]
