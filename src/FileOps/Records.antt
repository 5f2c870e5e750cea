-- ===== src/FileOps/Records.antt =====
-- Finding records by their text keys in a file of which the first match is changed.
use text.Mathlib.TextLemmas.{nil≢cons}
use academia_cr.Prelude.{
  ℕ, zero, suc, ◌≡◌, refl, String, Bool, true, false, none, some, List, [], ◌∷◌, ◌++◌, arith,
  str_eq, eq_iff, if◌then◌else◌, has_value, select_first, delete_where, map, Option-cases,
  Bool-cases, ◌⊎◌, inl, inr, ap,
}
use academia_cr.FileOps.{update_first, strncpy}

pub str_eq_refl : (s : String) → str_eq s s ≡ true
str_eq_refl s = (eq_iff s s).1 refl

module _ {A : Type 0} (key : A → String) where
  -- the record with a key
  abbrev pub keyed : String → A → Bool
  keyed id x = str_eq (key x) id

  pub first-update_self :
      (id : String) (f : A → A) (xs : List A) (x : A)
      → ((y : A) → keyed id y ≡ true → keyed id (f y) ≡ true)
      → select_first (keyed id) xs ≡ some x
      → select_first (keyed id) (update_first (keyed id) f xs) ≡ some (f x)
  unfolding select_first update_first
  first-update_self id f [] x keeps h = absurd (ground arith)
  first-update_self id f (y ∷ ys) x keeps h =
      ground (arith, keeps y, first-update_self id f ys x keeps)

  pub first-update_other :
      (id other : String) (f : A → A) (xs : List A)
      → str_eq id other ≡ false
      → ((y : A) → keyed id y ≡ true → keyed id (f y) ≡ true)
      → select_first (keyed other) (update_first (keyed id) f xs) ≡ select_first (keyed other) xs
  unfolding select_first update_first
  first-update_other id other f [] differ keeps = refl
  first-update_other id other f (y ∷ ys) differ keeps = ground (
    arith,
    keeps y,
    eq_iff (key y) id,
    eq_iff (key (f y)) id,
    eq_iff (key y) other,
    eq_iff (key (f y)) other,
    eq_iff id other,
    first-update_other id other f ys differ keeps,
  )

  pub first-append :
      (id : String) (xs : List A) (x : A)
      → select_first (keyed id) (xs ++ x ∷ []) ≡ (
          if has_value (select_first (keyed id) xs)
          then select_first (keyed id) xs
          else if keyed id x
          then some x
          else none)
  unfolding select_first
  first-append id [] x = ground arith
  first-append id (y ∷ ys) x = ground (arith, first-append id ys x)

  pub first-delete_self :
      (id : String) (xs : List A) → select_first (keyed id) (delete_where (keyed id) xs) ≡ none
  unfolding select_first delete_where
  first-delete_self id [] = refl
  first-delete_self id (y ∷ ys) = ground (arith, first-delete_self id ys)

  pub first-delete_other :
      (id other : String) (xs : List A)
      → str_eq id other ≡ false
      → select_first (keyed other) (delete_where (keyed id) xs) ≡ select_first (keyed other) xs
  unfolding select_first delete_where
  first-delete_other id other [] differ = refl
  first-delete_other id other (y ∷ ys) differ = ground (
    arith,
    eq_iff (key y) id,
    eq_iff (key y) other,
    eq_iff id other,
    first-delete_other id other ys differ,
  )

  pub first-keyed :
      (id : String) (xs : List A) (x : A) → select_first (keyed id) xs ≡ some x → key x ≡ id
  unfolding select_first
  first-keyed id [] x h = absurd (ground arith)
  first-keyed id (y ∷ ys) x h = ground (arith, eq_iff (key y) id, first-keyed id ys x)

  -- The record that is found after an append is an old one, or the new one.
  pub found-append :
      (id : String) (xs : List A) (x y : A)
      → select_first (keyed id) (xs ++ x ∷ []) ≡ some y
      → (select_first (keyed id) xs ≡ some y) ⊎ ((x ≡ y) × (key x ≡ id))
  found-append id xs x y h = elim (Option-cases (select_first (keyed id) xs)) [
    | inl k ↦ inr (
      ground (arith, first-append id xs x, h, k),
      ground (arith, first-append id xs x, h, k, eq_iff (key x) id),
    )
    | inr (z, k) ↦ inl (ground (arith, first-append id xs x, h, k))
  ]

  pub first-map :
      (id : String) (g : A → A) (xs : List A)
      → ((x : A) → key (g x) ≡ key x)
      → select_first (keyed id) (map g xs)
        ≡ elim (select_first (keyed id) xs) [ none ↦ none | some x ↦ some (g x) ]
  unfolding select_first
  first-map id g [] keeps = refl
  first-map id g (y ∷ ys) keeps =
      ground (arith, keeps y, eq_iff (key y) id, eq_iff (key (g y)) id, first-map id g ys keeps)

-- Texts cut once stay as they are.
pub strncpy_twice : (s : String) (n : ℕ) → strncpy (strncpy s n) n ≡ strncpy s n
unfolding strncpy
strncpy_twice String.[] n = refl
strncpy_twice (String.◌∷◌ c s) zero = refl
strncpy_twice (String.◌∷◌ c s) (suc n) = ap (λ (t : String). String.◌∷◌ c t) (strncpy_twice s n)

unfoldable tail : String → String
tail String.[] = ""
tail (String.◌∷◌ c s) = s

-- A text that fits in an array fits in a larger one.
pub strncpy-suc : (s : String) (n : ℕ) → strncpy s n ≡ s → strncpy s (suc n) ≡ s
unfolding strncpy tail
strncpy-suc String.[] n h = refl
strncpy-suc (String.◌∷◌ c s) zero h = absurd (nil≢cons h)
strncpy-suc (String.◌∷◌ c s) (suc n) h =
    ap (λ (t : String). String.◌∷◌ c t) (strncpy-suc s n (ap tail h))

-- A list taken apart at an element that a search finds.
pub found_apart :
    {A : Type 0} (p : A → Bool) (xs : List A)
    → has_value (select_first p xs) ≡ true
    → (front : List A) × (x : A) × (back : List A) × (xs ≡ front ++ x ∷ back) × (p x ≡ true)
unfolding select_first
found_apart p [] h = absurd (ground (arith, h))
found_apart p (x ∷ xs) h = elim (Bool-cases (p x)) [
  | inl fits ↦ ([], x, xs, refl, fits)
  | inr fails ↦
      let (front, y, back, apart, fits) = found_apart p xs (ground (arith, fails, h)) in
      (x ∷ front, y, back, ap (λ (l : List _). x ∷ l) apart, fits)
]
