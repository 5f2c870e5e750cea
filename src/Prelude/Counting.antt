-- ===== src/Prelude/Counting.antt =====
-- How the statements of `Table` change a COUNT(*) and a first row.
use Prim.Native.Nat.{◌+◌, ◌≤◌}
use mathlib.Core.Path.{◌≡◌, refl, ap, fun_ext}
use mathlib.Core.Bool.{Bool, true, false, not, ◌&&◌}
use mathlib.Core.Option.{none, some}
use mathlib.Core.List.{List, [], ◌∷◌, ◌++◌}
use native.Mathlib.Omega.{arith}
use academia_cr.Prelude.Tests.{if◌then◌else◌, has_value}
use academia_cr.Prelude.Table.{select_first, count_where, update_where, delete_where}

module _ {ℓ} {A : Type ℓ} where
  pub count_where-append :
      (p : A → Bool) (xs ys : List A)
      → count_where p (xs ++ ys) ≡ count_where p xs + count_where p ys
  unfolding count_where
  count_where-append p [] ys = omega arith
  count_where-append p (x ∷ xs) ys = omega (arith, count_where-append p xs ys)

  -- Two tests that agree on every row count the same.
  pub count_where_congr :
      (p q : A → Bool) (xs : List A) → ((x : A) → p x ≡ q x) → count_where p xs ≡ count_where q xs
  count_where_congr p q xs h = ap (λ (t : A → Bool). count_where t xs) (fun_ext h)

  pub count_where_none :
      (p : A → Bool) (xs : List A) → ((x : A) → p x ≡ false) → count_where p xs ≡ 0
  unfolding count_where
  count_where_none p [] h = refl
  count_where_none p (x ∷ xs) h = ground (arith, h x, count_where_none p xs h)

  pub count_where_mono :
      (p q : A → Bool) (xs : List A)
      → ((x : A) → p x ≡ true → q x ≡ true)
      → count_where p xs ≤ count_where q xs
  unfolding count_where
  count_where_mono p q [] h = omega arith
  count_where_mono p q (x ∷ xs) h = ground (arith, h x, count_where_mono p q xs h)

  -- A count splits by a second test.
  pub count_where_split :
      (p q : A → Bool) (xs : List A)
      → count_where p xs ≡ count_where (λ x. p x && q x) xs + count_where (λ x. p x && not (q x)) xs
  unfolding count_where
  count_where_split p q [] = omega arith
  count_where_split p q (x ∷ xs) = ground (arith, count_where_split p q xs)

  -- After UPDATE ... SET f WHERE p, the rows that left `q` and those that came in.
  pub count_where-update_where :
      (p q : A → Bool) (f : A → A) (xs : List A)
      → count_where q (update_where p f xs) + count_where (λ x. p x && q x) xs
        ≡ count_where q xs + count_where (λ x. p x && q (f x)) xs
  unfolding count_where update_where
  count_where-update_where p q f [] = omega arith
  count_where-update_where p q f (x ∷ xs) = ground (arith, count_where-update_where p q f xs)

  -- An update that does not change whether a row is in `q`.
  pub count_where-update_where_same :
      (p q : A → Bool) (f : A → A) (xs : List A)
      → ((x : A) → q (f x) ≡ q x)
      → count_where q (update_where p f xs) ≡ count_where q xs
  unfolding count_where update_where
  count_where-update_where_same p q f [] h = refl
  count_where-update_where_same p q f (x ∷ xs) h =
      ground (arith, h x, count_where-update_where_same p q f xs h)

  pub count_where-delete_where :
      (p q : A → Bool) (xs : List A)
      → count_where q (delete_where p xs) + count_where (λ x. q x && p x) xs ≡ count_where q xs
  unfolding count_where delete_where
  count_where-delete_where p q [] = omega arith
  count_where-delete_where p q (x ∷ xs) = ground (arith, count_where-delete_where p q xs)

  -- There is a first row exactly when the count is not 0.
  pub select_first-none :
      (p : A → Bool) (xs : List A) → select_first p xs ≡ none → count_where p xs ≡ 0
  unfolding select_first count_where
  select_first-none p [] h = refl
  select_first-none p (x ∷ xs) h = ground (arith, select_first-none p xs)

  pub select_first-some :
      (p : A → Bool) (xs : List A) (a : A)
      → select_first p xs ≡ some a
      → (p a ≡ true) × (1 ≤ count_where p xs)
  unfolding select_first count_where
  select_first-some p [] a h = ground arith
  select_first-some p (x ∷ xs) a h = ground (arith, select_first-some p xs a)

  pub has_value-select_first :
      (p : A → Bool) (xs : List A) → (has_value (select_first p xs) ≡ false) → count_where p xs ≡ 0
  unfolding select_first count_where
  has_value-select_first p [] h = refl
  has_value-select_first p (x ∷ xs) h = ground (arith, has_value-select_first p xs)

  pub select_first-append :
      (p : A → Bool) (xs ys : List A)
      → select_first p (xs ++ ys)
        ≡ (if has_value (select_first p xs) then select_first p xs else select_first p ys)
  unfolding select_first
  select_first-append p [] ys = refl
  select_first-append p (x ∷ xs) ys = ground (arith, select_first-append p xs ys)

  pub select_first_absent :
      (p : A → Bool) (xs : List A) → count_where p xs ≡ 0 → has_value (select_first p xs) ≡ false
  unfolding select_first count_where
  select_first_absent p [] h = refl
  select_first_absent p (x ∷ xs) h = ground (arith, select_first_absent p xs)

-- A deletion takes rows out and leaves the others.
module _ {ℓ} {A : Type ℓ} (p q : A → Bool) where
  pub count_where-delete_where-le :
      (xs : List A) → count_where q (delete_where p xs) ≤ count_where q xs
  count_where-delete_where-le xs = omega (arith, count_where-delete_where p q xs)

  -- Rows that the deletion does not touch.
  pub count_where-delete_where-other :
      (xs : List A)
      → ((x : A) → q x ≡ true → p x ≡ false)
      → count_where q (delete_where p xs) ≡ count_where q xs
  unfolding count_where delete_where
  count_where-delete_where-other [] h = refl
  count_where-delete_where-other (x ∷ xs) h =
      ground (arith, h x, count_where-delete_where-other xs h)

  pub count_where-delete_where-all :
      (xs : List A) → ((x : A) → q x ≡ true → p x ≡ true) → count_where q (delete_where p xs) ≡ 0
  unfolding count_where delete_where
  count_where-delete_where-all [] h = refl
  count_where-delete_where-all (x ∷ xs) h = ground (arith, h x, count_where-delete_where-all xs h)

  pub select_first-delete_where :
      (xs : List A)
      → ((x : A) → q x ≡ true → p x ≡ false)
      → select_first q (delete_where p xs) ≡ select_first q xs
  unfolding select_first delete_where
  select_first-delete_where [] h = refl
  select_first-delete_where (x ∷ xs) h = ground (arith, h x, select_first-delete_where xs h)

  pub select_first-delete_where-all :
      (xs : List A)
      → ((x : A) → q x ≡ true → p x ≡ true)
      → select_first q (delete_where p xs) ≡ none
  unfolding select_first delete_where
  select_first-delete_where-all [] h = refl
  select_first-delete_where-all (x ∷ xs) h = ground (arith, h x, select_first-delete_where-all xs h)

  -- An update that keeps what `q` reads.
  pub has_value-update_where :
      (f : A → A) (xs : List A)
      → ((x : A) → q (f x) ≡ q x)
      → has_value (select_first q (update_where p f xs)) ≡ has_value (select_first q xs)
  unfolding select_first update_where
  has_value-update_where f [] h = refl
  has_value-update_where f (x ∷ xs) h = ground (arith, h x, has_value-update_where f xs h)

-- A deletion that matches no row.
pub delete_where_absent {ℓ} :
    {A : Type ℓ} (p : A → Bool) (xs : List A)
    → has_value (select_first p xs) ≡ false
    → delete_where p xs ≡ xs
unfolding select_first delete_where
delete_where_absent p [] h = refl
delete_where_absent p (x ∷ xs) h = ground (arith, delete_where_absent p xs)

-- A row that is found counts wherever it fits.
pub count_where-pos {ℓ} :
    {A : Type ℓ} (p q : A → Bool) (xs : List A) (a : A)
    → select_first p xs ≡ some a
    → q a ≡ true
    → 1 ≤ count_where q xs
unfolding select_first count_where
count_where-pos p q [] a h k = absurd (ground arith)
count_where-pos p q (x ∷ xs) a h k = ground (arith, count_where-pos p q xs a)

-- The first row after an update of the rows that the same test finds.
pub select_first-update_where {ℓ} :
    {A : Type ℓ} (p : A → Bool) (f : A → A) (xs : List A) (a : A)
    → ((x : A) → p (f x) ≡ p x)
    → select_first p xs ≡ some a
    → select_first p (update_where p f xs) ≡ some (f a)
unfolding select_first update_where
select_first-update_where p f [] a h k = absurd (ground arith)
select_first-update_where p f (x ∷ xs) a h k =
    ground (arith, h x, select_first-update_where p f xs a h)
