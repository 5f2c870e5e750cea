-- ===== src/Prelude/Table.antt =====
-- The SQL statements that the repositories use, over a table as the list of its rows.
use Prim.Native.Nat.{ℕ, ◌+◌}
use mathlib.Core.Bool.{Bool}
use mathlib.Core.Option.{Option, none, some}
use mathlib.Core.List.{List, [], ◌∷◌}
use academia_cr.Prelude.Tests.{if◌then◌else◌}

module _ {ℓ} {A : Type ℓ} where
  -- SELECT ... WHERE p, all rows.
  unfoldable pub select : (A → Bool) → List A → List A
  select p [] = []
  select p (x ∷ xs) = let rest = select p xs in if p x then x ∷ rest else rest

  -- The first row that a SELECT ... WHERE p steps to.
  unfoldable pub select_first : (A → Bool) → List A → Option A
  select_first p [] = none
  select_first p (x ∷ xs) = if p x then some x else select_first p xs

  -- SELECT COUNT(*) ... WHERE p.
  unfoldable pub count_where : (A → Bool) → List A → ℕ
  count_where p [] = 0
  count_where p (x ∷ xs) = (if p x then 1 else 0) + count_where p xs

  -- UPDATE ... SET f WHERE p.
  unfoldable pub update_where : (A → Bool) → (A → A) → List A → List A
  update_where p f [] = []
  update_where p f (x ∷ xs) = (if p x then f x else x) ∷ update_where p f xs

  -- DELETE ... WHERE p.
  unfoldable pub delete_where : (A → Bool) → List A → List A
  delete_where p [] = []
  delete_where p (x ∷ xs) = let rest = delete_where p xs in if p x then rest else x ∷ rest

  -- A row put where the order has it, behind the rows that are not after it.
  unfoldable pub put_in_order : (A → A → Bool) → A → List A → List A
  put_in_order before x [] = x ∷ []
  put_in_order before x (y ∷ ys) =
      let rest = put_in_order before x ys in if before x y then x ∷ y ∷ ys else y ∷ rest

  -- SELECT ... ORDER BY; rows that the order does not tell apart keep their place.
  unfoldable pub order_by : (A → A → Bool) → List A → List A
  unfolding put_in_order
  order_by before [] = []
  order_by before (x ∷ xs) = put_in_order before x (order_by before xs)
