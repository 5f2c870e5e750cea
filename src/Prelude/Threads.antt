-- ===== src/Prelude/Threads.antt =====
-- Finding a thread of a list, and counting the threads when one moves.
use Prim.Native.Nat.{◌+◌, ◌≤◌}
use mathlib.Core.Path.{◌≡◌, ap, refl}
use mathlib.Core.Bool.{Bool, true}
use mathlib.Core.Logic.{inl, inr}
use mathlib.Core.List.{List, [], ◌∷◌, ◌++◌}
use native.Mathlib.Omega.{arith}
use academia_cr.Prelude.Tests.{if◌then◌else◌, Bool-cases}
use academia_cr.Prelude.Table.{count_where}
use academia_cr.Prelude.Counting.{count_where-append}

module _ {ℓ} {A : Type ℓ} (p : A → Bool) (front back : List A) where
  -- The count with one element singled out.
  pub count_where-middle :
      (x : A)
      → count_where p (front ++ x ∷ back)
        ≡ (if p x then 1 else 0) + (count_where p front + count_where p back)
  unfolding count_where
  count_where-middle x = omega (arith, count_where-append p front (x ∷ back))

  -- The counts before and after that element moves from x to y.
  pub count_where-moves :
      (xs : List A) (x y : A)
      → xs ≡ front ++ x ∷ back
      → (count_where p (front ++ y ∷ back) + (if p x then 1 else 0)
          ≡ count_where p xs + (if p y then 1 else 0))
        × ((if p x then 1 else 0) ≤ count_where p xs)
  count_where-moves xs x y h = (
    omega (arith, ap (count_where p) h, count_where-middle x, count_where-middle y),
    omega (arith, ap (count_where p) h, count_where-middle x),
  )

module _ {A : Type 0} (p : A → Bool) where
  -- A list with an element of p, taken apart at one.
  pub record Found (xs : List A) : Type 0 where
    pub front : List A
    pub element : A
    pub back : List A
    pub split : xs ≡ front ++ element ∷ back
    pub holds : p element ≡ true

  pub found : (xs : List A) → 1 ≤ count_where p xs → Found xs
  unfolding count_where
  found [] h = absurd (omega arith)
  found (x ∷ xs) h = elim (Bool-cases (p x)) [
    | inl fits ↦ record { front = []; element = x; back = xs; split = refl; holds = fits }
    | inr fails ↦
        let rest = found xs (ground arith) in
        record {
          front = x ∷ rest.front;
          element = rest.element;
          back = rest.back;
          split = ap (λ (l : List A). x ∷ l) rest.split;
          holds = rest.holds;
        }
  ]
