-- ===== src/FileOps/Entries.antt =====
-- The loops over the entries of a course and of a student, by how often each entry occurs.
use text.Mathlib.TextLemmas.{nil≢cons}
use academia_cr.Prelude.{
  ℕ, zero, suc, ◌+◌, ◌≤◌, ◌<◌, ◌≡◌, refl, ap, ◌⊎◌, inl, inr, String, true, false, none, some, List,
  [], ◌∷◌, arith, str_eq, eq_iff, if◌then◌else◌, has_value, select_first, map, Bool-cases, length,
  take, ltb, pos, count_where,
}
use academia_cr.Text.{is_empty}
use academia_cr.FileOps.{returns}
use academia_cr.FileOps.Accounts.{repeat_empty}
use academia_cr.FileOps.Catalog.{cleared, clear_from}
use academia_cr.FileOps.Enrolment.{
  Slot, enrolled, no_slot, empty_slot, find_slot, next_slot, first_slot, set_slot, is_listed, store,
}
use academia_cr.FileOps.Unenrolment.{move_down, take_out, clear_slot, holds}

-- How often a text stands in a list.
abbrev pub times : String → List String → ℕ
times y xs = count_where (holds y) xs

-- 1 if the two are equal
abbrev pub same : String → String → ℕ
same x y = if str_eq x y then 1 else 0

pub empty_differs : (x y : String) → is_empty x ≡ true → is_empty y ≡ false → str_eq x y ≡ false
empty_differs String.[] String.[] h k = absurd (ground arith)
empty_differs String.[] (String.◌∷◌ c s) h k = elim (Bool-cases (str_eq "" (String.◌∷◌ c s))) [
  | inl e ↦ absurd (nil≢cons ((eq_iff "" (String.◌∷◌ c s)).0 e))
  | inr e ↦ e
]
empty_differs (String.◌∷◌ c s) y h k = absurd (ground arith)

pub slot_cases : (r : Slot) → ((r ≡ enrolled) ⊎ (r ≡ no_slot)) ⊎ ((i : ℕ) × (r ≡ empty_slot i))
slot_cases enrolled = inl (inl refl)
slot_cases no_slot = inl (inr refl)
slot_cases (empty_slot i) = inr (i, refl)

-- A free entry that is taken counts once more for its text, and for no other.
pub times-set_slot :
    (c x : String) (xs : List String) (i : ℕ) (y : String)
    → find_slot c xs ≡ empty_slot i
    → is_empty y ≡ false
    → times y (set_slot i x xs) ≡ times y xs + same x y
unfolding find_slot next_slot first_slot set_slot count_where
times-set_slot c x [] i y h k = absurd (ground arith)
times-set_slot c x (z ∷ zs) zero y h k =
    ground (arith, slot_cases (find_slot c zs), empty_differs z y)
times-set_slot c x (z ∷ zs) (suc i) y h k =
    ground (arith, slot_cases (find_slot c zs), times-set_slot c x zs i y)

times-no_slot : (c : String) (xs : List String) → find_slot c xs ≡ no_slot → times c xs ≡ 0
unfolding find_slot next_slot first_slot count_where
times-no_slot c [] h = refl
times-no_slot c (z ∷ zs) h = ground (arith, slot_cases (find_slot c zs), times-no_slot c zs)

-- A free entry means that the course is not among the entries.
pub times-find_slot :
    (c : String) (xs : List String) (i : ℕ) → find_slot c xs ≡ empty_slot i → times c xs ≡ 0
unfolding find_slot next_slot first_slot count_where
times-find_slot c [] i h = refl
times-find_slot c (z ∷ zs) i h = elim (slot_cases (find_slot c zs)) [
  | inl (inl k) ↦ absurd (ground arith)
  | inl (inr k) ↦ ground (arith, times-no_slot c zs k)
  | inr (j, k) ↦ ground (arith, times-find_slot c zs j k)
]

pub is_listed-times :
    (s : String) (n : ℕ) (xs : List String)
    → n ≤ length xs
    → is_listed s n xs ≡ returns (ltb 0 (times s (take n xs)))
unfolding is_listed count_where
is_listed-times s zero xs h = ground arith
is_listed-times s (suc n) [] h = absurd (omega arith)
is_listed-times s (suc n) (x ∷ xs) h = ground (arith, is_listed-times s n xs)

-- An array with a text stored behind its first n entries.
pub record Stored (n : ℕ) (x : String) (xs : List String) : Type 0 where
  pub after : List String
  pub stored : store (pos n) x xs ≡ returns after
  pub long : length after ≡ length xs
  pub counts : (y : String) → times y (take (suc n) after) ≡ times y (take n xs) + same x y

pub store-Stored : (n : ℕ) (x : String) (xs : List String) → n < length xs → Stored n x xs
unfolding store count_where
store-Stored n x [] h = absurd (omega arith)
store-Stored zero x (z ∷ zs) h = record {
  after = x ∷ zs;
  stored = refl;
  long = refl;
  counts = λ y. ground arith;
}
store-Stored (suc n) x (z ∷ zs) h =
    let rest = store-Stored n x zs (omega arith) in
    record {
      after = z ∷ rest.after;
      stored = ground (arith, rest.stored);
      long = ground (arith, rest.long);
      counts = λ y. ground (arith, rest.counts y);
    }

-- An array with the first of its first n + 1 entries taken out.
pub record Moved (n : ℕ) (x : String) (xs : List String) : Type 0 where
  pub after : List String
  pub moved : move_down n (x ∷ xs) ≡ returns after
  pub long : length after ≡ suc (length xs)
  pub counts : (y : String) → times y (take n after) ≡ times y (take n xs)

move_down-Moved : (n : ℕ) (x : String) (xs : List String) → n ≤ length xs → Moved n x xs
unfolding move_down count_where
move_down-Moved zero x xs h = record {
  after = x ∷ xs;
  moved = refl;
  long = refl;
  counts = λ y. refl;
}
move_down-Moved (suc n) x [] h = absurd (omega arith)
move_down-Moved (suc n) x (z ∷ zs) h =
    let rest = move_down-Moved n z zs (omega arith) in
    record {
      after = z ∷ rest.after;
      moved = ground (arith, rest.moved);
      long = ground (arith, rest.long);
      counts = λ y. ground (arith, rest.counts y);
    }

pub record TakenOut (s : String) (n : ℕ) (xs : List String) : Type 0 where
  pub after : List String
  pub taken : take_out s n xs ≡ returns (some after)
  pub long : length after ≡ length xs
  pub left : ℕ
  pub one_less : n ≡ suc left
  pub counts : (y : String) → times y (take left after) + same s y ≡ times y (take n xs)

pub take_out-cases :
    (s : String) (n : ℕ) (xs : List String)
    → n ≤ length xs
    → ((take_out s n xs ≡ returns none) × (times s (take n xs) ≡ 0)) ⊎ TakenOut s n xs
unfolding take_out count_where
take_out-cases s zero xs h = inl (refl, refl)
take_out-cases s (suc n) [] h = absurd (omega arith)
take_out-cases s (suc n) (x ∷ xs) h = elim (Bool-cases (str_eq x s)) [
  | inl found ↦
      let moved = move_down-Moved n x xs (omega arith) in
      inr (record {
        after = moved.after;
        taken = ground (arith, found, moved.moved);
        long = ground (arith, moved.long);
        left = n;
        one_less = refl;
        counts = λ y. ground (arith, moved.counts y, eq_iff x s);
      })
  | inr other ↦ elim (take_out-cases s n xs (omega arith)) [
    | inl (k, gone) ↦ inl (ground (arith, other, k), ground (arith, other, gone))
    | inr rest ↦ inr (record {
      after = x ∷ rest.after;
      taken = ground (arith, other, rest.taken);
      long = ground (arith, rest.long);
      left = suc rest.left;
      one_less = ap suc rest.one_less;
      counts = λ y. ground (arith, rest.counts y);
    })
  ]
]

pub times-clear_slot :
    (c : String) (xs : List String) (y : String)
    → has_value (select_first (holds c) xs) ≡ true
    → is_empty y ≡ false
    → times y (clear_slot c xs) + same c y ≡ times y xs
unfolding clear_slot select_first count_where
times-clear_slot c [] y h k = absurd (ground arith)
times-clear_slot c (x ∷ xs) y h k =
    ground (
      arith,
      eq_iff x c,
      eq_iff x y,
      eq_iff c y,
      empty_differs "" y refl k,
      times-clear_slot c xs y,
    )

pub times-select_first :
    (c : String) (xs : List String) → has_value (select_first (holds c) xs) ≡ ltb 0 (times c xs)
unfolding select_first count_where
times-select_first c [] = ground arith
times-select_first c (x ∷ xs) = ground (arith, times-select_first c xs)

pub times-cleared :
    (id : String) (xs : List String) (y : String)
    → is_empty y ≡ false
    → times y (map (cleared id) xs) ≡ (if str_eq id y then 0 else times y xs)
unfolding count_where
times-cleared id [] y k = ground arith
times-cleared id (x ∷ xs) y k = ground (
  arith,
  eq_iff x id,
  eq_iff x y,
  eq_iff id y,
  empty_differs "" y refl k,
  times-cleared id xs y k,
)

pub times-repeat_empty : (n : ℕ) (y : String) → is_empty y ≡ false → times y (repeat_empty n) ≡ 0
unfolding repeat_empty count_where
times-repeat_empty zero y k = refl
times-repeat_empty (suc n) y k = ground (arith, empty_differs "" y refl k, times-repeat_empty n y k)

pub length-repeat_empty : (n : ℕ) → length (repeat_empty n) ≡ n
unfolding repeat_empty
length-repeat_empty zero = refl
length-repeat_empty (suc n) = ap suc (length-repeat_empty n)

pub length-clear_from : (n : ℕ) (xs : List String) → length (clear_from n xs) ≡ length xs
unfolding clear_from
length-clear_from n [] = refl
length-clear_from zero (x ∷ xs) = ap suc (length-clear_from zero xs)
length-clear_from (suc n) (x ∷ xs) = ap suc (length-clear_from n xs)
