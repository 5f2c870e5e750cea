-- ===== src/RegistrationRepository/Effects.antt =====
-- How the UPDATEs of create and drop_registration change the counts that the services read.
use academia_cr.Prelude.{
  ℕ, ◌+◌, ◌≡◌, ◌&&◌, List, [], ◌∷◌, arith, ◌==◌, if◌then◌else◌, count_where, update_where,
}
use academia_cr.Models.{Registration}
use academia_cr.RegistrationRepository.{is_pair, is_enrolled, is_dropped, reactivate, deactivate}
use academia_cr.CourseRepository.{takes_seat}

module _ (now s c : ℕ) where
  -- Reactivation makes the dropped rows of the pair active, and touches no other pair.
  pub enrolled-reactivate :
      (s' c' : ℕ) (rs : List Registration)
      → count_where (is_enrolled s' c') (update_where (is_dropped s c) (reactivate now) rs)
        ≡ count_where (is_enrolled s' c') rs
          + (if s == s' && c == c' then count_where (is_dropped s c) rs else 0)
  unfolding count_where update_where
  enrolled-reactivate s' c' [] = ground arith
  enrolled-reactivate s' c' (r ∷ rs) = ground (arith, enrolled-reactivate s' c' rs)

  pub seats-reactivate :
      (c' : ℕ) (rs : List Registration)
      → count_where (takes_seat c') (update_where (is_dropped s c) (reactivate now) rs)
        ≡ count_where (takes_seat c') rs + (if c == c' then count_where (is_dropped s c) rs else 0)
  unfolding count_where update_where
  seats-reactivate c' [] = ground arith
  seats-reactivate c' (r ∷ rs) = ground (arith, seats-reactivate c' rs)

module _ (s c : ℕ) where
  pub enrolled-deactivate :
      (s' c' : ℕ) (rs : List Registration)
      → count_where (is_enrolled s' c') (update_where (is_enrolled s c) deactivate rs)
        ≡ (if s == s' && c == c' then 0 else count_where (is_enrolled s' c') rs)
  unfolding count_where update_where
  enrolled-deactivate s' c' [] = ground arith
  enrolled-deactivate s' c' (r ∷ rs) = ground (arith, enrolled-deactivate s' c' rs)

  pub seats-deactivate :
      (c' : ℕ) (rs : List Registration)
      → count_where (takes_seat c') (update_where (is_enrolled s c) deactivate rs)
          + (if c == c' then count_where (is_enrolled s c) rs else 0)
        ≡ count_where (takes_seat c') rs
  unfolding count_where update_where
  seats-deactivate c' [] = ground arith
  seats-deactivate c' (r ∷ rs) = ground (arith, seats-deactivate c' rs)

  -- The rows of a pair are its active and its dropped ones.
  pub pair-split :
      (rs : List Registration)
      → count_where (is_pair s c) rs
        ≡ count_where (is_enrolled s c) rs + count_where (is_dropped s c) rs
  unfolding count_where
  pair-split [] = omega arith
  pair-split (r ∷ rs) = ground (arith, pair-split rs)
