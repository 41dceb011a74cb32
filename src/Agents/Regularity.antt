-- ===== src/Agents/Regularity.antt =====
-- How regular a list of numbers is: the coefficient of variation that phantomGuard.ts and
-- behaviorAnalyzer.ts compute, its standard deviation over its mean, against a bound `1 / k`. The
-- source works in floating point; here the comparison is exact. With n numbers, their sum S and the
-- sum Q of their squares, the square of the coefficient is (n * Q - S * S) / (S * S).
use pm_chat.Base.{
  ℕ, zero, suc, ◌+◌, ◌*◌, ◌<◌, ◌≡◌, Bool, true, List, [], ◌∷◌, arith, ◌||◌, ltb, ◌==◌, length,
  total, All, ltb_iff,
}

abbrev pub sum : List ℕ → ℕ
sum xs = total (λ x. x) xs

abbrev pub squares : List ℕ → ℕ
squares xs = total (λ x. x * x) xs

-- `cv < 1 / k`, where `cv` is 0 if the mean is
unfoldable pub is_regular : (k : ℕ) → List ℕ → Bool
is_regular k xs =
    sum xs == 0 || ltb (k * k * (length xs * squares xs)) ((k * k + 1) * (sum xs * sum xs))

-- the mean is below the bound
abbrev pub mean_below : (bound : ℕ) → List ℕ → Bool
mean_below bound xs = ltb (sum xs) (bound * length xs)

sum_equal : (d : ℕ) (xs : List ℕ) → All (λ x. x ≡ d) xs → sum xs ≡ length xs * d
unfolding total
sum_equal d [] h = omega arith
sum_equal d (x ∷ xs) (e, h) = grind (arith, sum_equal d xs h)

squares_equal : (d : ℕ) (xs : List ℕ) → All (λ x. x ≡ d) xs → squares xs ≡ length xs * (d * d)
unfolding total
squares_equal d [] h = omega arith
squares_equal d (x ∷ xs) (e, h) = rw e (grind (arith, squares_equal d xs h))

mul_pos : (n d : ℕ) → 0 < n → 0 < d → 0 < n * d
mul_pos n d pn pd = grind arith

lt_by_square : (m k : ℕ) → 0 < m → k * (m * m) < (k + 1) * (m * m)
lt_by_square m k pm = grind (arith, mul_pos)

square_regroup : (n d : ℕ) → n * (n * (d * d)) ≡ n * d * (n * d)
square_regroup n d = grind arith

-- Equal numbers are regular by any bound.
pub is_regular_equal :
    (k d : ℕ) (xs : List ℕ) → 0 < length xs → All (λ x. x ≡ d) xs → is_regular k xs ≡ true
unfolding is_regular
is_regular_equal k zero xs some_x h = ground (arith, sum_equal 0 xs h)
is_regular_equal k (suc d) xs some_x h =
    rw (sum_equal (suc d) xs h, squares_equal (suc d) xs h, square_regroup (length xs) (suc d))
      (ground (
        arith,
        lt_by_square (length xs * suc d) (k * k) (mul_pos (length xs) (suc d) some_x (omega arith)),
      ))

pub mean_below_equal :
    (bound d : ℕ) (xs : List ℕ)
    → 0 < length xs
    → All (λ x. x ≡ d) xs
    → d < bound
    → mean_below bound xs ≡ true
mean_below_equal bound d xs some_x h low =
    rw (sum_equal d xs h) ((ltb_iff (length xs * d) (bound * length xs)).1 (grind arith))
