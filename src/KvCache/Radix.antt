-- ===== src/KvCache/Radix.antt =====
-- The digits of block and token numbers: quotients and remainders as mixed radix.
use permeant_os.Prelude.{ℕ, zero, suc, ◌+◌, ◌*◌, ◌/◌, ◌%◌, ◌<◌, ◌≡◌, refl, arith, ap, sym, ◌∙◌}
use native.Mathlib.Nat.{mul-add-div, div-eq_of_lt, mul_comm, div-lt_iff_lt-mul, div-add-mod'}
use permeant_os.KvCache.{or_one}

pub or_one-pos : (n : ℕ) → 0 < n → or_one n ≡ n
or_one-pos zero h = absurd (omega arith)
or_one-pos (suc n) h = refl

quotient : (n b q : ℕ) → q < n → (b * n + q) / n ≡ b
quotient n b q h =
    let e : (n * b + q) / n ≡ b + q / n = mul-add-div {m = n} (omega arith) b q in
    let z : q / n ≡ 0 = div-eq_of_lt h in rw (mul_comm b n, e, z) (omega arith)

-- Two numbers in one mixed radix are equal in each digit.
pub radix : (n b b' q q' : ℕ) → q < n → q' < n → b * n + q ≡ b' * n + q' → (b ≡ b') × (q ≡ q')
radix n b b' q q' h h' e =
    let same : b ≡ b' = sym (quotient n b q h) ∙ ap (λ x. x / n) e ∙ quotient n b' q' h' in
    (same, let m : b * n ≡ b' * n = ap (λ x. x * n) same in omega arith)

-- One digit more of a mixed radix.
pub radix_lt : (a n b m : ℕ) → a < n → b < m → a * m + b < n * m
radix_lt a n b m ha hb = grind arith

-- The target block and the token in it determine the source block and the token.
pub split-injective :
    (blocks tokens b b' t t' : ℕ)
    → 0 < tokens
    → t < blocks * tokens
    → t' < blocks * tokens
    → b * blocks + t / tokens ≡ b' * blocks + t' / tokens
    → t % tokens ≡ t' % tokens
    → (b ≡ b') × (t ≡ t')
split-injective blocks tokens b b' t t' pos lt lt' e m =
    let (same, quotients) =
      radix blocks b b' (t / tokens) (t' / tokens) ((div-lt_iff_lt-mul pos).1 lt)
        ((div-lt_iff_lt-mul pos).1 lt') e in
    (
      same,
      sym (div-add-mod' t tokens)
          ∙ ap (λ x. x * tokens + t % tokens) quotients
          ∙ ap (λ x. t' / tokens * tokens + x) m
          ∙ div-add-mod' t' tokens,
    )

pub factor_pos : (n m x : ℕ) → x < n * m → 0 < n
factor_pos zero m x h = absurd (grind arith)
factor_pos (suc n) m x h = omega arith
