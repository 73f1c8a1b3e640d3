-- ===== src/Counter/Arith.antt =====
-- Arithmetic of a word that packs two numbers.
use native.Mathlib.Nat.{
  pow-suc, mul-one, add-zero, mul-add-mod_self_right, mul-add-div_right, mod-eq_of_lt, div-eq_of_lt,
  one-le-pow, mul-le-mul_right, div-add-mod', mod-lt,
}
use procpool.Common.{ℕ, zero, suc, ◌+◌, ◌*◌, ◌/◌, ◌%◌, ◌^◌, ◌<◌, ◌≡◌, ap, ◌∙◌, arith}

pub pow_add : (a b : ℕ) → 2 ^ (a + b) ≡ 2 ^ a * 2 ^ b
pow_add a zero = rw (add-zero, mul-one)
pow_add a (suc b) =
    let e : a + suc b ≡ suc (a + b) = omega arith in
    rw (e, pow-suc 2 (a + b), pow-suc 2 b, pow_add a b) (omega arith)

-- The word that packs `l` below `2 ^ k` with `r` above it.
module _ (a : ℕ) (l r : ℕ) (h : l < a) where
  pub packed-mod : (r * a + l) % a ≡ l
  packed-mod = mul-add-mod_self_right r a l ∙ mod-eq_of_lt h

  pub packed-div : (r * a + l) / a ≡ r
  packed-div = mul-add-div_right (omega arith) r l ∙ rw (div-eq_of_lt h) (add-zero r)

  pub packed-lt : (b : ℕ) → r < b → r * a + l < a * b
  packed-lt b k = omega (arith, mul-le-mul_right a k)

pub pow_pos : (k : ℕ) → 0 < 2 ^ k
pow_pos k = one-le-pow k 2 (omega arith)

-- A carry out of the upper part is lost, and the lower part stays.
pub packed-wrap : (a b q l : ℕ) → l < a → 0 < b → (q * a + l) % (a * b) ≡ q % b * a + l
packed-wrap a b q l h k =
    let e : q * a + l ≡ q / b * (a * b) + (q % b * a + l) =
      omega (arith, ap (λ (t : ℕ). t * a) (div-add-mod' q b)) in
    rw e (
      mul-add-mod_self_right (q / b) (a * b) (q % b * a + l)
      ∙ mod-eq_of_lt (packed-lt a l (q % b) h b (mod-lt q k)))
