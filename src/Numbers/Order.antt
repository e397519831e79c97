-- ===== src/Numbers/Order.antt =====
-- The order of the decimals is consistent.
use Prim.Native.Nat.{◌^◌}
use scan_tls.Common.{ℕ, ◌+◌, ◌*◌, ◌≤◌, ◌<◌, compare, IsPreorder, gtb, swap_order, false, arith, ◌≡◌}
use native.Mathlib.Nat.{one-le-pow, mul-le-mul_right}
use scan_tls.Locale.{Anything}
use scan_tls.Numbers.{compare_decimal, pos_part, neg_part}

pow_pos : (k : ℕ) → 0 < 10 ^ k
pow_pos k = one-le-pow k 10 (omega arith)

cancel : (b x y : ℕ) → 0 < b → b * x ≤ b * y → x ≤ y
cancel b x y pos h = grind arith

compare_swap : (a b a' b' : ℕ) → a ≡ a' → b ≡ b' → compare a b ≡ swap_order (compare b' a')
compare_swap a b a' b' e f = ground arith

-- p/a ≤ q/b and q/b ≤ r/c, with the parts below zero on the other side.
cross_trans :
    (p n q m r l a b c : ℕ)
    → 0 < b
    → p * b + m * a ≤ n * b + q * a
    → q * c + l * b ≤ m * c + r * b
    → p * c + l * a ≤ n * c + r * a
cross_trans p n q m r l a b c pos h k =
    let hc = mul-le-mul_right c h in
    let ka = mul-le-mul_right a k in cancel b (p * c + l * a) (n * c + r * a) pos (omega arith)

compare_le : (a b : ℕ) → gtb (compare a b) ≡ false → a ≤ b
compare_le a b h = ground arith

le_compare : (a b : ℕ) → a ≤ b → gtb (compare a b) ≡ false
le_compare a b h = ground arith

pub compare_decimal-IsPreorder : IsPreorder compare_decimal Anything
unfolding compare_decimal
compare_decimal-IsPreorder = record {
  flip = λ x y _ _. compare_swap _ _ _ _ (omega arith) (omega arith);
  trans = λ x y z _ _ _ p q. le_compare _ _ (
      cross_trans (pos_part x) (neg_part x) (pos_part y) (neg_part y) (pos_part z) (neg_part z)
        (10 ^ x.scale) (10 ^ y.scale) (10 ^ z.scale) (pow_pos y.scale) (compare_le _ _ p)
        (compare_le _ _ q));
}
