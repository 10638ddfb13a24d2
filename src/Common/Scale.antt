-- ===== src/Common/Scale.antt =====
-- Multiples of integers: the laws of `scale`.
use boxoffice.Common.{ℕ, zero, suc, ◌*◌, ◌≡◌, sym, ap, ◌∙◌, ◌⊎◌, inl, inr, arith}
use boxoffice.Common.Int.{ℤ, pos, negsuc, sub_ℕ, ◌+ℤ◌, ◌-ℤ◌, scale, scale_parts, int_laws}
use native.Mathlib.Nat.{mul_left_comm}

abbrev neg : ℕ → ℤ
neg n = sub_ℕ 0 n

scale-pos : (n m : ℕ) → scale n (pos m) ≡ pos (n * m)
unfolding scale
scale-pos n m = ground arith

scale-neg : (n m : ℕ) → scale n (neg m) ≡ neg (n * m)
unfolding scale
scale-neg n zero = ground arith
scale-neg n (suc m) = ground arith

scale-negsuc : (n m : ℕ) → scale n (negsuc m) ≡ neg (n * suc m)
unfolding scale
scale-negsuc n m = ground arith

-- Multiples of multiples.
pub scale_comm : (n k : ℕ) (a : ℤ) → scale n (scale k a) ≡ scale k (scale n a)
scale_comm n k (pos m) =
    rw (scale-pos k m, scale-pos n m, scale-pos n (k * m), scale-pos k (n * m))
      (ap pos (mul_left_comm n k m))
scale_comm n k (negsuc m) =
    ap (scale n) (scale-negsuc k m)
    ∙ scale-neg n (k * suc m)
    ∙ ap neg (mul_left_comm n k (suc m))
    ∙ sym (scale-neg k (n * suc m))
    ∙ sym (ap (scale k) (scale-negsuc n m))

pub scale_one : (a : ℤ) → scale 1 a ≡ a
unfolding scale
scale_one a = ground arith

-- Ten times a sum, and once a sum.
pub scale-add : (k : ℕ) (a b : ℤ) → (k ≡ 1) ⊎ (k ≡ 10) → scale k (a +ℤ b) ≡ scale k a +ℤ scale k b
scale-add k a b (inl e) = rw e (omega (int_laws, scale_parts))
scale-add k a b (inr e) = rw e (omega (int_laws, scale_parts))

pub scale-sub : (k : ℕ) (a b : ℤ) → (k ≡ 1) ⊎ (k ≡ 10) → scale k (a -ℤ b) ≡ scale k a -ℤ scale k b
scale-sub k a b (inl e) = rw e (omega (int_laws, scale_parts))
scale-sub k a b (inr e) = rw e (omega (int_laws, scale_parts))
