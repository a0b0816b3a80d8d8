-- ===== src/Base/Powers.antt =====
-- Powers of two, and the parts of a number that is put together from bit fields.
use native.Mathlib.Nat.{
  pow-suc, mul_assoc, add-suc, add-zero, one-le-pow, mul-add-mod_self_left, mul-pos,
  div-lt_iff_lt-mul, mul-add-div, mod-mod_of_dvd, dvd-mul_right, div-eq_of_lt, mod-eq_of_lt, mod-lt,
  mul-le-mul_left, div-add-mod, mul-add-mod_self_right,
}
use otdb.Base.{ℕ, zero, suc, ◌+◌, ◌*◌, ◌-◌, ◌/◌, ◌%◌, ◌^◌, ◌<◌, ◌≤◌, ◌≡◌, ◌∙◌, ap, arith}

pub pow_add : (a b : ℕ) → 2 ^ (a + b) ≡ 2 ^ a * 2 ^ b
pow_add a zero = rw add-zero (omega arith)
pow_add a (suc b) = rw (add-suc, pow-suc, pow-suc, pow_add a b) (mul_assoc (2 ^ a) (2 ^ b) 2)

pub pow_pos : (a : ℕ) → 0 < 2 ^ a
pow_pos a = one-le-pow a 2 (omega arith)

-- What a modulus that is a multiple leaves of a number of two parts.
pub low_part : (P a n r : ℕ) → r < P → 0 < n → (P * a + r) % (P * n) ≡ P * (a % n) + r
low_part P a n r h k =
    let split : P * a + r ≡ P * n * (a / n) + (P * (a % n) + r) =
      omega (arith, ap (λ (t : ℕ). P * t) (div-add-mod a n)) in
    let small : P * (a % n) + r < P * n = omega (arith, mul-le-mul_left P (mod-lt a k)) in
    rw split (mul-add-mod_self_left (P * n) (a / n) (P * (a % n) + r) ∙ mod-eq_of_lt small)

pub part_div : (P a r : ℕ) → r < P → (P * a + r) / P ≡ a
part_div P a r h = mul-add-div (omega arith) a r ∙ ap (λ t. a + t) (div-eq_of_lt h) ∙ omega arith

-- A field of `m` bits from bit `p` on, put between what stands above and below it.
module _ (p m : ℕ) where
  abbrev pub joined : ℕ → ℕ → ℕ → ℕ
  joined high field low = high * 2 ^ (p + m) + field * 2 ^ p + low

  joined-split : (q d r : ℕ) → joined q d r ≡ 2 ^ p * (q * 2 ^ m + d) + r
  joined-split q d r = rw (pow_add p m) (omega arith)

  joined-top : (q d r : ℕ) → joined q d r ≡ 2 ^ (p + m) * q + (d * 2 ^ p + r)
  joined-top q d r = omega arith

  field-lt : (d r : ℕ) → d < 2 ^ m → r < 2 ^ p → d * 2 ^ p + r < 2 ^ (p + m)
  field-lt d r h k = rw (pow_add p m) (omega (arith, mul-le-mul_left (2 ^ p) h))

  module _ (k : ℕ) (fits : p + m ≤ k) where
    pow-split : 2 ^ k ≡ 2 ^ (p + m) * 2 ^ (k - (p + m))
    pow-split = ap (λ e. 2 ^ e) (omega arith) ∙ pow_add (p + m) (k - (p + m))

    pow-split_field : 2 ^ k ≡ 2 ^ p * (2 ^ m * 2 ^ (k - (p + m)))
    pow-split_field =
        pow-split
        ∙ (ap (λ t. t * 2 ^ (k - (p + m))) (pow_add p m)
            ∙ mul_assoc (2 ^ p) (2 ^ m) (2 ^ (k - (p + m))))

    -- The field is found in the low `k` bits.
    pub field-joined :
        (q d r : ℕ) → d < 2 ^ m → r < 2 ^ p → joined q d r % 2 ^ k / 2 ^ p % 2 ^ m ≡ d
    field-joined q d r h l =
        let a = q * 2 ^ m + d in
        let n = 2 ^ m * 2 ^ (k - (p + m)) in
        rw
          (
            joined-split q d r,
            pow-split_field,
            low_part (2 ^ p) a n r l (mul-pos (pow_pos m) (pow_pos (k - (p + m)))),
            part_div (2 ^ p) (a % n) r l,
            mod-mod_of_dvd (2 ^ m) a (dvd-mul_right (2 ^ m) (2 ^ (k - (p + m)))),
            mul-add-mod_self_right q (2 ^ m) d,
          )
          (mod-eq_of_lt h)

    -- What stands above the field stays.
    pub high-joined :
        (v d r : ℕ)
        → v < 2 ^ k
        → d < 2 ^ m
        → r < 2 ^ p
        → joined (v / 2 ^ (p + m)) d r % 2 ^ k / 2 ^ (p + m) ≡ v / 2 ^ (p + m)
    high-joined v d r b h l =
        let q = v / 2 ^ (p + m) in
        let n = 2 ^ (k - (p + m)) in
        let s = field-lt d r h l in
        let small : q < n = (div-lt_iff_lt-mul (pow_pos (p + m))).1 (omega (arith, pow-split, b)) in
        rw
          (
            joined-top q d r,
            pow-split,
            low_part (2 ^ (p + m)) q n (d * 2 ^ p + r) s (pow_pos (k - (p + m))),
            part_div (2 ^ (p + m)) (q % n) (d * 2 ^ p + r) s,
          )
          (mod-eq_of_lt small)

    -- So does what stands below it.
    pub low-joined : (q d r : ℕ) → r < 2 ^ p → joined q d r % 2 ^ k % 2 ^ p ≡ r
    low-joined q d r l =
        let a = q * 2 ^ m + d in
        let n = 2 ^ m * 2 ^ (k - (p + m)) in
        rw
          (
            joined-split q d r,
            pow-split_field,
            mod-mod_of_dvd (2 ^ p) (2 ^ p * a + r) (dvd-mul_right (2 ^ p) n),
            mul-add-mod_self_left (2 ^ p) a r,
          )
          (mod-eq_of_lt l)
