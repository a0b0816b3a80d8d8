-- ===== src/Text/Numbers.antt =====
-- Printing a number with %x or %u and reading it back with strtoull, as device IDs travel between
-- dev-ls and the commands that take one.
use native.Mathlib.Nat.{div-add-mod', div-lt_self, mod-lt}
use otdb.Base.{
  ℕ, zero, suc, ◌+◌, ◌*◌, ◌/◌, ◌%◌, ◌^◌, ◌<◌, ◌≤◌, ◌≡◌, ◌∙◌, refl, sym, ap, List, [], ◌∷◌, Bool,
  true, false, ◌&&◌, not, arith, ◌==◌, Bool-cases, inl, inr, ltb,
}
use otdb.Base.Range.{passes, passes_at}
use otdb.Base.Int.{pos}
use native.Mathlib.Numerals.{add-one}
use otdb.Text.{
  is_space, is_x, skip_space, digit_value, digits_value, skip_prefix, split_sign, strtoull,
  digit_char, show_loop, show_hex, show_dec, atoi, strtoull_end, starts_digit, drop_digits,
}

-- A byte that is a digit: no space, no sign, no x.
unfoldable pub plain : ℕ → Bool
plain c =
    not (c == b':') && not (is_space c) && (not (c == b'-') && (not (c == b'+') && not (is_x c)))

digit_test : ℕ → Bool
digit_test d = (digit_value (digit_char d) == d) && plain (digit_char d)

digit_table : passes digit_test 16 ≡ true
unfolding passes digit_test digit_value digit_char plain is_space is_x
digit_table = refl

digit_facts : (d : ℕ) → d < 16 → (digit_value (digit_char d) ≡ d) × (plain (digit_char d) ≡ true)
unfolding digit_test
digit_facts d h = ground (arith, passes_at digit_test 16 d h digit_table)

abbrev pub ArePlain : List ℕ → Type 0
ArePlain [] = Unit
ArePlain (c ∷ s) = (plain c ≡ true) × ArePlain s

skip_space-plain : (s : List ℕ) → ArePlain s → skip_space s ≡ s
unfolding skip_space plain
skip_space-plain [] h = refl
skip_space-plain (c ∷ s) h = ground arith

split_sign-plain : (s : List ℕ) → ArePlain s → split_sign s ≡ (false, s)
unfolding split_sign plain
split_sign-plain [] h = refl
split_sign-plain (c ∷ s) h = ground arith

skip_prefix-plain : (base : ℕ) (s : List ℕ) → ArePlain s → skip_prefix base s ≡ s
unfolding skip_prefix plain
skip_prefix-plain base [] h = refl
skip_prefix-plain base (z ∷ []) h = refl
skip_prefix-plain base (z ∷ x ∷ []) h = refl
skip_prefix-plain base (z ∷ x ∷ d ∷ s) h = ground arith

module _ (base : ℕ) (two : 1 < base) (small : base ≤ 16) where
  digits_value-cons :
      (a d : ℕ) (s : List ℕ)
      → d < base
      → digits_value base a (digit_char d ∷ s) ≡ digits_value base (a * base + d) s
  unfolding digits_value
  digits_value-cons a d s h = ground (arith, digit_facts d (omega arith))

  show_loop_plain : (f n : ℕ) (acc : List ℕ) → ArePlain acc → ArePlain (show_loop base f n acc)
  unfolding show_loop
  show_loop_plain zero n acc h = h
  show_loop_plain (suc f) n acc h =
      let d = (digit_facts (n % base) (omega (arith, mod-lt n {m = base} (omega arith)))).1 in
      elim (Bool-cases (n / base == 0)) [
        | inl last ↦ rw last (d, h)
        | inr more ↦ rw more (show_loop_plain f (n / base) (digit_char (n % base) ∷ acc) (d, h))
      ]

  -- The last digit joins the others.
  digits_value-last :
      (n : ℕ) (acc : List ℕ)
      → digits_value base (n / base) (digit_char (n % base) ∷ acc) ≡ digits_value base n acc
  digits_value-last n acc =
      digits_value-cons (n / base) (n % base) acc (mod-lt n (omega arith))
      ∙ ap (λ k. digits_value base k acc) (div-add-mod' n base)

  digits_value_nil : (n : ℕ) → digits_value base n [] ≡ n
  unfolding digits_value
  digits_value_nil n = refl

  one_digit : (n : ℕ) → (n / base == 0) ≡ true → n / base ≡ 0
  one_digit n e = ground arith

  positive : (n : ℕ) → (n / base == 0) ≡ false → 0 < n
  positive zero e = absurd (ground arith)
  positive (suc n) e = omega arith

  digits_value-show_loop :
      (f n : ℕ) (acc : List ℕ)
      → n < f
      → digits_value base 0 (show_loop base f n acc) ≡ digits_value base n acc
  unfolding show_loop
  digits_value-show_loop zero n acc h = absurd (omega arith)
  digits_value-show_loop (suc f) n acc h = elim (Bool-cases (n / base == 0)) [
    | inl last ↦ rw last (
        ap (λ k. digits_value base k (digit_char (n % base) ∷ acc)) (sym (one_digit n last))
        ∙ digits_value-last n acc)
    | inr more ↦ rw more (
        digits_value-show_loop f (n / base) (digit_char (n % base) ∷ acc)
          (omega (arith, div-lt_self {n = n} {k = base} (positive n more) two))
        ∙ digits_value-last n acc)
  ]

  -- What the digits of a number below 2^64 read back as.
  strtoull-show_loop : (n : ℕ) → n < 2 ^ 64 → strtoull (show_loop base (n + 1) n []) base ≡ n
  unfolding strtoull
  strtoull-show_loop n h =
      let s = show_loop base (n + 1) n [] in
      let p : ArePlain s = show_loop_plain (n + 1) n [] tt in
      ground (
        arith,
        skip_space-plain s p,
        split_sign-plain s p,
        skip_prefix-plain base s p,
        digits_value-show_loop (n + 1) n [] (omega arith),
        digits_value_nil n,
      )

-- A device ID printed with %x is read back by strtoull in base 16, and a number printed with %u in
-- base 10, whatever it is below 2^64.
pub strtoull-show :
    (n : ℕ) → n < 2 ^ 64 → (strtoull (show_hex n) 16 ≡ n) × (strtoull (show_dec n) 10 ≡ n)
strtoull-show n h = (
  unfold show_hex in strtoull-show_loop 16 (omega arith) (omega arith) n h,
  unfold show_dec in strtoull-show_loop 10 (omega arith) (omega arith) n h,
)

abbrev AreDigits : List ℕ → Type 0
AreDigits [] = Unit
AreDigits (c ∷ s) = (ltb (digit_value c) 16 ≡ true) × AreDigits s

show_loop-AreDigits : (f n : ℕ) (acc : List ℕ) → AreDigits acc → AreDigits (show_loop 16 f n acc)
unfolding show_loop
show_loop-AreDigits zero n acc h = h
show_loop-AreDigits (suc f) n acc h =
    let small : n % 16 < 16 = omega arith in
    let d : ltb (digit_value (digit_char (n % 16))) 16 ≡ true =
      ground (arith, small, (digit_facts (n % 16) small).0) in
    elim (Bool-cases (n / 16 == 0)) [
      | inl last ↦ rw last (d, h)
      | inr more ↦ rw more (show_loop-AreDigits f (n / 16) (digit_char (n % 16) ∷ acc) (d, h))
    ]

drop_digits-AreDigits : (s : List ℕ) → AreDigits s → drop_digits 16 s ≡ []
unfolding drop_digits
drop_digits-AreDigits [] h = refl
drop_digits-AreDigits (c ∷ s) h = rw h.0 (drop_digits-AreDigits s h.1)

strtoull_end_digits : (s : List ℕ) → ArePlain s → AreDigits s → strtoull_end s 16 ≡ []
unfolding strtoull_end starts_digit
strtoull_end_digits [] p h =
    rw (skip_space-plain [] tt, split_sign-plain [] tt, skip_prefix-plain 16 [] tt) refl
strtoull_end_digits (c ∷ s) p h =
    rw (skip_space-plain (c ∷ s) p, split_sign-plain (c ∷ s) p, skip_prefix-plain 16 (c ∷ s) p, h.0)
      (drop_digits-AreDigits (c ∷ s) h)

-- strtoull reads all of what %x prints.
pub strtoull_end-show_hex : (n : ℕ) → strtoull_end (show_hex n) 16 ≡ []
unfolding show_hex
strtoull_end-show_hex n =
    strtoull_end_digits (show_loop 16 (n + 1) n [])
      (show_loop_plain 16 (omega arith) (omega arith) (n + 1) n [] tt)
      (show_loop-AreDigits (n + 1) n [] tt)

pub show_dec-ArePlain : (n : ℕ) → ArePlain (show_dec n)
unfolding show_dec
show_dec-ArePlain n = show_loop_plain 10 (omega arith) (omega arith) (n + 1) n [] tt

show_loop_nonempty :
    (base f n c : ℕ) (acc : List ℕ)
    → (d : ℕ) × (s : List ℕ) × (show_loop base f n (c ∷ acc) ≡ d ∷ s)
unfolding show_loop
show_loop_nonempty base zero n c acc = (c, acc, refl)
show_loop_nonempty base (suc f) n c acc = elim (Bool-cases (n / base == 0)) [
  | inl last ↦ (digit_char (n % base), c ∷ acc, rw last)
  | inr more ↦
      let (d, s, e) = show_loop_nonempty base f (n / base) (digit_char (n % base)) (c ∷ acc) in
      (d, s, rw more e)
]

pub show_dec-cons : (n : ℕ) → (d : ℕ) × (s : List ℕ) × (show_dec n ≡ d ∷ s)
unfolding show_dec show_loop
show_dec-cons n = rw add-one (elim (Bool-cases (n / 10 == 0)) [
  | inl last ↦ (digit_char (n % 10), [], rw last)
  | inr more ↦
      let (d, s, e) = show_loop_nonempty 10 n (n / 10) (digit_char (n % 10)) [] in (d, s, rw more e)
])

-- atoi reads back what %d prints of a number.
pub atoi-show_dec : (n : ℕ) → atoi (show_dec n) ≡ pos n
unfolding atoi show_dec
atoi-show_dec n =
    let s = show_loop 10 (n + 1) n [] in
    let p : ArePlain s = show_dec-ArePlain n in
    ground (
      arith,
      skip_space-plain s p,
      split_sign-plain s p,
      digits_value-show_loop 10 (omega arith) (omega arith) (n + 1) n [] (omega arith),
      digits_value_nil 10 (omega arith) (omega arith) n,
    )
