-- ===== src/JsonTools/Types.antt =====
-- The names of types that jst_typesize of main/json_tools.c takes, and what it makes of them.
pub mod Named
pub mod Exact
use mathlib.Core.Path.{subst}
use otdb.Base.{
  sym, ap, ℕ, zero, suc, ◌+◌, ◌-◌, ◌*◌, ◌%◌, ◌^◌, ◌<◌, ◌≤◌, ◌≡◌, ◌↔◌, ◌∙◌, refl, List, [], ◌∷◌,
  ◌++◌, Bool, true, false, ◌&&◌, ◌||◌, not, get_or, length, take, drop, ltb, leb, ◌==◌,
  if◌then◌else◌, arith, ◌⊎◌, inl, inr, Bool-cases, take-append-drop,
}
use otdb.Base.Branch.{if-both}
use otdb.Base.Bytes.{bytes_eq, bytes_eq-eq}
use otdb.Base.Int.{ℤ, pos, negsuc, sub_ℕ}
use otdb.Text.{codes}
use otdb.Args.{low_bits}
use otdb.JsonTools.Names.{
  TypeInfo, spec_of, no_type, bit_count, b_type, c_type, h_type, int_type, named, typesize_of,
  typesize, starts, as_int, parse_arraysize,
}

-- The names of types, each with its index in typeinfo_enum and its size in bits. Behind "char" and
-- "hex" anything may stand, and behind "int" and "uint" the terminator.
pub data IsSpec : List ℕ → TypeInfo → Type 0 where
  bitmask : IsSpec (codes "bitmask") (spec_of 0 0)
  bool : IsSpec (codes "bool") (spec_of 1 1)
  no_bits : IsSpec (codes "bit0_t") (spec_of 0 0)
  bits : (n : ℕ) → 0 < n → n ≤ 8 → IsSpec (codes "bit" ++ (48 + n) ∷ codes "_t") (spec_of n n)
  many_bits : (c : ℕ) → 56 < c → c < 128 → IsSpec (codes "bit" ++ c ∷ codes "_t") (spec_of 8 8)
  text :
      (rest : List ℕ)
      → (get_or rest 0 0 == b'[') ≡ true
      → IsSpec
          (codes "char" ++ rest)
          (record { index = 9; bits = as_int (8 * parse_arraysize rest) })
  char :
      (rest : List ℕ)
      → (get_or rest 0 0 == b'[') ≡ false
      → IsSpec (codes "char" ++ rest) (spec_of 11 8)
  hex_text :
      (rest : List ℕ)
      → (get_or rest 0 0 == b'[') ≡ true
      → IsSpec
          (codes "hex" ++ rest)
          (record { index = 10; bits = as_int (8 * parse_arraysize rest) })
  hex_byte :
      (rest : List ℕ)
      → (get_or rest 0 0 == b'[') ≡ false
      → IsSpec (codes "hex" ++ rest) (spec_of 10 8)
  int8 : IsSpec (codes "int8_t") (spec_of 11 8)
  uint8 : IsSpec (codes "uint8_t") (spec_of 12 8)
  int16 : IsSpec (codes "int16_t") (spec_of 13 16)
  uint16 : IsSpec (codes "uint16_t") (spec_of 14 16)
  short : IsSpec (codes "short") (spec_of 13 16)
  int :
      (rest : List ℕ) → (get_or rest 0 0 == 0) ≡ true → IsSpec (codes "int" ++ rest) (spec_of 15 32)
  uint :
      (rest : List ℕ)
      → (get_or rest 0 0 == 0) ≡ true
      → IsSpec (codes "uint" ++ rest) (spec_of 16 32)
  int32 : IsSpec (codes "int32_t") (spec_of 15 32)
  uint32 : IsSpec (codes "uint32_t") (spec_of 16 32)
  long : IsSpec (codes "long") (spec_of 15 32)
  int64 : IsSpec (codes "int64_t") (spec_of 17 64)
  uint64 : IsSpec (codes "uint64_t") (spec_of 18 64)
  float : IsSpec (codes "float") (spec_of 19 32)
  double : IsSpec (codes "double") (spec_of 20 64)

abbrev pub Known : List ℕ → TypeInfo → Type 0
Known type spec = (21 ≤ spec.index) ⊎ IsSpec type spec

pub starts-append :
    (prefix s : List ℕ) → starts prefix s ≡ true → s ≡ prefix ++ drop (length prefix) s
unfolding starts
starts-append prefix s h =
    sym (take-append-drop (length prefix) s)
    ∙ ap (λ t. t ++ drop (length prefix) s) (bytes_eq-eq (take (length prefix) s) prefix h)

-- A name that begins as another, by what is behind.
pub prefix-Known :
    (c : ℕ) (prefix cursor : List ℕ) (found : TypeInfo)
    → starts prefix cursor ≡ true
    → Known (c ∷ (prefix ++ drop (length prefix) cursor)) found
    → Known (c ∷ cursor) found
prefix-Known c prefix cursor found h =
    subst (λ s. Known (c ∷ s) found) (sym (starts-append prefix cursor h))

pub name-Known :
    (c : ℕ) (cursor name : List ℕ) (found : TypeInfo)
    → bytes_eq cursor name ≡ true
    → IsSpec (c ∷ name) found
    → Known (c ∷ cursor) found
name-Known c cursor name found h f =
    inr (subst (λ s. IsSpec (c ∷ s) found) (sym (bytes_eq-eq cursor name h)) f)

pub bit_count_few : (n : ℕ) → n ≤ 8 → bit_count (48 + n) ≡ pos n
unfolding bit_count
bit_count_few n h = ground arith

pub bit_count_many : (c : ℕ) → 56 < c → c < 128 → bit_count c ≡ pos 8
unfolding bit_count
bit_count_many c h k = ground arith

bit_count_low : (c : ℕ) → c < 48 → bit_count c ≡ negsuc (47 - c)
unfolding bit_count
bit_count_low c h = ground arith

bit_count_high : (c : ℕ) → 128 ≤ c → bit_count c ≡ negsuc (255 - c + 48)
unfolding bit_count
bit_count_high c h = ground arith

pub low_bits_few : (n : ℕ) → n ≤ 8 → low_bits 32 (pos n) ≡ n
unfolding low_bits
low_bits_few n h = omega arith

low_bits_big : (n : ℕ) → n < 1000 → 21 ≤ low_bits 32 (negsuc n)
unfolding low_bits
low_bits_big n h = omega arith

abbrev pub bit_type : ℕ → List ℕ
bit_type c = codes "bit" ++ c ∷ codes "_t"

abbrev pub bit_spec : ℤ → TypeInfo
bit_spec n = record { index = low_bits 32 n; bits = n }

few-IsSpec : (n : ℕ) → n ≤ 8 → IsSpec (bit_type (48 + n)) (spec_of n n)
few-IsSpec zero h = no_bits
few-IsSpec (suc n) h = bits (suc n) (omega arith) h

few-Known : (n : ℕ) → n ≤ 8 → Known (bit_type (48 + n)) (bit_spec (bit_count (48 + n)))
few-Known n h = rw (bit_count_few n h, low_bits_few n h) (inr (few-IsSpec n h))

pub bits-Known : (c : ℕ) → Known (bit_type c) (bit_spec (bit_count c))
bits-Known c = elim (Bool-cases (ltb c 48)) [
  | inl low ↦ inl (rw (bit_count_low c (ground (arith, low))) (low_bits_big (47 - c) (omega arith)))
  | inr not_low ↦ elim (Bool-cases (leb 128 c)) [
    | inl high ↦ inl (
        rw (bit_count_high c (ground (arith, high)))
          (low_bits_big (255 - c + 48) (ground (arith, high))))
    | inr not_high ↦ elim (Bool-cases (ltb 56 c)) [
      | inl many ↦
          let a : 56 < c = ground (arith, many) in
          let b : c < 128 = ground (arith, not_high) in
          rw (bit_count_many c a b, low_bits_few 8 (omega arith)) (inr (many_bits c a b))
      | inr few ↦
          let is : 48 + (c - 48) ≡ c = ground (arith, not_low) in
          subst (λ d. Known (bit_type d) (bit_spec (bit_count d))) is
            (few-Known (c - 48) (ground (arith, few)))
    ]
  ]
]

-- The name of a bit type.
pub bit_name :
    (cursor : List ℕ)
    → (starts (codes "it") cursor && bytes_eq (drop 3 cursor) (codes "_t")) ≡ true
    → cursor ≡ codes "it" ++ get_or cursor 2 0 ∷ codes "_t"
unfolding starts
bit_name [] h = ground arith
bit_name (a ∷ []) h = ground arith
bit_name (a ∷ b ∷ []) h = ground arith
bit_name (a ∷ b ∷ c ∷ rest) h =
    let first : a ≡ b'i' = ground (arith, h) in
    let second : b ≡ b't' = ground (arith, h) in
    let last : bytes_eq rest (codes "_t") ≡ true = ground (arith, h) in
    rw (first, second) (ap (λ t. b'i' ∷ b't' ∷ c ∷ t) (bytes_eq-eq rest (codes "_t") last))
