-- ===== src/JsonTools/Elements/BitFields.antt =====
-- The bit types of jst_load_element and jst_store_element in main/json_tools.c.
use mathlib.Core.Path.{subst}
use Prim.Native.Nat.{◌∣◌}
use native.Mathlib.Nat.{mod-mod_of_dvd, mod-lt, dvd-mul_right}
use otdb.Base.{
  ℕ, ◌+◌, ◌-◌, ◌*◌, ◌/◌, ◌%◌, ◌^◌, ◌<◌, ◌≤◌, ◌≡◌, ◌∙◌, refl, sym, ap, List, [], ◌∷◌, ◌++◌, true,
  Option, none, some, length, drop, ◌==◌, arith, inl, inr, Bool-cases,
}
use otdb.Base.Int.{ℤ, pos, ◌≤ℤ◌}
use otdb.Base.Powers.{joined, field-joined, high-joined, low-joined, pow_pos, pow_add}
use otdb.Base.Range.{AreBytes}
use otdb.Args.{low_bits}
use otdb.DevLink.{bytes_le}
use otdb.Cjson.{Cjson, Floats}
use otdb.JsonTools.Names.{typesize, spec_of, type_max}
use otdb.JsonTools.Elements.{
  put, value_le, returns, set_bits, string_text, bit_data, load_bits, load_typed, load_checked,
  load_element, number, get_bits, store_typed, store_element,
}

pow-dvd : (k : ℕ) → k ≤ 32 → 2 ^ k ∣ 2 ^ 32
pow-dvd k h =
    let e : 2 ^ 32 ≡ 2 ^ k * 2 ^ (32 - k) =
      ap (λ (n : ℕ). 2 ^ n) {x = 32} (omega arith) ∙ pow_add k (32 - k) in
    subst (λ (t : ℕ). 2 ^ k ∣ t) (sym e) (dvd-mul_right (2 ^ k) (2 ^ (32 - k)))

module _ (scr p m dat : ℕ) (fits : p + m ≤ 32) where
  -- Enough low bits hold the field.
  get-set_bits :
      (k : ℕ) → p + m ≤ k → k ≤ 32 → set_bits scr p m dat % 2 ^ k / 2 ^ p % 2 ^ m ≡ dat % 2 ^ m
  unfolding set_bits
  get-set_bits k f g =
      let q = scr / 2 ^ (p + m) in
      let d = dat % 2 ^ m in
      let r = scr % 2 ^ p in
      rw (mod-mod_of_dvd (2 ^ k) (joined p m q d r) (pow-dvd k g))
        (field-joined p m k f q d r (mod-lt dat (pow_pos m)) (mod-lt scr (pow_pos p)))

  high-set_bits : scr < 2 ^ 32 → set_bits scr p m dat / 2 ^ (p + m) ≡ scr / 2 ^ (p + m)
  unfolding set_bits
  high-set_bits h =
      high-joined p m 32 fits scr (dat % 2 ^ m) (scr % 2 ^ p) h (mod-lt dat (pow_pos m))
        (mod-lt scr (pow_pos p))

  low-set_bits : set_bits scr p m dat % 2 ^ p ≡ scr % 2 ^ p
  unfolding set_bits
  low-set_bits =
      low-joined p m 32 fits (scr / 2 ^ (p + m)) (dat % 2 ^ m) (scr % 2 ^ p)
        (mod-lt scr (pow_pos p))

  set_bits-lt : set_bits scr p m dat < 2 ^ 32
  unfolding set_bits
  set_bits-lt = mod-lt _ (omega arith)

one_byte : (n : ℕ) (rest : List ℕ) → value_le 1 (bytes_le 4 n ++ rest) ≡ n % 2 ^ 8
unfolding value_le bytes_le
one_byte n rest = omega arith

two_bytes : (n : ℕ) (rest : List ℕ) → value_le 2 (bytes_le 4 n ++ rest) ≡ n % 2 ^ 16
unfolding value_le bytes_le
two_bytes n rest = omega arith

four_bytes : (n : ℕ) (rest : List ℕ) → n < 2 ^ 32 → value_le 4 (bytes_le 4 n ++ rest) ≡ n
unfolding value_le bytes_le
four_bytes n rest h = omega arith

value_le-lt : (mem : List ℕ) → AreBytes mem → 4 ≤ length mem → value_le 4 mem < 2 ^ 32
unfolding value_le
value_le-lt [] bs h = absurd (omega arith)
value_le-lt (a ∷ []) bs h = absurd (omega arith)
value_le-lt (a ∷ (b ∷ [])) bs h = absurd (omega arith)
value_le-lt (a ∷ (b ∷ (c ∷ []))) bs h = absurd (omega arith)
value_le-lt (a ∷ (b ∷ (c ∷ (d ∷ mem)))) (ha, (hb, (hc, (hd, _)))) h = omega arith

-- The bytes that are read hold the field.
get_bits-set :
    (scr p m dat : ℕ) (rest : List ℕ)
    → m ≤ 8
    → p + m ≤ 8 * (1 + m / 8)
    → get_bits p m (bytes_le 4 (set_bits scr p m dat) ++ rest) ≡ dat % 2 ^ m
unfolding get_bits
get_bits-set scr p m dat rest h f = elim (Bool-cases (m == 8)) [
  | inl e ↦
      let two : 1 + m / 8 ≡ 2 = ground (arith, e) in
      rw (two, two_bytes (set_bits scr p m dat) rest)
        (get-set_bits scr p m dat (ground (arith, e)) 16 (ground (arith, e)) (omega arith))
  | inr e ↦
      let one : 1 + m / 8 ≡ 1 = ground (arith, e) in
      rw (one, one_byte (set_bits scr p m dat) rest)
        (get-set_bits scr p m dat (ground (arith, e)) 8 (ground (arith, e)) (omega arith))
]

-- What a field of the memory is stored as.
store_element-bits :
    (fl : Floats) (p m : ℕ) (src : List ℕ)
    → 0 < m
    → m ≤ 8
    → 2 ≤ length src
    → store_element fl src m p (pos m) ≡ some (number (fl.of_int (pos (get_bits p m src))))
unfolding store_element store_typed
store_element-bits fl p m src low high size = ground arith

two-le-bytes : (n : ℕ) (rest : List ℕ) → 2 ≤ length (bytes_le 4 n ++ rest)
unfolding bytes_le
two-le-bytes n rest = omega arith

drop-bytes : (n : ℕ) (rest : List ℕ) → drop 4 (bytes_le 4 n ++ rest) ≡ rest
unfolding bytes_le
drop-bytes n rest = refl

-- What loading a field leaves.
abbrev pub with_field : List ℕ → ℕ → ℕ → ℕ → List ℕ
with_field mem p m dat = bytes_le 4 (set_bits (value_le 4 mem) p m dat) ++ drop 4 mem

module _ (cj : Cjson) (fl : Floats) (limit : ℤ) (p m : ℕ) (value : cj.Item) (mem : List ℕ)
    (number_item : cj.is_number value ≡ true) (room : pos (1 + (p + m) / 8) ≤ℤ limit)
    (size : 4 ≤ length mem) where
  abbrev dat : ℕ
  dat = low_bits 64 (cj.valueint value)

  bit_data-number : (o : Option (List ℕ)) → bit_data cj fl value o ≡ dat
  unfolding bit_data
  bit_data-number none = rw number_item refl
  bit_data-number (some text) = rw number_item refl

  load_bits-number : load_bits cj fl limit p m value mem ≡ some (with_field mem p m dat, pos 0)
  unfolding load_bits put returns bytes_le
  load_bits-number = rw (bit_data-number (string_text cj fl value)) (ground (arith, room, size))

  load_typed-bits :
      0 < m
      → m ≤ 8
      → load_typed cj fl (spec_of m m) limit p value mem ≡ some (with_field mem p m dat, pos 0)
  unfolding load_typed
  load_typed-bits h k = ground (arith, load_bits-number)

-- A number that is loaded into a bit field of a type bitX_t, of 1 to 8 bits at any bit position, where
-- jst_store_element reads the bytes that the field reaches into: jst_load_element returns 0, storing
-- the field again gives the number's low bits, and no other bit of the memory has changed.
pub store-load_bits :
    (cj : Cjson) (fl : Floats) (type : List ℕ) (limit : ℤ) (p m : ℕ) (value : cj.Item)
    (mem : List ℕ)
    → typesize type (spec_of type_max 0) ≡ (pos 0, spec_of m m)
    → 0 < m
    → m ≤ 8
    → p + m ≤ 8 * (1 + m / 8)
    → cj.is_number value ≡ true
    → pos (1 + (p + m) / 8) ≤ℤ limit
    → 4 ≤ length mem
    → AreBytes mem
    → (mem1 : List ℕ) × (load_element cj fl mem limit p (some type) (some value)
        ≡ some (mem1, pos 0))
      × (store_element fl mem1 m p (pos m)
          ≡ some (number (fl.of_int (pos (low_bits 64 (cj.valueint value) % 2 ^ m)))))
      × (value_le 4 mem1 % 2 ^ p ≡ value_le 4 mem % 2 ^ p)
      × (value_le 4 mem1 / 2 ^ (p + m) ≡ value_le 4 mem / 2 ^ (p + m))
      × (drop 4 mem1 ≡ drop 4 mem)
unfolding load_element load_checked
store-load_bits cj fl type limit p m value mem named low high fits is_num room size bytes =
    let d = low_bits 64 (cj.valueint value) in
    let scr = value_le 4 mem in
    let small : p + m ≤ 32 = omega arith in
    let back = get_bits-set scr p m d (drop 4 mem) high fits in
    let whole = four_bytes (set_bits scr p m d) (drop 4 mem) (set_bits-lt scr p m d small) in
    (
      with_field mem p m d,
      rw named
          (ground (arith, load_typed-bits cj fl limit p m value mem is_num room size low high)),
      store_element-bits fl p m (with_field mem p m d) low high (two-le-bytes _ (drop 4 mem))
          ∙ ap (λ n. some (number (fl.of_int (pos n)))) back,
      ap (λ t. t % 2 ^ p) whole ∙ low-set_bits scr p m d small,
      ap (λ t. t / 2 ^ (p + m)) whole ∙ high-set_bits scr p m d small (value_le-lt mem bytes size),
      drop-bytes _ (drop 4 mem),
    )
