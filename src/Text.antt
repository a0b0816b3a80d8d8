-- ===== src/Text.antt =====
-- What the program uses of the C library's text functions: isspace, strtoul and strtoull, atoi,
-- snprintf with %d, %i, %u, %zu and %x of 64 bits. A C string is the list of its bytes without the terminator.
pub mod Numbers
mod Tests
use Prim.Native.Char.{code}
use Prim.Native.String.{String}
use otdb.Base.{
  ℕ, zero, suc, ◌+◌, ◌-◌, ◌*◌, ◌/◌, ◌%◌, ◌^◌, List, [], ◌∷◌, ◌++◌, Bool, true, false, ◌&&◌, ◌||◌,
  Option, none, some, ltb, leb, ◌==◌, if◌then◌else◌, length, take,
}
use otdb.Base.Int.{ℤ, pos, negsuc, sub_ℕ}

-- The bytes of a literal of the source.
abbrev pub codes : String → List ℕ
codes String.[] = []
codes (String.◌∷◌ c s) = code c ∷ codes s

unfoldable pub is_space : ℕ → Bool
is_space c = c == b' ' || (leb 9 c && leb c 13)

unfoldable pub skip_space : List ℕ → List ℕ
skip_space [] = []
skip_space (c ∷ s) = if is_space c then skip_space s else c ∷ s

-- The value of a digit in a base up to 36; 36 and more stands for no digit.
unfoldable pub digit_value : ℕ → ℕ
digit_value c =
    if leb b'0' c && leb c b'9'
    then c - b'0'
    else if leb b'a' c && leb c b'z'
    then c - b'a' + 10
    else if leb b'A' c && leb c b'Z'
    then c - b'A' + 10
    else 36

-- The digits up to the first byte that is none, most significant first, after `acc`.
unfoldable pub digits_value : ℕ → ℕ → List ℕ → ℕ
digits_value base acc [] = acc
digits_value base acc (c ∷ s) =
    let rest = digits_value base (acc * base + digit_value c) s in
    if ltb (digit_value c) base then rest else acc

unfoldable pub is_x : ℕ → Bool
is_x c = c == b'x' || c == b'X'

-- An optional 0x, which counts as a prefix only before a digit.
unfoldable pub skip_prefix : ℕ → List ℕ → List ℕ
skip_prefix base (z ∷ x ∷ d ∷ s) =
    if base == 16 && (z == b'0' && (is_x x && ltb (digit_value d) 16)) then d ∷ s else z ∷ x ∷ d ∷ s
skip_prefix base s = s

-- The sign, and what follows it.
unfoldable pub split_sign : List ℕ → Bool × List ℕ
split_sign [] = (false, [])
split_sign (c ∷ s) =
    if c == b'-' then (true, s) else if c == b'+' then (false, s) else (false, c ∷ s)

-- strtoull(s, NULL, base): it saturates, and a minus sign negates modulo 2^64.
unfoldable pub strtoull : List ℕ → ℕ → ℕ
strtoull s base =
    let (neg, body) = split_sign (skip_space s) in
    let v = digits_value base 0 (skip_prefix base body) in
    if leb (2 ^ 64) v then 2 ^ 64 - 1 else if neg then (2 ^ 64 - v) % 2 ^ 64 else v

unfoldable pub starts_digit : ℕ → List ℕ → Bool
starts_digit base [] = false
starts_digit base (c ∷ s) = ltb (digit_value c) base

unfoldable pub drop_digits : ℕ → List ℕ → List ℕ
drop_digits base [] = []
drop_digits base (c ∷ s) =
    let rest = drop_digits base s in if ltb (digit_value c) base then rest else c ∷ s

-- Where strtoull sets its `endptr`: to the start where there is no digit.
unfoldable pub strtoull_end : List ℕ → ℕ → List ℕ
strtoull_end s base =
    let body = skip_prefix base (split_sign (skip_space s)).1 in
    if starts_digit base body then drop_digits base body else s

-- atoi, which C defines for values that an int holds.
unfoldable pub atoi : List ℕ → ℤ
atoi s =
    let (neg, body) = split_sign (skip_space s) in
    let v = digits_value 10 0 body in if neg then sub_ℕ 0 v else pos v

unfoldable pub digit_char : ℕ → ℕ
digit_char d = if ltb d 10 then b'0' + d else b'a' + d - 10

-- The digits of `n` before `acc`; there are at most as many as the fuel, n + 1.
unfoldable pub show_loop : ℕ → ℕ → ℕ → List ℕ → List ℕ
show_loop base zero n acc = acc
show_loop base (suc f) n acc =
    let rest = show_loop base f (n / base) (digit_char (n % base) ∷ acc) in
    if n / base == 0 then digit_char (n % base) ∷ acc else rest

-- %x and %u
unfoldable pub show_hex : ℕ → List ℕ
show_hex n = show_loop 16 (n + 1) n []

unfoldable pub show_dec : ℕ → List ℕ
show_dec n = show_loop 10 (n + 1) n []

-- %d
unfoldable pub show_int : ℤ → List ℕ
unfolding show_dec
show_int (pos n) = show_dec n
show_int (negsuc n) = b'-' ∷ show_dec (suc n)

-- snprintf(dst, size, ...) of a text: the bytes that it stores, terminator included. Its return
-- value is the length of the text, stored or not.
unfoldable pub snprintf : ℕ → List ℕ → List ℕ
snprintf zero text = []
snprintf (suc n) text = take n text ++ 0 ∷ []
