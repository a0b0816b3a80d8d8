-- ===== src/JsonTools/Types/Exact.antt =====
-- jst_typesize of main/json_tools.c takes just the names of types, each for what it says.
use otdb.Base.{
  ap, ℕ, zero, suc, ◌+◌, ◌*◌, ◌≡◌, ◌↔◌, ◌∙◌, sym, refl, List, [], ◌∷◌, ◌++◌, Bool, true, false,
  ◌&&◌, ◌||◌, get_or, drop, ◌==◌, if◌then◌else◌, arith, ◌⊎◌, inl, inr, Bool-cases,
}
use mathlib.Core.Path.{subst}
use otdb.Base.Branch.{if-both}
use otdb.Base.Bytes.{bytes_eq, bytes_eq-eq}
use otdb.Base.Int.{pos, negsuc}
use otdb.Text.{codes}
use otdb.JsonTools.Names.{
  TypeInfo, spec_of, no_type, bit_count, b_type, c_type, h_type, int_type, named, typesize_of,
  typesize, starts, as_int, parse_arraysize,
}
use otdb.JsonTools.Types.Named.{typesize-named}
use otdb.JsonTools.Types.{
  IsSpec, bitmask, bool, text, char, hex_text, hex_byte, int8, uint8, int16, uint16, short, int,
  uint, int32, uint32, long, int64, uint64, float, double, Known, prefix-Known, name-Known,
  starts-append, bits-Known, bit_name, bit_spec,
}

ends_in : (a b : Bool) → a ≡ false → (a || b) ≡ true → b ≡ true
ends_in true b h e = absurd (ground arith)
ends_in false b h e = e

get_or-drop : (n : ℕ) (s : List ℕ) → get_or (drop n s) 0 0 ≡ get_or s n 0
get_or-drop zero s = refl
get_or-drop (suc n) [] = refl
get_or-drop (suc n) (c ∷ s) = get_or-drop n s

module _ (spec : TypeInfo) where
  no_type-Known : (type : List ℕ) → Known type (no_type spec)
  unfolding no_type
  no_type-Known type = inl (omega arith)

  b_type-Known : (cursor : List ℕ) → Known (b'b' ∷ cursor) (b_type cursor spec)
  unfolding b_type
  b_type-Known cursor =
      let P = Known (b'b' ∷ cursor) in
      let c = get_or cursor 2 0 in
      if-both P (bytes_eq cursor (codes "itmask")) _ _
        (λ e. name-Known b'b' cursor (codes "itmask") (spec_of 0 0) e bitmask)
        λ _.
          if-both P (bytes_eq cursor (codes "ool")) _ _
            (λ e. name-Known b'b' cursor (codes "ool") (spec_of 1 1) e bool)
            λ _.
              if-both P (starts (codes "it") cursor && bytes_eq (drop 3 cursor) (codes "_t"))
                (bit_spec (bit_count c)) (no_type spec)
                (λ e.
                  subst (λ s. Known (b'b' ∷ s) (bit_spec (bit_count c))) (sym (bit_name cursor e))
                    (bits-Known c))
                (λ _. no_type-Known (b'b' ∷ cursor))

  c_type-Known : (cursor : List ℕ) → Known (b'c' ∷ cursor) (c_type cursor spec)
  unfolding c_type
  c_type-Known cursor =
      let P = Known (b'c' ∷ cursor) in
      let rest = drop 3 cursor in
      let sized : TypeInfo = record { index = 9; bits = as_int (8 * parse_arraysize rest) } in
      if-both P (starts (codes "har") cursor)
        (if get_or cursor 3 0 == b'[' then sized else spec_of 11 8) (no_type spec)
        (λ e. prefix-Known b'c' (codes "har") cursor _ e (
          if-both (Known (codes "char" ++ rest)) (get_or cursor 3 0 == b'[') sized (spec_of 11 8)
            (λ b. inr (text rest (ap (λ c. c == b'[') (get_or-drop 3 cursor) ∙ b)))
            (λ b. inr (char rest (ap (λ c. c == b'[') (get_or-drop 3 cursor) ∙ b)))))
        (λ _. no_type-Known (b'c' ∷ cursor))

  h_type-Known : (cursor : List ℕ) → Known (b'h' ∷ cursor) (h_type cursor spec)
  unfolding h_type
  h_type-Known cursor =
      let P = Known (b'h' ∷ cursor) in
      let rest = drop 2 cursor in
      let sized : TypeInfo = record { index = 10; bits = as_int (8 * parse_arraysize rest) } in
      if-both P (starts (codes "ex") cursor)
        (if get_or cursor 2 0 == b'[' then sized else spec_of 10 8) (no_type spec)
        (λ e. prefix-Known b'h' (codes "ex") cursor _ e (
          if-both (Known (codes "hex" ++ rest)) (get_or cursor 2 0 == b'[') sized (spec_of 10 8)
            (λ b. inr (hex_text rest (ap (λ c. c == b'[') (get_or-drop 2 cursor) ∙ b)))
            (λ b. inr (hex_byte rest (ap (λ c. c == b'[') (get_or-drop 2 cursor) ∙ b)))))
        (λ _. no_type-Known (b'h' ∷ cursor))

  -- The names of the integers of one sign, as they stand behind `wrap`.
  record Integers (wrap : List ℕ → List ℕ) (sign : ℕ) : Type 0 where
    bare :
        (rest : List ℕ)
        → (get_or rest 0 0 == 0) ≡ true
        → IsSpec (wrap (codes "int" ++ rest)) (spec_of (15 + sign) 32)
    byte : IsSpec (wrap (codes "int8_t")) (spec_of (11 + sign) 8)
    half : IsSpec (wrap (codes "int16_t")) (spec_of (13 + sign) 16)
    word : IsSpec (wrap (codes "int32_t")) (spec_of (15 + sign) 32)
    wide : IsSpec (wrap (codes "int64_t")) (spec_of (17 + sign) 64)

  -- The name of an integer type.
  width-Known :
      (wrap : List ℕ → List ℕ) (cursor width : List ℕ) (found : TypeInfo)
      → starts (codes "int") cursor ≡ true
      → bytes_eq (drop 3 cursor) width ≡ true
      → IsSpec (wrap (codes "int" ++ width)) found
      → Known (wrap cursor) found
  width-Known wrap cursor width found begins ends f = inr (
      subst (λ s. IsSpec (wrap s) found)
        (sym (
          starts-append (codes "int") cursor begins
          ∙ ap (λ t. codes "int" ++ t) (bytes_eq-eq (drop 3 cursor) width ends)))
        f)

  int_type-Known :
      (wrap : List ℕ → List ℕ) (sign : ℕ) (cursor : List ℕ)
      → Integers wrap sign
      → Known (wrap cursor) (int_type sign cursor spec)
  unfolding int_type
  int_type-Known wrap sign cursor names =
      let P = Known (wrap cursor) in
      let w = drop 3 cursor in
      let no = no_type-Known (wrap cursor) in
      elim (Bool-cases (starts (codes "int") cursor)) [
        | inr other ↦ rw other no
        | inl begins ↦
            let named_by = width-Known wrap cursor in
            rw begins (
              if-both P (get_or cursor 3 0 == 0 || bytes_eq w (codes "32_t"))
                (spec_of (15 + sign) 32) _
                (λ e. elim (Bool-cases (get_or cursor 3 0 == 0)) [
                  | inl ended ↦ inr (
                      subst (λ s. IsSpec (wrap s) (spec_of (15 + sign) 32))
                        (sym (starts-append (codes "int") cursor begins))
                        (names.bare w (ap (λ c. c == 0) (get_or-drop 3 cursor) ∙ ended)))
                  | inr not_ended ↦
                      named_by (codes "32_t") _ begins (ends_in _ _ not_ended e) names.word
                ])
                λ _.
                  if-both P (bytes_eq w (codes "64_t")) (spec_of (17 + sign) 64) _
                    (λ e. named_by (codes "64_t") _ begins e names.wide)
                    λ _.
                      if-both P (bytes_eq w (codes "16_t")) (spec_of (13 + sign) 16) _
                        (λ e. named_by (codes "16_t") _ begins e names.half)
                        λ _.
                          if-both P (bytes_eq w (codes "8_t")) (spec_of (11 + sign) 8)
                            (no_type spec) (λ e. named_by (codes "8_t") _ begins e names.byte)
                            (λ _. no))
      ]

  named-Known :
      (c : ℕ) (cursor name : List ℕ) (found : TypeInfo)
      → IsSpec (c ∷ name) found
      → Known (c ∷ cursor) (named cursor name found spec)
  unfolding named
  named-Known c cursor name found f =
      if-both (Known (c ∷ cursor)) (bytes_eq cursor name) found (no_type spec)
        (λ e. name-Known c cursor name found e f) (λ _. no_type-Known (c ∷ cursor))

  -- The first byte decides.
  at_byte :
      (c k : ℕ) (cursor : List ℕ) (found : TypeInfo)
      → (c == k) ≡ true
      → Known (k ∷ cursor) found
      → Known (c ∷ cursor) found
  at_byte c k cursor found e = subst (λ b. Known (b ∷ cursor) found) (ground (arith, e))

  signed_names : Integers (λ s. s) 0
  signed_names = record { bare = int; byte = int8; half = int16; word = int32; wide = int64 }

  unsigned_names : Integers (λ s. b'u' ∷ s) 1
  unsigned_names = record { bare = uint; byte = uint8; half = uint16; word = uint32; wide = uint64 }

  typesize_of-Known : (type : List ℕ) → Known type (typesize_of type spec)
  unfolding typesize_of
  typesize_of-Known [] = no_type-Known []
  typesize_of-Known (c ∷ cursor) =
      let P = Known (c ∷ cursor) in
      let at : (k : ℕ) (found : TypeInfo) → Known (k ∷ cursor) found → (c == k) ≡ true → P found =
        λ k found known e. at_byte c k cursor found e known in
      if-both P (c == b'b') _ _ (at b'b' _ (b_type-Known cursor)) λ _.
        if-both P (c == b'c') _ _ (at b'c' _ (c_type-Known cursor)) λ _.
          if-both P (c == b'd') _ _ (at b'd' _ (named-Known b'd' cursor (codes "ouble") _ double))
            λ _. if-both P (c == b'h') _ _ (at b'h' _ (h_type-Known cursor)) λ _.
              if-both P (c == b'f') _ _ (at b'f' _ (named-Known b'f' cursor (codes "loat") _ float))
                λ _.
                  if-both P (c == b'i') _ _
                    (λ _. int_type-Known (λ s. s) 0 (c ∷ cursor) signed_names)
                    λ _.
                      if-both P (c == b'u') _ _
                        (at b'u' _ (int_type-Known (λ s. b'u' ∷ s) 1 cursor unsigned_names))
                        λ _.
                          if-both P (c == b'l') _ _
                            (at b'l' _ (named-Known b'l' cursor (codes "ong") _ long))
                            λ _.
                              if-both P (c == b's') _ _
                                (at b's' _ (named-Known b's' cursor (codes "hort") _ short))
                                λ _. no_type-Known (c ∷ cursor)

-- jst_typesize takes a name and gives an index and a size for it just where they are what the name says:
-- of a bit type the number of its digit, where a byte from '9' to 127 says 8 and 0 makes a bit mask;
-- of char and hex the size in brackets, or one byte; of the integers, their sign and their width;
-- and short, long, float, double, bool and bitmask for themselves. Every other name gives -1.
pub typesize_iff :
    (type : List ℕ) (spec found : TypeInfo)
    → ((typesize type spec ≡ (pos 0, found)) ↔ IsSpec type found)
      × (((typesize type spec).0 ≡ pos 0) ⊎ ((typesize type spec).0 ≡ negsuc 0))
unfolding typesize
typesize_iff type spec found = (
  (
    λ e. elim (typesize_of-Known spec type) [
      | inl big ↦ absurd (ground (arith, big, e))
      | inr known ↦ subst (IsSpec type) (ap (λ r. r.1) e) known
    ],
    typesize-named type spec found,
  ),
  ground arith,
)
