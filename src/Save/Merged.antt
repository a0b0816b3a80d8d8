-- ===== src/Save/Merged.antt =====
-- What cmdsub_datafile of main/cmd_open_load.c writes into a file, as cmd_save of main/cmd_save.c exports it.
use otdb.Base.{
  ℕ, ◌+◌, ◌-◌, ◌*◌, ◌≤◌, ◌≡◌, ◌∙◌, refl, sym, ap, List, [], ◌++◌, true, false, Option, none, some,
  length, take, drop, length-take, length-drop, arith,
}
use otdb.Base.Splice.{take_prefix, drop_prefix, drop-drop}
use otdb.Base.Int.{pos, ◌+ℤ◌, ◌-ℤ◌, ◌≤ℤ◌, int_laws}
use otdb.Text.{codes}
use otdb.Cjson.{Cjson, Floats}
use otdb.JsonTools.{extract_string, extract_pos}
use otdb.JsonTools.Names.{extract_typesize, typeinfo_of}
use otdb.JsonTools.Elements.{number, store_element, store_typed}
use otdb.JsonTools.Elements.Integers.{
  IntType, int8, uint8, int16, uint16, int32, uint32, type_name, index_of, size_in_bytes, lowest,
  highest, typesize-name, store-load_integer,
}
use otdb.OpenLoad.Contents.{behind, load_at, bit_position}
use otdb.OpenLoad.DataFile.{load_named, shifted, merge_flat, merge_element}
use otdb.Save.{store_at, export_nested, nested_content, export_element}

-- A number is stored whatever the bit position.
store_anywhere :
    (fl : Floats) (k : IntType) (mem : List ℕ) (bitpos : ℕ)
    → store_element fl mem (index_of k) bitpos (pos (size_in_bytes k * 8))
      ≡ store_element fl mem (index_of k) 0 (pos (size_in_bytes k * 8))
unfolding store_element store_typed
store_anywhere fl int8 mem b = refl
store_anywhere fl uint8 mem b = refl
store_anywhere fl int16 mem b = refl
store_anywhere fl uint16 mem b = refl
store_anywhere fl int32 mem b = refl
store_anywhere fl uint32 mem b = refl

typesize_of_item :
    (cj : Cjson) (k : IntType) (obj : cj.Item)
    → extract_string cj (some obj) (codes "type") ≡ some (type_name k)
    → extract_typesize cj (some obj) ≡ (index_of k, pos (size_in_bytes k * 8))
unfolding extract_typesize typeinfo_of
typesize_of_item cj k obj h = rw (h, typeinfo_of, typesize-name k) refl

drop_front : (at : ℕ) (mem m : List ℕ) → at ≤ length mem → drop at (take at mem ++ m) ≡ m
drop_front at mem m h =
    let front : length (take at mem) ≡ at = length-take at mem ∙ omega arith in
    let none_left : at - length (take at mem) ≡ 0 = omega (arith, front) in
    drop_prefix at (take at mem) m (omega (arith, front)) ∙ ap (λ i. drop i m) none_left

at_sum : (base p : ℕ) → pos base +ℤ pos p ≡ pos (base + p)
at_sum base p = omega int_laws

-- A flat element of a template, of an integer type of up to 32 bits and with a number of the data in that
-- type's range, inside the size of its file, which is in memory: cmdsub_datafile writes it, up to its end
-- in the file, and cmd_save exports the same number from there; no byte in front of the element or
-- behind it has changed.
pub export-merge_element :
    (cj : Cjson) (fl : Floats) (k : IntType) (base size p : ℕ) (obj d_elem : cj.Item)
    (t_content : Option cj.Item) (mem : List ℕ)
    → extract_string cj (some obj) (codes "type") ≡ some (type_name k)
    → extract_pos cj (some obj) ≡ pos p
    → cj.get_item obj (codes "_meta") ≡ none
    → cj.is_number d_elem ≡ true
    → cj.is_string d_elem ≡ false
    → lowest k ≤ℤ cj.valueint d_elem
    → cj.valueint d_elem ≤ℤ highest k
    → p + size_in_bytes k ≤ size
    → base + size ≤ length mem
    → (mem1 : List ℕ) × (merge_element cj fl base size obj d_elem none t_content mem
        ≡ some (mem1, pos (p + size_in_bytes k)))
      × (export_element cj fl base obj mem1
          ≡ some (record {
            name = cj.name obj;
            value = number (fl.of_int (cj.valueint d_elem));
            nested = [];
          }))
      × (take (base + p) mem1 ≡ take (base + p) mem)
      × (drop (base + p + size_in_bytes k) mem1 ≡ drop (base + p + size_in_bytes k) mem)
unfolding merge_element merge_flat load_named load_at behind shifted export_element store_at
    nested_content export_nested
export-merge_element cj fl k base size p obj d_elem t_content mem type place flat num not_text low
      high room fits =
    let at = base + p in
    let n = size_in_bytes k in
    let limit : pos n ≤ℤ (pos size -ℤ pos p) = omega int_laws in
    let there : n ≤ length (drop at mem) = omega (arith, length-drop at mem) in
    let (m1, loaded, stored, rest) =
      store-load_integer cj fl k (pos size -ℤ pos p) (bit_position cj fl obj) d_elem (drop at mem)
        num not_text low high there limit in
    let stored0 = sym (store_anywhere fl k m1 (bit_position cj fl obj)) ∙ stored in
    let inside : at ≤ length mem = omega arith in
    (
      take at mem ++ m1,
      rw (place, at_sum base p, type, loaded)
          (ap (λ e. some (take at mem ++ m1, e)) (omega int_laws)),
      rw
          (
            place,
            at_sum base p,
            typesize_of_item cj k obj type,
            drop_front at mem m1 inside,
            stored0,
            flat,
          )
          refl,
      take_prefix at (take at mem) m1 (length-take at mem ∙ omega arith),
      sym (drop-drop n at (take at mem ++ m1))
          ∙ ap (drop n) (drop_front at mem m1 inside)
          ∙ rest
          ∙ drop-drop n at mem,
    )
