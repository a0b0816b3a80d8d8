-- ===== src/Cjson/Toy.antt =====
-- A small JSON library over trees, for concrete runs, with floating-point numbers that are integers.
use otdb.Base.{ℕ, List, [], ◌∷◌, Bool, true, false, Option, none, some, if◌then◌else◌}
use otdb.Base.Bytes.{bytes_eq}
use otdb.Base.Int.{ℤ, pos, pos_part}
use otdb.Cjson.{Cjson, Floats}

mutual
  pub data Json : Type 0 where
    number : ℤ → Json
    text : List ℕ → Json
    boolean : Bool → Json
    object array : Fields → Json

  pub data Fields : Type 0 where
    end : Fields
    field : List ℕ → Json → Fields → Fields

-- An item is a name with a value.
abbrev pub Named : Type 0
Named = List ℕ × Json

abbrev items : Fields → List Named
items end = []
items (field name v fs) = (name, v) ∷ items fs

abbrev find : List ℕ → Fields → Option Named
find key end = none
find key (field name v fs) =
    let rest = find key fs in if bytes_eq name key then some (name, v) else rest

abbrev fields_of : Json → Fields
fields_of (object fs) = fs
fields_of (array fs) = fs
fields_of _ = end

abbrev is_number : Json → Bool
is_number (number n) = true
is_number _ = false

abbrev is_text : Json → Bool
is_text (text s) = true
is_text _ = false

abbrev is_object : Json → Bool
is_object (object fs) = true
is_object _ = false

abbrev is_array : Json → Bool
is_array (array fs) = true
is_array _ = false

abbrev is_boolean : Json → Bool
is_boolean (boolean b) = true
is_boolean _ = false

abbrev int_value : Json → ℤ
int_value (number n) = n
int_value (boolean true) = pos 1
int_value _ = pos 0

abbrev text_value : Json → Option (List ℕ)
text_value (text s) = some s
text_value _ = none

abbrev pub toy_json : Cjson
toy_json = record {
  Item = Named;
  is_number = λ v. is_number v.1;
  is_string = λ v. is_text v.1;
  is_object = λ v. is_object v.1;
  is_array = λ v. is_array v.1;
  is_bool = λ v. is_boolean v.1;
  valueint = λ v. int_value v.1;
  valuedouble = λ v. pos_part (int_value v.1);
  valuestring = λ v. text_value v.1;
  behind = λ v. [];
  padding = λ v. 0 ∷ 0 ∷ 0 ∷ 0 ∷ [];
  name = λ v. v.0;
  children = λ v. items (fields_of v.1);
  get_item = λ v key. find key (fields_of v.1);
}

abbrev pub toy_floats : Floats
toy_floats = record {
  of_int = pos_part;
  of_float = λ n. n;
  to_float = λ n. n;
  hundredths = λ n. pos 0;
}
