-- ===== src/Cjson.antt =====
-- The JSON library behind main/json_tools.c and main/cmd_open_load.c: the fields of a cJSON that they
-- read, and the calls that they make. A double is the number that its 64 bits stand for.
pub mod Toy
use otdb.Base.{ℕ, List, Bool, Option}
use otdb.Base.Int.{ℤ}

-- cJSON's items, as parsed. `behind` is the memory behind the terminator of `valuestring`, and
-- `padding` the four bytes between `valueint` and `valuedouble`.
pub record Cjson : Type 1 where
  pub Item : Type 0
  -- the tests cJSON_IsNumber, cJSON_IsString, cJSON_IsObject, cJSON_IsArray, cJSON_IsBool
  pub is_number : Item → Bool
  pub is_string : Item → Bool
  pub is_object : Item → Bool
  pub is_array : Item → Bool
  pub is_bool : Item → Bool
  pub valueint : Item → ℤ
  pub valuedouble : Item → ℕ
  pub valuestring : Item → Option (List ℕ)
  pub behind : Item → List ℕ
  pub padding : Item → List ℕ
  -- the field `string`, and the items from `child` on by `next`
  pub name : Item → List ℕ
  pub children : Item → List Item
  -- cJSON_GetObjectItemCaseSensitive
  pub get_item : Item → List ℕ → Option Item

-- What C does with floating-point numbers, as bit patterns.
pub record Floats : Type 0 where
  -- an integer as a double, a float as a double, a double as a float
  pub of_int : ℤ → ℕ
  pub of_float : ℕ → ℕ
  pub to_float : ℕ → ℕ
  -- lround((d - floor(d)) * 100) as an int
  pub hundredths : ℕ → ℤ
