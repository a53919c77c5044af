-- ===== src/Sample/Value.antt =====
-- JSON values with the operations that the program calls. Numbers with a fraction are left out.
use mqttraffic_warden.Common.{
  ℕ, ◌%◌, ◌^◌, Bool, true, false, Option, none, some, List, [], ◌∷◌, ◌++◌, Text, codes, str_eq,
  if◌then◌else◌, Result, ok, throw, json_error, ℤ, pos, negsuc, to_signed,
}
use mqttraffic_warden.Json.{JsonOps, FloatOps}

mutual
  pub data Value : Type 0 where
    null : Value
    truth : Bool → Value
    -- An unsigned number below 2^64, and -(n + 1).
    unsigned : ℕ → Value
    negative : ℕ → Value
    str : Text → Value
    arr : Items → Value
    obj : Fields → Value

  pub data Items : Type 0 where
    nil : Items
    cons : Value → Items → Items

  pub data Fields : Type 0 where
    end : Fields
    field : Text → Value → Fields → Fields

abbrev pub items : Items → List Value
items nil = []
items (cons v vs) = v ∷ items vs

abbrev pub no_items : Items → Bool
no_items nil = true
no_items (cons v vs) = false

abbrev pub find_field : Text → Fields → Option Value
find_field k end = none
find_field k (field i v fs) = if str_eq i k then some v else find_field k fs

abbrev pub set_field : Text → Value → Fields → Fields
set_field k v end = field k v end
set_field k v (field i w fs) = if str_eq i k then field i v fs else field i w (set_field k v fs)

abbrev pub erase_field : Text → Fields → Fields
erase_field k end = end
erase_field k (field i w fs) =
    let rest = erase_field k fs in if str_eq i k then rest else field i w rest

abbrev pub field_of : Value → Text → Option Value
field_of (obj fs) k = find_field k fs
field_of _ k = none

abbrev pub is_some : Option Value → Bool
is_some none = false
is_some (some v) = true

abbrev pub or_null : Option Value → Value
or_null none = null
or_null (some v) = v

abbrev pub or_error : Option Value → Result Value
or_error none = throw json_error
or_error (some v) = ok v

abbrev pub is_object : Value → Bool
is_object (obj fs) = true
is_object _ = false

abbrev pub is_array : Value → Bool
is_array (arr vs) = true
is_array _ = false

abbrev pub is_string : Value → Bool
is_string (str s) = true
is_string _ = false

abbrev pub is_boolean : Value → Bool
is_boolean (truth b) = true
is_boolean _ = false

abbrev pub is_number_unsigned : Value → Bool
is_number_unsigned (unsigned n) = true
is_number_unsigned _ = false

abbrev pub is_number_integer : Value → Bool
is_number_integer (unsigned n) = true
is_number_integer (negative n) = true
is_number_integer _ = false

abbrev pub get_string : Value → Result Text
get_string (str s) = ok s
get_string _ = throw json_error

abbrev pub get_bool : Value → Result Bool
get_bool (truth b) = ok b
get_bool _ = throw json_error

abbrev pub get_long : Value → Result ℤ
get_long (unsigned n) = ok (to_signed 64 (pos n))
get_long (negative n) = ok (negsuc n)
get_long _ = throw json_error

abbrev pub get_unsigned_long : Value → Result ℕ
get_unsigned_long (unsigned n) = ok (n % 2 ^ 64)
get_unsigned_long _ = throw json_error

abbrev pub get_int : Value → Result ℤ
get_int (unsigned n) = ok (to_signed 32 (pos (n % 2 ^ 64)))
get_int (negative n) = ok (to_signed 32 (negsuc n))
get_int _ = throw json_error

abbrev pub equals_string : Text → Value → Bool
equals_string t (str s) = str_eq t s
equals_string t _ = false

abbrev pub is_empty_value : Value → Bool
is_empty_value (arr vs) = no_items vs
is_empty_value null = true
is_empty_value _ = false

abbrev pub elements : Value → List Value
elements (arr vs) = items vs
elements _ = []

abbrev pub of_long : ℤ → Value
of_long (pos n) = unsigned n
of_long (negsuc n) = negative n

-- `null` becomes an object.
abbrev pub set : Value → Text → Value → Result Value
set (obj fs) k v = ok (obj (set_field k v fs))
set null k v = ok (obj (field k v end))
set _ k v = throw json_error

abbrev pub erase : Value → Text → Result Value
erase (obj fs) k = ok (obj (erase_field k fs))
erase _ k = throw json_error

-- Enough of the text form for the examples.
abbrev pub dump : Value → Result Text
dump null = ok (codes "null")
dump (truth true) = ok (codes "true")
dump (truth false) = ok (codes "false")
dump (str s) = ok (b'"' ∷ (s ++ b'"' ∷ []))
dump _ = ok (codes "{}")

abbrev pub parse : Text → Result Value
parse s =
    if str_eq s (codes "{}")
    then ok (obj end)
    else if str_eq s (codes "{")
    then throw json_error
    else ok (str s)

abbrev pub sample_json : JsonOps Value ℕ ℕ
sample_json = record {
  is_object = is_object;
  is_array = is_array;
  is_string = is_string;
  is_boolean = is_boolean;
  is_number_unsigned = is_number_unsigned;
  is_number_integer = is_number_integer;
  is_number_float = λ v. false;
  contains = λ v k. is_some (field_of v k);
  at = λ v k. or_error (field_of v k);
  index = λ v k. or_null (field_of v k);
  get_string = get_string;
  get_bool = get_bool;
  get_int = get_int;
  get_unsigned_long = get_unsigned_long;
  get_long = get_long;
  get_double = λ v. throw json_error;
  equals_string = equals_string;
  is_empty = is_empty_value;
  elements = elements;
  of_string = str;
  of_bool = truth;
  of_long = of_long;
  of_float = unsigned;
  of_double = unsigned;
  set = set;
  erase = erase;
  dump = dump;
  parse = parse;
}

-- No text is a fraction.
abbrev pub sample_floats : FloatOps ℕ ℕ
sample_floats = record {
  extract_float = λ s. record { eof = false; fail = true };
  extract_double = λ s. record { eof = false; fail = true };
  strtof = λ s. 0;
  strtod = λ s. 0;
  to_char = λ d. d % 256;
  uninitialised = false;
}
