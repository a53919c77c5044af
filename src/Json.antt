-- ===== src/Json.antt =====
-- What the program calls of nlohmann::json, and of the floating-point part of the C++ standard
-- library: operations with the laws that the program relies on. Both are taken as parameters.
pub mod Utilities
pub mod Members
pub mod Errors
use mqttraffic_warden.Common.{
  ℕ, ◌^◌, ◌<◌, ◌≡◌, Bool, true, false, Option, none, some, List, [], Text, str_eq, if◌then◌else◌,
  Result, ok, throw, json_error, Exception, ℤ, pos, to_signed,
}
use mqttraffic_warden.Numbers.{Stream}

-- `J` is `nlohmann::json`, `F` is `float` and `D` is `double`. An operation that throws an
-- `nlohmann::json` exception returns `throw json_error`.
pub record JsonOps (J F D : Type 0) : Type 0 where
  pub is_object : J → Bool
  pub is_array : J → Bool
  pub is_string : J → Bool
  pub is_boolean : J → Bool
  pub is_number_unsigned : J → Bool
  pub is_number_integer : J → Bool
  pub is_number_float : J → Bool
  -- `contains(key)`, and `at(key)`.
  pub contains : J → Text → Bool
  pub at : J → Text → Result J
  -- `operator[]` on a constant: undefined for a missing key.
  pub index : J → Text → J
  -- `get<T>()`
  pub get_string : J → Result Text
  pub get_bool : J → Result Bool
  pub get_int : J → Result ℤ
  pub get_unsigned_long : J → Result ℕ
  pub get_long : J → Result ℤ
  pub get_double : J → Result D
  -- `text == json`
  pub equals_string : Text → J → Bool
  -- `empty()`, and the values from `begin()` to `end()`.
  pub is_empty : J → Bool
  pub elements : J → List J
  -- The constructors from a value.
  pub of_string : Text → J
  pub of_bool : Bool → J
  pub of_long : ℤ → J
  pub of_float : F → J
  pub of_double : D → J
  -- `json[key] = value`, and `erase(key)`.
  pub set : J → Text → J → Result J
  pub erase : J → Text → Result J
  pub dump : J → Result Text
  pub parse : Text → Result J

-- `extract_float s` is the stream behind `iss >> std::noskipws >> n` for a `float n`.
pub record FloatOps (F D : Type 0) : Type 0 where
  pub extract_float : Text → Stream
  pub extract_double : Text → Stream
  pub strtof : Text → F
  pub strtod : Text → D
  -- The conversion of a `double` to `char`, as a byte.
  pub to_char : D → ℕ
  -- The contents of a `bool` that has not been initialised.
  pub uninitialised : Bool

module _ {J F D : Type 0} (json : JsonOps J F D) where
  -- The value at a key of an object.
  abbrev pub member : J → Text → Option J
  member j k = if json.contains j k then some (json.index j k) else none

  -- The documented behaviour of the operations above.
  pub record JsonLaws : Type 0 where
    pub at_contains :
        (j : J) (k : Text) → json.contains j k ≡ true → json.at j k ≡ ok (json.index j k)
    pub at_missing : (j : J) (k : Text) → json.contains j k ≡ false → json.at j k ≡ throw json_error
    pub contains-object : (j : J) (k : Text) → json.contains j k ≡ true → json.is_object j ≡ true
    pub is_empty-elements : (j : J) → json.is_empty j ≡ true → json.elements j ≡ []
    pub get_string_ok : (j : J) → json.is_string j ≡ true → (s : Text) × (json.get_string j ≡ ok s)
    pub get_string_error : (j : J) (e : Exception) → json.get_string j ≡ throw e → e ≡ json_error
    pub get_int_error : (j : J) (e : Exception) → json.get_int j ≡ throw e → e ≡ json_error
    pub equals_string_lem :
        (j : J) (s t : Text) → json.get_string j ≡ ok s → json.equals_string t j ≡ str_eq t s
    pub get_bool_ok : (j : J) → json.is_boolean j ≡ true → (b : Bool) × (json.get_bool j ≡ ok b)
    pub get_bool_throws : (j : J) → json.is_boolean j ≡ false → json.get_bool j ≡ throw json_error
    pub get_unsigned_ok :
        (j : J)
        → json.is_number_unsigned j ≡ true
        → (n : ℕ) × (n < 2 ^ 64)
          × (json.get_unsigned_long j ≡ ok n)
          × (json.get_int j ≡ ok (to_signed 32 (pos n)))
    pub unsigned_only :
        (j : J)
        → json.is_number_unsigned j ≡ true
        → (json.is_string j ≡ false) × (json.is_boolean j ≡ false)
    pub get_long_ok : (j : J) → json.is_number_integer j ≡ true → (i : ℤ) × (json.get_long j ≡ ok i)
    pub get_double_ok :
        (j : J) → json.is_number_float j ≡ true → (d : D) × (json.get_double j ≡ ok d)
    pub set_object :
        (o v : J) (k : Text)
        → json.is_object o ≡ true
        → (p : J) × (json.set o k v ≡ ok p)
          × (json.is_object p ≡ true)
          × ((i : Text) → member p i ≡ (if str_eq k i then some v else member o i))
    pub erase_object :
        (o : J) (k : Text)
        → json.is_object o ≡ true
        → (p : J) × (json.erase o k ≡ ok p)
          × (json.is_object p ≡ true)
          × ((i : Text) → member p i ≡ (if str_eq k i then none else member o i))
