-- ===== src/Sample/Laws.antt =====
-- The laws of nlohmann::json that the program relies on hold for the sample.
use mqttraffic_warden.Common.{
  ℕ, ◌<◌, ◌^◌, ◌%◌, ◌≡◌, refl, Bool, true, false, Option, none, some, [], Text, str_eq, str_eq_iff,
  if◌then◌else◌, ok, throw, Exception, json_error, ℤ, pos, negsuc, to_signed, arith,
}
use mqttraffic_warden.Json.{JsonLaws, member}
use mqttraffic_warden.Sample.Value.{
  Value, null, truth, unsigned, negative, str, arr, obj, nil, cons, Fields, end, field, find_field,
  set_field, erase_field, field_of, is_some, or_null, or_error, is_object, is_string, is_boolean,
  is_number_unsigned, is_number_integer, get_long, get_string, get_bool, get_int, get_unsigned_long,
  equals_string, is_empty_value, elements, set, erase, sample_json,
}

member-field_of : (v : Value) (k : Text) → member sample_json v k ≡ field_of v k
member-field_of v k = go (field_of v k)
  where
    go : (o : Option Value) → (if is_some o then some (or_null o) else none) ≡ o
    go none = refl
    go (some w) = refl

find-set :
    (k i : Text) (v : Value) (fs : Fields)
    → find_field i (set_field k v fs) ≡ (if str_eq k i then some v else find_field i fs)
find-set k i v end = refl
find-set k i v (field j w fs) =
    ground (arith, str_eq_iff k i, str_eq_iff j k, str_eq_iff j i, find-set k i v fs)

find-erase :
    (k i : Text) (fs : Fields)
    → find_field i (erase_field k fs) ≡ (if str_eq k i then none else find_field i fs)
find-erase k i end = ground arith
find-erase k i (field j w fs) =
    ground (arith, str_eq_iff k i, str_eq_iff j k, str_eq_iff j i, find-erase k i fs)

at_contains : (o : Option Value) → is_some o ≡ true → or_error o ≡ ok (or_null o)
at_contains none h = cc
at_contains (some v) h = refl

at_missing : (o : Option Value) → is_some o ≡ false → or_error o ≡ throw json_error
at_missing none h = refl
at_missing (some v) h = cc

contains-object : (v : Value) (k : Text) → is_some (field_of v k) ≡ true → is_object v ≡ true
contains-object (obj fs) k h = refl
contains-object _ k h = cc

no_elements : (v : Value) → is_empty_value v ≡ true → elements v ≡ []
no_elements (arr nil) h = refl
no_elements (arr (cons v vs)) h = cc
no_elements _ h = refl

string_value : (v : Value) → is_string v ≡ true → (s : Text) × (get_string v ≡ ok s)
string_value (str s) h = (s, refl)
string_value null h = cc
string_value (truth b) h = cc
string_value (unsigned n) h = cc
string_value (negative n) h = cc
string_value (arr vs) h = cc
string_value (obj fs) h = cc

equal_strings : (v : Value) (s t : Text) → get_string v ≡ ok s → equals_string t v ≡ str_eq t s
equal_strings (str u) s t h = ground arith
equal_strings null s t h = cc
equal_strings (truth b) s t h = cc
equal_strings (unsigned n) s t h = cc
equal_strings (negative n) s t h = cc
equal_strings (arr vs) s t h = cc
equal_strings (obj fs) s t h = cc

string_error : (v : Value) (e : Exception) → get_string v ≡ throw e → e ≡ json_error
string_error (str s) e h = cc
string_error null e h = cc
string_error (truth b) e h = cc
string_error (unsigned n) e h = cc
string_error (negative n) e h = cc
string_error (arr vs) e h = cc
string_error (obj fs) e h = cc

int_error : (v : Value) (e : Exception) → get_int v ≡ throw e → e ≡ json_error
int_error (unsigned n) e h = cc
int_error (negative n) e h = cc
int_error null e h = cc
int_error (truth b) e h = cc
int_error (str s) e h = cc
int_error (arr vs) e h = cc
int_error (obj fs) e h = cc

bool_value : (v : Value) → is_boolean v ≡ true → (b : Bool) × (get_bool v ≡ ok b)
bool_value (truth b) h = (b, refl)
bool_value null h = cc
bool_value (str s) h = cc
bool_value (unsigned n) h = cc
bool_value (negative n) h = cc
bool_value (arr vs) h = cc
bool_value (obj fs) h = cc

no_bool_value : (v : Value) → is_boolean v ≡ false → get_bool v ≡ throw json_error
no_bool_value (truth b) h = cc
no_bool_value _ h = refl

unsigned_value :
    (v : Value)
    → is_number_unsigned v ≡ true
    → (n : ℕ) × (n < 2 ^ 64)
      × (get_unsigned_long v ≡ ok n)
      × (get_int v ≡ ok (to_signed 32 (pos n)))
unsigned_value (unsigned n) h = (n % 2 ^ 64, omega arith, refl, refl)
unsigned_value null h = cc
unsigned_value (truth b) h = cc
unsigned_value (str s) h = cc
unsigned_value (negative n) h = cc
unsigned_value (arr vs) h = cc
unsigned_value (obj fs) h = cc

unsigned_value_only :
    (v : Value) → is_number_unsigned v ≡ true → (is_string v ≡ false) × (is_boolean v ≡ false)
unsigned_value_only (unsigned n) h = (refl, refl)
unsigned_value_only (str s) h = cc
unsigned_value_only (truth b) h = cc
unsigned_value_only _ h = (refl, refl)

long_value : (v : Value) → is_number_integer v ≡ true → (i : ℤ) × (get_long v ≡ ok i)
long_value (unsigned n) h = (to_signed 64 (pos n), refl)
long_value (negative n) h = (negsuc n, refl)
long_value null h = cc
long_value (truth b) h = cc
long_value (str s) h = cc
long_value (arr vs) h = cc
long_value (obj fs) h = cc

set_in_object :
    (o v : Value) (k : Text)
    → is_object o ≡ true
    → (p : Value) × (set o k v ≡ ok p)
      × (is_object p ≡ true)
      × ((i : Text)
          → member sample_json p i ≡ (if str_eq k i then some v else member sample_json o i))
set_in_object (obj fs) v k h = (
  obj (set_field k v fs),
  refl,
  refl,
  λ i.
      rw (member-field_of (obj (set_field k v fs)) i, member-field_of (obj fs) i)
        (find-set k i v fs),
)
set_in_object null v k h = cc
set_in_object (truth b) v k h = cc
set_in_object (str s) v k h = cc
set_in_object (unsigned n) v k h = cc
set_in_object (negative n) v k h = cc
set_in_object (arr vs) v k h = cc

erase_in_object :
    (o : Value) (k : Text)
    → is_object o ≡ true
    → (p : Value) × (erase o k ≡ ok p)
      × (is_object p ≡ true)
      × ((i : Text)
          → member sample_json p i ≡ (if str_eq k i then none else member sample_json o i))
erase_in_object (obj fs) k h = (
  obj (erase_field k fs),
  refl,
  refl,
  λ i.
      rw (member-field_of (obj (erase_field k fs)) i, member-field_of (obj fs) i)
        (find-erase k i fs),
)
erase_in_object null k h = cc
erase_in_object (truth b) k h = cc
erase_in_object (str s) k h = cc
erase_in_object (unsigned n) k h = cc
erase_in_object (negative n) k h = cc
erase_in_object (arr vs) k h = cc

pub sample_json-JsonLaws : JsonLaws sample_json
sample_json-JsonLaws = record {
  at_contains = λ j k h. at_contains (field_of j k) h;
  at_missing = λ j k h. at_missing (field_of j k) h;
  contains-object = contains-object;
  is_empty-elements = no_elements;
  get_string_ok = string_value;
  get_string_error = string_error;
  get_int_error = int_error;
  equals_string_lem = equal_strings;
  get_bool_ok = bool_value;
  get_bool_throws = no_bool_value;
  get_unsigned_ok = unsigned_value;
  unsigned_only = unsigned_value_only;
  get_long_ok = long_value;
  get_double_ok = λ v h. cc;
  set_object = set_in_object;
  erase_object = erase_in_object;
}
