-- ===== src/Json.antt =====
-- What the program uses of the library json-c.
use sshpad.Prelude.{
  ℕ, suc, Bool, true, false, not, ◌&&◌, Option, none, some, List, [], ◌∷◌, ◌≡◌, ◌≢◌, ℤ, Bytes, All,
  str_eq, if◌then◌else◌,
}

-- The value under the key in a list of members.
unfoldable pub assoc {ℓ} : {A : Type ℓ} → List (Bytes × A) → Bytes → Option A
assoc [] key = none
assoc ((k, a) ∷ ps) key = if str_eq k key then some a else assoc ps key

unfoldable pub lacks_key {ℓ} : {A : Type ℓ} → Bytes → List (Bytes × A) → Bool
lacks_key key [] = true
lacks_key key ((k, a) ∷ ps) = not (str_eq k key) && lacks_key key ps

-- No two members have the same key.
unfoldable pub has_unique_keys {ℓ} : {A : Type ℓ} → List (Bytes × A) → Bool
unfolding lacks_key
has_unique_keys [] = true
has_unique_keys ((k, a) ∷ ps) = lacks_key k ps && has_unique_keys ps

-- JSON_C_TO_STRING_PLAIN, JSON_C_TO_STRING_SPACED (what json_object_to_json_string uses) and
-- JSON_C_TO_STRING_PRETTY.
pub data Style : Type 0 where
  plain spaced pretty : Style

-- The objects and the functions on them. A null pointer is an object too, the JSON value null, and the
-- calls that add elements and members are the lists that an array or an object is made of. The laws
-- say that what was made is read back, from the objects and from their text. json-c reads texts that
-- are nested less than 32 deep.
pub record JsonC : Type 1 where
  pub Json : Type 0
  pub is_null : Json → Bool
  pub new_string : Bytes → Json
  pub new_int : ℤ → Json
  pub new_array : List Json → Json
  pub new_object : List (Bytes × Json) → Json
  pub object_get_ex : Json → Bytes → Option Json
  -- The elements, for an array only.
  pub elements : Json → Option (List Json)
  pub get_string : Json → Option Bytes
  pub get_int : Json → ℤ
  pub to_json_string : Style → Json → Bytes
  pub tokener_parse : Bytes → Option Json
  -- What `%s` of printf makes of a null pointer.
  pub printed_null : Bytes
  pub IsNested : ℕ → Json → Type 0
  pub get_string-new_string : (s : Bytes) → get_string (new_string s) ≡ some s
  pub get_int-new_int : (n : ℤ) → get_int (new_int n) ≡ n
  pub elements-new_array : (js : List Json) → elements (new_array js) ≡ some js
  pub object_get_ex-new_object :
      (ps : List (Bytes × Json)) (key : Bytes)
      → has_unique_keys ps ≡ true
      → object_get_ex (new_object ps) key ≡ assoc ps key
  pub string_not_null : (s : Bytes) → is_null (new_string s) ≡ false
  pub object_not_null : (ps : List (Bytes × Json)) → is_null (new_object ps) ≡ false
  pub array_not_null : (js : List Json) → is_null (new_array js) ≡ false
  pub new_string-IsNested : (n : ℕ) (s : Bytes) → IsNested n (new_string s)
  pub new_int-IsNested : (n : ℕ) (i : ℤ) → IsNested n (new_int i)
  pub new_array-IsNested :
      (n : ℕ) (js : List Json) → All (IsNested n) js → IsNested (suc n) (new_array js)
  pub new_object-IsNested :
      (n : ℕ) (ps : List (Bytes × Json))
      → All (λ p. IsNested n p.1) ps
      → IsNested (suc n) (new_object ps)
  pub tokener_parse-to_json_string :
      (style : Style) (j : Json)
      → is_null j ≡ false
      → IsNested 31 j
      → tokener_parse (to_json_string style j) ≡ some j
  pub to_json_string-no_nul : (style : Style) (j : Json) → All (λ c. c ≢ 0) (to_json_string style j)
