-- ===== src/TsSdk/Case.antt =====
-- sdks/typescript/src/case.ts: the conversion of object keys between the wire and the SDK.
pub mod Keys
pub mod RoundTrip
use cryptokorr.Common.{
  ℕ, Text, text_eq, codes, is_digit, is_lower, is_upper, upper_code, to_lower, Bool, ◌==◌, ◌&&◌,
  ◌||◌, List, [], ◌∷◌, if◌then◌else◌,
}

-- `[a-z0-9]`
abbrev pub is_lower_or_digit : ℕ → Bool
is_lower_or_digit c = is_lower c || is_digit c

-- `key.replace(/_([a-z0-9])/g, (_match, ch) => ch.toUpperCase())`
unfoldable pub camel_key : Text → Text
camel_key [] = []
camel_key (c ∷ []) = c ∷ []
camel_key (c ∷ d ∷ s) =
    let joined = camel_key s in
    let kept = camel_key (d ∷ s) in
    if c == b'_' && is_lower_or_digit d then upper_code d ∷ joined else c ∷ kept

-- `key.replace(/([a-z0-9])([A-Z])/g, "$1_$2")`
unfoldable pub split_words : Text → Text
split_words [] = []
split_words (c ∷ []) = c ∷ []
split_words (c ∷ d ∷ s) =
    let parted = split_words s in
    let kept = split_words (d ∷ s) in
    if is_lower_or_digit c && is_upper d then c ∷ b'_' ∷ d ∷ parted else c ∷ kept

unfoldable pub snake_key : Text → Text
snake_key key = to_lower (split_words key)

-- A value as `JSON.parse` makes it. A number is its literal, and whether it is truthy.
mutual
  pub data Json : Type 0 where
    json_null : Json
    json_bool : Bool → Json
    json_number : Bool → Text → Json
    json_string : Text → Json
    json_array : Jsons → Json
    json_object : Fields → Json

  pub data Jsons : Type 0 where
    end_array : Jsons
    item : Json → Jsons → Jsons

  pub data Fields : Type 0 where
    end_object : Fields
    field : Text → Json → Fields → Fields

-- `out[key] = value`, which keeps the place of a key that is there.
unfoldable pub set_field : Text → Json → Fields → Fields
set_field key value end_object = field key value end_object
set_field key value (field k v fields) =
    let rest = set_field key value fields in
    if text_eq key k then field k value fields else field k v rest

-- `toCamelDeep` with `camel_key`, and `toSnakeDeep` with `snake_key`.
unfoldable mutual
  pub convert_deep : (Text → Text) → Json → Json
  convert_deep convert json_null = json_null
  convert_deep convert (json_bool b) = json_bool b
  convert_deep convert (json_number b n) = json_number b n
  convert_deep convert (json_string s) = json_string s
  convert_deep convert (json_array items) = json_array (convert_items convert items)
  convert_deep convert (json_object fields) = json_object (convert_fields convert fields end_object)

  pub convert_items : (Text → Text) → Jsons → Jsons
  convert_items convert end_array = end_array
  convert_items convert (item value items) =
      item (convert_deep convert value) (convert_items convert items)

  pub convert_fields : (Text → Text) → Fields → Fields → Fields
  convert_fields convert end_object out = out
  convert_fields convert (field key value fields) out =
      convert_fields convert fields (set_field (convert key) (convert_deep convert value) out)

unfoldable pub to_camel_deep : Json → Json
to_camel_deep = convert_deep camel_key

unfoldable pub to_snake_deep : Json → Json
to_snake_deep = convert_deep snake_key
