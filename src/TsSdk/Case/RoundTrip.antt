-- ===== src/TsSdk/Case/RoundTrip.antt =====
-- The conversion of whole values, there and back.
use cryptokorr.Common.{
  Text, text_eq, text_eq_sound, ◌≡◌, ◌≢◌, refl, sym, ap, ◌∙◌, subst, inl, inr, Bool, false,
  Bool-cases,
}
use mathlib.Core.Path.{ap₂}
use cryptokorr.TsSdk.Case.{
  Json, json_null, json_bool, json_number, json_string, json_array, json_object, Jsons, end_array,
  item, Fields, end_object, field, camel_key, snake_key, set_field, convert_deep, convert_items,
  convert_fields, to_camel_deep, to_snake_deep,
}
use cryptokorr.TsSdk.Case.Keys.{IsSnakeKey, snake_key-camel_key}

abbrev pub Fresh : Text → Fields → Type 0
Fresh key end_object = Unit {0}
Fresh key (field k v fields) = (key ≢ k) × Fresh key fields

abbrev pub Distinct : Fields → Type 0
Distinct end_object = Unit {0}
Distinct (field k v fields) = Fresh k fields × Distinct fields

-- Values as the API sends them: no object has a key twice, and all keys are snake_case.
mutual
  pub data IsWire : Json → Type 0 where
    wire_null : IsWire json_null
    wire_bool : (b : Bool) → IsWire (json_bool b)
    wire_number : (b : Bool) (n : Text) → IsWire (json_number b n)
    wire_string : (s : Text) → IsWire (json_string s)
    wire_array : (items : Jsons) → AreWire items → IsWire (json_array items)
    wire_object : (fields : Fields) → Distinct fields → HasWire fields → IsWire (json_object fields)

  pub data AreWire : Jsons → Type 0 where
    wire_none : AreWire end_array
    wire_item :
        (value : Json) (items : Jsons) → IsWire value → AreWire items → AreWire (item value items)

  pub data HasWire : Fields → Type 0 where
    wire_empty : HasWire end_object
    wire_field :
        (key : Text) (value : Json) (fields : Fields)
        → IsSnakeKey key
        → IsWire value
        → HasWire fields
        → HasWire (field key value fields)

-- The fields as they stand, each converted.
rename : (Text → Text) → Fields → Fields
rename f end_object = end_object
rename f (field key value fields) = field (f key) (convert_deep f value) (rename f fields)

append : Fields → Fields → Fields
append end_object fields = fields
append (field k v out) fields = field k v (append out fields)

append_field :
    (out : Fields) (key : Text) (value : Json) (fields : Fields)
    → append (append out (field key value end_object)) fields ≡ append out (field key value fields)
unfolding append
append_field end_object key value fields = refl
append_field (field k v out) key value fields = ap (field k v) (append_field out key value fields)

Fresh-append :
    (k key : Text) (value : Json) (out fields : Fields)
    → Fresh k (append out (field key value fields))
    → key ≢ k
unfolding append
Fresh-append k key value end_object fields h e = h.0 (sym e)
Fresh-append k key value (field k' v out) fields h e = Fresh-append k key value out fields h.1 e

append-empty : (out : Fields) → append out end_object ≡ out
unfolding append
append-empty end_object = refl
append-empty (field k v out) = ap (field k v) (append-empty out)

text_eq_differs : (s t : Text) → s ≢ t → text_eq s t ≡ false
text_eq_differs s t n = elim (Bool-cases (text_eq s t)) [
  | inl e ↦ absurd (n (text_eq_sound s t e))
  | inr e ↦ e
]

set_field-appends :
    (key : Text) (value : Json) (out fields : Fields)
    → Distinct (append out (field key value fields))
    → set_field key value out ≡ append out (field key value end_object)
unfolding set_field append
set_field-appends key value end_object fields d = refl
set_field-appends key value (field k v out) fields d =
    rw (text_eq_differs key k (Fresh-append k key value out fields d.0))
      (ap (field k v) (set_field-appends key value out fields d.1))

convert_fields-rename :
    (f : Text → Text) (fields out : Fields)
    → Distinct (append out (rename f fields))
    → convert_fields f fields out ≡ append out (rename f fields)
unfolding convert_fields rename append
convert_fields-rename f end_object out d = sym (append-empty out)
convert_fields-rename f (field key value fields) out d =
    rw (set_field-appends (f key) (convert_deep f value) out (rename f fields) d) (
      convert_fields-rename f fields (append out (field (f key) (convert_deep f value) end_object))
        (subst Distinct (sym (append_field out _ _ _)) d)
      ∙ append_field out (f key) (convert_deep f value) (rename f fields))

-- Two conversions, the second of which takes back what the first does to the keys of the wire.
module _ (f g : Text → Text) (back : (key : Text) → IsSnakeKey key → g (f key) ≡ key) where
  Fresh-rename :
      (key : Text) (fields : Fields)
      → IsSnakeKey key
      → HasWire fields
      → Fresh key fields
      → Fresh (f key) (rename f fields)
  unfolding rename
  Fresh-rename key _ s wire_empty h = tt
  Fresh-rename key _ s (wire_field k v fields s' w ws) h =
      (λ e. h.0 (sym (back key s) ∙ ap g e ∙ back k s'), Fresh-rename key fields s ws h.1)

  Distinct-rename :
      (fields : Fields) → HasWire fields → Distinct fields → Distinct (rename f fields)
  unfolding rename
  Distinct-rename _ wire_empty d = tt
  Distinct-rename _ (wire_field key v fields s w ws) d =
      (Fresh-rename key fields s ws d.0, Distinct-rename fields ws d.1)

  mutual
    unfolding convert_deep convert_items rename append

    convert-convert : (value : Json) → IsWire value → convert_deep g (convert_deep f value) ≡ value
    convert-convert _ wire_null = refl
    convert-convert _ (wire_bool b) = refl
    convert-convert _ (wire_number b n) = refl
    convert-convert _ (wire_string s) = refl
    convert-convert _ (wire_array items w) = ap json_array (convert_items-convert_items items w)
    convert-convert _ (wire_object fields d w) =
        let e = rename-rename fields w in
        ap json_object (
          ap (λ x. convert_fields g x end_object)
            (convert_fields-rename f fields end_object (Distinct-rename fields w d))
          ∙ convert_fields-rename g (rename f fields) end_object (subst Distinct (sym e) d)
          ∙ e)

    convert_items-convert_items :
        (items : Jsons) → AreWire items → convert_items g (convert_items f items) ≡ items
    convert_items-convert_items _ wire_none = refl
    convert_items-convert_items _ (wire_item value items w ws) =
        ap₂ item (convert-convert value w) (convert_items-convert_items items ws)

    rename-rename : (fields : Fields) → HasWire fields → rename g (rename f fields) ≡ fields
    rename-rename _ wire_empty = refl
    rename-rename _ (wire_field key value fields s w ws) =
        rw (back key s) (ap₂ (field key) (convert-convert value w) (rename-rename fields ws))

-- What the SDK makes of a body of the API, it sends back as it was: `toSnakeDeep` undoes
-- `toCamelDeep`, at every depth, on a value in which no object has a key twice and every key is made
-- of words of lower-case letters and digits, joined by single underscores, where each word after the
-- first begins with a letter and has a second code unit unless it is the last.
pub to_snake_deep-to_camel_deep :
    (value : Json) → IsWire value → to_snake_deep (to_camel_deep value) ≡ value
unfolding to_snake_deep to_camel_deep
to_snake_deep-to_camel_deep value w =
    convert-convert camel_key snake_key snake_key-camel_key value w
