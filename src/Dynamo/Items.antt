-- ===== src/Dynamo/Items.antt =====
-- Reading the attributes of an item, as each store of djinn/providers/dynamo/src does, and the maps
-- that they hold.
use Prim.Native.String.{◌++◌}
use coordin.Common.{
  ℕ, String, Option, none, some, List, [], ◌∷◌, Result, ok, err, and_then, ◌≡◌, refl, ap, ◌≤◌,
  arith,
}
use coordin.Common.Chars.{parse_uint, parse_int_error}
use coordin.Common.Decimal.{parse_uint-show_u64}
use coordin.Common.Dict
use coordin.Common.Dict.{Dict}
use coordin.Common.Text.{show_u64}
use coordin.Error.{Error, storage}
use coordin.Dynamo.{
  AttributeValue, str, num, bin, obj, Values, nil, cons, Fields, end, field, Item, Formats,
}

-- `.and_then(|v| v.as_s().ok())`
abbrev pub as_s : Option AttributeValue → Option String
as_s (some (str t)) = some t
as_s _ = none

abbrev pub as_n : Option AttributeValue → Option String
as_n (some (num t)) = some t
as_n _ = none

abbrev pub or_missing : {A : Type 0} → String → Option A → Result Error A
or_missing name none = err (storage ("missing " ++ name))
or_missing name (some a) = ok a

-- A text that must be there.
abbrev pub get_s : String → Item → Result Error String
get_s name item = or_missing name (as_s (Dict.get name item))

abbrev pub bad : {A : Type 0} → String → String → Result Error A
bad name reason = err (storage ("bad " ++ name ++ ": " ++ reason))

abbrev pub or_bad : {A : Type 0} → String → Result String A → Result Error A
or_bad name (ok a) = ok a
or_bad name (err reason) = bad name reason

abbrev pub get_date : Formats → String → Item → Result Error ℕ
get_date formats name item = and_then (get_s name item) λ t. or_bad name (formats.parse_date t)

abbrev pub u64_max : ℕ
u64_max = 18446744073709551615

-- `parse::<u64>()`
unfoldable pub parse_u64 : String → Result String ℕ
parse_u64 t = elim (parse_uint u64_max t) [ none ↦ err (parse_int_error u64_max t) | some n ↦ ok n ]

abbrev pub get_u64 : String → Item → Result Error ℕ
get_u64 name item =
    and_then (or_missing name (as_n (Dict.get name item))) λ t. or_bad name (parse_u64 t)

pub parse_u64-show_u64 : (n : ℕ) → n ≤ u64_max → parse_u64 (show_u64 n) ≡ ok n
unfolding parse_u64
parse_u64-show_u64 n h = rw (parse_uint-show_u64 u64_max n h (omega arith), parse_u64) refl

-- A map as an attribute: what `AttributeValue::M` takes, and what iteration meets.
abbrev pub to_fields : Item → Fields
to_fields [] = end
to_fields ((k, v) ∷ m) = field k v (to_fields m)

abbrev pub of_fields : Fields → Item
of_fields end = []
of_fields (field k v m) = (k, v) ∷ of_fields m

pub of_fields-to_fields : (m : Item) → of_fields (to_fields m) ≡ m
of_fields-to_fields [] = refl
of_fields-to_fields ((k, v) ∷ m) = ap (λ t. (k, v) ∷ t) (of_fields-to_fields m)

-- A map of texts.
abbrev pub text_map : Dict String → Fields
text_map [] = end
text_map ((k, v) ∷ m) = field k (str v) (text_map m)

abbrev pub text_or : Error → AttributeValue → Result Error String
text_or e (str t) = ok t
text_or e _ = err e

-- `.map(…).collect::<Result<HashMap<String, String>, Error>>()`, with the error for a key.
unfoldable pub read_texts : (String → Error) → Fields → Result Error (Dict String)
read_texts e end = ok []
read_texts e (field k v m) =
    and_then (text_or (e k) v) λ t. and_then (read_texts e m) λ rest. ok ((k, t) ∷ rest)

pub read_texts-text_map : (e : String → Error) (m : Dict String) → read_texts e (text_map m) ≡ ok m
unfolding read_texts
read_texts-text_map e [] = refl
read_texts-text_map e ((k, v) ∷ m) = rw (read_texts-text_map e m) refl

-- `AttributeValue::L`, as a list of its values.
abbrev pub to_values : List AttributeValue → Values
to_values [] = nil
to_values (v ∷ vs) = cons v (to_values vs)

-- `.map(read).collect::<Result<Vec<_>, _>>()`
unfoldable pub read_values :
    {A : Type 0} → (AttributeValue → Result Error A) → Values → Result Error (List A)
read_values read nil = ok []
read_values read (cons v vs) =
    and_then (read v) λ a. and_then (read_values read vs) λ rest. ok (a ∷ rest)

abbrev pub not_a_string : String → String → Error
not_a_string map k = storage (map ++ " value for '" ++ k ++ "' is not a string")

-- A map of texts, none where the attribute is not a map, and bytes likewise.
abbrev pub texts_in : String → Option AttributeValue → Result Error (Dict String)
texts_in name (some (obj m)) = read_texts (not_a_string name) m
texts_in name _ = ok []

abbrev pub bytes_in : Option AttributeValue → List ℕ
bytes_in (some (bin bytes)) = bytes
bytes_in _ = []

-- An attribute that is left out where there are no bytes.
abbrev pub bytes_field : String → List ℕ → Item
bytes_field name [] = []
bytes_field name (b ∷ bs) = (name, bin (b ∷ bs)) ∷ []
