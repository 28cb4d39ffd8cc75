-- ===== src/Transfers/Parsing.antt =====
-- parse_import_rows of src/crm/services/transfers.py, on what the libraries' readers of JSON and CSV answer.
pub mod Reading
pub mod RoundTrip
use Prim.Native.Char.{code}
use main_sequence_crmapi.Transfers.Packing.{name_at, portable_format}
use main_sequence_crmapi.Common.{
  ℕ, String, str_eq, ◌≡◌, refl, ◌⊎◌, inl, inr, Bool, false, not, Option, none, some, List, [], ◌∷◌,
  ◌++◌, ◌==◌, if◌then◌else◌,
}
use main_sequence_crmapi.Campaigns.Briefing.{
  look, Json, Items, Fields, null, boolean, number, text, array, object, no_items, item, no_fields,
  field,
}

-- the groups that parse_import_rows supports
abbrev pub supported : List (String × String)
supported =
    ("companies", "company")
    ∷ ("contacts", "contact")
    ∷ ("tags", "tag")
    ∷ ("pipelines", "pipeline")
    ∷ ("stages", "stage")
    ∷ ("deals", "deal")
    ∷ ("notes", "note")
    ∷ ("tasks", "task")
    ∷ ("contact_company_affiliations", "contact_company_affiliation")
    ∷ []

-- what parse_import_rows does: it answers the rows and the type of those that name none, or raises
-- an ImportInputError, whose message is left out
pub data Parsed : Type 0 where
  parsed : List Fields → String → Parsed
  input_error : Parsed

pub Parsed-cases :
    (p : Parsed)
    → (p ≡ input_error) ⊎ ((rows : List Fields) × (entity : String) × (p ≡ parsed rows entity))
Parsed-cases input_error = inl refl
Parsed-cases (parsed rows entity) = inr (rows, entity, refl)

-- json.loads with parse_int=str and parse_float=str, of a document whose numbers hold their spelling
unfoldable mutual
  pub strings_of : Json → Json
  strings_of null = null
  strings_of (boolean b) = boolean b
  strings_of (number n) = text n
  strings_of (text t) = text t
  strings_of (array xs) = array (items_strings xs)
  strings_of (object fs) = object (fields_strings fs)

  pub items_strings : Items → Items
  items_strings no_items = no_items
  items_strings (item v items) = item (strings_of v) (items_strings items)

  pub fields_strings : Fields → Fields
  fields_strings no_fields = no_fields
  fields_strings (field k v rest) = field k (strings_of v) (fields_strings rest)

-- {**value, key: v}
unfoldable pub set_field : Fields → String → Json → Fields
set_field no_fields key v = field key v no_fields
set_field (field k w rest) key v =
    if str_eq k key then field k v rest else field k w (set_field rest key v)

abbrev pub type_key : String
type_key = "__entity_type"

-- the rows of a portable group, or an error
unfoldable pub portable_rows : String → Items → Option (List Fields)
unfolding set_field
portable_rows table no_items = some []
portable_rows table (item (object row) items) = elim (portable_rows table items) [
  | none ↦ none
  | some rows ↦ some (set_field row type_key (text table) ∷ rows)
]
portable_rows table (item null items) = none
portable_rows table (item (boolean b) items) = none
portable_rows table (item (number n) items) = none
portable_rows table (item (text t) items) = none
portable_rows table (item (array xs) items) = none

abbrev pub as_items : Json → Option Items
as_items null = none
as_items (boolean b) = none
as_items (number n) = none
as_items (text t) = none
as_items (array xs) = some xs
as_items (object fs) = none

abbrev pub as_fields : Option Json → Option Fields
as_fields none = none
as_fields (some null) = none
as_fields (some (boolean b)) = none
as_fields (some (number n)) = none
as_fields (some (text t)) = none
as_fields (some (array xs)) = none
as_fields (some (object fs)) = some fs

abbrev pub is_text : Option Json → String → Bool
is_text none t = false
is_text (some null) t = false
is_text (some (boolean b)) t = false
is_text (some (number n)) t = false
is_text (some (text s)) t = str_eq s t
is_text (some (array xs)) t = false
is_text (some (object fs)) t = false

-- the rows of the portable groups in their order, where none of them is refused
unfoldable pub portable_groups : Fields → Option (List Fields)
unfolding portable_rows name_at
portable_groups no_fields = some []
portable_groups (field group v rest) = elim (name_at supported group) [
  | none ↦ none
  | some table ↦ elim (as_items v) [
    | none ↦ none
    | some items ↦ elim (portable_rows table items) [
      | none ↦ none
      | some rows ↦ elim (portable_groups rest) [ none ↦ none | some more ↦ some (rows ++ more) ]
    ]
  ]
]

-- parse_import_rows with the portable adapter, on what json.loads answers
unfoldable pub parse_portable : Json → Parsed
unfolding portable_groups main_sequence_crmapi.Campaigns.Briefing.look
parse_portable document = elim (as_fields (some document)) [
  | none ↦ input_error
  | some fs ↦
      if not (is_text (look fs "format") portable_format)
      then input_error
      else elim (as_fields (look fs "entities")) [
        | none ↦ input_error
        | some groups ↦ elim (portable_groups groups) [
          | none ↦ input_error
          | some rows ↦ parsed rows "bundle"
        ]
      ]
]

-- group.removesuffix("s"); 115 is the code of the letter
unfoldable pub singular : String → String
singular String.[] = String.[]
singular (String.◌∷◌ c String.[]) = if code c == 115 then String.[] else String.◌∷◌ c String.[]
singular (String.◌∷◌ c (String.◌∷◌ d rest)) = String.◌∷◌ c (singular (String.◌∷◌ d rest))

-- the other keys of a value
unfoldable pub without_key : Fields → String → Fields
without_key no_fields key = no_fields
without_key (field k v rest) key =
    let more = without_key rest key in if str_eq k key then more else field k v more

-- {"__entity_type": t, **value}
unfoldable pub typed_row : String → Fields → Fields
unfolding without_key main_sequence_crmapi.Campaigns.Briefing.look
typed_row t value =
    field type_key (elim (look value type_key) [ none ↦ text t | some v ↦ v ])
      (without_key value type_key)

-- the rows of a table of a bundle: its values that are objects
unfoldable pub table_rows_of : String → Items → List Fields
unfolding typed_row
table_rows_of t no_items = []
table_rows_of t (item (object row) items) = typed_row t row ∷ table_rows_of t items
table_rows_of t (item null items) = table_rows_of t items
table_rows_of t (item (boolean b) items) = table_rows_of t items
table_rows_of t (item (number n) items) = table_rows_of t items
table_rows_of t (item (text u) items) = table_rows_of t items
table_rows_of t (item (array xs) items) = table_rows_of t items

-- the rows of the tables of a bundle that are arrays
unfoldable pub bundle_rows : Fields → List Fields
unfolding table_rows_of singular
bundle_rows no_fields = []
bundle_rows (field group v rest) = elim (as_items v) [
  | none ↦ bundle_rows rest
  | some items ↦ table_rows_of (singular group) items ++ bundle_rows rest
]

-- parse_import_rows with the adapters of table bundles, on what json.loads answers
unfoldable pub parse_bundle : Json → Parsed
unfolding bundle_rows main_sequence_crmapi.Campaigns.Briefing.look
parse_bundle document = elim (as_fields (some document)) [
  | none ↦ input_error
  | some fs ↦ elim (look fs "tables") [
    | none ↦ parsed (bundle_rows fs) "bundle"
    | some tables ↦ elim (as_fields (some tables)) [
      | none ↦ input_error
      | some groups ↦ parsed (bundle_rows groups) "bundle"
    ]
  ]
]

-- ImportAdapterId
pub data Adapter : Type 0 where
  generic_csv atomic_csv atomic_legacy_json atomic_raw_json portable : Adapter

-- what the libraries' readers make of an upload: the rows of CSV, and a JSON document with
-- the spelling of its numbers, where they read one
pub record Content : Type 0 where
  pub size : ℕ
  pub digest : String
  pub csv_rows : Option (List Fields)
  pub document : Option Json

-- the branches on `not entity_type` and on what the CSV reader raises
abbrev pub parse_csv : Option String → Option (List Fields) → Parsed
parse_csv none rows = input_error
parse_csv (some entity) none = input_error
parse_csv (some entity) (some rows) = if str_eq entity "" then input_error else parsed rows entity

unfoldable pub parse_document : (Json → Parsed) → Option Json → Parsed
unfolding strings_of
parse_document parse none = input_error
parse_document parse (some document) = parse (strings_of document)

unfoldable pub parse_import_rows : Adapter → Option String → Content → Parsed
unfolding parse_portable parse_bundle parse_document
parse_import_rows generic_csv entity content = parse_csv entity content.csv_rows
parse_import_rows atomic_csv entity content = parse_csv entity content.csv_rows
parse_import_rows atomic_legacy_json entity content = parse_document parse_bundle content.document
parse_import_rows atomic_raw_json entity content = parse_document parse_bundle content.document
parse_import_rows portable entity content = parse_document parse_portable content.document
