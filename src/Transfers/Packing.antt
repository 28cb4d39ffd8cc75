-- ===== src/Transfers/Packing.antt =====
-- The portable package of an export: src/crm/portability/exporting.py with create_export of
-- src/crm/repositories/transfers/exports.py. A document is decoded JSON.
use main_sequence_crmapi.Common.{
  str_mem, String, str_eq, Option, none, some, List, [], ◌∷◌, ◌++◌, if◌then◌else◌,
}
use main_sequence_crmapi.Campaigns.Briefing.{
  Json, Items, Fields, text, array, object, no_items, item, no_fields, field,
}

-- a table of names: the value at a key
unfoldable pub name_at : List (String × String) → String → Option String
name_at [] key = none
name_at ((k, v) ∷ names) key = if str_eq k key then some v else name_at names key

-- EXPORT_ENTITY_TABLES
abbrev pub export_entity_tables : List (String × String)
export_entity_tables =
    ("companies", "company")
    ∷ ("contacts", "contact")
    ∷ ("deals", "deal")
    ∷ ("tasks", "task")
    ∷ ("notes", "note")
    ∷ ("tags", "tag")
    ∷ []

-- EXPORT_TABLE_KEYS
abbrev pub export_table_keys : List (String × String)
export_table_keys =
    ("company", "companies")
    ∷ ("contact", "contacts")
    ∷ ("deal", "deals")
    ∷ ("task", "tasks")
    ∷ ("note", "notes")
    ∷ ("tag", "tags")
    ∷ ("pipeline", "pipelines")
    ∷ ("stage", "stages")
    ∷ []

abbrev pub all_export_tables : List String
all_export_tables =
    "company" ∷ "contact" ∷ "tag" ∷ "pipeline" ∷ "stage" ∷ "deal" ∷ "note" ∷ "task" ∷ []

-- None where the source raises KeyError
unfoldable pub export_entity_names : Option String → Option (List String)
unfolding name_at
export_entity_names none = some all_export_tables
export_entity_names (some entity) = elim (name_at export_entity_tables entity) [
  | none ↦ none
  | some table ↦ some (table ∷ [])
]

unfoldable pub export_record_key : String → Option String
unfolding name_at
export_record_key table = name_at export_table_keys table

-- the rows of each group of a document, by the group's name
abbrev pub Groups : Type 0
Groups = List (String × List Fields)

unfoldable pub records_of : (String → List Fields) → List String → Option Groups
unfolding export_record_key
records_of table_rows [] = some []
records_of table_rows (table ∷ tables) = elim (export_record_key table) [
  | none ↦ none
  | some key ↦ elim (records_of table_rows tables) [
    | none ↦ none
    | some groups ↦ some ((key, table_rows table) ∷ groups)
  ]
]

-- the records of a portable export: contacts bring the affiliations that are theirs
unfoldable pub portable_records : (String → List Fields) → List Fields → List String → Option Groups
unfolding records_of str_mem
portable_records table_rows affiliations tables = elim (records_of table_rows tables) [
  | none ↦ none
  | some groups ↦
      if str_mem "contact" tables
      then some (groups ++ ("contact_company_affiliations", affiliations) ∷ [])
      else some groups
]

unfoldable pub row_items : List Fields → Items
row_items [] = no_items
row_items (row ∷ rows) = item (object row) (row_items rows)

unfoldable pub group_fields : Groups → Fields
unfolding row_items
group_fields [] = no_fields
group_fields ((key, rows) ∷ groups) = field key (array (row_items rows)) (group_fields groups)

abbrev pub portable_format : String
portable_format = "mainsequence.crm.portable@v1"

-- The output of package_export as render_export reads it back from the store: the groups and the fields of
-- the output have the order that jsonb gives to keys. The rows came from jsonb, and are as it has them.
unfoldable pub render_export : String → Groups → Json
unfolding group_fields
render_export exported_at groups = object (
    field "format" (text portable_format) (
      field "entities" (object (group_fields groups))
        (field "exported_at" (text exported_at) no_fields)))
