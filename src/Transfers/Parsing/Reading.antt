-- ===== src/Transfers/Parsing/Reading.antt =====
-- How parse_import_rows of src/crm/services/transfers.py reads the groups that create_export of
-- src/crm/repositories/transfers/exports.py makes.
use mathlib.Core.List.{append_assoc}
use main_sequence_crmapi.Common.{
  str_mem, String, str_eq, eq_iff, ◌≡◌, refl, sym, ap, ◌∙◌, inl, inr, Bool, true, ◌&&◌, Option,
  none, some, List, [], ◌∷◌, ◌++◌, map, arith, if◌then◌else◌, Bool-cases,
}
use main_sequence_crmapi.Campaigns.Briefing.{Fields, text}
use main_sequence_crmapi.Transfers.Packing.{
  name_at, all_export_tables, export_entity_names, export_record_key, Groups, records_of, row_items,
  group_fields,
}
use main_sequence_crmapi.Transfers.Parsing.{
  supported, items_strings, fields_strings, set_field, type_key, portable_rows, portable_groups,
}

-- the row that an import makes of an exported row of a table: its numbers are texts
abbrev pub tagged : String → Fields → Fields
tagged table row = set_field (fields_strings row) type_key (text table)

-- the rows of the tables, in the tables' order
unfoldable pub exported_rows : (String → List Fields) → List String → List Fields
exported_rows table_rows [] = []
exported_rows table_rows (table ∷ tables) =
    map (tagged table) (table_rows table) ++ exported_rows table_rows tables

pub portable_rows-row_items :
    (table : String) (rows : List Fields)
    → portable_rows table (items_strings (row_items rows)) ≡ some (map (tagged table) rows)
unfolding main_sequence_crmapi.Transfers.Parsing.strings_of
    main_sequence_crmapi.Transfers.Parsing.portable_rows
    main_sequence_crmapi.Transfers.Packing.row_items
portable_rows-row_items table [] = refl
portable_rows-row_items table (row ∷ rows) = rw (portable_rows-row_items table rows) refl

abbrev known : List String → Bool
known [] = true
known (table ∷ tables) = str_mem table all_export_tables && known tables

-- the table's key is that of a group which an import gives back to the table
abbrev Back : String → Type 0
Back table =
    (key : String) × (export_record_key table ≡ some key) × (name_at supported key ≡ some table)

Back-same : (a b : String) → str_eq a b ≡ true → Back b → Back a
Back-same a b e back = let same : a ≡ b = (eq_iff a b).0 e in rw (same) back

key-Back : (table : String) → str_mem table all_export_tables ≡ true → Back table
unfolding main_sequence_crmapi.Common.str_mem main_sequence_crmapi.Transfers.Packing.name_at
    main_sequence_crmapi.Transfers.Packing.export_record_key
key-Back table h = elim (Bool-cases (str_eq table "company")) [
  | inl e ↦ Back-same table "company" e ("companies", refl, refl)
  | inr a ↦ elim (Bool-cases (str_eq table "contact")) [
    | inl e ↦ Back-same table "contact" e ("contacts", refl, refl)
    | inr b ↦ elim (Bool-cases (str_eq table "tag")) [
      | inl e ↦ Back-same table "tag" e ("tags", refl, refl)
      | inr c ↦ elim (Bool-cases (str_eq table "pipeline")) [
        | inl e ↦ Back-same table "pipeline" e ("pipelines", refl, refl)
        | inr d ↦ elim (Bool-cases (str_eq table "stage")) [
          | inl e ↦ Back-same table "stage" e ("stages", refl, refl)
          | inr f ↦ elim (Bool-cases (str_eq table "deal")) [
            | inl e ↦ Back-same table "deal" e ("deals", refl, refl)
            | inr g ↦ elim (Bool-cases (str_eq table "note")) [
              | inl e ↦ Back-same table "note" e ("notes", refl, refl)
              | inr i ↦
                  Back-same table "task" (ground (arith, h, a, b, c, d, f, g, i))
                    ("tasks", refl, refl)
            ]
          ]
        ]
      ]
    ]
  ]
]

records_step :
    (table_rows : String → List Fields) (table key : String) (tables : List String)
    (groups : Groups)
    → export_record_key table ≡ some key
    → records_of table_rows tables ≡ some groups
    → records_of table_rows (table ∷ tables) ≡ some ((key, table_rows table) ∷ groups)
unfolding main_sequence_crmapi.Transfers.Packing.records_of
records_step table_rows table key tables groups here there = ground (arith, here, there)

-- the rows of the groups of a document that json.loads has read
abbrev pub read_groups : Groups → Option (List Fields)
read_groups groups = portable_groups (fields_strings (group_fields groups))

pub read_nil : read_groups [] ≡ some []
unfolding main_sequence_crmapi.Transfers.Packing.group_fields
    main_sequence_crmapi.Transfers.Parsing.portable_groups
    main_sequence_crmapi.Transfers.Parsing.strings_of
read_nil = refl

pub groups_step :
    (table key : String) (rows more : List Fields) (groups : Groups)
    → name_at supported key ≡ some table
    → read_groups groups ≡ some more
    → read_groups ((key, rows) ∷ groups) ≡ some (map (tagged table) rows ++ more)
unfolding main_sequence_crmapi.Transfers.Packing.group_fields
    main_sequence_crmapi.Transfers.Parsing.portable_groups
    main_sequence_crmapi.Transfers.Parsing.strings_of
groups_step table key rows more groups here there =
    ground (arith, here, portable_rows-row_items table rows, there)

-- the groups of known tables, read before other groups
pub groups_back :
    (table_rows : String → List Fields) (tables : List String) (rest : Groups) (more : List Fields)
    → known tables ≡ true
    → read_groups rest ≡ some more
    → (groups : Groups) × (records_of table_rows tables ≡ some groups)
      × (read_groups (groups ++ rest) ≡ some (exported_rows table_rows tables ++ more))
unfolding main_sequence_crmapi.Transfers.Packing.records_of exported_rows
groups_back table_rows [] rest more h e = ([], refl, e)
groups_back table_rows (table ∷ tables) rest more h e =
    let (key, here, back) = key-Back table (ground (arith, h)) in
    let (groups, there, read) = groups_back table_rows tables rest more (ground (arith, h)) e in
    let rows : List Fields = exported_rows table_rows tables in
    (
      (key, table_rows table) ∷ groups,
      records_step table_rows table key tables groups here there,
      groups_step table key (table_rows table) (rows ++ more) (groups ++ rest) back read
          ∙ ap some (sym (append_assoc (map (tagged table) (table_rows table)) rows more)),
    )

pub names_known :
    (entity : Option String) (tables : List String)
    → export_entity_names entity ≡ some tables
    → known tables ≡ true
unfolding main_sequence_crmapi.Common.str_mem main_sequence_crmapi.Transfers.Packing.name_at
    main_sequence_crmapi.Transfers.Packing.export_entity_names
names_known none tables h = ground arith
names_known (some entity) tables h = ground arith

-- the rows that an import makes of the affiliations of a portable export
abbrev pub affiliation_rows : List Fields → List String → List Fields
affiliation_rows affiliations tables =
    if str_mem "contact" tables then map (tagged "contact_company_affiliation") affiliations else []
