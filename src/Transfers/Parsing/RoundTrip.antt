-- ===== src/Transfers/Parsing/RoundTrip.antt =====
-- parse_import_rows of src/crm/services/transfers.py reads what package_export of
-- src/crm/portability/exporting.py wrote.
use mathlib.Core.List.{Permᴰ}
use mathlib.Core.List.Permᴰ
use main_sequence_crmapi.Common.{List}
