-- ===== src/Affiliations/Rows.antt =====
-- The tables of src/crm/repositories/contacts/affiliations.py, and the values of src/crm/models/affiliations.py.
use main_sequence_crmapi.Common.{
  ℕ, String, str_eq, Bool, true, false, not, ◌&&◌, Option, none, some, List, Dict, is_some, ◌==◌,
}

-- "unknown" is unclear
pub data AffiliationStatus : Type 0 where
  current former unclear : AffiliationStatus

pub record ContactRow : Type 0 where
  pub version : ℕ
  pub archived_at : Option ℕ
  pub company_uid : Option ℕ

pub record AffiliationRow : Type 0 where
  pub uid : ℕ
  pub contact_uid : ℕ
  pub company_uid : ℕ
  pub version : ℕ
  pub archived_at : Option ℕ
  pub status : AffiliationStatus
  pub is_primary : Bool
  pub started_period : Option String
  pub ended_period : Option String
  pub job_title : Option String

pub record Db : Type 0 where
  pub contacts : Dict ContactRow
  -- the time of archiving of each company, if it is archived
  pub companies : Dict (Option ℕ)
  pub affiliations : List AffiliationRow

-- AffiliationCreate, AffiliationPatch with its candidate, and AffiliationTransition
pub record AffiliationCreate : Type 0 where
  pub company_uid : ℕ
  pub status : AffiliationStatus
  pub is_primary : Bool
  pub started_period : Option String
  pub ended_period : Option String
  pub job_title : Option String
  pub expected_contact_version : ℕ

pub record AffiliationPatch : Type 0 where
  pub expected_version : ℕ
  pub expected_contact_version : ℕ
  -- some none is a null, which only a period or a title may be set to
  pub status : Option (Option AffiliationStatus)
  pub started_period : Option (Option String)
  pub ended_period : Option (Option String)
  pub job_title : Option (Option String)

pub record AffiliationTransition : Type 0 where
  pub expected_contact_version : ℕ
  pub previous_status : Option AffiliationStatus
  pub new_company_uid : Option ℕ
  pub new_started_period : Option String
  pub previous_ended_period : Option String
  pub new_job_title : Option String

-- the write took effect, or raised
pub data Changed : Type 0 where
  changed : Db → Changed
  rejected lost_version : Changed

abbrev pub is_live {ℓ} : {A : Type ℓ} → Option A → Bool
is_live none = true
is_live (some at) = false

abbrev pub is_current : AffiliationStatus → Bool
is_current current = true
is_current former = false
is_current unclear = false

abbrev pub is_former : AffiliationStatus → Bool
is_former current = false
is_former former = true
is_former unclear = false

-- previous_status may not be unknown
abbrev pub unclear_status : Option AffiliationStatus → Bool
unclear_status none = false
unclear_status (some s) = not (is_former s) && not (is_current s)

abbrev pub former_status : Option AffiliationStatus → Bool
former_status none = false
former_status (some s) = is_former s

abbrev pub current_status : Option AffiliationStatus → Bool
current_status none = false
current_status (some s) = is_current s

-- a status that is set to null
abbrev pub is_null : Option (Option AffiliationStatus) → Bool
is_null none = false
is_null (some value) = not (is_some value)

-- an optional text that is there and not empty
abbrev pub not_empty : Option String → Bool
not_empty none = false
not_empty (some s) = not (str_eq s "")

-- the UUID is that of the company
abbrev pub is_company : Option ℕ → ℕ → Bool
is_company none company = false
is_company (some uid) company = uid == company

-- a live primary affiliation of the contact
abbrev pub primary_of : ℕ → AffiliationRow → Bool
primary_of contact a = a.contact_uid == contact && a.is_primary && is_live a.archived_at
