-- ===== src/Affiliations/Tests.antt =====
-- The primary affiliation of one contact, and the theorems at it.
use main_sequence_crmapi.Common.{
  get, count_where, ◌≤◌, String, str_eq, ◌≡◌, refl, Bool, true, false, none, some, [], ◌∷◌, arith,
}
use main_sequence_crmapi.Affiliations.Periods.{period_bounds}
use main_sequence_crmapi.Affiliations.Rows.{
  primary_of, ContactRow, AffiliationRow, Db, AffiliationTransition, current, former, changed,
}
use main_sequence_crmapi.Affiliations.Writes.{write, company_transition}
use main_sequence_crmapi.Affiliations.Primary.{primary_company, IsProjected, write_projected}
use main_sequence_crmapi.Affiliations.Calendar.{AreBounds, period_bounds_days}

abbrev blank : String → Bool
blank s = str_eq s ""

abbrev ana : ContactRow
ana = record { version = 4; archived_at = none; company_uid = some 3 }

abbrev old_row : AffiliationRow
old_row = record {
  uid = 20;
  contact_uid = 7;
  company_uid = 3;
  version = 2;
  archived_at = none;
  status = current;
  is_primary = true;
  started_period = some "2021";
  ended_period = none;
  job_title = none;
}

abbrev before : Db
before = record {
  contacts = (7, ana) ∷ [];
  companies = (3, none) ∷ (5, none) ∷ [];
  affiliations = old_row ∷ [];
}

abbrev cmd : AffiliationTransition
cmd = record {
  expected_contact_version = 4;
  previous_status = some former;
  new_company_uid = some 5;
  new_started_period = some "2024-02";
  previous_ended_period = some "2024-01-31";
  new_job_title = some "CTO";
}

abbrev after_it : Db
after_it = record {
  contacts = (7, record { version = 5; archived_at = none; company_uid = some 5 }) ∷ [];
  companies = (3, none) ∷ (5, none) ∷ [];
  affiliations =
      record {
        uid = 21;
        contact_uid = 7;
        company_uid = 5;
        version = 1;
        archived_at = none;
        status = current;
        is_primary = true;
        started_period = some "2024-02";
        ended_period = none;
        job_title = some "CTO";
      }
      ∷ record old_row {
        version = 3;
        is_primary = false;
        status = former;
        ended_period = some "2024-01-31";
      }
      ∷ [];
}

february : period_bounds "2024-02" ≡ some (20240201, 20240229)
unfolding main_sequence_crmapi.Affiliations.Periods.period_bounds
    main_sequence_crmapi.Affiliations.Periods.month_bounds
february = refl

no_day : period_bounds "2023-02-29" ≡ none
unfolding main_sequence_crmapi.Affiliations.Periods.period_bounds
    main_sequence_crmapi.Affiliations.Periods.day_bounds
no_day = refl

no_part : period_bounds "24-02" ≡ none
unfolding main_sequence_crmapi.Affiliations.Periods.period_bounds
no_part = refl

before-IsProjected : IsProjected before 7
unfolding main_sequence_crmapi.Common.get main_sequence_crmapi.Common.find
    main_sequence_crmapi.Common.count_where
before-IsProjected = (ana, refl, refl, ground arith)

moved_once : write blank 7 (company_transition 21 cmd) before ≡ changed after_it
unfolding main_sequence_crmapi.Affiliations.Writes.write
    main_sequence_crmapi.Affiliations.Periods.period_bounds main_sequence_crmapi.Common.get
    main_sequence_crmapi.Common.find main_sequence_crmapi.Common.put
    main_sequence_crmapi.Common.update_where main_sequence_crmapi.Affiliations.Periods.month_bounds
    main_sequence_crmapi.Affiliations.Periods.day_bounds
    main_sequence_crmapi.Affiliations.Periods.characters
moved_once = refl

period_bounds_days_example : AreBounds 20240201 20240229
period_bounds_days_example = period_bounds_days "2024-02" 20240201 20240229 february

write_projected_example :
    (c : ContactRow) × (get after_it.contacts 7 ≡ some c)
    × (c.company_uid ≡ primary_company after_it.affiliations 7)
    × (count_where (primary_of 7) after_it.affiliations ≤ 1)
write_projected_example =
    write_projected blank 7 (company_transition 21 cmd) before after_it before-IsProjected
      moved_once
