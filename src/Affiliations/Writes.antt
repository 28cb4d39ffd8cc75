-- ===== src/Affiliations/Writes.antt =====
-- The writes of src/crm/repositories/contacts/affiliations.py, each a read and one statement on what it read, with
-- the validators of src/crm/models/affiliations.py. Whether a job title is blank, and the keys of new rows, are
-- arguments.
use main_sequence_crmapi.Affiliations.Rows.{
  is_live, is_current, is_former, unclear_status, former_status, current_status, is_null, not_empty,
  is_company, primary_of, AffiliationStatus, ContactRow, AffiliationRow, Db, AffiliationCreate,
  AffiliationPatch, AffiliationTransition, Changed, current, changed, rejected, lost_version,
}
use main_sequence_crmapi.Common.{
  get, put, row_where, find, update_where, ℕ, suc, String, Bool, true, false, not, ◌&&◌, ◌||◌,
  Option, none, some, List, ◌∷◌, is_some, ltb, ◌==◌, if◌then◌else◌,
}
use main_sequence_crmapi.Affiliations.Periods.{characters, period_bounds}

-- the company is there and not archived
abbrev pub company_live : Db → ℕ → Bool
company_live db uid = elim (get db.companies uid) [ none ↦ false | some at ↦ is_live at ]

-- the start is after the end
abbrev pub after_end : Option (ℕ × ℕ) → Option (ℕ × ℕ) → Bool
after_end none last = false
after_end (some first) none = false
after_end (some first) (some last) = ltb last.1 first.0

abbrev pub bounds_in : Option String → Option (ℕ × ℕ)
bounds_in none = none
bounds_in (some value) = period_bounds value

-- a period that is no period
abbrev pub bad_period : Option String → Bool
bad_period none = false
bad_period (some value) = not (is_some (period_bounds value))

abbrev pub company_ok : Db → Option ℕ → Bool
company_ok db none = true
company_ok db (some uid) = company_live db uid

-- a write of the affiliations of a contact
pub data Write : Type 0 where
  affiliation_create : ℕ → AffiliationCreate → Write
  affiliation_patch : ℕ → AffiliationPatch → Write
  company_transition : ℕ → AffiliationTransition → Write

module _ (is_blank : String → Bool) where
  abbrev pub bad_title : Option String → Bool
  bad_title none = false
  bad_title (some title) = is_blank title || ltb 255 (characters title)

  -- AffiliationFields.valid_period_and_primary
  unfoldable pub valid_fields :
      AffiliationStatus → Bool → Option String → Option String → Option String → Bool
  valid_fields status is_primary started ended title =
      not (is_primary && not (is_current status))
      && (is_former status || not (is_some ended))
      && not (bad_period started)
      && not (bad_period ended)
      && not (after_end (bounds_in started) (bounds_in ended))
      && not (bad_title title)

  abbrev pub new_affiliation : ℕ → ℕ → AffiliationCreate → AffiliationRow
  new_affiliation uid contact cmd = record {
    uid = uid;
    contact_uid = contact;
    company_uid = cmd.company_uid;
    version = 1;
    archived_at = none;
    status = cmd.status;
    is_primary = cmd.is_primary;
    started_period = cmd.started_period;
    ended_period = cmd.ended_period;
    job_title = cmd.job_title;
  }

  -- contact_changed of create_affiliation
  unfoldable pub create_gate : Db → ℕ → AffiliationCreate → Option ContactRow
  create_gate db contact cmd =
      row_where
        (λ c.
          is_live c.archived_at
          && c.version == cmd.expected_contact_version
          && (not cmd.is_primary || not (is_some c.company_uid))
          && company_live db cmd.company_uid)
        db.contacts contact

  abbrev pub with_company : AffiliationCreate → ContactRow → ContactRow
  with_company cmd c = record c {
    version = suc c.version;
    company_uid = if cmd.is_primary then some cmd.company_uid else c.company_uid;
  }

  abbrev pub created_db : ℕ → ℕ → AffiliationCreate → ContactRow → Db → Db
  created_db uid contact cmd c db = record db {
    contacts = put db.contacts contact (with_company cmd c);
    affiliations = new_affiliation uid contact cmd ∷ db.affiliations;
  }

  unfoldable pub create_affiliation : ℕ → ℕ → AffiliationCreate → Db → Changed
  unfolding valid_fields create_gate
  create_affiliation uid contact cmd db =
      if not
        (valid_fields cmd.status cmd.is_primary cmd.started_period cmd.ended_period cmd.job_title)
      then rejected
      else elim (create_gate db contact cmd) [
        | none ↦ lost_version
        | some c ↦ changed (created_db uid contact cmd c db)
      ]

  abbrev pub or_old {ℓ} : {A : Type ℓ} → Option A → A → A
  or_old none old = old
  or_old (some new) old = new

  abbrev pub new_status : Option (Option AffiliationStatus) → AffiliationStatus → AffiliationStatus
  new_status none old = old
  new_status (some none) old = old
  new_status (some (some new)) old = new

  abbrev pub patched : AffiliationPatch → AffiliationRow → AffiliationRow
  patched cmd a = record a {
    version = suc a.version;
    status = new_status cmd.status a.status;
    started_period = or_old cmd.started_period a.started_period;
    ended_period = or_old cmd.ended_period a.ended_period;
    job_title = or_old cmd.job_title a.job_title;
  }

  abbrev pub the_affiliation : ℕ → ℕ → AffiliationRow → Bool
  the_affiliation contact uid a = a.contact_uid == contact && a.uid == uid && is_live a.archived_at

  abbrev pub valid_row : AffiliationRow → Bool
  valid_row a = valid_fields a.status a.is_primary a.started_period a.ended_period a.job_title

  -- AffiliationChanges.not_empty, and the status is not null
  abbrev pub valid_changes : AffiliationPatch → Bool
  valid_changes cmd =
      not (is_null cmd.status)
      && (is_some cmd.status
          || is_some cmd.started_period
          || is_some cmd.ended_period
          || is_some cmd.job_title)

  -- from the affiliation that is read on
  unfoldable pub patch_row : ℕ → AffiliationPatch → Db → AffiliationRow → Changed
  unfolding valid_fields
  patch_row contact cmd db a =
      if not (valid_changes cmd && valid_row (patched cmd a))
      then rejected
      else elim (row_where (λ c. is_live c.archived_at && c.version == cmd.expected_contact_version)
          db.contacts contact) [
            | none ↦ lost_version
            | some c ↦
                if not (a.version == cmd.expected_version)
                then lost_version
                else changed (record db {
                  contacts = put db.contacts contact (record c { version = suc c.version });
                  affiliations =
                      update_where (the_affiliation contact a.uid) (patched cmd) db.affiliations;
                })
          ]

  unfoldable pub patch_affiliation : ℕ → ℕ → AffiliationPatch → Db → Changed
  unfolding patch_row
  patch_affiliation contact uid cmd db = elim (find (the_affiliation contact uid) db.affiliations) [
    | none ↦ rejected
    | some a ↦ patch_row contact cmd db a
  ]

  -- AffiliationTransition.valid_transition
  unfoldable pub valid_transition : AffiliationTransition → Bool
  valid_transition cmd =
      not (unclear_status cmd.previous_status)
      && (former_status cmd.previous_status || not (is_some cmd.previous_ended_period))
      && (is_some cmd.new_company_uid
          || (not (not_empty cmd.new_started_period) && not (not_empty cmd.new_job_title)))
      && not (bad_period cmd.new_started_period)
      && not (bad_period cmd.previous_ended_period)
      && not (bad_title cmd.new_job_title)

  abbrev pub demoted : AffiliationTransition → AffiliationRow → AffiliationRow
  demoted cmd a = record a {
    version = suc a.version;
    is_primary = false;
    status = or_old cmd.previous_status a.status;
    ended_period = cmd.previous_ended_period;
  }

  abbrev pub moved_to : ℕ → ℕ → AffiliationTransition → ℕ → AffiliationRow
  moved_to uid contact cmd company = record {
    uid = uid;
    contact_uid = contact;
    company_uid = company;
    version = 1;
    archived_at = none;
    status = current;
    is_primary = true;
    started_period = cmd.new_started_period;
    ended_period = none;
    job_title = cmd.new_job_title;
  }

  -- new_affiliation of transition_company
  abbrev pub with_new : ℕ → ℕ → AffiliationTransition → List AffiliationRow → List AffiliationRow
  with_new uid contact cmd rows = elim cmd.new_company_uid [
    | none ↦ rows
    | some company ↦ moved_to uid contact cmd company ∷ rows
  ]

  -- old_demoted
  abbrev pub with_old :
      AffiliationTransition → Option AffiliationRow → List AffiliationRow → List AffiliationRow
  with_old cmd none rows = rows
  with_old cmd (some old) rows =
      update_where (λ a. a.uid == old.uid && a.version == old.version) (demoted cmd) rows

  -- the tests before the statement: the previous affiliation, and how it continues
  abbrev pub previous_ok : AffiliationTransition → ContactRow → Option AffiliationRow → Bool
  previous_ok cmd c none = not (is_some cmd.previous_status) && not (is_some c.company_uid)
  previous_ok cmd c (some old) =
      is_some cmd.previous_status
      && is_company c.company_uid old.company_uid
      && not (after_end (bounds_in old.started_period) (bounds_in cmd.previous_ended_period))
      && not (current_status cmd.previous_status && is_company cmd.new_company_uid old.company_uid)

  -- the primary affiliation that is read
  abbrev pub primary_row : Db → ℕ → Option AffiliationRow
  primary_row db contact = find (primary_of contact) db.affiliations

  unfoldable pub transition_company : ℕ → ℕ → AffiliationTransition → Db → Changed
  unfolding valid_transition
  transition_company uid contact cmd db =
      if not (valid_transition cmd) then rejected else elim (get db.contacts contact) [
        | none ↦ rejected
        | some c ↦
            if not (c.version == cmd.expected_contact_version)
            then lost_version
            else if not (previous_ok cmd c (primary_row db contact))
            then rejected
            else if is_live c.archived_at && company_ok db cmd.new_company_uid
            then changed (record db {
              contacts =
                  put db.contacts contact
                    (record c { version = suc c.version; company_uid = cmd.new_company_uid });
              affiliations =
                  with_new uid contact cmd (with_old cmd (primary_row db contact) db.affiliations);
            })
            else lost_version
      ]

  unfoldable pub write : ℕ → Write → Db → Changed
  unfolding create_affiliation patch_affiliation transition_company
  write contact (affiliation_create uid cmd) db = create_affiliation uid contact cmd db
  write contact (affiliation_patch uid cmd) db = patch_affiliation contact uid cmd db
  write contact (company_transition uid cmd) db = transition_company uid contact cmd db
