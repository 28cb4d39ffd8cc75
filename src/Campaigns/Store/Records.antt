-- ===== src/Campaigns/Store/Records.antt =====
-- `record` of src/crm/repositories/campaigns.py: a wait, a block, a report or a stale result.
use main_sequence_crmapi.Common.{
  put, row_where, any, update_where, ℕ, String, str_eq, Bool, ◌&&◌, Option, none, some, List, [],
  ◌∷◌, ◌++◌, ◌==◌, if◌then◌else◌,
}
use main_sequence_crmapi.Campaigns.Store.Rows.{
  event, is_open, is_enrolled, at_step, ProgressState, ParticipantRow, ProgressRow, Db, Caller,
  Written, state_waiting, state_blocked, accepted, conflict,
}
use main_sequence_crmapi.Campaigns.Store.Progression.{bump}

pub data RecordKind : Type 0 where
  wait block report stale_result : RecordKind

pub record Record : Type 0 where
  pub participant_uid : ℕ
  pub expected_version : ℕ
  pub step_uid : ℕ
  pub kind : RecordKind
  pub evidence : List String
  pub wake_at : Option ℕ
  pub blocked_reason : Option String
  pub result : Option (List (String × String))
  pub outcome_key : Option String
  pub prepared_with : Option String

abbrev pub recorded_state : RecordKind → ProgressState → ProgressState
recorded_state wait old = state_waiting
recorded_state block old = state_blocked
recorded_state report old = old
recorded_state stale_result old = state_blocked

abbrev pub recorded_wake : RecordKind → Option ℕ → Option ℕ → Option ℕ
recorded_wake wait new old = new
recorded_wake block new old = none
recorded_wake report new old = old
recorded_wake stale_result new old = none

abbrev pub recorded_reason : RecordKind → Option String → Option String → Option String
recorded_reason wait new old = none
recorded_reason block new old = new
recorded_reason report new old = old
recorded_reason stale_result new old = new

abbrev pub recorded_kind : RecordKind → String
recorded_kind wait = "progress_wait"
recorded_kind block = "progress_block"
recorded_kind report = "progress_report"
recorded_kind stale_result = "progress_stale_result"

-- || on JSON objects, for one key of the right one
unfoldable pub set_key : List (String × String) → String → String → List (String × String)
set_key [] k v = (k, v) ∷ []
set_key ((j, w) ∷ fields) k v = if str_eq j k then (j, v) ∷ fields else (j, w) ∷ set_key fields k v

-- || on JSON objects
unfoldable pub merge : List (String × String) → List (String × String) → List (String × String)
unfolding set_key
merge old [] = old
merge old ((k, v) ∷ new) = merge (set_key old k v) new

abbrev pub merged :
    Option (List (String × String)) → List (String × String) → List (String × String)
merged none old = old
merged (some new) old = merge old new

-- COALESCE of a parameter and a column
abbrev pub first_of {ℓ} : {A : Type ℓ} → Option A → Option A → Option A
first_of none old = old
first_of (some new) old = some new

-- `locked`
unfoldable pub enrolled_at : Db → ℕ → ℕ → Option ParticipantRow
enrolled_at db uid expected =
    row_where (λ p. p.version == expected && is_enrolled p.status) db.participants uid

-- the rows of `recorded`
abbrev pub open_at : ℕ → ℕ → ProgressRow → Bool
open_at participant step g = at_step participant step g && is_open g.state

abbrev pub recorded_progress : Record → ProgressRow → ProgressRow
recorded_progress cmd g = record g {
  state = recorded_state cmd.kind g.state;
  wake_at = recorded_wake cmd.kind cmd.wake_at g.wake_at;
  blocked_reason = recorded_reason cmd.kind cmd.blocked_reason g.blocked_reason;
  evidence = g.evidence ++ cmd.evidence;
  result = merged cmd.result g.result;
  outcome_key = first_of cmd.outcome_key g.outcome_key;
  prepared_with = first_of cmd.prepared_with g.prepared_with;
}

unfoldable pub record_progress : Caller → Record → Db → Written
record_progress who cmd db = elim (enrolled_at db cmd.participant_uid cmd.expected_version) [
  | none ↦ conflict db
  | some p ↦
      if any (open_at cmd.participant_uid cmd.step_uid) db.progress
      then accepted (record db {
        progress =
            update_where (open_at cmd.participant_uid cmd.step_uid) (recorded_progress cmd)
              db.progress;
        participants = put db.participants cmd.participant_uid (bump p);
        activity =
            event who "campaign_participant" cmd.participant_uid (recorded_kind cmd.kind)
            ∷ db.activity;
      })
      else conflict db
]
