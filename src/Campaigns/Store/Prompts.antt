-- ===== src/Campaigns/Store/Prompts.antt =====
-- create_step_prompt, specialize_prompt and update_step_prompt of src/crm/repositories/campaigns.py.
use main_sequence_crmapi.Common.{
  get, put, row_where, update_where, ℕ, suc, String, Bool, true, ◌&&◌, ◌||◌, Option, none, some,
  List, ◌∷◌, is_some, has, ◌==◌, if◌then◌else◌,
}
use main_sequence_crmapi.Campaigns.Models.{ValueField}
use main_sequence_crmapi.Campaigns.Store.Rows.{
  event, is_workable, is_live, Assignment, ProgressRow, PromptRow, Db, Caller, Written,
  state_blocked, accepted, conflict, refused,
}
use main_sequence_crmapi.Campaigns.Store.Participants.{set_to}

pub record NewPrompt : Type 0 where
  pub name : String
  pub description : Option String
  pub content_markdown : String
  pub inputs : List ValueField
  pub result_fields : List ValueField

-- the uid is a new uuid4
unfoldable pub create_step_prompt : Caller → ℕ → NewPrompt → Db → Written
create_step_prompt who uid new db =
    if has db.prompts uid || has db.step_prompts uid
    then refused db
    else accepted (record db {
      prompts = put db.prompts uid (record {
        version = 1;
        archived_at = none;
        name = new.name;
        description = new.description;
        content_markdown = new.content_markdown;
      });
      step_prompts =
          put db.step_prompts uid
            (record { inputs = new.inputs; result_fields = new.result_fields });
      activity = event who "prompt" uid "created" ∷ db.activity;
    })

pub record Specialized : Type 0 where
  pub description : Option String
  pub inputs : List ValueField
  pub result_fields : List ValueField

-- the prompt at its version, live
abbrev pub prompt_at : Db → ℕ → ℕ → Option PromptRow
prompt_at db uid expected =
    row_where (λ p. p.version == expected && is_live p.archived_at) db.prompts uid

unfoldable pub specialize_prompt : Caller → ℕ → ℕ → Specialized → Db → Written
specialize_prompt who uid expected new db = elim (prompt_at db uid expected) [
  | none ↦ conflict db
  | some p ↦
      if has db.step_prompts uid
      then conflict db
      else accepted (record db {
        prompts = put db.prompts uid (record p {
          version = suc p.version;
          description = elim new.description [ none ↦ p.description | some d ↦ some d ];
        });
        step_prompts =
            put db.step_prompts uid
              (record { inputs = new.inputs; result_fields = new.result_fields });
        activity = event who "prompt" uid "updated" ∷ db.activity;
      })
]

-- the fields that the patch sets; the description may be set to null
pub record PromptChanges : Type 0 where
  pub name : Option String
  pub description : Option (Option String)
  pub content_markdown : Option String
  pub inputs : Option (List ValueField)
  pub result_fields : Option (List ValueField)

abbrev pub contract_changed : PromptChanges → Bool
contract_changed changes =
    is_some changes.inputs || is_some changes.result_fields || is_some changes.content_markdown

-- the rows of work_flagged
abbrev pub to_flag : PromptChanges → ℕ → ProgressRow → Bool
to_flag changes uid g = contract_changed changes && g.prompt_assignment.prompt_uid == uid

-- comparison_changed, where the assignment has a comparison
abbrev pub flag_comparison : Assignment → Assignment
flag_comparison a = record a {
  comparison_changed = if is_some a.comparison then true else a.comparison_changed;
}

abbrev pub flagged : ProgressRow → ProgressRow
flagged g = record g {
  state = if is_workable g.state then state_blocked else g.state;
  blocked_reason = if is_workable g.state then some "prompt_changed" else g.blocked_reason;
  prompt_assignment = flag_comparison g.prompt_assignment;
}

unfoldable pub update_step_prompt : Caller → ℕ → ℕ → PromptChanges → Db → Written
update_step_prompt who uid expected changes db = elim (prompt_at db uid expected) [
  | none ↦ conflict db
  | some p ↦ elim (get db.step_prompts uid) [
    | none ↦ conflict db
    | some sp ↦ accepted (record db {
      prompts = put db.prompts uid (record p {
        version = suc p.version;
        name = set_to changes.name p.name;
        description = set_to changes.description p.description;
        content_markdown = set_to changes.content_markdown p.content_markdown;
      });
      step_prompts = put db.step_prompts uid (record {
        inputs = set_to changes.inputs sp.inputs;
        result_fields = set_to changes.result_fields sp.result_fields;
      });
      progress = update_where (to_flag changes uid) flagged db.progress;
      activity = event who "prompt" uid "updated" ∷ db.activity;
    })
  ]
]
