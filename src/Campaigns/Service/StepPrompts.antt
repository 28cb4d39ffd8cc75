-- ===== src/Campaigns/Service/StepPrompts.antt =====
-- create_step_prompt and update_step_prompt of src/crm/campaigns/service.py.
use main_sequence_crmapi.Campaigns.Service.{from_store, Answer, forbidden, raised}
use main_sequence_crmapi.Common.{ℕ, String, Bool, if◌then◌else◌}
use main_sequence_crmapi.Campaigns.Store.Rows.{Db, Caller}
use main_sequence_crmapi.Campaigns.Store.Prompts.{
  create_step_prompt, specialize_prompt, update_step_prompt, NewPrompt, Specialized, PromptChanges,
}

-- StepPromptCreate: a new prompt, or the extension of a prompt at a version
pub data StepPromptCreate : Type 0 where
  fresh_prompt : NewPrompt → StepPromptCreate
  extended_prompt : ℕ → ℕ → Specialized → StepPromptCreate

unfoldable pub add_step_prompt : (String → Bool) → Caller → ℕ → StepPromptCreate → Db → Answer
add_step_prompt can who uid (fresh_prompt new) db =
    if can "crm.create" then from_store (create_step_prompt who uid new db) else raised forbidden db
add_step_prompt can who uid (extended_prompt prompt expected new) db =
    if can "crm.edit"
    then from_store (specialize_prompt who prompt expected new db)
    else raised forbidden db

unfoldable pub edit_step_prompt : (String → Bool) → Caller → ℕ → ℕ → PromptChanges → Db → Answer
edit_step_prompt can who uid expected changes db =
    if can "crm.edit"
    then from_store (update_step_prompt who uid expected changes db)
    else raised forbidden db
