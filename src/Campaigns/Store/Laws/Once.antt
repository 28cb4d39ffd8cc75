-- ===== src/Campaigns/Store/Laws/Once.antt =====
-- `advance` of src/crm/repositories/campaigns.py, and the progress row that it makes, over later writes.
use main_sequence_crmapi.Common.{
  any, ℕ, ◌≡◌, inl, inr, true, false, List, [], ◌∷◌, arith, Option-cases,
}
use main_sequence_crmapi.Campaigns.Store.Rows.{after, is_accepted, at_step, ProgressRow, Db, Caller}
use main_sequence_crmapi.Campaigns.Store.Progression.{advance_gate, advance, Advance}
use main_sequence_crmapi.Campaigns.Store.Commands.{perform, run, Command}
use main_sequence_crmapi.Campaigns.Store.Laws.Gates.{advance_gate_sound}
use main_sequence_crmapi.Campaigns.Store.Laws.Unique.{any-update_where}
use main_sequence_crmapi.Campaigns.Store.Laws.Work.{on_progress}

any-cons :
    (p s : ℕ) (rows : List ProgressRow) (g : ProgressRow)
    → any (at_step p s) rows ≡ true
    → any (at_step p s) (g ∷ rows) ≡ true
unfolding main_sequence_crmapi.Common.any
any-cons p s rows g h = ground (arith, h)

perform_stays :
    (who : Caller) (cmd : Command) (db : Db) (p s : ℕ)
    → any (at_step p s) db.progress ≡ true
    → any (at_step p s) (after (perform who cmd db)).progress ≡ true
perform_stays who cmd db p s =
    on_progress (λ old new. any (at_step p s) old ≡ true → any (at_step p s) new ≡ true)
      (λ rows there. there)
      (λ rows test f keeps there. rw (any-update_where test f keeps p s rows) there)
      (λ rows g fresh there. any-cons p s rows g there) who cmd db

run_stays :
    (writes : List (Caller × Command)) (db : Db) (p s : ℕ)
    → any (at_step p s) db.progress ≡ true
    → any (at_step p s) (run writes db).progress ≡ true
unfolding main_sequence_crmapi.Campaigns.Store.Commands.run
run_stays [] db p s there = there
run_stays ((who, cmd) ∷ writes) db p s there =
    run_stays writes (after (perform who cmd db)) p s (perform_stays who cmd db p s there)

advance_there :
    (who : Caller) (task : ℕ) (cmd : Advance) (db : Db)
    → is_accepted (advance who task cmd db) ≡ true
    → any (at_step cmd.participant_uid cmd.step_uid) (after (advance who task cmd db)).progress
      ≡ true
unfolding main_sequence_crmapi.Campaigns.Store.Progression.advance main_sequence_crmapi.Common.any
advance_there who task cmd db h = ground (arith, h)

advance_new :
    (who : Caller) (task : ℕ) (cmd : Advance) (db : Db)
    → any (at_step cmd.participant_uid cmd.step_uid) db.progress ≡ true
    → is_accepted (advance who task cmd db) ≡ false
unfolding main_sequence_crmapi.Campaigns.Store.Progression.advance
advance_new who task cmd db there = elim (Option-cases (advance_gate who cmd db)) [
  | inl e ↦ ground (arith, e)
  | inr (gate, e) ↦ ground (arith, there, advance_gate_sound who cmd db gate e)
]

-- Once an advance has created the work of a participant at a step, no later advance of this
-- participant to this step is accepted, whoever asks and whatever was written in between.
pub advance_once :
    (who other : Caller) (task later : ℕ) (cmd again : Advance) (between : List (Caller × Command))
    (db : Db)
    → is_accepted (advance who task cmd db) ≡ true
    → again.participant_uid ≡ cmd.participant_uid
    → again.step_uid ≡ cmd.step_uid
    → is_accepted (advance other later again (run between (after (advance who task cmd db))))
      ≡ false
advance_once who other task later cmd again between db h p s =
    let new : Db = after (advance who task cmd db) in
    let there =
      run_stays between new cmd.participant_uid cmd.step_uid (advance_there who task cmd db h) in
    advance_new other later again (run between new) (rw (p, s) there)
