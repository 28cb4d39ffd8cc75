-- ===== src/Campaigns/Store/Laws/Unique.antt =====
-- The progress rows of src/crm/repositories/campaigns.py: their participants and steps.
use main_sequence_crmapi.Common.{
  any, update_where, ℕ, ◌≡◌, refl, Bool, true, false, not, ◌&&◌, List, [], ◌∷◌, arith,
}
use main_sequence_crmapi.Campaigns.Store.Rows.{after, at_step, ProgressRow, Db, Caller}
use main_sequence_crmapi.Campaigns.Store.Commands.{perform, run, Command}
use main_sequence_crmapi.Campaigns.Store.Laws.Work.{KeepsPlace, on_progress}

-- no two rows for a participant at a step
unfoldable pub one_each : List ProgressRow → Bool
one_each [] = true
one_each (g ∷ rows) = not (any (at_step g.participant_uid g.step_uid) rows) && one_each rows

pub any-update_where :
    (test : ProgressRow → Bool) (f : ProgressRow → ProgressRow)
    → KeepsPlace f
    → (p s : ℕ) (rows : List ProgressRow)
    → any (at_step p s) (update_where test f rows) ≡ any (at_step p s) rows
unfolding main_sequence_crmapi.Common.any main_sequence_crmapi.Common.update_where
any-update_where test f keeps p s [] = refl
any-update_where test f keeps p s (g ∷ rows) =
    ground (arith, any-update_where test f keeps p s rows, keeps g)

one_each-update_where :
    (test : ProgressRow → Bool) (f : ProgressRow → ProgressRow)
    → KeepsPlace f
    → (rows : List ProgressRow) → one_each (update_where test f rows) ≡ one_each rows
unfolding one_each main_sequence_crmapi.Common.update_where
one_each-update_where test f keeps [] = refl
one_each-update_where test f keeps (g ∷ rows) = ground (
  arith,
  one_each-update_where test f keeps rows,
  keeps g,
  any-update_where test f keeps g.participant_uid g.step_uid rows,
)

one_each-cons :
    (rows : List ProgressRow) (g : ProgressRow)
    → any (at_step g.participant_uid g.step_uid) rows ≡ false
    → one_each rows ≡ true
    → one_each (g ∷ rows) ≡ true
unfolding one_each
one_each-cons rows g fresh once = ground (arith, fresh, once)

perform-one_each :
    (who : Caller) (cmd : Command) (db : Db)
    → one_each db.progress ≡ true
    → one_each (after (perform who cmd db)).progress ≡ true
perform-one_each =
    on_progress (λ old new. one_each old ≡ true → one_each new ≡ true) (λ rows once. once)
      (λ rows test f keeps once. rw (one_each-update_where test f keeps rows) once) one_each-cons

-- When no two progress rows are of one participant at one step, none are after any sequence of
-- writes.
pub run-one_each :
    (writes : List (Caller × Command)) (db : Db)
    → one_each db.progress ≡ true
    → one_each (run writes db).progress ≡ true
unfolding main_sequence_crmapi.Campaigns.Store.Commands.run
run-one_each [] db once = once
run-one_each ((who, cmd) ∷ writes) db once =
    run-one_each writes (after (perform who cmd db)) (perform-one_each who cmd db once)
