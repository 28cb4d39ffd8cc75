-- ===== src/Transfers/Laws/Final.antt =====
-- Terminal jobs and jobs of others, under the commands of src/crm/repositories/transfers.
use main_sequence_crmapi.Transfers.Laws.Principle.{on_job}
use main_sequence_crmapi.Common.{
  get, ℕ, String, ◌≡◌, refl, ap, ◌∙◌, ◌⊎◌, inl, inr, Bool, true, false, some, arith, ◌==◌,
}
use main_sequence_crmapi.Campaigns.Briefing.{Json, Fields}
use main_sequence_crmapi.Transfers.Rows.{after, is_terminal, Job, Db}
use main_sequence_crmapi.Transfers.Assess.{is_empty, Seal}
use main_sequence_crmapi.Transfers.Jobs.{rows_of}
use main_sequence_crmapi.Transfers.Planning.{assessed}
use main_sequence_crmapi.Transfers.Commands.{perform, Command}

module _ (show : Json → String) (row_key : ℕ → String → ℕ → ℕ) (row_hash : Fields → String)
    (seal_hash : Seal → String) (valid_affiliation : Fields → Bool) where
  -- A command of one who did not start the transfer changes nothing of it: neither the job nor its
  -- rows.
  pub others_keep :
      (actor : ℕ) (cmd : Command) (db : Db) (uid : ℕ) (j : Job)
      → get db.jobs uid ≡ some j
      → (j.initiator_uid == actor) ≡ false
      → (get
            (after (perform show row_key row_hash seal_hash valid_affiliation actor cmd db)).jobs
            uid
          ≡ some j)
        × (rows_of
              (after (perform show row_key row_hash seal_hash valid_affiliation actor cmd db))
              uid
            ≡ rows_of db uid)
  others_keep actor cmd db uid j there other =
      let (k, later, unchanged) =
        on_job show row_key row_hash seal_hash valid_affiliation uid actor
          (λ i rows k later. (i.initiator_uid == actor) ≡ false → (k ≡ i) × (later ≡ rows))
          (λ i rows h. (refl, refl)) (λ i rows status flag own open_still h. ground (arith, own, h))
          (λ i rows mapping own takes h. ground (arith, own, h))
          (λ i rows up own takes h. ground (arith, own, h))
          (λ i rows own full h. ground (arith, own, h)) cmd db j there in
      let (same_job, same_rows) = unchanged other in (later ∙ ap some same_job, same_rows)

  -- A command leaves a transfer that has succeeded, or is cancelled or expired, and its rows, with one
  -- exception: it makes the job what a validation makes of one that has a mapping, whose state is then
  -- not a final one.
  pub terminal_changes :
      (actor : ℕ) (cmd : Command) (db : Db) (uid : ℕ) (j : Job)
      → get db.jobs uid ≡ some j
      → is_terminal j.status ≡ true
      → (k : Job) × (get
            (after (perform show row_key row_hash seal_hash valid_affiliation actor cmd db)).jobs
            uid
          ≡ some k)
        × (((k ≡ j)
              × (rows_of
                    (after (perform show row_key row_hash seal_hash valid_affiliation actor cmd db))
                    uid
                  ≡ rows_of db uid))
            ⊎ ((is_empty j.mapping ≡ false)
                × (k ≡ assessed seal_hash valid_affiliation j (rows_of db uid))
                × (is_terminal k.status ≡ false)))
  terminal_changes actor cmd db uid j there over =
      let (k, later, changed) =
        on_job show row_key row_hash seal_hash valid_affiliation uid actor
          (λ i rows k later.
            is_terminal i.status ≡ true
            → ((k ≡ i) × (later ≡ rows))
              ⊎ ((is_empty i.mapping ≡ false)
                  × (k ≡ assessed seal_hash valid_affiliation i rows)
                  × (is_terminal k.status ≡ false)))
          (λ i rows h. inl (refl, refl)) (λ i rows status flag own live h. ground (arith, live, h))
          (λ i rows mapping own takes h. ground (arith, takes, h))
          (λ i rows up own takes h. ground (arith, takes, h))
          (λ i rows own full h. inr (full, refl, ground arith)) cmd db j there in
      (k, later, changed over)
