-- ===== src/Transfers/Laws/Sealed.antt =====
-- The sealed plan of src/crm/repositories/transfers/planning.py over sequences of commands, and the commits
-- of src/crm/repositories/transfers/jobs.py that rest on it.
use main_sequence_crmapi.Common.{
  get, any, count_where, ℕ, String, eq_iff, ◌≡◌, refl, sym, ap, inl, inr, Bool, true, false, Option,
  none, some, List, [], ◌∷◌, map, arith, get-put, ◌==◌, Option-cases, length,
}
use main_sequence_crmapi.Campaigns.Briefing.{Json, Fields}
use main_sequence_crmapi.Transfers.Rows.{after, is_answered, Job, StagedRow, Db, queued}
use main_sequence_crmapi.Transfers.Assess.{
  hashes_of, row_issues, assess_decisions, is_blocked, Seal,
}
use main_sequence_crmapi.Transfers.Jobs.{job_row, rows_of, same_hash, moved, commit_import, Commit}
use main_sequence_crmapi.Transfers.Planning.{plan_seal, assessed_counts, assessed, judged}
use main_sequence_crmapi.Transfers.Commands.{perform, run, Command}
use main_sequence_crmapi.Transfers.Laws.Effects.{job_row_sound}
use main_sequence_crmapi.Transfers.Laws.Principle.{on_job}
use main_sequence_crmapi.Transfers.Laws.Birth.{birth_unplanned}

-- the rows that the assessment blocks
abbrev pub has_issues : (Fields → Bool) → StagedRow → Bool
has_issues valid_affiliation r = elim (row_issues valid_affiliation r) [
  | [] ↦ false
  | i ∷ issues ↦ true
]

blocked-none :
    (valid_affiliation : Fields → Bool) (rows : List StagedRow)
    → count_where is_blocked (assess_decisions valid_affiliation rows) ≡ 0
    → any (has_issues valid_affiliation) rows ≡ false
unfolding main_sequence_crmapi.Common.any main_sequence_crmapi.Common.count_where
    main_sequence_crmapi.Transfers.Assess.assess_decisions
blocked-none valid_affiliation [] h = refl
blocked-none valid_affiliation (r ∷ rows) h = ground (arith, h, blocked-none valid_affiliation rows)

hashes-judged :
    (f : StagedRow → StagedRow) (rows : List StagedRow)
    → ((r : StagedRow) → (f r).raw_hash ≡ r.raw_hash)
    → hashes_of (map f rows) ≡ hashes_of rows
unfolding main_sequence_crmapi.Transfers.Assess.hashes_of
hashes-judged f [] h = refl
hashes-judged f (r ∷ rows) h = ground (arith, h r, hashes-judged f rows h)

decisions-judged :
    (seal_hash : Seal → String) (valid_affiliation : Fields → Bool) (rows : List StagedRow)
    → assess_decisions valid_affiliation (map (judged seal_hash valid_affiliation) rows)
      ≡ assess_decisions valid_affiliation rows
unfolding main_sequence_crmapi.Transfers.Assess.assess_decisions
    main_sequence_crmapi.Transfers.Assess.row_issues
decisions-judged seal_hash valid_affiliation [] = refl
decisions-judged seal_hash valid_affiliation (r ∷ rows) =
    ground (arith, decisions-judged seal_hash valid_affiliation rows)

length-map-rows :
    (f : StagedRow → StagedRow) (rows : List StagedRow) → length (map f rows) ≡ length rows
length-map-rows f [] = refl
length-map-rows f (r ∷ rows) = ground (arith, length-map-rows f rows)

same_hash_sound : (o : Option String) (h : String) → same_hash o h ≡ true → o ≡ some h
same_hash_sound none h e = ground (arith, e)
same_hash_sound (some g) h e = ap some ((eq_iff g h).0 e)

strict_commit_lem :
    (actor uid : ℕ) (cmd : Commit) (db : Db)
    → cmd.strict_mode ≡ true
    → is_answered (commit_import actor uid cmd (job_row db uid actor) db) ≡ true
    → (j : Job) × (get db.jobs uid ≡ some j)
      × ((j.initiator_uid == actor) ≡ true)
      × (j.plan_hash ≡ some cmd.plan_hash)
      × (j.report.counts.blocked ≡ 0)
      × (get (after (commit_import actor uid cmd (job_row db uid actor) db)).jobs uid
          ≡ some (moved queued false j))
unfolding main_sequence_crmapi.Transfers.Jobs.commit_import
    main_sequence_crmapi.Transfers.Jobs.transition main_sequence_crmapi.Common.row_where
strict_commit_lem actor uid cmd db strict h = elim (Option-cases (job_row db uid actor)) [
  | inl e ↦ ground (arith, e, h)
  | inr (j, e) ↦
      let (found, own) = job_row_sound db uid actor j e in
      (
        j,
        found,
        own,
        ground (arith, e, h, same_hash_sound j.plan_hash cmd.plan_hash),
        ground (arith, e, h, strict),
        ground (arith, e, h, strict, found, get-put db.jobs uid (moved queued false j) uid),
      )
]

module _ (show : Json → String) (row_key : ℕ → String → ℕ → ℕ) (row_hash : Fields → String)
    (seal_hash : Seal → String) (valid_affiliation : Fields → Bool) where
  -- a plan that is there is the seal of the job over its rows, and the counts are those of the rows
  pub Sealed : Job → List StagedRow → Type 0
  Sealed j rows =
      (h : String)
      → j.plan_hash ≡ some h
      → (h ≡ plan_seal seal_hash valid_affiliation j rows)
        × (j.report.counts ≡ assessed_counts seal_hash valid_affiliation rows)

  pub AllSealed : Db → Type 0
  AllSealed db = (uid : ℕ) (j : Job) → get db.jobs uid ≡ some j → Sealed j (rows_of db uid)

  validated-Sealed :
      (j : Job) (rows : List StagedRow)
      → Sealed
          (assessed seal_hash valid_affiliation j rows)
          (map (judged seal_hash valid_affiliation) rows)
  unfolding Sealed
  validated-Sealed j rows h e =
      rw
        (
          hashes-judged (judged seal_hash valid_affiliation) rows (λ r. refl),
          decisions-judged seal_hash valid_affiliation rows,
          length-map-rows (judged seal_hash valid_affiliation) rows,
        )
        (ground (arith, e), refl)

  perform_sealed :
      (actor : ℕ) (cmd : Command) (db : Db)
      → AllSealed db
      → AllSealed (after (perform show row_key row_hash seal_hash valid_affiliation actor cmd db))
  unfolding Sealed AllSealed
  perform_sealed actor cmd db all uid j there h planned =
      let new : Db =
        after (perform show row_key row_hash seal_hash valid_affiliation actor cmd db) in
      elim (Option-cases (get db.jobs uid)) [
        | inl e ↦
            let unplanned =
              birth_unplanned show row_key row_hash seal_hash valid_affiliation actor uid cmd db j e
                there in
            ground (arith, planned, unplanned)
        | inr (i, e) ↦
            let (k, later, still) =
              on_job show row_key row_hash seal_hash valid_affiliation uid actor
                (λ i rows k later. Sealed i rows → Sealed k later) (λ i rows sealed. sealed)
                (λ i rows status flag own live sealed. sealed)
                (λ i rows mapping own takes sealed g e. ground (arith, e))
                (λ i rows up own takes sealed g e. ground (arith, e))
                (λ i rows own full sealed. validated-Sealed i rows) cmd db i e in
            let is_it : k ≡ j = ground (arith, later, there) in
            let sealed : Sealed j (rows_of new uid) = rw (sym is_it) (still (all uid i e)) in
            sealed h planned
      ]

  -- Whatever commands run on a database whose plans are sealed, every plan in the database after them is
  -- the seal of its job over the job's rows as they are then, with the counts of these rows: no change of
  -- the file or of the mapping leaves a plan behind that it does not match.
  pub run_sealed :
      (cmds : List (ℕ × Command)) (db : Db)
      → AllSealed db
      → AllSealed (run show row_key row_hash seal_hash valid_affiliation cmds db)
  unfolding main_sequence_crmapi.Transfers.Commands.run
  run_sealed [] db all = all
  run_sealed ((actor, cmd) ∷ cmds) db all =
      run_sealed cmds
        (after (perform show row_key row_hash seal_hash valid_affiliation actor cmd db))
        (perform_sealed actor cmd db all)

  pub none_sealed : (db : Db) → db.jobs ≡ [] → AllSealed db
  unfolding Sealed AllSealed main_sequence_crmapi.Common.get
  none_sealed db e uid j there = ground (arith, e)

  -- When a strict commit is answered after any commands on a database that began with no transfers, and the
  -- job is not changed between the commit's read and its update, the plan that it names is the seal of the file, the mapping and the rows as they are, no row has an issue,
  -- and the job is queued.
  pub strict_commit_checked :
      (cmds : List (ℕ × Command)) (start db : Db) (actor uid : ℕ) (cmd : Commit)
      → start.jobs ≡ []
      → db ≡ run show row_key row_hash seal_hash valid_affiliation cmds start
      → cmd.strict_mode ≡ true
      → is_answered (commit_import actor uid cmd (job_row db uid actor) db) ≡ true
      → (j : Job) × (get db.jobs uid ≡ some j)
        × ((j.initiator_uid == actor) ≡ true)
        × (cmd.plan_hash ≡ plan_seal seal_hash valid_affiliation j (rows_of db uid))
        × (any (has_issues valid_affiliation) (rows_of db uid) ≡ false)
        × (get (after (commit_import actor uid cmd (job_row db uid actor) db)).jobs uid
            ≡ some (moved queued false j))
  unfolding AllSealed Sealed
  strict_commit_checked cmds start db actor uid cmd fresh ran strict h =
      let all : AllSealed db = rw (ran) (run_sealed cmds start (none_sealed start fresh)) in
      let (j, there, own, planned, unblocked, later) =
        strict_commit_lem actor uid cmd db strict h in
      let (seal, counts) = all uid j there cmd.plan_hash planned in
      let zero_blocked : count_where is_blocked
            (assess_decisions valid_affiliation (rows_of db uid))
          ≡ 0 =
        ground (arith, unblocked, counts) in
      (j, there, own, seal, blocked-none valid_affiliation (rows_of db uid) zero_blocked, later)
