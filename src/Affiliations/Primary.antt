-- ===== src/Affiliations/Primary.antt =====
-- The primary affiliation of a contact and the contact's company, after the writes of
-- src/crm/repositories/contacts/affiliations.py.
use main_sequence_crmapi.Affiliations.Rows.{
  primary_of, ContactRow, AffiliationRow, Db, AffiliationCreate, AffiliationPatch,
  AffiliationTransition, changed,
}
use main_sequence_crmapi.Common.{
  get, find, update_where, count_where, ℕ, suc, ◌≤◌, String, ◌≡◌, refl, ap, inl, inr, Bool, false,
  ◌&&◌, Option, none, some, List, [], ◌∷◌, arith, is_some, get-put, ◌==◌, Bool-cases, Option-cases,
}
use main_sequence_crmapi.Affiliations.Writes.{
  new_affiliation, with_company, created_db, create_affiliation, patched, the_affiliation,
  patch_affiliation, demoted, with_new, with_old, primary_row, transition_company, write, Write,
  affiliation_create, affiliation_patch, company_transition,
}

-- the company of the primary affiliation
abbrev pub primary_company : List AffiliationRow → ℕ → Option ℕ
primary_company rows contact = elim (find (primary_of contact) rows) [
  | none ↦ none
  | some a ↦ some a.company_uid
]

-- the contact's company is that of its one live primary affiliation, or there is none of both
abbrev pub IsProjected : Db → ℕ → Type 0
IsProjected db contact =
    (c : ContactRow) × (get db.contacts contact ≡ some c)
    × (c.company_uid ≡ primary_company db.affiliations contact)
    × (count_where (primary_of contact) db.affiliations ≤ 1)

none-count :
    (contact : ℕ) (rows : List AffiliationRow)
    → count_where (primary_of contact) rows ≡ 0
    → find (primary_of contact) rows ≡ none
unfolding main_sequence_crmapi.Common.count_where main_sequence_crmapi.Common.find
none-count contact [] h = refl
none-count contact (a ∷ rows) h = ground (arith, h, none-count contact rows)

count-none :
    (contact : ℕ) (rows : List AffiliationRow)
    → find (primary_of contact) rows ≡ none
    → count_where (primary_of contact) rows ≡ 0
unfolding main_sequence_crmapi.Common.count_where main_sequence_crmapi.Common.find
count-none contact [] h = refl
count-none contact (a ∷ rows) h = ground (arith, h, count-none contact rows)

-- rows that the demotion does not make primary
demoted_none :
    (is_blank : String → Bool) (cmd : AffiliationTransition) (contact : ℕ)
    (test : AffiliationRow → Bool) (rows : List AffiliationRow)
    → count_where (primary_of contact) rows ≡ 0
    → count_where (primary_of contact) (update_where test (demoted is_blank cmd) rows) ≡ 0
unfolding main_sequence_crmapi.Common.count_where main_sequence_crmapi.Common.update_where
demoted_none is_blank cmd contact test [] h = refl
demoted_none is_blank cmd contact test (a ∷ rows) h =
    ground (arith, h, demoted_none is_blank cmd contact test rows)

-- the demotion of the one primary affiliation leaves none
demoted_one :
    (is_blank : String → Bool) (cmd : AffiliationTransition) (contact : ℕ) (old : AffiliationRow)
    (rows : List AffiliationRow)
    → find (primary_of contact) rows ≡ some old
    → count_where (primary_of contact) rows ≤ 1
    → count_where (primary_of contact) (with_old is_blank cmd (some old) rows) ≡ 0
unfolding main_sequence_crmapi.Common.count_where main_sequence_crmapi.Common.update_where
    main_sequence_crmapi.Common.find
demoted_one is_blank cmd contact old [] found one = ground (arith, found)
demoted_one is_blank cmd contact old (a ∷ rows) found one =
    let test : AffiliationRow → Bool = λ r. r.uid == old.uid && r.version == old.version in
    elim (Bool-cases (primary_of contact a)) [
      | inl e ↦
          let is_it : a ≡ old = ground (arith, e, found) in
          let same_uid = ap (λ (r : AffiliationRow). r.uid) is_it in
          let same_version = ap (λ (r : AffiliationRow). r.version) is_it in
          let rest : count_where (primary_of contact) rows ≡ 0 = ground (arith, e, one) in
          ground (arith, same_uid, same_version, demoted_none is_blank cmd contact test rows rest)
      | inr e ↦ ground (arith, e, found, one, demoted_one is_blank cmd contact old rows)
    ]

moved_projected :
    (is_blank : String → Bool) (uid contact : ℕ) (cmd : AffiliationTransition)
    (rows : List AffiliationRow)
    → count_where (primary_of contact) rows ≡ 0
    → (cmd.new_company_uid ≡ primary_company (with_new is_blank uid contact cmd rows) contact)
      × (count_where (primary_of contact) (with_new is_blank uid contact cmd rows) ≤ 1)
unfolding main_sequence_crmapi.Common.count_where main_sequence_crmapi.Common.find
moved_projected is_blank uid contact cmd rows h = elim (Option-cases cmd.new_company_uid) [
  | inl e ↦ (ground (arith, e, none-count contact rows h), ground (arith, e, h))
  | inr (company, e) ↦ (ground (arith, e), ground (arith, e, h))
]

find-patched :
    (is_blank : String → Bool) (cmd : AffiliationPatch) (contact : ℕ) (test : AffiliationRow → Bool)
    (rows : List AffiliationRow)
    → (primary_company (update_where test (patched is_blank cmd) rows) contact
        ≡ primary_company rows contact)
      × (count_where (primary_of contact) (update_where test (patched is_blank cmd) rows)
          ≡ count_where (primary_of contact) rows)
unfolding main_sequence_crmapi.Common.count_where main_sequence_crmapi.Common.update_where
    main_sequence_crmapi.Common.find
find-patched is_blank cmd contact test [] = (refl, refl)
find-patched is_blank cmd contact test (a ∷ rows) =
    let later = find-patched is_blank cmd contact test rows in
    elim (Bool-cases (primary_of contact a)) [
      | inl e ↦ (ground (arith, e, later), ground (arith, e, later))
      | inr e ↦ (ground (arith, e, later), ground (arith, e, later))
    ]

module _ (is_blank : String → Bool) where
  -- an accepted create, which needs a contact without a company for a primary affiliation
  create_is :
      (uid contact : ℕ) (cmd : AffiliationCreate) (db new : Db) (c : ContactRow)
      → get db.contacts contact ≡ some c
      → create_affiliation is_blank uid contact cmd db ≡ changed new
      → (new ≡ created_db is_blank uid contact cmd c db)
        × ((cmd.is_primary && is_some c.company_uid) ≡ false)
  unfolding main_sequence_crmapi.Affiliations.Writes.create_affiliation
      main_sequence_crmapi.Affiliations.Writes.create_gate main_sequence_crmapi.Common.row_where
  create_is uid contact cmd db new c there h = (ground (arith, h, there), ground (arith, h, there))

  created_company :
      (uid contact : ℕ) (cmd : AffiliationCreate) (c : ContactRow) (rows : List AffiliationRow)
      → c.company_uid ≡ primary_company rows contact
      → (with_company is_blank cmd c).company_uid
        ≡ primary_company (new_affiliation is_blank uid contact cmd ∷ rows) contact
  unfolding main_sequence_crmapi.Common.find
  created_company uid contact cmd c rows h = elim (Bool-cases cmd.is_primary) [
    | inl e ↦ ground (arith, e)
    | inr e ↦ ground (arith, e, h)
  ]

  created_count :
      (uid contact : ℕ) (cmd : AffiliationCreate) (c : ContactRow) (rows : List AffiliationRow)
      → c.company_uid ≡ primary_company rows contact
      → (cmd.is_primary && is_some c.company_uid) ≡ false
      → count_where (primary_of contact) rows ≤ 1
      → count_where (primary_of contact) (new_affiliation is_blank uid contact cmd ∷ rows) ≤ 1
  unfolding main_sequence_crmapi.Common.count_where
  created_count uid contact cmd c rows company free one =
      elim (Option-cases (find (primary_of contact) rows)) [
        | inl e ↦ ground (arith, count-none contact rows e)
        | inr (old, e) ↦ ground (arith, e, company, free, one)
      ]

  create-IsProjected :
      (uid contact : ℕ) (cmd : AffiliationCreate) (db new : Db)
      → IsProjected db contact
      → create_affiliation is_blank uid contact cmd db ≡ changed new
      → IsProjected new contact
  create-IsProjected uid contact cmd db new (c, there, company, one) h =
      let (is_it, free) = create_is uid contact cmd db new c there h in
      let after_it : ContactRow = with_company is_blank cmd c in
      rw (is_it) (
        after_it,
        ground (arith, get-put db.contacts contact after_it contact),
        created_company uid contact cmd c db.affiliations company,
        created_count uid contact cmd c db.affiliations company free one,
      )

  patch-IsProjected :
      (uid contact : ℕ) (cmd : AffiliationPatch) (db new : Db)
      → IsProjected db contact
      → patch_affiliation is_blank contact uid cmd db ≡ changed new
      → IsProjected new contact
  unfolding main_sequence_crmapi.Affiliations.Writes.patch_affiliation
      main_sequence_crmapi.Affiliations.Writes.patch_row main_sequence_crmapi.Common.row_where
  patch-IsProjected uid contact cmd db new (c, there, company, one) h =
      elim (Option-cases (find (the_affiliation is_blank contact uid) db.affiliations)) [
        | inl e ↦ ground (arith, h, e)
        | inr (a, e) ↦
            let kept =
              find-patched is_blank cmd contact (the_affiliation is_blank contact a.uid)
                db.affiliations in
            let after_it : ContactRow = record c { version = suc c.version } in
            (
              after_it,
              ground (arith, h, e, there, get-put db.contacts contact after_it contact),
              ground (arith, h, e, there, company, kept),
              ground (arith, h, e, there, one, kept),
            )
      ]

  transition-IsProjected :
      (uid contact : ℕ) (cmd : AffiliationTransition) (db new : Db)
      → IsProjected db contact
      → transition_company is_blank uid contact cmd db ≡ changed new
      → IsProjected new contact
  unfolding main_sequence_crmapi.Affiliations.Writes.transition_company
  transition-IsProjected uid contact cmd db new (c, there, company, one) h =
      elim (Option-cases (primary_row is_blank db contact)) [
        | inl e ↦
            let none_left = count-none contact db.affiliations e in
            let moved = moved_projected is_blank uid contact cmd db.affiliations none_left in
            let after_it : ContactRow = record c {
              version = suc c.version;
              company_uid = cmd.new_company_uid;
            } in
            (
              after_it,
              ground (arith, h, e, there, get-put db.contacts contact after_it contact),
              ground (arith, h, e, there, moved),
              ground (arith, h, e, there, moved),
            )
        | inr (old, e) ↦
            let rows : List AffiliationRow = with_old is_blank cmd (some old) db.affiliations in
            let none_left = demoted_one is_blank cmd contact old db.affiliations e one in
            let moved = moved_projected is_blank uid contact cmd rows none_left in
            let after_it : ContactRow = record c {
              version = suc c.version;
              company_uid = cmd.new_company_uid;
            } in
            (
              after_it,
              ground (arith, h, e, there, get-put db.contacts contact after_it contact),
              ground (arith, h, e, there, moved),
              ground (arith, h, e, there, moved),
            )
      ]

  -- The three writes create_affiliation, patch_affiliation and transition_company keep the projection: when the
  -- contact's company was that of its one live primary affiliation, or there was none of both, it is so
  -- after the write.
  pub write_projected :
      (contact : ℕ) (w : Write) (db new : Db)
      → IsProjected db contact
      → write is_blank contact w db ≡ changed new
      → (c : ContactRow) × (get new.contacts contact ≡ some c)
        × (c.company_uid ≡ primary_company new.affiliations contact)
        × (count_where (primary_of contact) new.affiliations ≤ 1)
  unfolding main_sequence_crmapi.Affiliations.Writes.write
  write_projected contact (affiliation_create uid cmd) db new p h =
      create-IsProjected uid contact cmd db new p h
  write_projected contact (affiliation_patch uid cmd) db new p h =
      patch-IsProjected uid contact cmd db new p h
  write_projected contact (company_transition uid cmd) db new p h =
      transition-IsProjected uid contact cmd db new p h
