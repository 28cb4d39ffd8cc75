-- ===== src/Lib.antt =====
-- Verification of the CRM API: the campaigns, the imports and exports, and the affiliations.
--
-- A campaign is a graph of steps. A participant is a contact that follows the graph: work at a step is
-- a task with a progress row, and the outcome of the work selects the connection to the next step.
-- src/crm/campaigns/graph.py validates a candidate graph, src/crm/campaigns/service.py guards the
-- operations, and src/crm/repositories/campaigns.py makes each write as one SQL statement of several
-- data-modifying parts. src/crm/repositories/tasks.py settles tasks outside of campaigns.
--
-- An import is a transfer job: a file is uploaded and its rows are staged, a mapping is saved, a
-- validation judges the rows and seals a plan, and a commit of the plan puts the job into the queue of a
-- worker, which is not in the repository. src/crm/services/transfers.py parses the file,
-- src/crm/repositories/transfers holds the jobs, and src/crm/portability judges rows and packages exports.
--
-- An affiliation is a period in which a contact belongs to a company. The company on the contact's row is a
-- projection of its primary affiliation, which the writes of src/crm/repositories/contacts/affiliations.py
-- change with it. src/crm/repositories/resources/writes.py and src/crm/repositories/contacts/merge.py also
-- write affiliations; they are not modelled.
--
-- Files and what they model:
--   Common.antt and its children: Python dicts, sets and searches, and Boolean tests.
--   Campaigns/Models.antt: the graph's values and their validators, src/crm/campaigns/models.py.
--   Campaigns/Graph.antt and its children: src/crm/campaigns/graph.py. Closure is `_closure` and
--     `_reaches`, Cycles is `_cycle_members`, Transitions is the loop over the connections, StepChecks
--     the loop over the steps, and Validate composes them to `validate_graph`.
--   Campaigns/Store.antt and its children: the tables and the writes on them. Rows has the tables,
--     Lifecycle the writes of campaigns, Participants those of participants, Progression `advance` and
--     `complete`, Records `record`, Reconcile the two reconciliations and `task_completion`, Prompts
--     the writes of step prompts, and Saving `save_graph`. Commands makes sequences of these. The
--     files below Laws prove what the writes keep.
--   Campaigns/Briefing.antt and its children: src/crm/campaigns/briefing.py.
--   Campaigns/Service.antt and its children: the operations of src/crm/campaigns/service.py as guards
--     around the writes. edit_campaign is `update_campaign` there, add_campaign `create_campaign`,
--     shelve_campaign `archive_campaign`, enrol `create_participant`, edit_participant
--     `update_participant`, and advance_participant `advance`.
--     record_work is `wait`, `block` and `report`, complete_work `complete`, and add_step_prompt and
--     edit_step_prompt are `create_step_prompt` and `update_step_prompt`.
--   Transfers.antt and its children: src/crm/repositories/transfers/jobs.py and planning.py. Jobs has the
--     writes but for the upload, which is Uploads, and the validation, which is Planning; Assess is
--     src/crm/portability/planning.py, Packing the portable package of src/crm/portability/exporting.py,
--     Parsing and Uploading are `parse_import_rows` and `upload_import` of src/crm/services/transfers.py.
--     Commands makes sequences, and the files below Laws prove what these keep.
--   Affiliations.antt and its children: Periods is `period_bounds` of src/crm/models/affiliations.py,
--     which Calendar compares with the Gregorian calendar, Writes the validators there and the writes of
--     src/crm/repositories/contacts/affiliations.py, and Primary proves what these keep of the primary
--     affiliation.
--
-- UUIDs and times are natural numbers. The search for a closure and the sort of a cycle run on fuel
-- that the number of steps gives; the theorems on them hold with that fuel, so it is enough. The parsers
-- of UUIDs, times and indices are parameters. The text of a diagnostic is left out, its code and its
-- places stay. The audit columns of a row are left out, since no statement reads them.
-- A write takes the database to the one after the statement together with whether the statement
-- answered rows: parts of a statement that do not depend on each other all take effect, whatever the
-- last one answers. Two writes at the same time are a sequence of two writes, since each statement
-- locks the rows that it tests. New UUIDs are arguments of a write, which the database refuses when
-- the key is taken. A sequence of writes is one of the commands of Campaigns/Store/Commands.antt.
--
-- A commit and a cancellation of a transfer, and `advance` of the service, take what they read as an
-- argument, or the database that they read, apart from the one that they write, so that others may write in
-- between; the other operations of the service read and write one database. The unique and foreign keys of
-- connections, which may refuse a saved graph, are left out. The prompts that a candidate graph is
-- validated with are an argument.
--
-- JSON documents are decoded values whose numbers keep their spelling. The reader of JSON and CSV, SHA-256,
-- the keys of new rows and the reading of an affiliation's fields are parameters of the transfers, and so
-- is the order that the store gives to the groups of an export. Whether a title is blank is a
-- parameter of the affiliations, whose activity rows are left out.
--
-- Not modelled: the read-only operations of the service of campaigns (prepare, the impact of a candidate
-- graph, the comparisons), the reading of collections and pages, the other operations on contacts, companies,
-- deals and interactions, the worker of the transfers and their reports, the workspace import, and the
-- wiring of routes, tables and migrations.
pub mod Common
pub mod Campaigns
pub mod Transfers
pub mod Affiliations
