-- ===== src/Lib.antt =====
-- IcebergCTI is a web application in which analysts write threat-intelligence reports, reviewers
-- approve and publish them, and stakeholders receive them. These modules model the services that
-- decide who may do what with a report and who receives it, and those that collect and judge the
-- material behind it, as functions on the rows of the database.
--
-- The parts, in the order in which they use each other:
--   Base           operations of Python, its lists and its texts, and results of code that raises
--   Fixtures       rows for the tests
--   Models         src/iceberg/models.py: enums, tables as records, JSON values, ranks
--   Lifecycle      src/iceberg/services/lifecycle.py: `transition`; Moves compares it with a relation
--                  of the moves that are allowed, Runs folds requests
--   Access         src/iceberg/services/reports.py: `ensure_visible`, `ensure_author`,
--                  `ensure_editable`, `stakeholder_visibility_clause`
--   Audience       src/iceberg/services/audience.py: `resolve_groups`, `set_report_audience`,
--                  `delete_group`
--   Outbox         src/iceberg/services/jobs.py: `enqueue`; Claim has `_claimable_clause` and
--                  `_claim_next`, Finish has `_retry_delay`, `_mark_succeeded`, `_error_text` and
--                  `_mark_failed`, Worker has `process_due_jobs`; the other modules are proofs
--   Dissemination  src/iceberg/services/dissemination.py: `match_decisions`,
--                  `matched_stakeholders`; Feed has `disseminate`, Notify `enqueue_notifications`
--   Policy         src/iceberg/services/audience_policy.py: the versions of a policy, `approve`,
--                  `applicable_versions`; Rules has `validate_rules`, Resolve has `resolve`
--   Publication    src/iceberg/services/publication.py: `get_snapshot`, `create_snapshot`, `publish`,
--                  with `open_blocking` and `publication_blocked_by` of
--                  src/iceberg/services/comments.py; Published and Frozen are proofs
--   Comments       src/iceberg/services/comments.py: threads, replies, anchors, decisions and
--                  `accept_suggestion`; Mentions has `resolve_mentions` and `_notify_mentions`;
--                  Applied, Opened and Moves are proofs
--   Evidence       src/iceberg/services/evidence.py: `intake`, `accept`, `reject`, `revoke`; Offered
--                  has `decode_envelope` and `validate`, Rows the tables; Replay, History and Life
--                  are proofs
--   Hypotheses     src/iceberg/services/ach.py: `_normalise_rows`, `normalise`, `create_ach`,
--                  `update_ach`; Scores has `inconsistency_score` and `leading_hypothesis_ids`;
--                  Distinct, Stable and Leading are proofs
--   Retention      src/iceberg/services/retention.py: `delete_in_batches`; Drained is proofs
--   BodyLimit      src/iceberg/auth/body_limit.py: `__call__`, as a machine on the calls of the
--                  application that it wraps; Guarded is proofs
--   Feedback       src/iceberg/services/requirements.py and src/iceberg/services/feedback.py:
--                  `create_requirement`, `set_report_requirements`, `submit_feedback`; Loop is proofs
--   Identity       src/iceberg/services/users.py: `upsert_user`, `link_legacy_oidc_identity`; Accounts,
--                  Asserted, Logins and Links are proofs
--   Tags           src/iceberg/services/tags.py: `create_tag`, `update_tag`, `delete_tag`,
--                  `set_report_tags`, `set_user_subscriptions`; Terms has the cleaning of texts, Merge
--                  `merge_tags`, Rename `rename_tag`, `undo_rename` and `find_by_identifier`, Seed
--                  `seed_default_taxonomy`; Steps makes the requests a relation, and Lineage, Removed,
--                  Effects, Current, Sound, Links, Named, Found and Seeded are proofs
--   Deletions      src/iceberg/services/storage_deletions.py: `enqueue` and `_execute`; Worker has
--                  `_claim_next`, `_mark_complete`, `_mark_failed` and `process_due_deletions`; Retained
--                  and Exact are proofs
--   RateLimit      src/iceberg/auth/rate_limit.py: `InMemoryRateLimitStore.consume` and `dispatch`; Ieee
--                  is the interface to the floating-point numbers; Bounds and Burst are proofs
--   Candidates     src/iceberg/services/feed_indicators.py: `decide` and `reopen`, with `create_ioc` of
--                  src/iceberg/services/iocs.py; Undone is proofs
-- Publishing a report that Lifecycle has approved resolves its recipients with Policy on the base
-- decisions of Dissemination, writes feed records, and queues notifications in the Outbox. A
-- stakeholder then reads it through Access, and answers it through Feedback. Before that, reviewers
-- comment on a draft: Comments edits it under the guards of Access, queues mentions in the Outbox,
-- and an open blocking thread holds up Publication. Evidence and Candidates add sources to the notebook.
-- Identity makes the accounts, Tags classifies reports and subscribes accounts to terms, which
-- Dissemination matches, RateLimit and BodyLimit stand before every request, and Deletions removes the
-- stored objects of rows that are gone, with the settings of the Outbox.
--
-- State: a table is the list of its rows in order of insertion, and an operation takes the tables it
-- touches and gives them back. Code that raises returns a `Result`, whose error is a constructor for
-- the site that raises, with what its message names. A row has its primary key. A relationship is a
-- list of ids, except that the requirements of a report are rows. Times are UTC instants, in the
-- outbox in microseconds, so that `_aware` is the identity. A stored rule is a record in which a key
-- that the JSON object lacks is `none`. SELECTs give rows in the order of the table where the code
-- asks for no order.
--
-- Parameters: the readings of the clock, ids that the database assigns and random tokens; what other
-- processes write between two statements (`raced`, `rival`, `others`, `gap`, `during`,
-- `between`); the collation of
-- names; Python's Unicode tables and `str` of a value that is no text (the record `Python`); how a
-- job ends when it runs (`execute`); the webhook and proxy settings; the ids of known groups and the
-- slugs of policies; and, in Publication's `Site`, the rendered content of a snapshot, its SHA-256
-- digest, the fingerprint of a resolution, and whether the commit succeeds. In Comments the version that
-- the database holds at the commit of a suggestion is an argument, and so are `str.lower` and the digest
-- of a section. In Evidence `json.loads`, the size of `json.dumps`, `urlparse` and the equality of stored
-- payloads are parameters; in Hypotheses `Numerals` stands for the Unicode tables of `str.isdigit` and
-- `int`, with what they are on ASCII digits as the hypothesis `HasAscii`; in Retention the row counts
-- that the driver reports, with `IsHonest`; in BodyLimit `int` of a header.
-- In Identity `Folding` stands for the database's `lower` and for `str.casefold`; in Tags `Letters` stands
-- for `str.lower` and `str.upper`, and `conflict` for an `IntegrityError` of the commit. In Deletions the
-- object store is a list of objects with the digests of their bytes, `Faults` is what its calls raise, and
-- `path` is the local path of a key; an execution is one step, before which other processes act. In
-- RateLimit `patterns` are the full matches of regular expressions, `key_of` the bucket key of a request,
-- and `Floats` the floating-point operations, with what IEEE 754 says of them as the hypothesis `IeeeLaws`.
--
-- Fuel: `process_due_jobs` and `process_due_deletions` run as many rounds as the limit asks for, as
-- the code does. `show` counts down from its number, which has no more digits than that. The loop of `delete_in_batches` has one
-- round more than there are matching rows, since each round but the last deletes one; nothing else
-- writes the table meanwhile. BodyLimit describes HTTP requests with the guard on: with a limit of 0
-- or less, and for other scopes, the code calls the application as it is.
--
-- Not modelled: commits and refreshes of the session, the optimistic `version` column of a report
-- outside Comments and Tags, audit and SIEM events, log lines and message texts, since they do not feed back
-- into the state; `ValueError`s of `urlparse` and of `int` on more digits than Python reads; the
-- reliability grade of a source; the listing of tags, whose ILIKE is the database's; and
-- the fetching of feeds and the extraction of indicators, exchange formats, the stores of objects, search,
-- settings, AI assistance, authentication, rendering, the routers and the migrations.
pub mod Base
pub mod Fixtures
pub mod Models
pub mod Lifecycle
pub mod Access
pub mod Audience
pub mod Outbox
pub mod Dissemination
pub mod Policy
pub mod Publication
pub mod Comments
pub mod Evidence
pub mod Hypotheses
pub mod Retention
pub mod BodyLimit
pub mod Feedback
pub mod Identity
pub mod Tags
pub mod Deletions
pub mod RateLimit
pub mod Candidates
