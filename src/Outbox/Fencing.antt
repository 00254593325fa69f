-- ===== src/Outbox/Fencing.antt =====
-- The claim of a job, and the reports of the worker that had it before.
use iceberg_cti.Base.{
  nat_eq, string_eq, ℕ, ◌≡◌, refl, ◌≢◌, true, false, Option, none, some, List, [], ◌∷◌, arith,
  String, str_eq_iff, any_of, sym, ◌∙◌, Option-cases, update_where, update_where-none, Bool-cases,
  inl, inr, ◌==◌, ap, ==_iff,
}
use iceberg_cti.Models.{OutboxJob, Instant}
use iceberg_cti.Outbox.{Settings, Table}
use iceberg_cti.Outbox.Claim.{
  ClaimedJob, claims, claimable, leased, by_id, claim_of, claim_from, claim_next,
}
use iceberg_cti.Outbox.Finish.{
  FailureReport, Exception, holds, succeeded_row, mark_succeeded, mark_failed,
}

-- The database's constraint: no two rows have one id.
abbrev pub HasUniqueIds : Table → Type 0
HasUniqueIds [] = Unit
HasUniqueIds (j ∷ js) = (by_id j.id js ≡ none) × HasUniqueIds js

absent_held :
    (claim : ClaimedJob) (js : Table) → by_id claim.id js ≡ none → any_of (holds claim) js ≡ false
absent_held claim [] h = refl
absent_held claim (j ∷ js) h = ground (arith, absent_held claim js)

other_held :
    (claim : ClaimedJob) (js : Table) {j : OutboxJob}
    → HasUniqueIds js
    → by_id claim.id js ≡ some j
    → j.lease_token ≢ claim.lease_token
    → any_of (holds claim) js ≡ false
other_held claim [] u got ne = refl
other_held claim (k ∷ ks) {j} u got ne = elim (Bool-cases (k.id == claim.id)) [
  | inl same ↦ ground (
    arith,
    absent_held claim ks,
    str_eq_iff k.lease_token claim.lease_token,
    ==_iff k.id claim.id,
  )
  | inr other ↦ ground (arith, other_held claim ks {j = j} u.1)
]

absent_claims :
    (now : Instant) (i : ℕ) (js : Table) → by_id i js ≡ none → any_of (claims now i) js ≡ false
absent_claims now i [] h = refl
absent_claims now i (j ∷ js) h = ground (arith, absent_claims now i js)

-- The UPDATE leases the one row under the id, which was claimable.
pub written_leased :
    (settings : Settings) (worker token : String) (now : Instant) (i : ℕ) (js : Table)
    → HasUniqueIds js
    → any_of (claims now i) js ≡ true
    → (k : OutboxJob) × (by_id i js ≡ some k)
      × (claimable now k ≡ true)
      × (by_id i (update_where (claims now i) (leased settings worker token now) js)
          ≡ some (leased settings worker token now k))
written_leased settings worker token now i [] u h = cc
written_leased settings worker token now i (k ∷ ks) u h = elim (Bool-cases (k.id == i)) [
  | inl same ↦ (
    k,
    ground arith,
    ground (arith, absent_claims now i ks, ==_iff k.id i),
    ground (arith, absent_claims now i ks, ==_iff k.id i),
  )
  | inr other ↦
      let (k', a, b, c) = written_leased settings worker token now i ks u.1 (rw other at h) in
      (k', rw other a, b, rw (other, update_where) (rw other c))
]

pub by_id-id : (i : ℕ) (js : Table) {k : OutboxJob} → by_id i js ≡ some k → k.id ≡ i
by_id-id i [] h = cc
by_id-id i (j ∷ js) {k} h = ground (arith, by_id-id i js {k = k})

-- The table that the UPDATE committed has the leased job under the id of the claim; `after` is that table as
-- other processes have left it, and the claim has the kind and the payload of the row as it is there.
pub record HasLeased (settings : Settings) (worker : String) (now : Instant) (gap : Table → Table)
    (claim : ClaimedJob) (after : Table) (job : OutboxJob) : Type 0 where
  pub due : claimable now job ≡ true
  pub same_id : job.id ≡ claim.id
  pub committed : Table
  pub stored : by_id claim.id committed ≡ some (leased settings worker claim.lease_token now job)
  pub left : after ≡ gap committed
  pub row : OutboxJob
  pub read : by_id claim.id after ≡ some row
  pub same_kind : row.kind ≡ claim.kind
  pub same_payload : row.payload ≡ claim.payload

leased_claim :
    (settings : Settings) (worker token : String) (now : Instant) (gap : Table → Table) (i : ℕ)
    (k row : OutboxJob) (written : Table) {claim : ClaimedJob} {after : Table}
    → k.id ≡ i
    → claimable now k ≡ true
    → by_id i written ≡ some (leased settings worker token now k)
    → by_id i (gap written) ≡ some row
    → ◌≡◌ {A = Option ClaimedJob × Table}
        (some (claim_of token row), gap written)
        (some claim, after)
    → HasLeased settings worker now gap claim after k
leased_claim settings worker token now gap i k row written {claim} {after} same due stored got e =
    let left : gap written ≡ after = ap (λ (p : Option ClaimedJob × Table). p.1) e in
    let told : some (claim_of token row) ≡ some claim =
      ap (λ (p : Option ClaimedJob × Table). p.0) e in
    let token_eq : token ≡ claim.lease_token = ground arith in
    let row_id : row.id ≡ i = by_id-id i (gap written) got in
    let claim_id : row.id ≡ claim.id = ground arith in
    let id_eq : i ≡ claim.id = sym row_id ∙ claim_id in
    record {
      due = due;
      same_id = same ∙ id_eq;
      committed = written;
      stored = rw (← token_eq, ← id_eq) stored;
      left = sym left;
      row = row;
      read = rw (← left, ← id_eq) got;
      same_kind = ground arith;
      same_payload = ground arith;
    }

claim_from-HasLeased :
    (settings : Settings) (worker : String) (now : Instant) (token : ℕ → String)
    (others : ℕ → Table → Table) (gap : Table → Table) (is : List ℕ) (table : Table)
    {claim : ClaimedJob} {after : Table}
    → ((i : ℕ) (t : Table) → HasUniqueIds t → HasUniqueIds (others i t))
    → HasUniqueIds table
    → claim_from settings worker now token others gap is table ≡ (some claim, after)
    → (job : OutboxJob) × HasLeased settings worker now gap claim after job
unfolding claim_from
claim_from-HasLeased settings worker now token others gap [] table keep u e = cc
claim_from-HasLeased settings worker now token others gap (i ∷ is) table {claim} {after} keep u e =
    let seen = others i table in
    elim (Bool-cases (any_of (claims now i) seen)) [
      | inr lost ↦
          claim_from-HasLeased settings worker now token others gap is seen keep (keep i table u)
            (rw lost at e)
      | inl won ↦
          let written = update_where (claims now i) (leased settings worker (token i) now) seen in
          let (k, a, b, c) =
            written_leased settings worker (token i) now i seen (keep i table u) won in
          elim (Option-cases (by_id i (gap written))) [
            | inl gone ↦ let nobody = rw (won, gone) at e in ground (arith, nobody)
            | inr (row, got) ↦ (
              k,
              leased_claim settings worker (token i) now gap i k row written (by_id-id i seen a) b c
                  got (rw (won, got) at e),
            )
          ]
    ]

pub claim_next-HasLeased :
    (settings : Settings) (worker : String) (now : Instant) (token : ℕ → String)
    (others : ℕ → Table → Table) (gap : Table → Table) (table : Table) {claim : ClaimedJob}
    {after : Table}
    → ((i : ℕ) (t : Table) → HasUniqueIds t → HasUniqueIds (others i t))
    → HasUniqueIds table
    → claim_next settings worker now token others gap table ≡ (some claim, after)
    → (job : OutboxJob) × HasLeased settings worker now gap claim after job
unfolding claim_next
claim_next-HasLeased settings worker now token others gap table keep u e =
    claim_from-HasLeased settings worker now token others gap _ table keep u e

other_token-lost :
    (settings : Settings) (claim : ClaimedJob) (exc : Exception) (now : Instant)
    (between : Table → Table) (table : Table) {j : OutboxJob}
    → HasUniqueIds table
    → by_id claim.id table ≡ some j
    → j.lease_token ≢ claim.lease_token
    → (mark_succeeded claim now table ≡ (false, table))
      × (mark_failed settings claim exc now between table ≡ (FailureReport.lost, table))
unfolding mark_succeeded mark_failed
other_token-lost settings claim exc now between table {j} u got ne = (
  ground (
    arith,
    other_held claim table u got ne,
    update_where-none (holds claim) (succeeded_row now) table,
  ),
  ground (arith, str_eq_iff j.lease_token claim.lease_token),
)

-- A claim fences off the worker that had the job before it: once another worker has claimed the job with
-- another token, both reports of the first one that begin after the claim is committed are told that the
-- lease is lost, and leave the table, and with it the new lease, as it is. Other processes may do before
-- each UPDATE of the claim, and between the SELECT and the UPDATE of a failure, whatever they like; the
-- ids stay unique, and nothing changes the leased row between the commit of the claim and its reading.
pub other_token_fenced :
    (settings : Settings) (worker : String) (now later : Instant) (token : ℕ → String)
    (others : ℕ → Table → Table) (gap between : Table → Table) (table : Table) (claim : ClaimedJob)
    (exc : Exception) {won : ClaimedJob} {after : Table}
    → ((i : ℕ) (t : Table) → HasUniqueIds t → HasUniqueIds (others i t))
    → ((t : Table) (j : OutboxJob) → by_id won.id t ≡ some j → by_id won.id (gap t) ≡ some j)
    → HasUniqueIds table
    → HasUniqueIds after
    → claim_next settings worker now token others gap table ≡ (some won, after)
    → claim.id ≡ won.id
    → won.lease_token ≢ claim.lease_token
    → (mark_succeeded claim later after ≡ (false, after))
      × (mark_failed settings claim exc later between after ≡ (FailureReport.lost, after))
      × ((job : OutboxJob) × (claimable now job ≡ true)
          × (by_id won.id after ≡ some (leased settings worker won.lease_token now job)))
other_token_fenced settings worker now later token others gap between table claim exc {won} {after}
      keep leaves u u_after done same_job ne =
    let (job, h) = claim_next-HasLeased settings worker now token others gap table keep u done in
    let row : OutboxJob = leased settings worker won.lease_token now job in
    let kept : by_id won.id after ≡ some row = rw h.left (leaves h.committed row h.stored) in
    let found : by_id claim.id after ≡ some row = rw same_job kept in
    let (first, second) =
      other_token-lost settings claim exc later between after u_after found ne in
    (first, second, (job, h.due, kept))
