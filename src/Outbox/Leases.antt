-- ===== src/Outbox/Leases.antt =====
-- The invariant of the rows of the outbox.
use iceberg_cti.Base.{
  nat_eq, string_eq, ◌||◌, ℕ, ◌≡◌, true, false, not, none, List, [], ◌∷◌, arith, String, str_eq,
  str_eq_iff, is_blank, is_some, refl, Bool, update_first, find_first_sound, any_of, update_where,
  All, All-update_where, is_none, Option-cases, Bool-cases, inl, inr, ◌==◌,
}
use iceberg_cti.Models.{OutboxJob, Instant, JobStatus, is_running}
use iceberg_cti.Outbox.{Settings, Table}
use iceberg_cti.Outbox.Claim.{ClaimedJob, claims, leased, by_id, claim_from}
use iceberg_cti.Outbox.Finish.{
  overwritten, Exception, holds, succeeded_row, failed_row, mark_succeeded, mark_failed,
}

-- A running job has a lease that expires and a token, and no other job has either; and a job that succeeded
-- says when.
pub record IsSound (j : OutboxJob) : Type 0 where
  pub running_leased : j.status ≡ JobStatus.running → is_none j.lease_expires_at ≡ false
  pub running_tokened : j.status ≡ JobStatus.running → is_blank j.lease_token ≡ false
  pub idle_unleased : is_running j.status ≡ false → j.lease_expires_at ≡ none
  pub idle_untokened : is_running j.status ≡ false → j.lease_token ≡ ""
  pub succeeded_dated : j.status ≡ JobStatus.succeeded → is_none j.completed_at ≡ false

abbrev pub AllSound : Table → Type 0
AllSound table = All IsSound table

leased-IsSound :
    (settings : Settings) (worker token : String) (now : Instant) (j : OutboxJob)
    → is_blank token ≡ false
    → IsSound j
    → IsSound (leased settings worker token now j)
leased-IsSound settings worker token now j text h = ground arith

pub claim_from-AllSound :
    (settings : Settings) (worker : String) (now : Instant) (token : ℕ → String)
    (others : ℕ → Table → Table) (gap : Table → Table) (is : List ℕ) (table : Table)
    → ((i : ℕ) → is_blank (token i) ≡ false)
    → ((i : ℕ) (t : Table) → AllSound t → AllSound (others i t))
    → ((t : Table) → AllSound t → AllSound (gap t))
    → AllSound table
    → AllSound (claim_from settings worker now token others gap is table).1
unfolding claim_from
claim_from-AllSound settings worker now token others gap [] table text keep keep_gap h = h
claim_from-AllSound settings worker now token others gap (i ∷ is) table text keep keep_gap h =
    let seen = others i table in
    let written = update_where (claims now i) (leased settings worker (token i) now) seen in
    let sound : AllSound (gap written) = keep_gap written (
      All-update_where IsSound (claims now i) (leased settings worker (token i) now) seen
        (λ j s c. leased-IsSound settings worker (token i) now j (text i) s) (keep i table h)) in
    elim (Bool-cases (any_of (claims now i) seen)) [
      | inr lost ↦ rw lost (
          claim_from-AllSound settings worker now token others gap is seen text keep keep_gap
            (keep i table h))
      | inl won ↦ elim (Option-cases (by_id i (gap written))) [
        | inl gone ↦ rw (won, gone) sound
        | inr (j, got) ↦ rw (won, got) sound
      ]
    ]

succeeded_row-IsSound :
    (claim : ClaimedJob) (now : Instant) (j : OutboxJob) → IsSound j → IsSound (succeeded_row now j)
succeeded_row-IsSound claim now j h = ground arith

pub mark_succeeded-AllSound :
    (claim : ClaimedJob) (now : Instant) (table : Table)
    → AllSound table
    → AllSound (mark_succeeded claim now table).1
unfolding mark_succeeded
mark_succeeded-AllSound claim now table h =
    All-update_where IsSound (holds claim) (succeeded_row now) table
      (λ j s _. succeeded_row-IsSound claim now j s) h

not_blank-differs : (s : String) → is_blank s ≡ false → str_eq s "" ≡ false
not_blank-differs s h = elim (Bool-cases (str_eq s "")) [
  | inl hit ↦
      let same : s ≡ "" = (str_eq_iff s "").0 hit in let bad : true ≡ false = (rw same at h) in cc
  | inr miss ↦ miss
]

running-eq : (s : JobStatus) → is_running s ≡ true → s ≡ JobStatus.running
running-eq JobStatus.running h = refl
running-eq JobStatus.pending h = cc
running-eq JobStatus.succeeded h = cc
running-eq JobStatus.failed h = cc

-- A row that a worker overwrites, with values for the row as it read it: running, with a token.
overwritten-IsSound :
    (settings : Settings) (exc : Exception) (now : Instant) (read k : OutboxJob)
    → read.status ≡ JobStatus.running
    → IsSound read
    → IsSound k
    → IsSound (overwritten read (failed_row settings exc now read) k)
unfolding failed_row
overwritten-IsSound settings exc now read k running sound h =
    let timed : is_none read.lease_expires_at ≡ false = sound.running_leased running in
    let tokened : is_blank read.lease_token ≡ false = sound.running_tokened running in
    let written : str_eq read.lease_token "" ≡ false = not_blank-differs read.lease_token tokened in
    ground (arith, timed, tokened, written)

All-update_first :
    (p : OutboxJob → Bool) (f : OutboxJob → OutboxJob) (table : Table)
    → ((j : OutboxJob) → IsSound j → IsSound (f j))
    → AllSound table
    → AllSound (update_first p f table)
All-update_first p f [] keep h = tt
All-update_first p f (j ∷ js) keep h = elim (Bool-cases (p j)) [
  | inl hit ↦ rw hit (keep j h.0, h.1)
  | inr miss ↦ rw miss (h.0, All-update_first p f js keep h.1)
]

pub mark_failed-AllSound :
    (settings : Settings) (claim : ClaimedJob) (exc : Exception) (now : Instant)
    (between : Table → Table) (table : Table)
    → ((t : Table) → AllSound t → AllSound (between t))
    → AllSound table
    → AllSound (mark_failed settings claim exc now between table).1
unfolding mark_failed
mark_failed-AllSound settings claim exc now between table keep h =
    let seen = between table in
    elim (Option-cases (by_id claim.id table)) [
      | inl gone ↦ rw (gone, mark_failed) h
      | inr (j, got) ↦
          elim (Bool-cases
            (not (is_running j.status) || not (str_eq j.lease_token claim.lease_token))) [
              | inl lost ↦ rw (got, mark_failed, lost) h
              | inr held ↦ elim (Bool-cases (is_some (by_id claim.id seen))) [
                | inr stale ↦ rw (got, mark_failed, held, stale) (keep table h)
                | inl there ↦
                    let (sound, _) =
                      find_first_sound IsSound (λ k. k.id == claim.id) table j h got in
                    let running : j.status ≡ JobStatus.running =
                      running-eq j.status (ground (arith, held)) in
                    rw (got, mark_failed, held, there)
                      (All-update_first (λ k. k.id == claim.id)
                        (overwritten j (failed_row settings exc now j)) seen
                        (λ k s. overwritten-IsSound settings exc now j k running sound s)
                        (keep table h))
              ]
            ]
    ]
