-- ===== src/Outbox/Keys.antt =====
-- The idempotency key: a job is queued once, however often and from wherever it is submitted.
use iceberg_cti.Base.{
  ℕ, ◌≡◌, refl, false, none, some, [], ◌∷◌, ◌++◌, arith, ok, String, str_eq, str_eq_iff, strip,
  is_blank, find_first-append, Option-cases, inl, inr,
}
use iceberg_cti.Models.{OutboxJob, Instant}
use iceberg_cti.Outbox.{Settings, Table, Submission, by_key, new_job, enqueue}

-- The database's constraint: no two rows have one key.
abbrev pub HasUniqueKeys : Table → Type 0
HasUniqueKeys [] = Unit
HasUniqueKeys (j ∷ js) = (by_key j.idempotency_key js ≡ none) × HasUniqueKeys js

by_key-append_new :
    (key : String) (js : Table) (j : OutboxJob)
    → by_key key js ≡ none
    → str_eq j.idempotency_key key ≡ false
    → by_key key (js ++ j ∷ []) ≡ none
by_key-append_new key [] j h ne = ground arith
by_key-append_new key (k ∷ ks) j h ne = ground (arith, by_key-append_new key ks j)

str_eq_sym : (s t : String) → str_eq s t ≡ str_eq t s
str_eq_sym s t = ground (arith, str_eq_iff s t, str_eq_iff t s)

HasUniqueKeys-append_new :
    (js : Table) (j : OutboxJob)
    → HasUniqueKeys js
    → by_key j.idempotency_key js ≡ none
    → HasUniqueKeys (js ++ j ∷ [])
HasUniqueKeys-append_new [] j u h = (refl, tt)
HasUniqueKeys-append_new (k ∷ ks) j u h = ground (
  arith,
  HasUniqueKeys-append_new ks j,
  by_key-append_new k.idempotency_key ks j,
  str_eq_sym k.idempotency_key j.idempotency_key,
)

-- The keys are unique, and the job is the row under this key.
pub record IsQueued (key : String) (job : OutboxJob) (table : Table) : Type 0 where
  pub unique : HasUniqueKeys table
  pub found : by_key key table ≡ some job

-- A submission that succeeds leaves exactly one row under its key, the row that it returns: the
-- keys stay unique, also when another transaction commits rows of its own in between, as long as the
-- database has unique keys before and with these rows.
enqueue-IsQueued :
    (settings : Settings) (o : Submission) (id : ℕ) (now now' : Instant) (raced table : Table)
    {job : OutboxJob} {after : Table}
    → HasUniqueKeys (table ++ raced)
    → HasUniqueKeys table
    → enqueue settings o id now now' raced table ≡ ok (job, after)
    → IsQueued (strip o.idempotency_key) job after
unfolding enqueue
enqueue-IsQueued settings o id now now' raced table u v h =
    let key = strip o.idempotency_key in
    let job = new_job settings o key id now now' in
    elim (Option-cases (by_key key table)) [
      | inr (a, found) ↦ ground arith
      | inl fresh ↦ elim (Option-cases (by_key key raced)) [
        | inr (a, found) ↦
            ground (
              arith,
              find_first-append (λ (j : OutboxJob). str_eq j.idempotency_key key) table raced,
            )
        | inl free ↦ ground (
          arith,
          find_first-append (λ (j : OutboxJob). str_eq j.idempotency_key key) table raced,
          find_first-append (λ (j : OutboxJob). str_eq j.idempotency_key key) (table ++ raced)
              (job ∷ []),
          HasUniqueKeys-append_new (table ++ raced) job,
          str_eq_iff key key,
        )
      ]
    ]

accepted_not_blank :
    (settings : Settings) (o : Submission) (id : ℕ) (now now' : Instant) (raced table : Table)
    {job : OutboxJob} {after : Table}
    → enqueue settings o id now now' raced table ≡ ok (job, after)
    → is_blank (strip o.idempotency_key) ≡ false
unfolding enqueue
accepted_not_blank settings o id now now' raced table h = ground arith

enqueue_known :
    (settings : Settings) (o : Submission) (id : ℕ) (now now' : Instant) (raced table : Table)
    {job : OutboxJob}
    → is_blank (strip o.idempotency_key) ≡ false
    → by_key (strip o.idempotency_key) table ≡ some job
    → enqueue settings o id now now' raced table ≡ ok (job, table)
unfolding enqueue
enqueue_known settings o id now now' raced table full found = ground arith

-- Where keys are unique, submitting a second time under the same key, whatever else the
-- submission says, gives the same job and leaves the table as it is.
enqueue_again :
    (settings : Settings) (o o' : Submission) (id id' : ℕ) (t₁ t₂ t₃ t₄ : Instant)
    (raced raced' table : Table) {job : OutboxJob} {after : Table}
    → HasUniqueKeys (table ++ raced)
    → HasUniqueKeys table
    → enqueue settings o id t₁ t₂ raced table ≡ ok (job, after)
    → strip o'.idempotency_key ≡ strip o.idempotency_key
    → enqueue settings o' id' t₃ t₄ raced' after ≡ ok (job, after)
enqueue_again settings o o' id id' t₁ t₂ t₃ t₄ raced raced' table u v h same =
    let q = enqueue-IsQueued settings o id t₁ t₂ raced table u v h in
    enqueue_known settings o' id' t₃ t₄ raced' _
      (rw same (accepted_not_blank settings o id t₁ t₂ raced table h)) (rw same q.found)
