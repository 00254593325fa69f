-- ===== src/Deletions.antt =====
-- src/iceberg/services/storage_deletions.py: the tombstones of stored objects, and what executing one
-- does. The clock, the random tokens, what other processes do, and how the object store fails are
-- parameters.
pub mod Worker
pub mod Retained
pub mod Exact
mod Tests
use iceberg_cti.Outbox.{seconds, Settings}
use iceberg_cti.Models.{Instant}
use iceberg_cti.Base.{
  max, raise_if, is_blank, update_first, any_of, find_first, str_eq, zero, suc, [], ◌∷◌, refl,
  arith, inl, inr, some, none, ok, err, true, false, nat_eq, string_eq, ◌>>=◌, ◌>>◌, ◌≡◌, ◌≢◌, ◌≤◌,
  ◌<◌, ◌↔◌, ◌⊎◌, ◌+◌, ◌++◌, ◌&&◌, ◌||◌, ◌==◌, not, if◌then◌else◌, Bool, List, Option, ℕ, String,
  Result, All, map, select, elem, Bool-cases, Option-cases, Result-cases,
}

pub data DeletionStatus : Type 0 where
  pending running succeeded failed cancelled : DeletionStatus

pub record StorageDeletion : Type 0 where
  pub id : ℕ
  pub kind : String
  pub backend : String
  pub object_key : String
  pub content_sha256 : String
  pub status : DeletionStatus
  pub not_before : Instant
  pub available_at : Instant
  pub attempt_count : ℕ
  pub max_attempts : ℕ
  pub leased_at : Option Instant
  pub lease_expires_at : Option Instant
  pub lease_token : String
  pub leased_by : String
  pub last_error : String
  pub created_at : Instant
  pub completed_at : Option Instant

-- An object as a domain row or a tombstone names it.
pub record ObjectRef : Type 0 where
  pub kind : String
  pub backend : String
  pub key : String

abbrev pub same_ref : ObjectRef → ObjectRef → Bool
same_ref a b = str_eq a.kind b.kind && str_eq a.backend b.backend && str_eq a.key b.key

abbrev pub ref_of : StorageDeletion → ObjectRef
ref_of d = record { kind = d.kind; backend = d.backend; key = d.object_key }

abbrev pub is_done : DeletionStatus → Bool
is_done DeletionStatus.succeeded = true
is_done DeletionStatus.cancelled = true
is_done _ = false

abbrev pub new_deletion :
    Settings → ℕ → ObjectRef → String → ℕ → Instant → Instant → StorageDeletion
new_deletion settings id ref sha256 delay now created_at = record {
  id = id;
  kind = ref.kind;
  backend = ref.backend;
  object_key = ref.key;
  content_sha256 = sha256;
  status = DeletionStatus.pending;
  not_before = now + seconds delay;
  available_at = now + seconds delay;
  attempt_count = 0;
  max_attempts = max 1 settings.jobs_max_attempts;
  leased_at = none;
  lease_expires_at = none;
  lease_token = "";
  leased_by = "";
  last_error = "";
  created_at = created_at;
  completed_at = none;
}

-- A tombstone whose work is done is armed again.
abbrev pub rearmed : Settings → String → ℕ → Instant → StorageDeletion → StorageDeletion
rearmed settings sha256 delay now d = record d {
  content_sha256 = sha256;
  status = DeletionStatus.pending;
  not_before = now + seconds delay;
  available_at = now + seconds delay;
  attempt_count = 0;
  max_attempts = max 1 settings.jobs_max_attempts;
  leased_at = none;
  lease_expires_at = none;
  lease_token = "";
  leased_by = "";
  last_error = "";
  completed_at = none;
}

abbrev pub tombstone : ObjectRef → StorageDeletion → Bool
tombstone ref d = same_ref (ref_of d) ref

-- `ref` is the validated kind, the backend and the deletion key of the item, and `delay` the grace in
-- seconds. A row of `rival` is inserted by another process before the flush, which then fails on the
-- unique key.
unfoldable pub enqueue :
    Settings
    → ℕ
    → ObjectRef
    → String
    → ℕ
    → Instant
    → Instant
    → Option StorageDeletion
    → List StorageDeletion
    → StorageDeletion × List StorageDeletion
enqueue settings id ref sha256 delay now created_at rival table =
    elim (find_first (tombstone ref) table) [
      | some d ↦
          if is_done d.status
          then (
            rearmed settings sha256 delay now d,
            update_first (tombstone ref) (rearmed settings sha256 delay now) table,
          )
          else (d, table)
      | none ↦ elim rival [
        | none ↦
            let row = new_deletion settings id ref sha256 delay now created_at in
            (row, table ++ (row ∷ []))
        | some d ↦ (d, table ++ (d ∷ []))
      ]
    ]

-- A row of `Attachment`, `Figure` or `RenderedProduct`, which its kind tells; `pdf_path` of the last.
pub record LiveRow : Type 0 where
  pub ref : ObjectRef
  pub pdf_path : String

-- An object of a store, with the digest of its bytes.
pub record StoredObject : Type 0 where
  pub ref : ObjectRef
  pub sha256 : String

pub record World : Type 0 where
  pub deletions : List StorageDeletion
  pub live : List LiveRow
  pub objects : List StoredObject

-- `LocalObjectStore().path("render", key)` is `path key`.
unfoldable pub referenced : (String → String) → List LiveRow → StorageDeletion → Bool
referenced path live d =
    any_of (λ r. same_ref r.ref (ref_of d)) live
    || (str_eq d.kind "render"
        && str_eq d.backend "local"
        && any_of
            (λ r.
              str_eq r.ref.kind "render"
              && is_blank r.ref.key
              && str_eq r.pdf_path (path d.object_key))
            live)

-- An exception that `_execute` lets through, and whether it is a `StorageError`.
pub record Failure : Type 0 where
  pub type_name : String
  pub message : String
  pub is_storage_error : Bool

-- What each call of the store raises, where it does; `mismatch` is what a read of other bytes raises.
pub record Faults : Type 0 where
  pub get_store : Option Failure
  pub head : Option Failure
  pub read_bytes : Option Failure
  pub delete : Option Failure
  pub mismatch : Failure

abbrev pub raised : Option Failure → Result Failure (Unit {0})
raised none = ok tt
raised (some f) = err f

-- The status, and the objects after it.
unfoldable pub execute :
    (String → String) → Faults → ℕ → World → Result Failure (DeletionStatus × List StoredObject)
unfolding referenced
execute path faults row_id w = elim (find_first (λ d. d.id == row_id) w.deletions) [
  | none ↦ ok (DeletionStatus.succeeded, w.objects)
  | some d ↦ if referenced path w.live d then ok (DeletionStatus.cancelled, w.objects) else do
    raised faults.get_store
    raised faults.head
    elim (find_first (λ o. same_ref o.ref (ref_of d)) w.objects) [
      | none ↦ ok (DeletionStatus.succeeded, w.objects)
      | some o ↦ do
        if is_blank d.content_sha256 then ok tt else raised faults.read_bytes
        raise_if (not (is_blank d.content_sha256) && not (str_eq o.sha256 d.content_sha256))
            faults.mismatch
        raised faults.delete
        ok (DeletionStatus.succeeded, select (λ p. not (same_ref p.ref (ref_of d))) w.objects)
    ]
]
