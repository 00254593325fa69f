-- ===== src/Deletions/Tests.antt =====
-- A small store, with a tombstone of an object that is named again.
use iceberg_cti.Deletions.Exact.{IsLeft, execute-IsRemoved, IsRemoved}
use iceberg_cti.Outbox.{Settings}
use iceberg_cti.Deletions.Worker.{Pass, process_due_deletions}
use iceberg_cti.Deletions.{
  rearmed, DeletionStatus, new_deletion, referenced, Faults, ObjectRef, StorageDeletion,
  StoredObject, World, enqueue, execute,
}
use iceberg_cti.Base.{
  some, [], ◌∷◌, refl, none, ok, err, true, nat_eq, string_eq, ◌≡◌, ◌⊎◌, ℕ, String,
}
use iceberg_cti.Deletions.Retained.{process_due_deletions-IsRetained, IsRetained}

abbrev settings : Settings
settings = record { jobs_max_attempts = 3; jobs_lease_seconds = 60; jobs_retry_base_seconds = 5 }

abbrev ref : String → ObjectRef
ref key = record { kind = "figure"; backend = "s3"; key = key }

abbrev first : StorageDeletion
first = new_deletion settings 1 (ref "a") "aa" 0 5 5

abbrev second : StorageDeletion
second = new_deletion settings 2 (ref "b") "bb" 0 6 6

abbrev object_of : String → String → StoredObject
object_of key sha256 = record { ref = ref key; sha256 = sha256 }

abbrev world : World
world = record {
  deletions = first ∷ second ∷ [];
  live = record { ref = ref "a"; pdf_path = "" } ∷ [];
  objects = object_of "a" "aa" ∷ object_of "b" "bb" ∷ [];
}

abbrev no_faults : Faults
no_faults = record {
  get_store = none;
  head = none;
  read_bytes = none;
  delete = none;
  mismatch = record { type_name = "StorageError"; message = "digest"; is_storage_error = true };
}

abbrev passes : ℕ → Pass
passes n = record {
  now_claim = 10;
  now_done = 11;
  token = λ i. "t";
  others = λ i table. table;
  during = λ w. w;
  before_mark = λ table. table;
  between = λ table. table;
  faults = no_faults;
}

abbrev path : String → String
path key = key

-- The object that is named again stays, the other goes.
both_executed :
    (process_due_deletions settings path "w" passes 5 world).1.objects ≡ object_of "a" "aa" ∷ []
unfolding process_due_deletions execute
both_executed = refl

both_counted :
    (process_due_deletions settings path "w" passes 5 world).0
    ≡ some (record { processed = 2; succeeded = 1; cancelled = 1; retried = 0; failed = 0 })
unfolding process_due_deletions execute
both_counted = refl

process_due_deletions-IsRetained_example :
    IsRetained path (ref "a") (process_due_deletions settings path "w" passes 5 world).1
process_due_deletions-IsRetained_example =
    process_due_deletions-IsRetained settings path "w" passes 5 (ref "a") world (λ n w kept. kept)
      (refl, refl)

-- The object of a tombstone with another digest is kept, and the tombstone is due again later.
other_bytes :
    execute path no_faults 2 (record world { objects = object_of "b" "xx" ∷ [] })
    ≡ err no_faults.mismatch
unfolding execute referenced
other_bytes = refl

removed_second :
    execute path no_faults 2 world ≡ ok (DeletionStatus.succeeded, object_of "a" "aa" ∷ [])
unfolding execute referenced
removed_second = refl

execute-IsRemoved_example :
    IsLeft path 2 world DeletionStatus.succeeded (object_of "a" "aa" ∷ [])
    ⊎ IsRemoved path 2 world DeletionStatus.succeeded (object_of "a" "aa" ∷ [])
execute-IsRemoved_example =
    execute-IsRemoved path no_faults 2 world DeletionStatus.succeeded (object_of "a" "aa" ∷ [])
      removed_second

-- A tombstone that succeeded is armed again, and one that failed is left to the operator.
rearmed-first :
    (enqueue settings 9
      (ref "a")
      "cc"
      3
      20
      20
      none
      (record first { status = DeletionStatus.succeeded } ∷ [])).1
    ≡ rearmed settings "cc" 3 20 (record first { status = DeletionStatus.succeeded }) ∷ []
unfolding enqueue
rearmed-first = refl

failed_kept :
    (enqueue settings 9
      (ref "a")
      "cc"
      3
      20
      20
      none
      (record first { status = DeletionStatus.failed } ∷ [])).1
    ≡ record first { status = DeletionStatus.failed } ∷ []
unfolding enqueue
failed_kept = refl

-- A rendered product from before there were keys keeps its PDF.
abbrev legacy_ref : ObjectRef
legacy_ref = record { kind = "render"; backend = "local"; key = "r.pdf" }

abbrev legacy_world : World
legacy_world = record {
  deletions = new_deletion settings 1 legacy_ref "" 0 5 5 ∷ [];
  live =
      record { ref = record { kind = "render"; backend = "local"; key = "" }; pdf_path = "r.pdf" }
      ∷ [];
  objects = record { ref = legacy_ref; sha256 = "rr" } ∷ [];
}

legacy_kept :
    (process_due_deletions settings path "w" passes 5 legacy_world).1.objects ≡ legacy_world.objects
unfolding process_due_deletions execute referenced
legacy_kept = refl
