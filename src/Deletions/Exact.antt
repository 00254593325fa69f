-- ===== src/Deletions/Exact.antt =====
-- What executing a tombstone removes from the object store.
use iceberg_cti.Deletions.{
  ref_of, same_ref, referenced, DeletionStatus, Faults, StoredObject, StorageDeletion, World,
  execute,
}
use iceberg_cti.Base.{
  str_eq_iff, str_eq, find_first, is_blank, arith, inl, inr, some, none, ok, true, false, nat_eq,
  string_eq, ◌≡◌, ◌⊎◌, ◌==◌, not, List, ℕ, String, select, Bool-cases, Option-cases,
}

-- The bytes are those that the tombstone describes, where it describes any.
abbrev pub IsDescribed : StorageDeletion → StoredObject → Type 0
IsDescribed d o = (is_blank d.content_sha256 ≡ true) ⊎ (o.sha256 ≡ d.content_sha256)

-- The tombstone's object is gone, and it was removed for its bytes and without a row that names it.
abbrev pub IsRemoved : (String → String) → ℕ → World → DeletionStatus → List StoredObject → Type 0
IsRemoved path row_id w status after =
    (d : StorageDeletion) × (o : StoredObject) × (find_first (λ d. d.id == row_id) w.deletions
      ≡ some d)
    × (referenced path w.live d ≡ false)
    × (find_first (λ o. same_ref o.ref (ref_of d)) w.objects ≡ some o)
    × IsDescribed d o
    × (status ≡ DeletionStatus.succeeded)
    × (after ≡ select (λ p. not (same_ref p.ref (ref_of d))) w.objects)

-- The object store is as it was, since there is no tombstone, or a row names the object, or the object
-- is not there.
abbrev pub IsLeft : (String → String) → ℕ → World → DeletionStatus → List StoredObject → Type 0
IsLeft path row_id w status after =
    (after ≡ w.objects)
    × ((find_first (λ d. d.id == row_id) w.deletions ≡ none)
        ⊎ ((d : StorageDeletion) × (find_first (λ d. d.id == row_id) w.deletions ≡ some d)
            × (((referenced path w.live d ≡ true) × (status ≡ DeletionStatus.cancelled))
                ⊎ ((find_first (λ o. same_ref o.ref (ref_of d)) w.objects ≡ none)
                    × (status ≡ DeletionStatus.succeeded)))))

-- An execution that ends without an exception removes the object of its tombstone, unless there is no such
-- tombstone, a row of the domain names the object (and then it is cancelled), or the object is not there.
-- Where it removes the object, no row of the domain names it, its bytes have the digest of the tombstone,
-- if that has one, and every other object stays.
pub execute-IsRemoved :
    (path : String → String) (faults : Faults) (row_id : ℕ) (w : World) (status : DeletionStatus)
    (after : List StoredObject)
    → execute path faults row_id w ≡ ok (status, after)
    → IsLeft path row_id w status after ⊎ IsRemoved path row_id w status after
unfolding execute
execute-IsRemoved path faults row_id w status after ran =
    elim (Option-cases (find_first (λ d. d.id == row_id) w.deletions)) [
      | inl missing ↦ inl (ground (arith, missing), inl missing)
      | inr (d, found) ↦ elim (Bool-cases (referenced path w.live d)) [
        | inl used ↦
            inl
              (ground (arith, found, used), inr (d, found, inl (used, ground (arith, found, used))))
        | inr unused ↦ elim (Option-cases (find_first (λ o. same_ref o.ref (ref_of d)) w.objects)) [
          | inl nothing ↦
              let result = rw (execute, found, unused, nothing) at ran in
              inl (ground (arith, result), inr (d, found, inr (nothing, ground (arith, result))))
          | inr (o, stored) ↦
              let result = rw (execute, found, unused, stored) at ran in
              let described : IsDescribed d o =
                elim (Bool-cases (str_eq o.sha256 d.content_sha256)) [
                  | inl same ↦ inr ((str_eq_iff o.sha256 d.content_sha256).0 same)
                  | inr other ↦ elim (Bool-cases (is_blank d.content_sha256)) [
                    | inl blank ↦ inl blank
                    | inr given ↦ ground (arith, result, other, given)
                  ]
                ] in
              inr (
                d,
                o,
                found,
                unused,
                stored,
                described,
                ground (arith, result),
                ground (arith, result),
              )
        ]
      ]
    ]
