-- ===== src/Deletions/Retained.antt =====
-- The objects that a pass of the deletion worker leaves alone.
use iceberg_cti.Deletions.Worker.{
  lease_next, PassResult, Pass, process_due_deletions, run_deletion, run_rounds,
}
use iceberg_cti.Deletions.{
  Settings, StorageDeletion, ref_of, DeletionStatus, Faults, LiveRow, StoredObject, World,
  referenced, same_ref, ObjectRef, execute,
}
use iceberg_cti.Base.{
  max, find_first, ◌∙◌, any_of, is_blank, str_eq, ◌&&◌, ◌||◌, str_eq_iff, sym, zero, suc, [], ◌∷◌,
  refl, arith, inl, inr, ok, true, false, nat_eq, string_eq, ◌≡◌, ◌==◌, not, Bool, List, ℕ, String,
  select, Bool-cases, Option-cases, Result-cases,
}

same_ref-parts :
    (a b : ObjectRef)
    → same_ref a b ≡ true
    → (a.kind ≡ b.kind) × (a.backend ≡ b.backend) × (a.key ≡ b.key)
same_ref-parts a b h = (
  (str_eq_iff a.kind b.kind).0 (ground (arith, h)),
  (str_eq_iff a.backend b.backend).0 (ground (arith, h)),
  (str_eq_iff a.key b.key).0 (ground (arith, h)),
)

same_ref-right : (a b r : ObjectRef) → same_ref a b ≡ true → same_ref r a ≡ same_ref r b
same_ref-right a b r h =
    let (kind, backend, key) = same_ref-parts a b h in rw (kind, backend, key) refl

same_ref-left : (a b r : ObjectRef) → same_ref a b ≡ true → same_ref a r ≡ same_ref b r
same_ref-left a b r h =
    let (kind, backend, key) = same_ref-parts a b h in rw (kind, backend, key) refl

-- A domain row names the object: by its key, or, a rendered product from before there were keys, by the
-- local path of its PDF.
abbrev pub names : (String → String) → ObjectRef → LiveRow → Bool
names path ref r =
    same_ref r.ref ref
    || (str_eq ref.kind "render"
        && str_eq ref.backend "local"
        && (str_eq r.ref.kind "render" && is_blank r.ref.key && str_eq r.pdf_path (path ref.key)))

abbrev pub is_live : (String → String) → ObjectRef → List LiveRow → Bool
is_live path ref live = any_of (names path ref) live

abbrev pub has_object : ObjectRef → List StoredObject → Bool
has_object ref objects = any_of (λ o. same_ref o.ref ref) objects

-- A domain row names the object, and the store has it.
abbrev pub IsRetained : (String → String) → ObjectRef → World → Type 0
IsRetained path ref w = (is_live path ref w.live ≡ true) × (has_object ref w.objects ≡ true)

names-same :
    (path : String → String) (a b : ObjectRef) (r : LiveRow)
    → same_ref a b ≡ true
    → names path a r ≡ names path b r
names-same path a b r h =
    let (kind, backend, key) = same_ref-parts a b h in rw (kind, backend, key) refl

is_live-same :
    (path : String → String) (a b : ObjectRef) (live : List LiveRow)
    → same_ref a b ≡ true
    → is_live path a live ≡ is_live path b live
is_live-same path a b [] h = refl
is_live-same path a b (r ∷ live) h = rw (names-same path a b r h, is_live-same path a b live h) refl

any_of-either :
    (p q : LiveRow → Bool) (k l : Bool) (live : List LiveRow)
    → any_of (λ r. p r || (k && l && q r)) live ≡ (any_of p live || (k && l && any_of q live))
any_of-either p q true true [] = refl
any_of-either p q true false [] = refl
any_of-either p q false l [] = refl
any_of-either p q true true (r ∷ live) = ground (arith, any_of-either p q true true live)
any_of-either p q true false (r ∷ live) = ground (arith, any_of-either p q true false live)
any_of-either p q false l (r ∷ live) = ground (arith, any_of-either p q false l live)

-- The query by key and the query for the legacy rows find each row that names the object.
is_live-referenced :
    (path : String → String) (d : StorageDeletion) (live : List LiveRow)
    → is_live path (ref_of d) live ≡ referenced path live d
unfolding referenced
is_live-referenced path d live =
    any_of-either (λ r. same_ref r.ref (ref_of d))
      (λ r.
        str_eq r.ref.kind "render" && is_blank r.ref.key && str_eq r.pdf_path (path d.object_key))
      (str_eq d.kind "render") (str_eq d.backend "local") live

has_object-select :
    (ref gone : ObjectRef) (objects : List StoredObject)
    → same_ref ref gone ≡ false
    → has_object ref (select (λ p. not (same_ref p.ref gone)) objects) ≡ has_object ref objects
has_object-select ref gone [] h = refl
has_object-select ref gone (o ∷ objects) h = elim (Bool-cases (same_ref o.ref gone)) [
  | inl removed ↦ elim (Bool-cases (same_ref o.ref ref)) [
    | inl hit ↦
        let left : same_ref o.ref gone ≡ same_ref ref gone = same_ref-left o.ref ref gone hit in
        let apart : true ≡ false = sym removed ∙ left ∙ h in cc
    | inr miss ↦ rw (removed, miss, has_object-select ref gone objects h) refl
  ]
  | inr kept ↦ rw (kept, has_object-select ref gone objects h) refl
]

-- A tombstone that nothing references is not that of an object that a row names.
other_object :
    (path : String → String) (ref : ObjectRef) (d : StorageDeletion) (w : World)
    → is_live path ref w.live ≡ true
    → referenced path w.live d ≡ false
    → same_ref ref (ref_of d) ≡ false
other_object path ref d w live unused = elim (Bool-cases (same_ref ref (ref_of d))) [
  | inl same ↦
      let used : true ≡ false =
        sym live
        ∙ is_live-same path ref (ref_of d) w.live same
        ∙ is_live-referenced path d w.live
        ∙ unused in
      cc
  | inr other ↦ other
]

execute-has_object :
    (path : String → String) (faults : Faults) (row_id : ℕ) (ref : ObjectRef) (w : World)
    (done : DeletionStatus × List StoredObject)
    → IsRetained path ref w
    → execute path faults row_id w ≡ ok done
    → has_object ref done.1 ≡ true
unfolding execute referenced
execute-has_object path faults row_id ref w done (live, there) ran =
    elim (Option-cases (find_first (λ d. d.id == row_id) w.deletions)) [
      | inl missing ↦
          let same : done ≡ (DeletionStatus.succeeded, w.objects) = ground (arith, missing) in
          rw same there
      | inr (d, found) ↦ elim (Bool-cases (referenced path w.live d)) [
        | inl used ↦
            let same : done ≡ (DeletionStatus.cancelled, w.objects) = ground (arith, found, used) in
            rw same there
        | inr unused ↦ elim (Option-cases (find_first (λ o. same_ref o.ref (ref_of d)) w.objects)) [
          | inl nothing ↦
              let result = rw (execute, found, unused, nothing) at ran in
              let same : done.1 ≡ w.objects = ground (arith, result) in rw same there
          | inr (o, stored) ↦
              let other : same_ref ref (ref_of d) ≡ false = other_object path ref d w live unused in
              let result = rw (execute, found, unused, stored) at ran in
              let same : done.1 ≡ select (λ p. not (same_ref p.ref (ref_of d))) w.objects =
                ground (arith, result) in
              rw (same, has_object-select ref (ref_of d) w.objects other) there
        ]
      ]
    ]

-- What other processes do in each round keeps the object and a row that names it.
abbrev pub Spares : (String → String) → ObjectRef → (ℕ → Pass) → Type 0
Spares path ref passes =
    (n : ℕ) (w : World) → IsRetained path ref w → IsRetained path ref ((passes n).during w)

run_deletion-IsRetained :
    (settings : Settings) (path : String → String) (p : Pass) (row_id : ℕ) (token : String)
    (ref : ObjectRef) (result : PassResult) (w : World)
    → IsRetained path ref (p.during w)
    → IsRetained path ref (run_deletion settings path p row_id token result w).1
unfolding run_deletion
run_deletion-IsRetained settings path p row_id token ref result w kept =
    elim (Result-cases (execute path p.faults row_id (p.during w))) [
      | inl (done, ran) ↦
          let there = execute-has_object path p.faults row_id ref (p.during w) done kept ran in
          rw (run_deletion, ran) (kept.0, there)
      | inr (exc, failed) ↦ rw (run_deletion, failed) kept
    ]

run_rounds-IsRetained :
    (settings : Settings) (path : String → String) (worker : String) (passes : ℕ → Pass)
    (ref : ObjectRef)
    → Spares path ref passes
    → (n : ℕ) (result : PassResult) (w : World) → IsRetained path ref w
    → IsRetained path ref (run_rounds settings path worker passes n result w).1
unfolding run_rounds
run_rounds-IsRetained settings path worker passes ref spares zero result w kept = kept
run_rounds-IsRetained settings path worker passes ref spares (suc n) result w kept =
    let p = passes n in
    let next = lease_next settings worker p.now_claim p.token p.others w.deletions in
    let leased_world : World = record w { deletions = next.1 } in
    elim (Option-cases next.0) [
      | inl nobody ↦ rw (run_rounds, nobody) kept
      | inr (c, claimed) ↦
          let here =
            run_deletion-IsRetained settings path p c.0 c.1 ref result leased_world
              (spares n leased_world kept) in
          let ran = run_deletion settings path p c.0 c.1 result leased_world in
          elim (Option-cases ran.0) [
            | inl raised ↦ rw (run_rounds, claimed, raised) here
            | inr (so_far, counted) ↦
                rw (run_rounds, claimed, counted)
                  (run_rounds-IsRetained settings path worker passes ref spares n so_far ran.1 here)
          ]
    ]

-- A pass of the deletion worker keeps every stored object that a domain row names, by
-- its key or as a legacy rendered product by the path of its PDF, whatever tombstones
-- the table holds, whatever limit the pass has, however calls of the store fail, and however other workers
-- claim and end tombstones meanwhile: where the object is stored and a row of the domain names it at the
-- start, and what other processes do between the claims and the executions keeps both, both hold at the
-- end.
pub process_due_deletions-IsRetained :
    (settings : Settings) (path : String → String) (worker : String) (passes : ℕ → Pass) (limit : ℕ)
    (ref : ObjectRef) (w : World)
    → Spares path ref passes
    → IsRetained path ref w
    → IsRetained path ref (process_due_deletions settings path worker passes limit w).1
unfolding process_due_deletions
process_due_deletions-IsRetained settings path worker passes limit ref w spares kept =
    run_rounds-IsRetained settings path worker passes ref spares (max 1 limit)
      (record { processed = 0; succeeded = 0; cancelled = 0; retried = 0; failed = 0 }) w kept
