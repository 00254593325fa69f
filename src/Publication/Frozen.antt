-- ===== src/Publication/Frozen.antt =====
-- The snapshot of a report: there is one, it is the active one, and it does not change.
use iceberg_cti.Base.{
  find_first-append, str_eq_iff, ◌&&◌, ◌==◌, str_eq, ◌≡◌, refl, Bool, true, false, Option, some, [],
  ◌∷◌, arith, Option-cases, inl, inr, is_blank, find_first,
}
use iceberg_cti.Models.{Report}
use iceberg_cti.Policy.Resolve.{AudienceResolution}
use iceberg_cti.Publication.{
  PublicationSnapshot, Site, Snapshots, create_snapshot, get_snapshot, snapshot_of,
}

-- The table holds a snapshot of the report, first among those of its id, with the report's hash.
pub record IsFrozen (report : Report) (snapshots : Snapshots) (s : PublicationSnapshot)
    : Type 0 where
  pub stored : snapshot_of snapshots report ≡ some s
  pub hashed : s.snapshot_hash ≡ report.publication_snapshot_hash
  pub of_report : s.report_id ≡ report.id

snapshot_of-id :
    (snapshots : Snapshots) (report : Report) {s : PublicationSnapshot}
    → snapshot_of snapshots report ≡ some s
    → s.report_id ≡ report.id
snapshot_of-id [] report h = cc
snapshot_of-id (v ∷ vs) report {s} h = ground (arith, snapshot_of-id vs report {s = s})

create_snapshot-IsFrozen :
    (site : Site) (audience : Option AudienceResolution) (report : Report) (snapshots : Snapshots)
    {frozen : Report × Snapshots}
    → create_snapshot site audience report snapshots ≡ some frozen
    → (s : PublicationSnapshot) × IsFrozen frozen.0 frozen.1 s
unfolding create_snapshot
create_snapshot-IsFrozen site audience report snapshots {frozen} h =
    elim (Option-cases (snapshot_of snapshots report)) [
      | inr (old, found) ↦ (old, ground (arith, snapshot_of-id snapshots report found))
      | inl fresh ↦ elim (Option-cases (site.capture report)) [
        | inl failed ↦ ground arith
        | inr (content, captured) ↦
            let new : PublicationSnapshot = record {
              report_id = report.id;
              snapshot_hash = site.digest content audience;
              content = content;
              audience = audience;
              created_at = site.written_at;
            } in
            (
              new,
              ground (
                arith,
                find_first-append (λ (s : PublicationSnapshot). s.report_id == report.id) snapshots
                    (new ∷ []) fresh,
              ),
            )
      ]
    ]

find_first-both :
    (p q : PublicationSnapshot → Bool) (xs : Snapshots) {s : PublicationSnapshot}
    → find_first p xs ≡ some s
    → q s ≡ true
    → find_first (λ x. p x && q x) xs ≡ some s
find_first-both p q [] h k = cc
find_first-both p q (x ∷ xs) {s} h k = ground (arith, find_first-both p q xs {s = s})

-- Freezing a report makes its snapshot the active one, where the digest is not the empty text: reading
-- the report finds a snapshot of it with its hash.
create_snapshot_active :
    (site : Site) (audience : Option AudienceResolution) (report : Report) (snapshots : Snapshots)
    {frozen : Report × Snapshots}
    → create_snapshot site audience report snapshots ≡ some frozen
    → is_blank frozen.0.publication_snapshot_hash ≡ false
    → (s : PublicationSnapshot) × (get_snapshot frozen.1 frozen.0 ≡ some s)
      × IsFrozen frozen.0 frozen.1 s
unfolding get_snapshot
create_snapshot_active site audience report snapshots {frozen} h hash =
    let (s, f) = create_snapshot-IsFrozen site audience report snapshots h in
    (
      s,
      rw hash (
          find_first-both (λ s. s.report_id == frozen.0.id)
            (λ s. str_eq s.snapshot_hash frozen.0.publication_snapshot_hash) frozen.1 f.stored
            ((str_eq_iff s.snapshot_hash frozen.0.publication_snapshot_hash).1 f.hashed)),
      f,
    )

-- A frozen report is never frozen anew: whatever happens to the report afterwards, as long as it
-- keeps its id, and whatever audience is given, freezing it again writes no snapshot and gives
-- it the hash of the first.
create_snapshot_once :
    (site site' : Site) (audience audience' : Option AudienceResolution) (report later : Report)
    (snapshots : Snapshots) {frozen : Report × Snapshots}
    → create_snapshot site audience report snapshots ≡ some frozen
    → later.id ≡ frozen.0.id
    → create_snapshot site' audience' later frozen.1
      ≡ some (
        record later { publication_snapshot_hash = frozen.0.publication_snapshot_hash },
        frozen.1,
      )
unfolding create_snapshot
create_snapshot_once site site' audience audience' report later snapshots {frozen} h same =
    let (s, f) = create_snapshot-IsFrozen site audience report snapshots h in
    let found : snapshot_of frozen.1 later ≡ some s = rw same f.stored in
    rw (found, create_snapshot) (rw f.hashed refl)
