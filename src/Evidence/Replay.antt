-- ===== src/Evidence/Replay.antt =====
-- Intake: the same offer twice, a new revision, and the marking of what is recorded.
use iceberg_cti.Evidence.{
  EvidenceState, tlp_rank, Tlp, same_item, strengthen, supersede, is_older, validate, IntakeResult,
  new_reference, Json, identity_match, same_identity, EvidenceReference, User, record_item, Desk,
  intake,
}
use iceberg_cti.Evidence.Offered.{Envelope}
use iceberg_cti.Base.{
  max, find_first-append, str_eq_iff, update_where, [], ◌∷◌, refl, arith, inl, inr, some, none, ok,
  true, false, nat_eq, string_eq, ◌≡◌, ◌++◌, List, Option, ℕ, select, Bool-cases,
}

none-update_where :
    (e : Envelope) (rows : List EvidenceReference)
    → identity_match e rows ≡ none
    → identity_match e (update_where (is_older e) supersede rows) ≡ none
none-update_where e [] h = refl
none-update_where e (r ∷ rows) h = ground (arith, none-update_where e rows)

new_matches :
    (desk : Desk) (notebook_id : ℕ) (e : Envelope) (actor : User)
    → same_identity e (new_reference desk notebook_id e actor) ≡ true
unfolding new_reference
new_matches desk notebook_id e actor =
    rw
      (
        (str_eq_iff e.source_system e.source_system).1 refl,
        (str_eq_iff e.external_id e.external_id).1 refl,
        (str_eq_iff e.revision e.revision).1 refl,
      )
      refl

found_again :
    (desk : Desk) (notebook_id : ℕ) (e : Envelope) (actor : User) (rows : List EvidenceReference)
    → identity_match e rows ≡ none
    → identity_match e
        (update_where (is_older e) supersede rows ++ (new_reference desk notebook_id e actor ∷ []))
      ≡ some (new_reference desk notebook_id e actor)
found_again desk notebook_id e actor rows h =
    rw
      (
        find_first-append (same_identity e) (update_where (is_older e) supersede rows)
            (new_reference desk notebook_id e actor ∷ []) (none-update_where e rows h),
        new_matches desk notebook_id e actor,
      )
      refl

record_again :
    (desk later : Desk) (notebook_id other_id : ℕ) (e : Envelope) (actor other : User)
    (rows : List EvidenceReference) (known : Option EvidenceReference) {first : IntakeResult}
    {after : List EvidenceReference}
    → later.same ≡ desk.same
    → desk.same e.payload e.payload ≡ true
    → identity_match e rows ≡ known
    → record_item desk notebook_id e actor rows known ≡ ok (first, after)
    → record_item later other_id e other after (identity_match e after)
      ≡ ok (record { reference = first.reference; created = false; superseded = [] }, after)
unfolding record_item new_reference
record_again desk later notebook_id other_id e actor other rows none {first} {after} same whole new
      done =
    let found = found_again desk notebook_id e actor rows new in
    let is_after : after
        ≡ update_where (is_older e) supersede rows
          ++ (new_reference desk notebook_id e actor ∷ []) =
      cc in
    let is_first : first.reference ≡ new_reference desk notebook_id e actor = cc in
    rw (is_after, found, is_first, same, whole) refl
record_again desk later notebook_id other_id e actor other rows (some existing) {first} {after} same
      whole old done =
    elim (Bool-cases (desk.same existing.payload e.payload)) [
      | inl equal ↦
          let is_after : after ≡ rows = ground arith in
          let is_first : first.reference ≡ existing = ground arith in
          rw (is_after, old, is_first, same, equal) refl
      | inr other_content ↦ ground arith
    ]

-- An offer that is recorded may be sent again, to any notebook and by anyone: where its payload compares
-- equal to itself, the answer is the row that the first offer gave, nothing is created, no row is
-- superseded, and the table stays as it is, whatever the time and the next id.
intake_again :
    (desk later : Desk) (notebook_id other_id : ℕ) (envelope : Json) (actor other : User)
    (rows : List EvidenceReference) {e : Envelope} {first : IntakeResult}
    {after : List EvidenceReference}
    → later.wire ≡ desk.wire
    → later.same ≡ desk.same
    → validate desk.wire envelope ≡ ok e
    → desk.same e.payload e.payload ≡ true
    → intake desk notebook_id envelope actor rows ≡ ok (first, after)
    → intake later other_id envelope other after
      ≡ ok (record { reference = first.reference; created = false; superseded = [] }, after)
unfolding intake record_item new_reference
intake_again desk later notebook_id other_id envelope actor other rows {e} {first} {after} wired
      same valid whole done =
    let again =
      record_again desk later notebook_id other_id e actor other rows (identity_match e rows) same
        whole refl (rw valid at done) in
    rw (wired, valid) again

strengthen-max :
    (floor declared : Tlp)
    → tlp_rank (strengthen floor declared) ≡ max (tlp_rank floor) (tlp_rank declared)
unfolding strengthen
strengthen-max floor declared = ground arith

none_older :
    (e : Envelope) (rows : List EvidenceReference)
    → select (is_older e) (update_where (is_older e) supersede rows) ≡ []
none_older e [] = refl
none_older e (r ∷ rows) = elim (Bool-cases (is_older e r)) [
  | inl older ↦ rw older (ground (arith, none_older e rows))
  | inr other ↦ ground (arith, none_older e rows)
]

-- What an intake that creates a row leaves: of this item it is the one live row, pending and with no
-- source, and its marking is the stricter of the declared one and the floor.
pub record IsOffered (floor : Tlp) (e : Envelope) (result : IntakeResult)
    (after : List EvidenceReference) : Type 0 where
  pub only : select (is_older e) after ≡ result.reference ∷ []
  pub undecided : result.reference.state ≡ EvidenceState.pending
  pub unsourced : result.reference.source_id ≡ none
  pub marking : tlp_rank result.reference.tlp ≡ max (tlp_rank floor) (tlp_rank e.declared_tlp)

select-append :
    (e : Envelope) (rows new : List EvidenceReference)
    → select (is_older e) (rows ++ new) ≡ select (is_older e) rows ++ select (is_older e) new
select-append e [] new = refl
select-append e (r ∷ rows) new = ground (arith, select-append e rows new)

record_item-IsOffered :
    (desk : Desk) (notebook_id : ℕ) (e : Envelope) (actor : User) (rows : List EvidenceReference)
    (known : Option EvidenceReference) {result : IntakeResult} {after : List EvidenceReference}
    → record_item desk notebook_id e actor rows known ≡ ok (result, after)
    → result.created ≡ true
    → IsOffered desk.floor e result after
unfolding record_item new_reference
record_item-IsOffered desk notebook_id e actor rows (some existing) done new = ground arith
record_item-IsOffered desk notebook_id e actor rows none {result} {after} done new =
    let row = new_reference desk notebook_id e actor in
    let is_after : after ≡ update_where (is_older e) supersede rows ++ (row ∷ []) = cc in
    let is_row : result.reference ≡ row = cc in
    let matches : same_item e row ≡ true =
      rw
        (
          (str_eq_iff e.source_system e.source_system).1 refl,
          (str_eq_iff e.external_id e.external_id).1 refl,
        )
        refl in
    record {
      only =
          rw
            (
              is_after,
              is_row,
              select-append e (update_where (is_older e) supersede rows) (row ∷ []),
              none_older e rows,
              matches,
            )
            refl;
      undecided = rw is_row refl;
      unsourced = rw is_row refl;
      marking = rw is_row (strengthen-max desk.floor e.declared_tlp);
    }

-- An intake that creates a row leaves it as the only pending or accepted row of its system and external
-- id, whatever rows there were; and the row's marking is exactly the stricter of the one that the
-- producer declares and the deployment's floor.
pub intake-IsOffered :
    (desk : Desk) (notebook_id : ℕ) (envelope : Json) (actor : User) (rows : List EvidenceReference)
    {e : Envelope} {result : IntakeResult} {after : List EvidenceReference}
    → validate desk.wire envelope ≡ ok e
    → intake desk notebook_id envelope actor rows ≡ ok (result, after)
    → result.created ≡ true
    → IsOffered desk.floor e result after
unfolding intake
intake-IsOffered desk notebook_id envelope actor rows {e} {result} {after} valid done new =
    record_item-IsOffered desk notebook_id e actor rows (identity_match e rows) (rw valid at done)
      new
