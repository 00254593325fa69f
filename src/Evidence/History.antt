-- ===== src/Evidence/History.antt =====
-- One step on the rows of the evidence table: a row and its later forms.
use iceberg_cti.Evidence.{
  new_reference, strengthen, IntakeResult, record_item, is_older, tlp_rank, Envelope, Tlp,
  supersede, is_live, EvidenceState, revoke, reject, accept, User, Desk,
}
use iceberg_cti.Evidence.Rows.{EvidenceReference, Source}
use iceberg_cti.Base.{
  All-update_where, All-append, find_first, is_some, update_where, [], ◌∷◌, refl, arith, inl, inr,
  some, none, ok, true, false, nat_eq, string_eq, ◌≡◌, ◌≤◌, ◌++◌, ◌==◌, if◌then◌else◌, Bool, List,
  Option, ℕ, String, All, Bool-cases,
}

-- The row with the given primary key becomes `after`.
abbrev pub put : ℕ → EvidenceReference → List EvidenceReference → List EvidenceReference
put id after [] = []
put id after (r ∷ rows) = if r.id == id then after ∷ rows else r ∷ put id after rows

abbrev pub is_past : EvidenceState → Bool
is_past EvidenceState.superseded = true
is_past EvidenceState.revoked = true
is_past _ = false

-- A later form of a row is the same offer with the same marking; a withdrawn or superseded one cannot
-- be decided on any more, and a source that was made stays named.
pub record IsLater (was now : EvidenceReference) : Type 0 where
  pub same_id : now.id ≡ was.id
  pub same_notebook : now.notebook_id ≡ was.notebook_id
  pub same_system : now.source_system ≡ was.source_system
  pub same_external : now.external_id ≡ was.external_id
  pub same_revision : now.revision ≡ was.revision
  pub same_marking : now.tlp ≡ was.tlp
  pub same_payload : now.payload ≡ was.payload
  pub stays_revoked : was.state ≡ EvidenceState.revoked → now.state ≡ EvidenceState.revoked
  pub stays_past : is_past was.state ≡ true → is_past now.state ≡ true
  pub keeps_source : is_some was.source_id ≡ true → now.source_id ≡ was.source_id

IsLater-refl : (r : EvidenceReference) → IsLater r r
IsLater-refl r = ground arith

IsLater-trans : (a b c : EvidenceReference) → IsLater a b → IsLater b c → IsLater a c
IsLater-trans a b c h k = ground arith

-- Each row of the first list stands in the second in a later form, at the same place.
pub data IsHistory : List EvidenceReference → List EvidenceReference → Type 0 where
  start : (rows : List EvidenceReference) → IsHistory [] rows
  grown :
      (was now : EvidenceReference) (olds news : List EvidenceReference)
      → IsLater was now
      → IsHistory olds news
      → IsHistory (was ∷ olds) (now ∷ news)

pub IsHistory-refl : (rows : List EvidenceReference) → IsHistory rows rows
IsHistory-refl [] = IsHistory.start []
IsHistory-refl (r ∷ rows) = IsHistory.grown r r rows rows (IsLater-refl r) (IsHistory-refl rows)

pub IsHistory-trans :
    {xs ys zs : List EvidenceReference} → IsHistory xs ys → IsHistory ys zs → IsHistory xs zs
IsHistory-trans (IsHistory.start ys) k = IsHistory.start _
IsHistory-trans (IsHistory.grown a b xs ys h hs) (IsHistory.grown _ c _ zs k ks) =
    IsHistory.grown a c xs zs (IsLater-trans a b c h k) (IsHistory-trans hs ks)

-- What a row records at each state, under the deployment's floor.
pub record IsSound (floor : Tlp) (r : EvidenceReference) : Type 0 where
  pub marked : tlp_rank floor ≤ tlp_rank r.tlp
  pub offered_unsourced : r.state ≡ EvidenceState.pending → r.source_id ≡ none
  pub rejected_unsourced : r.state ≡ EvidenceState.rejected → r.source_id ≡ none
  pub accepted_sourced : r.state ≡ EvidenceState.accepted → is_some r.source_id ≡ true
  pub accepted_decided : r.state ≡ EvidenceState.accepted → is_some r.decided_by_id ≡ true
  pub sourced_decided : is_some r.source_id ≡ true → is_some r.decided_by_id ≡ true
  pub revoked_dated : r.state ≡ EvidenceState.revoked → is_some r.revoked_at ≡ true

pub put-IsHistory :
    (id : ℕ) (rows : List EvidenceReference) {r after : EvidenceReference}
    → find_first (λ old. old.id == id) rows ≡ some r
    → IsLater r after
    → IsHistory rows (put id after rows)
put-IsHistory id [] h k = cc
put-IsHistory id (x ∷ rows) {r} {after} h k = elim (Bool-cases (x.id == id)) [
  | inl here ↦
      let same : x ≡ r = ground arith in
      rw here (IsHistory.grown x after rows rows (rw same k) (IsHistory-refl rows))
  | inr there ↦ rw there (
      IsHistory.grown x x rows (put id after rows) (IsLater-refl x)
        (put-IsHistory id rows (rw there at h) k))
]

pub All-put :
    (P : EvidenceReference → Type 0) (id : ℕ) (after : EvidenceReference)
    (rows : List EvidenceReference)
    → P after
    → All P rows
    → All P (put id after rows)
All-put P id after [] p h = tt
All-put P id after (x ∷ rows) p h = elim (Bool-cases (x.id == id)) [
  | inl here ↦ rw here (p, h.1)
  | inr there ↦ rw there (h.0, All-put P id after rows p h.1)
]

supersede-IsLater : (r : EvidenceReference) → is_live r.state ≡ true → IsLater r (supersede r)
supersede-IsLater r live = ground arith

supersede-IsHistory :
    (e : Envelope) (rows new : List EvidenceReference)
    → IsHistory rows (update_where (is_older e) supersede rows ++ new)
supersede-IsHistory e [] new = IsHistory.start new
supersede-IsHistory e (r ∷ rows) new = elim (Bool-cases (is_older e r)) [
  | inl older ↦ rw older (
      IsHistory.grown r (supersede r) rows _ (supersede-IsLater r (ground arith))
        (supersede-IsHistory e rows new))
  | inr other ↦
      rw other (IsHistory.grown r r rows _ (IsLater-refl r) (supersede-IsHistory e rows new))
]

pub accept-IsLater :
    (desk : Desk) (notebook_id : ℕ) (actor : User) (floor : Tlp) (r : EvidenceReference)
    {after : EvidenceReference} {source : Option Source}
    → IsSound floor r
    → accept desk notebook_id actor r ≡ ok (after, source)
    → IsLater r after × IsSound floor after
unfolding accept
accept-IsLater desk notebook_id actor floor r h done = ground arith

pub reject-IsLater :
    (desk : Desk) (actor : User) (floor : Tlp) (r : EvidenceReference) {after : EvidenceReference}
    → IsSound floor r
    → reject desk actor r ≡ ok after
    → IsLater r after × IsSound floor after
unfolding reject
reject-IsLater desk actor floor r h done = ground arith

pub revoke-IsLater :
    (desk : Desk) (reason : String) (floor : Tlp) (r : EvidenceReference)
    → IsSound floor r
    → IsLater r (revoke desk reason r) × IsSound floor (revoke desk reason r)
unfolding revoke
revoke-IsLater desk reason floor r h = ground arith

strengthen_floor : (floor declared : Tlp) → tlp_rank floor ≤ tlp_rank (strengthen floor declared)
unfolding strengthen
strengthen_floor floor declared = ground arith

new-IsSound :
    (desk : Desk) (notebook_id : ℕ) (e : Envelope) (actor : User)
    → IsSound desk.floor (new_reference desk notebook_id e actor)
unfolding new_reference
new-IsSound desk notebook_id e actor = record {
  marked = strengthen_floor desk.floor e.declared_tlp;
  offered_unsourced = λ _. refl;
  rejected_unsourced = λ _. refl;
  accepted_sourced = λ h. ground arith;
  accepted_decided = λ h. ground arith;
  sourced_decided = λ h. ground arith;
  revoked_dated = λ h. ground arith;
}

supersede-IsSound :
    (floor : Tlp) (r : EvidenceReference) → IsSound floor r → IsSound floor (supersede r)
supersede-IsSound floor r h = ground arith

pub recorded-IsSound :
    (floor : Tlp) (desk : Desk) (notebook_id : ℕ) (e : Envelope) (actor : User)
    (rows : List EvidenceReference) (known : Option EvidenceReference) {result : IntakeResult}
    {after : List EvidenceReference}
    → desk.floor ≡ floor
    → All (IsSound floor) rows
    → record_item desk notebook_id e actor rows known ≡ ok (result, after)
    → IsHistory rows after × All (IsSound floor) after
unfolding record_item
recorded-IsSound floor desk notebook_id e actor rows (some existing) {result} {after} fixed h done =
    let same : after ≡ rows = ground arith in rw same (IsHistory-refl rows, h)
recorded-IsSound floor desk notebook_id e actor rows none {result} {after} fixed h done =
    let row = new_reference desk notebook_id e actor in
    let same : after ≡ update_where (is_older e) supersede rows ++ (row ∷ []) = cc in
    rw same (
      supersede-IsHistory e rows (row ∷ []),
      All-append (IsSound floor) (update_where (is_older e) supersede rows) (row ∷ [])
          (All-update_where (IsSound floor) (is_older e) supersede rows
            (λ r k _. supersede-IsSound floor r k) h)
          (rw (← fixed) (new-IsSound desk notebook_id e actor), tt),
    )
