-- ===== src/Policy/Supersede.antt =====
-- Approving a version ends the earlier ones: a rewrite takes effect, and what is approved stays.
use mathlib.Core.Path.{subst}
use iceberg_cti.Base.{
  if◌then◌else◌, or_else, is_some, ℕ, ◌≤◌, ◌<◌, ◌≡◌, true, false, Option, some, [], ◌∷◌, String,
  All, arith, ok, err, Bool-cases, inl, inr,
}
use iceberg_cti.Models.{Instant, DisseminationPolicyVersion, Json}
use iceberg_cti.Policy.{
  already_approved, publication_record, Versions, Window, immutable, applies_at, boundary, closing,
  is_closed_by, supersede_earlier, store, approve, update_draft, delete_draft, retire,
}
use iceberg_cti.Policy.Rules.{Python}

-- An earlier version of the policy does not apply at a moment or later.
abbrev pub IsOver : ℕ → ℕ → Instant → DisseminationPolicyVersion → Type 0
IsOver policy_id number moment v =
    v.policy_id ≡ policy_id → v.version < number → applies_at moment v ≡ false

closed-IsOver :
    (version : DisseminationPolicyVersion) (bound moment : Instant) (v : DisseminationPolicyVersion)
    → bound ≤ moment
    → IsOver version.policy_id version.version moment (
        if is_closed_by version bound v
        then record v { effective_to = some (closing v.effective_from bound) }
        else v)
closed-IsOver version bound moment v h = λ same lower. ground arith

superseded-IsOver :
    (version : DisseminationPolicyVersion) (now moment : Instant) (table : Versions)
    → boundary version now ≤ moment
    → All (IsOver version.policy_id version.version moment) (supersede_earlier version now table)
unfolding supersede_earlier
superseded-IsOver version now moment [] h = tt
superseded-IsOver version now moment (v ∷ vs) h = (
  closed-IsOver version (boundary version now) moment v h,
  superseded-IsOver version now moment vs h,
)

-- After an approval, no earlier version of the policy applies at any moment from the boundary on,
-- which is the start of the new version's window, or the approval if it has no start.
pub approve-IsOver :
    (version : DisseminationPolicyVersion) (actor : ℕ) (now now' moment : Instant)
    (table : Versions) {after : Versions}
    → approve version actor now now' table ≡ ok after
    → boundary (record version { approved_at = some now }) now' ≤ moment
    → All (IsOver version.policy_id version.version moment) after
unfolding approve
approve-IsOver version actor now now' moment table h late =
    let approved = record version { approved_at = some now; approved_by_id = some actor } in
    elim (Bool-cases (is_some version.approved_at)) [
      | inl old ↦ ground arith
      | inr draft ↦
          subst (All (IsOver version.policy_id version.version moment)) (ground arith)
            (superseded-IsOver approved now' moment (store approved table) late)
    ]

-- Once a version is approved its rules are fixed: it can be neither edited nor deleted nor approved
-- again, and retiring it changes nothing but the end of its window.
approved_fixed :
    (py : Python) (version : DisseminationPolicyVersion) (rules : Json) (note : String)
    (window : Window) (actor : ℕ) (now now' : Instant) (at : Option Instant) (table : Versions)
    → is_some version.approved_at ≡ true
    → (update_draft py version rules note window table ≡ err immutable)
      × (delete_draft version table ≡ err publication_record)
      × (approve version actor now now' table ≡ err already_approved)
      × (retire version at now table
          ≡ ok (store (record version { effective_to = some (or_else at now) }) table))
unfolding update_draft delete_draft approve retire
approved_fixed py version rules note window actor now now' at table h = ground arith
