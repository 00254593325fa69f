-- ===== src/Dissemination/Match.antt =====
-- Who is matched: an account of `decide` by what it demands, and its agreement with the read rule.
use iceberg_cti.Base.{
  All-passing, All-imply, inl, inr, Bool-cases, ◌≤◌, ◌≡◌, ◌↔◌, ◌⊎◌, Bool, true, none, some, List,
  [], ◌∷◌, map, String, All, select, All-sort_by, overlaps, arith, leb→le, le→leb, is_ok, nat_eq,
}
use iceberg_cti.Models.{Tlp, User, Report, ReportStatus, is_stakeholder}
use iceberg_cti.Models.Rank.{tlp_rank}
use iceberg_cti.Access.{ensure_visible}
use iceberg_cti.Access.Agreement.{overlaps_comm}
use iceberg_cti.Dissemination.{
  authorised, decide, match_decisions, matched_stakeholders, listed_before,
}

-- What a stakeholder needs to receive a report.
pub record IsAuthorised (ceiling : Tlp) (report : Report) (user : User) : Type 0 where
  pub marked_below : tlp_rank report.tlp ≤ tlp_rank ceiling
  pub level_wanted :
      (user.preferred_intel_level ≡ none) ⊎ (user.preferred_intel_level ≡ some report.intel_level)
  pub topic_wanted :
      (user.tag_subscriptions ≡ []) ⊎ (overlaps user.tag_subscriptions report.tags ≡ true)
  pub in_audience :
      (report.audience_groups ≡ []) ⊎ (overlaps report.audience_groups user.audience_groups ≡ true)

-- A stakeholder is included exactly when the marking is at or below the ceiling, the level is the
-- preferred one or none is preferred, a subscribed tag is carried or none is subscribed, and the
-- report is unscoped or scoped to one of their groups.
pub decide_iff :
    (ceiling : Tlp) (report : Report) (user : User)
    → ((decide ceiling report user).included ≡ true) ↔ IsAuthorised ceiling report user
unfolding decide
decide_iff ceiling report user = (
  λ h. ground (arith, leb→le (tlp_rank report.tlp) (tlp_rank ceiling)),
  λ h. ground (arith, le→leb (tlp_rank report.tlp) (tlp_rank ceiling) h.marked_below),
)

-- The reason given is `authorised` exactly for the stakeholders who are included.
pub decide_reason :
    (ceiling : Tlp) (report : Report) (user : User)
    → ((decide ceiling report user).included ≡ true)
      ↔ ((decide ceiling report user).reason ≡ authorised)
unfolding decide
decide_reason ceiling report user = ground arith

decide-user :
    (ceiling : Tlp) (report : Report) (user : User) → (decide ceiling report user).user ≡ user
unfolding decide
decide-user ceiling report user = ground arith

-- The report as its publication leaves it, for a reader.
abbrev pub published : Report → Report
published report = record report { status = ReportStatus.published }

decided_visible :
    (ceiling : Tlp) (report : Report) (user : User)
    → (decide ceiling report user).included ≡ true
    → is_ok (ensure_visible (published report) user) ≡ true
unfolding decide ensure_visible
decided_visible ceiling report user h =
    ground (arith, overlaps_comm report.audience_groups user.audience_groups)

abbrev pub IsMatch : Tlp → Report → User → Type 0
IsMatch ceiling report user = (is_stakeholder user.role ≡ true) × IsAuthorised ceiling report user

matched_decisions :
    (ceiling : Tlp) (report : Report) (users : List User)
    → All (λ u. is_stakeholder u.role ≡ true) users
    → All
        (λ u. IsMatch ceiling report u)
        (map (λ d. d.user) (select (λ d. d.included) (map (decide ceiling report) users)))
matched_decisions ceiling report [] h = tt
matched_decisions ceiling report (u ∷ us) h = elim (Bool-cases (decide ceiling report u).included) [
  | inl in_ ↦ rw in_ (
    (
      rw (decide-user ceiling report u) h.0,
      rw (decide-user ceiling report u) ((decide_iff ceiling report u).0 in_),
    ),
    matched_decisions ceiling report us h.1,
  )
  | inr out ↦ rw out (matched_decisions ceiling report us h.1)
]

-- Every matched user is a stakeholder who is authorised.
pub matched_stakeholders-IsMatch :
    (name_le : String → String → Bool) (ceiling : Tlp) (users : List User) (report : Report)
    → All (λ u. IsMatch ceiling report u) (matched_stakeholders name_le ceiling users report)
unfolding matched_stakeholders match_decisions
matched_stakeholders-IsMatch name_le ceiling users report = matched_decisions ceiling report _ (
    All-sort_by (listed_before name_le) (λ u. is_stakeholder u.role ≡ true) _
      (All-passing (λ u. is_stakeholder u.role) users))

-- Whoever is matched may read the report once it is published: dissemination never hands a product
-- to a stakeholder from whom the read rule withholds it.
pub matched_stakeholders_may_read :
    (name_le : String → String → Bool) (ceiling : Tlp) (users : List User) (report : Report)
    → All
        (λ u. is_ok (ensure_visible (published report) u) ≡ true)
        (matched_stakeholders name_le ceiling users report)
matched_stakeholders_may_read name_le ceiling users report =
    All-imply (IsMatch ceiling report) (λ u. is_ok (ensure_visible (published report) u) ≡ true) _
      (λ u m. decided_visible ceiling report u ((decide_iff ceiling report u).1 m.1))
      (matched_stakeholders-IsMatch name_le ceiling users report)
