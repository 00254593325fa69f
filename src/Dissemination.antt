-- ===== src/Dissemination.antt =====
-- src/iceberg/services/dissemination.py: who receives a published report, the feed records, and the
-- external notifications that are queued. The database's ORDER BY on names depends on its collation,
-- which is a parameter. An explanation is given by its reason, which holds what the text names.
pub mod Feed
pub mod Notify
pub mod Match
pub mod Delivery
pub mod Restricted
mod Tests
use iceberg_cti.Base.{
  ℕ, Bool, true, false, not, ◌&&◌, ◌||◌, Option, none, some, List, [], map, String, select,
  overlaps, is_empty, sort_by, leb, str_eq, if◌then◌else◌, nat_eq,
}
use iceberg_cti.Models.{IntelLevel, Tlp, User, Report, is_stakeholder, same_level}
use iceberg_cti.Models.Rank.{is_disseminable}

-- Why a stakeholder is, or is not, authorised.
pub data Reason : Type 0 where
  tlp_ceiling : Tlp → Tlp → Reason
  intel_level : IntelLevel → IntelLevel → Reason
  tag_subscription : Reason
  audience_group : Reason
  authorised : Reason

pub record MatchDecision : Type 0 where
  pub user : User
  pub included : Bool
  pub reason : Reason

-- `preference is not None and preference != report.intel_level`
abbrev pub other_level : Option IntelLevel → IntelLevel → Bool
other_level none level = false
other_level (some p) level = not (same_level p level)

abbrev pub preference_or : Option IntelLevel → IntelLevel → IntelLevel
preference_or none d = d
preference_or (some p) d = p

-- The body of the loop in `match_decisions`.
unfoldable pub decide : Tlp → Report → User → MatchDecision
unfolding is_disseminable
decide ceiling report user =
    if not (is_disseminable report.tlp ceiling)
    then record { user = user; included = false; reason = tlp_ceiling report.tlp ceiling }
    else if other_level user.preferred_intel_level report.intel_level
    then record {
      user = user;
      included = false;
      reason =
          intel_level (preference_or user.preferred_intel_level report.intel_level)
            report.intel_level;
    }
    else if not (is_empty user.tag_subscriptions)
        && not (overlaps user.tag_subscriptions report.tags)
    then record { user = user; included = false; reason = tag_subscription }
    else if not (is_empty report.audience_groups)
        && not (overlaps report.audience_groups user.audience_groups)
    then record { user = user; included = false; reason = audience_group }
    else record { user = user; included = true; reason = authorised }

-- `ORDER BY display_name, id`, where `name_le` is the collation.
abbrev pub listed_before : (String → String → Bool) → User → User → Bool
listed_before name_le a b =
    name_le a.display_name b.display_name
    && (not (name_le b.display_name a.display_name) || leb a.id b.id)

unfoldable pub match_decisions :
    (String → String → Bool) → Tlp → List User → Report → List MatchDecision
match_decisions name_le ceiling users report =
    map (decide ceiling report)
      (sort_by (listed_before name_le) (select (λ u. is_stakeholder u.role) users))

unfoldable pub matched_stakeholders :
    (String → String → Bool) → Tlp → List User → Report → List User
matched_stakeholders name_le ceiling users report =
    map (λ d. d.user) (select (λ d. d.included) (match_decisions name_le ceiling users report))
