-- ===== src/Dissemination/Feed.antt =====
-- src/iceberg/services/dissemination.py: `disseminate`, the feed records of a published report.
use iceberg_cti.Base.{
  ℕ, Bool, ◌&&◌, Option, none, some, List, [], ◌∷◌, ◌++◌, String, find_first, ◌==◌,
}
use iceberg_cti.Models.{Tlp, User, Report, DisseminationEvent, Instant}
use iceberg_cti.Dissemination.{matched_stakeholders}

abbrev pub event_of : List DisseminationEvent → ℕ → ℕ → Option DisseminationEvent
event_of events report_id user_id =
    find_first (λ e. (e.report_id == report_id) && (e.stakeholder_id == user_id)) events

-- `by_id[user_id]` of `{user.id: user for user in matched}`
abbrev pub user_by_id : List User → ℕ → Option User
user_by_id users user_id = find_first (λ u. u.id == user_id) users

-- `[by_id[user_id] for user_id in recipient_ids if user_id in by_id]`
abbrev pub narrowed : List User → List ℕ → List User
narrowed users [] = []
narrowed users (i ∷ is) = elim (user_by_id users i) [
  | none ↦ narrowed users is
  | some u ↦ u ∷ narrowed users is
]

abbrev pub targets : List User → Option (List ℕ) → List User
targets matched none = matched
targets matched (some ids) = narrowed matched ids

abbrev pub feed_event : Report → User → Instant → DisseminationEvent
feed_event report user now = record {
  report_id = report.id;
  stakeholder_id = user.id;
  created_at = now;
  read_at = none;
}

-- The loop over the targets. `rival` is the row of the same report and stakeholder that a concurrent
-- publisher commits between the SELECT and the flush: the flush fails, and the user is skipped.
unfoldable pub deliver :
    Report
    → (ℕ → Option DisseminationEvent)
    → Instant
    → List User
    → List DisseminationEvent
    → List User × List DisseminationEvent
deliver report rival now [] events = ([], events)
deliver report rival now (u ∷ us) events = elim (event_of events report.id u.id) [
  | some existing ↦ deliver report rival now us events
  | none ↦ elim (rival u.id) [
    | some row ↦ deliver report rival now us (events ++ row ∷ [])
    | none ↦
        let (new, after) = deliver report rival now us (events ++ feed_event report u now ∷ []) in
        (u ∷ new, after)
  ]
]

unfoldable pub disseminate :
    (String → String → Bool)
    → Tlp
    → List User
    → Report
    → Option (List ℕ)
    → (ℕ → Option DisseminationEvent)
    → Instant
    → List DisseminationEvent
    → List User × List DisseminationEvent
disseminate name_le ceiling users report recipient_ids rival now events =
    deliver report rival now
      (targets (matched_stakeholders name_le ceiling users report) recipient_ids) events
