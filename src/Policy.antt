-- ===== src/Policy.antt =====
-- src/iceberg/services/audience_policy.py: versioned dissemination policies. This file has the
-- version lifecycle; `Rules` validates a rule set and `Resolve` resolves the recipients of a report.
-- All times are UTC instants, so that `_aware`, which reads a naive value as UTC, is the identity.
mod Errors
pub mod Rules
pub mod Resolve
pub mod Normal
pub mod Live
pub mod Supersede
pub mod Narrow
pub mod Partition
mod Tests
pub use Errors.*
use iceberg_cti.Base.{
  ℕ, suc, ◌+◌, Bool, true, false, not, ◌&&◌, ◌||◌, Option, none, some, List, [], ◌∷◌, ◌++◌, String,
  Result, ok, err, ◌>>=◌, ◌>>◌, raise_if, is_none, is_some, or_else, select, any_of, update_where,
  sort_by, strip, is_blank, str_eq, str_le, ltb, leb, ◌==◌, if◌then◌else◌,
}
use iceberg_cti.Models.{Instant, User, Rule, DisseminationPolicy, DisseminationPolicyVersion, Json}
use iceberg_cti.Policy.Rules.{Python, validate_rules}

abbrev pub Versions : Type 0
Versions = List DisseminationPolicyVersion

-- `versions(session, policy)`: the newest first.
unfoldable pub versions : ℕ → Versions → Versions
versions policy_id table =
    sort_by (λ a b. leb b.version a.version) (select (λ v. v.policy_id == policy_id) table)

unfoldable pub create_policy :
    String
    → String
    → String
    → ℕ
    → Instant
    → Instant
    → List DisseminationPolicy
    → Result PolicyError (List DisseminationPolicy)
create_policy name slug description id now now' table = do
  raise_if (is_blank (strip name) || is_blank slug) name_required
  raise_if (any_of (λ p. str_eq p.slug slug) table) name_taken
  ok (
      table
      ++ record {
        id = id;
        name = strip name;
        slug = slug;
        description = strip description;
        created_at = now;
        updated_at = now';
      }
        ∷ [])

-- `effective_from and effective_to and effective_to <= effective_from`
abbrev pub is_reversed : Option Instant → Option Instant → Bool
is_reversed (some from) (some to) = leb to from
is_reversed _ _ = false

-- `latest and latest[0].approved_at is None`
abbrev pub open_draft : Versions → Option ℕ
open_draft [] = none
open_draft (v ∷ vs) = if is_none v.approved_at then some v.version else none

abbrev pub next_version : Versions → ℕ
next_version [] = 1
next_version (v ∷ vs) = v.version + 1

abbrev pub no_open_draft : Option ℕ → Result PolicyError (Unit {0})
no_open_draft none = ok tt
no_open_draft (some n) = err (still_draft n)

-- The window of effect that a caller gives.
pub record Window : Type 0 where
  pub from : Option Instant
  pub to : Option Instant

unfoldable pub create_version :
    Python
    → ℕ
    → Json
    → String
    → Window
    → Option ℕ
    → ℕ
    → Instant
    → Versions
    → Result PolicyError (DisseminationPolicyVersion × Versions)
create_version py policy_id rules note window actor id now table = do
  raise_if (is_reversed window.from window.to) window_reversed
  no_open_draft (open_draft (versions policy_id table))
  valid ← validate_rules py rules
  let version : DisseminationPolicyVersion = record {
    id = id;
    policy_id = policy_id;
    version = next_version (versions policy_id table);
    note = strip note;
    rules = valid;
    effective_from = window.from;
    effective_to = window.to;
    created_at = now;
    created_by_id = actor;
    approved_at = none;
    approved_by_id = none;
  }
  ok (version, table ++ version ∷ [])

-- A write to the row of a version.
abbrev pub store : DisseminationPolicyVersion → Versions → Versions
store version table = update_where (λ v. v.id == version.id) (λ _. version) table

unfoldable pub update_draft :
    Python
    → DisseminationPolicyVersion
    → Json
    → String
    → Window
    → Versions
    → Result PolicyError Versions
update_draft py version rules note window table = do
  raise_if (is_some version.approved_at) immutable
  raise_if (is_reversed window.from window.to) window_reversed
  valid ← validate_rules py rules
  ok (
      store
        (record version {
          rules = valid;
          note = strip note;
          effective_from = window.from;
          effective_to = window.to;
        })
        table)

-- `_aware(effective_from) or _aware(approved_at) or utcnow()`
abbrev pub boundary : DisseminationPolicyVersion → Instant → Instant
boundary version now = or_else version.effective_from (or_else version.approved_at now)

-- `end is not None and end <= moment`
abbrev pub ends_by : Option Instant → Instant → Bool
ends_by none moment = false
ends_by (some end) moment = leb end moment

-- The earlier approved versions of the policy that do not end by the boundary.
abbrev pub is_closed_by : DisseminationPolicyVersion → Instant → DisseminationPolicyVersion → Bool
is_closed_by version bound prior =
    (prior.policy_id == version.policy_id)
    && is_some prior.approved_at
    && ltb prior.version version.version
    && not (ends_by prior.effective_to bound)

-- `start if start and start > boundary else boundary`
abbrev pub closing : Option Instant → Instant → Instant
closing none bound = bound
closing (some start) bound = if ltb bound start then start else bound

unfoldable pub supersede_earlier : DisseminationPolicyVersion → Instant → Versions → Versions
supersede_earlier version now table =
    let bound = boundary version now in
    update_where (is_closed_by version bound)
      (λ prior. record prior { effective_to = some (closing prior.effective_from bound) }) table

unfoldable pub approve :
    DisseminationPolicyVersion → ℕ → Instant → Instant → Versions → Result PolicyError Versions
unfolding supersede_earlier
approve version actor now now' table = do
  raise_if (is_some version.approved_at) already_approved
  let approved = record version { approved_at = some now; approved_by_id = some actor }
  ok (supersede_earlier approved now' (store approved table))

unfoldable pub retire :
    DisseminationPolicyVersion → Option Instant → Instant → Versions → Result PolicyError Versions
retire version at now table = do
  raise_if (is_none version.approved_at) not_approved
  ok (store (record version { effective_to = some (or_else at now) }) table)

unfoldable pub delete_draft : DisseminationPolicyVersion → Versions → Result PolicyError Versions
delete_draft version table = do
  raise_if (is_some version.approved_at) publication_record
  ok (select (λ v. not (v.id == version.id)) table)

-- `start is not None and start > moment`
abbrev pub starts_after : Option Instant → Instant → Bool
starts_after none moment = false
starts_after (some start) moment = ltb moment start

abbrev pub applies_at : Instant → DisseminationPolicyVersion → Bool
applies_at moment v =
    is_some v.approved_at
    && not (starts_after v.effective_from moment)
    && not (ends_by v.effective_to moment)

-- `live[version.policy_id] = version` unless a version at least as high is there.
abbrev pub put_live : DisseminationPolicyVersion → Versions → Versions
put_live v [] = v ∷ []
put_live v (w ∷ ws) =
    if w.policy_id == v.policy_id
    then (if ltb w.version v.version then v else w) ∷ ws
    else w ∷ put_live v ws

unfoldable pub keep_live : Instant → Versions → Versions → Versions
keep_live moment [] live = live
keep_live moment (v ∷ vs) live =
    keep_live moment vs (if applies_at moment v then put_live v live else live)

-- `key=lambda v: (v.policy.slug, v.version)`
abbrev pub sorted_before :
    (ℕ → String) → DisseminationPolicyVersion → DisseminationPolicyVersion → Bool
sorted_before slug a b =
    str_le (slug a.policy_id) (slug b.policy_id)
    && (not (str_le (slug b.policy_id) (slug a.policy_id)) || leb a.version b.version)

unfoldable pub applicable_versions : (ℕ → String) → Instant → Versions → Versions
unfolding keep_live
applicable_versions slug moment table = sort_by (sorted_before slug) (keep_live moment table [])
