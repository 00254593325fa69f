-- ===== src/Policy/Narrow.antt =====
-- A policy can only narrow: what the resolution keeps of the base decisions.
use iceberg_cti.Base.{
  some, none, sym, ◌∙◌, ap, ℕ, ◌≡◌, refl, ◌↔◌, Bool, true, false, not, ◌&&◌, List, [], ◌∷◌, ◌++◌,
  map, String, All, select, elem, dedup, sort_by, leb, is_none, Bool-cases, Option-cases, inl, inr,
  arith, nat_eq,
}
use iceberg_cti.Models.{Effect, Instant, Rule, User, Report}
use iceberg_cti.Dissemination.{MatchDecision}
use iceberg_cti.Policy.{Versions, applicable_versions}
use iceberg_cti.Policy.Rules.{Python}
use iceberg_cti.Policy.Resolve.{
  matches_audience, rule_applies_to_report, RecipientDecision, base, label, blocks,
  blocked_by_rules, blocked_by, decision, decide_one, sort_out, resolve,
}

-- No rule of the list blocks the recipient.
abbrev pub Permits : Python → Report → User → List Rule → Type 0
Permits py report user rules = All (λ r. blocks py r report user ≡ false) rules

abbrev pub AllPermit : Python → Report → User → Versions → Type 0
AllPermit py report user live = All (λ v. Permits py report user v.rules) live

blocked_by_rules_iff :
    (py : Python) (ref : String) (rules : List Rule) (report : Report) (user : User)
    → (is_none (blocked_by_rules py ref rules report user) ≡ true) ↔ Permits py report user rules
unfolding blocked_by_rules
blocked_by_rules_iff py ref [] report user = (λ _. tt, λ _. refl)
blocked_by_rules_iff py ref (r ∷ rs) report user =
    let ih = blocked_by_rules_iff py ref rs report user in
    elim (Bool-cases (blocks py r report user)) [
      | inl hit ↦ (λ h. ground arith, λ h. cc (sym hit ∙ h.0))
      | inr miss ↦ (λ h. (miss, ih.0 (rw miss at h)), λ h. rw miss (ih.1 h.1))
    ]

blocked_by_iff :
    (py : Python) (slug : ℕ → String) (live : Versions) (report : Report) (user : User)
    → (is_none (blocked_by py slug live report user) ≡ true) ↔ AllPermit py report user live
unfolding blocked_by
blocked_by_iff py slug [] report user = (λ _. tt, λ _. refl)
blocked_by_iff py slug (v ∷ vs) report user =
    let ih = blocked_by_iff py slug vs report user in
    let own = blocked_by_rules_iff py (label slug v) v.rules report user in
    elim (Option-cases (blocked_by_rules py (label slug v) v.rules report user)) [
      | inl free ↦ (
        λ h. (own.0 (rw free refl), ih.0 (rw (free, blocked_by) at h)),
        λ h. rw (free, blocked_by) (ih.1 h.1),
      )
      | inr (b, hit) ↦
          (λ h. cc (rw (hit, blocked_by) at h), λ h. cc (sym (ap is_none hit) ∙ own.1 h.0))
    ]

-- The base decisions that the resolution turns into recipients.
abbrev pub receives : Python → (ℕ → String) → Versions → List ℕ → Report → MatchDecision → Bool
receives py slug live withheld report m =
    m.included && not (elem m.user.id withheld) && is_none (blocked_by py slug live report m.user)

decide_one-included :
    (py : Python) (slug : ℕ → String) (live : Versions) (withheld : List ℕ) (report : Report)
    (m : MatchDecision)
    → (decide_one py slug live withheld report m).included ≡ receives py slug live withheld report m
unfolding decide_one decision
decide_one-included py slug live withheld report m = ground arith

-- The decision that a recipient carries: that of the base authorization.
abbrev pub granted : MatchDecision → RecipientDecision
granted m = decision m.user true (base m.reason) ""

decide_one-granted :
    (py : Python) (slug : ℕ → String) (live : Versions) (withheld : List ℕ) (report : Report)
    (m : MatchDecision)
    → receives py slug live withheld report m ≡ true
    → decide_one py slug live withheld report m ≡ granted m
unfolding decide_one
decide_one-granted py slug live withheld report m h = ground arith

sort_out-included :
    (py : Python) (slug : ℕ → String) (live : Versions) (withheld : List ℕ) (report : Report)
    (ms : List MatchDecision)
    → (sort_out (map (decide_one py slug live withheld report) ms)).0
      ≡ map granted (select (receives py slug live withheld report) ms)
unfolding sort_out decision
sort_out-included py slug live withheld report [] = refl
sort_out-included py slug live withheld report (m ∷ ms) =
    let ih = sort_out-included py slug live withheld report ms in
    let same = decide_one-included py slug live withheld report m in
    elim (Bool-cases (receives py slug live withheld report m)) [
      | inl gets ↦
          rw (same ∙ gets, gets, decide_one-granted py slug live withheld report m gets, ih) refl
      | inr lost ↦ rw (same ∙ lost, lost, ih) refl
    ]

-- A base decision leads to a recipient exactly when it includes the user, the publisher has not
-- withheld the product from them, and no rule of any live version blocks them.
receives_iff :
    (py : Python) (slug : ℕ → String) (live : Versions) (withheld : List ℕ) (report : Report)
    (m : MatchDecision)
    → (receives py slug live withheld report m ≡ true)
      ↔ ((m.included ≡ true) × (elem m.user.id withheld ≡ false) × AllPermit py report m.user live)
receives_iff py slug live withheld report m =
    let e = blocked_by_iff py slug live report m.user in
    (λ h. (ground arith, ground arith, e.0 (ground arith)), λ h. ground (arith, e.1 h.2))

-- The recipients of a resolution are the base decisions that pass, each with its base reason, in the
-- order of the base decisions: so no policy adds a recipient that the base authorization excludes.
pub resolve-included :
    (py : Python) (slug : ℕ → String) (table : Versions) (known : List ℕ)
    (bases : List MatchDecision) (report : Report) (moment : Instant) (asked : List ℕ)
    → (resolve py slug table known bases report moment asked).included
      ≡ map granted (
          select
            (receives py slug
              (applicable_versions slug moment table)
              (sort_by leb (dedup asked))
              report)
            bases)
unfolding resolve
resolve-included py slug table known bases report moment asked =
    sort_out-included py slug (applicable_versions slug moment table) (sort_by leb (dedup asked))
      report bases

blocked_by-append :
    (py : Python) (slug : ℕ → String) (vs ws : Versions) (report : Report) (user : User)
    → is_none (blocked_by py slug (vs ++ ws) report user)
      ≡ (is_none (blocked_by py slug vs report user) && is_none (blocked_by py slug ws report user))
unfolding blocked_by
blocked_by-append py slug [] ws report user = refl
blocked_by-append py slug (v ∷ vs) ws report user =
    elim (Option-cases (blocked_by_rules py (label slug v) v.rules report user)) [
      | inl free ↦ rw (free, blocked_by) (blocked_by-append py slug vs ws report user)
      | inr (b, hit) ↦ rw (hit, blocked_by) refl
    ]

-- Two sets of live versions together let through exactly those whom each lets through alone:
-- policies intersect, and adding one never adds a recipient.
policies_intersect :
    (py : Python) (slug : ℕ → String) (vs ws : Versions) (withheld : List ℕ) (report : Report)
    (m : MatchDecision)
    → (decide_one py slug (vs ++ ws) withheld report m).included ≡ (
        (decide_one py slug vs withheld report m).included
        && (decide_one py slug ws withheld report m).included)
policies_intersect py slug vs ws withheld report m =
    rw
      (
        decide_one-included py slug (vs ++ ws) withheld report m,
        decide_one-included py slug vs withheld report m,
        decide_one-included py slug ws withheld report m,
      )
      (ground (arith, blocked_by-append py slug vs ws report m.user))

-- Where a rule limits a product to an audience whose one list of groups is empty, it withholds every
-- report that it selects from every stakeholder.
limit_to_nobody_blocks :
    (py : Python) (rule : Rule) (report : Report) (user : User)
    → rule.effect ≡ Effect.limit_to
    → rule.audience
      ≡ record { audience_group_ids = some []; stakeholder_ids = none; organisations = none }
    → rule_applies_to_report rule report ≡ true
    → blocks py rule report user ≡ true
unfolding matches_audience
limit_to_nobody_blocks py rule report user limits nobody selected = ground arith
