-- ===== src/Policy/Live.antt =====
-- The live version of a policy: the newest approved one whose window holds the moment.
use iceberg_cti.Base.{
  sort_by, String, false, Bool, insert_by, All-sort_by, All-imply, leb→le, leb, ltb, All, Memᴰ,
  Bool-cases, inl, inr, refl, ◌≤◌, ==_refl, ==_iff, ℕ, ◌≤◌, ◌≡◌, refl, true, Option, none, some, [],
  ◌∷◌, All, find_first, arith, ltb, ◌==◌, if◌then◌else◌,
}
use iceberg_cti.Models.{Instant, DisseminationPolicyVersion}
use iceberg_cti.Policy.{
  keep_live, sorted_before, applicable_versions, Versions, applies_at, put_live,
}

-- The version that the dict holds for a policy.
abbrev pub live_of : ℕ → Versions → Option DisseminationPolicyVersion
live_of p live = find_first (λ v. v.policy_id == p) live

abbrev newer :
    DisseminationPolicyVersion → Option DisseminationPolicyVersion → DisseminationPolicyVersion
newer v none = v
newer v (some w) = if ltb w.version v.version then v else w

put_live-of :
    (v : DisseminationPolicyVersion) (live : Versions) (p : ℕ)
    → live_of p (put_live v live)
      ≡ (if v.policy_id == p then some (newer v (live_of p live)) else live_of p live)
put_live-of v [] p = refl
put_live-of v (w ∷ ws) p = ground (arith, put_live-of v ws p)

abbrev at_least : ℕ → Option DisseminationPolicyVersion → Bool
at_least b none = false
at_least b (some v) = leb b v.version

put_live-at_least :
    (v : DisseminationPolicyVersion) (live : Versions) (p b : ℕ)
    → at_least b (live_of p live) ≡ true
    → at_least b (live_of p (put_live v live)) ≡ true
put_live-at_least v live p b h = ground (arith, put_live-of v live p)

put_live_self :
    (v : DisseminationPolicyVersion) (live : Versions) (p : ℕ)
    → v.policy_id ≡ p
    → at_least v.version (live_of p (put_live v live)) ≡ true
put_live_self v live p h = ground (arith, put_live-of v live p)

keep_live-at_least :
    (moment : Instant) (rows live : Versions) (p b : ℕ)
    → at_least b (live_of p live) ≡ true
    → at_least b (live_of p (keep_live moment rows live)) ≡ true
unfolding keep_live
keep_live-at_least moment [] live p b h = h
keep_live-at_least moment (v ∷ vs) live p b h = elim (Bool-cases (applies_at moment v)) [
  | inl on ↦
      rw on (keep_live-at_least moment vs (put_live v live) p b (put_live-at_least v live p b h))
  | inr off ↦ rw off (keep_live-at_least moment vs live p b h)
]

keep_live-mem :
    (moment : Instant) (rows live : Versions) (p : ℕ) {r : DisseminationPolicyVersion}
    → Memᴰ r rows
    → applies_at moment r ≡ true
    → r.policy_id ≡ p
    → at_least r.version (live_of p (keep_live moment rows live)) ≡ true
unfolding keep_live
keep_live-mem moment [] live p m on here = elim m [ ]
keep_live-mem moment (v ∷ vs) live p {r} (Memᴰ.head e) on here =
    let on' : applies_at moment v ≡ true = rw (← e) on in
    rw (on', e)
      (keep_live-at_least moment vs (put_live v live) p v.version
        (put_live_self v live p (rw (← e) here)))
keep_live-mem moment (v ∷ vs) live p (Memᴰ.tail m) on here = keep_live-mem moment vs _ p m on here

-- One version for each policy.
abbrev pub HasOnePerPolicy : Versions → Type 0
HasOnePerPolicy [] = Unit
HasOnePerPolicy (v ∷ vs) = (live_of v.policy_id vs ≡ none) × HasOnePerPolicy vs

put_live-HasOnePerPolicy :
    (v : DisseminationPolicyVersion) (live : Versions)
    → HasOnePerPolicy live
    → HasOnePerPolicy (put_live v live)
put_live-HasOnePerPolicy v [] h = (refl, tt)
put_live-HasOnePerPolicy v (w ∷ ws) h =
    ground (arith, put_live-HasOnePerPolicy v ws, put_live-of v ws w.policy_id)

keep_live-HasOnePerPolicy :
    (moment : Instant) (rows live : Versions)
    → HasOnePerPolicy live
    → HasOnePerPolicy (keep_live moment rows live)
unfolding keep_live
keep_live-HasOnePerPolicy moment [] live h = h
keep_live-HasOnePerPolicy moment (v ∷ vs) live h = elim (Bool-cases (applies_at moment v)) [
  | inl on ↦
      rw on
        (keep_live-HasOnePerPolicy moment vs (put_live v live) (put_live-HasOnePerPolicy v live h))
  | inr off ↦ rw off (keep_live-HasOnePerPolicy moment vs live h)
]

put_live-All :
    (P : DisseminationPolicyVersion → Type 0) (v : DisseminationPolicyVersion) (live : Versions)
    → P v
    → All P live
    → All P (put_live v live)
put_live-All P v [] p h = (p, tt)
put_live-All P v (w ∷ ws) p h = elim (Bool-cases (w.policy_id == v.policy_id)) [
  | inl same ↦ elim (Bool-cases (ltb w.version v.version)) [
    | inl higher ↦ rw (same, higher) (p, h.1)
    | inr lower ↦ rw (same, lower) h
  ]
  | inr other ↦ rw other (h.0, put_live-All P v ws p h.1)
]

keep_live-applies :
    (moment : Instant) (rows live : Versions)
    → All (λ v. applies_at moment v ≡ true) live
    → All (λ v. applies_at moment v ≡ true) (keep_live moment rows live)
unfolding keep_live
keep_live-applies moment [] live h = h
keep_live-applies moment (v ∷ vs) live h = elim (Bool-cases (applies_at moment v)) [
  | inl on ↦ rw on (
      keep_live-applies moment vs (put_live v live)
        (put_live-All (λ v. applies_at moment v ≡ true) v live on h))
  | inr off ↦ rw off (keep_live-applies moment vs live h)
]

-- The newest row of its policy that applies at a moment.
pub record IsNewest (moment : Instant) (rows : Versions) (v : DisseminationPolicyVersion)
    : Type 0 where
  pub applies : applies_at moment v ≡ true
  pub newest :
      (r : DisseminationPolicyVersion)
      → Memᴰ r rows
      → applies_at moment r ≡ true
      → r.policy_id ≡ v.policy_id
      → r.version ≤ v.version

later_live :
    (w : DisseminationPolicyVersion) (ws : Versions) (p : ℕ) (v : DisseminationPolicyVersion)
    → live_of w.policy_id ws ≡ none
    → live_of p ws ≡ some v
    → live_of p (w ∷ ws) ≡ some v
later_live w ws p v one e = ground (arith, ==_iff w.policy_id p)

live_of_self :
    (all live : Versions)
    → HasOnePerPolicy live
    → ((p : ℕ) (v : DisseminationPolicyVersion) → live_of p live ≡ some v → live_of p all ≡ some v)
    → All (λ v. live_of v.policy_id all ≡ some v) live
live_of_self all [] one found = tt
live_of_self all (w ∷ ws) one found = (
  found w.policy_id w (rw (==_refl w.policy_id) refl),
  live_of_self all ws one.1 (λ p v e. found p v (later_live w ws p v one.0 e)),
)

kept-IsNewest :
    (moment : Instant) (rows : Versions) (v : DisseminationPolicyVersion)
    → applies_at moment v ≡ true
    → live_of v.policy_id (keep_live moment rows []) ≡ some v
    → IsNewest moment rows v
kept-IsNewest moment rows v on e = record {
  applies = on;
  newest = λ r m a h. leb→le _ _ (rw e at (keep_live-mem moment rows [] v.policy_id m a h));
}

All-both :
    (P Q : DisseminationPolicyVersion → Type 0) (xs : Versions)
    → All P xs
    → All Q xs
    → All (λ x. P x × Q x) xs
All-both P Q [] h k = tt
All-both P Q (x ∷ xs) h k = ((h.0, k.0), All-both P Q xs h.1 k.1)

-- Every version that counts at a moment is approved, its window holds the moment, and no other version
-- of its policy of which that is so has a higher number.
pub applicable_versions-IsNewest :
    (slug : ℕ → String) (moment : Instant) (rows : Versions)
    → All (IsNewest moment rows) (applicable_versions slug moment rows)
unfolding applicable_versions
applicable_versions-IsNewest slug moment rows =
    let live = keep_live moment rows [] in
    All-sort_by (sorted_before slug) (IsNewest moment rows) live (
      All-imply (λ v. (applies_at moment v ≡ true) × (live_of v.policy_id live ≡ some v))
        (IsNewest moment rows) live (λ v h. kept-IsNewest moment rows v h.0 h.1)
        (All-both (λ v. applies_at moment v ≡ true) (λ v. live_of v.policy_id live ≡ some v) live
          (keep_live-applies moment rows [] tt)
          (live_of_self live live (keep_live-HasOnePerPolicy moment rows [] tt) (λ p v e. e))))

live_of-insert_by :
    (slug : ℕ → String) (p : ℕ) (v : DisseminationPolicyVersion) (vs : Versions)
    → (v.policy_id == p) ≡ false
    → live_of p vs ≡ none
    → live_of p (insert_by (sorted_before slug) v vs) ≡ none
live_of-insert_by slug p v [] ne h = rw ne refl
live_of-insert_by slug p v (w ∷ ws) ne h = elim (Bool-cases (sorted_before slug v w)) [
  | inl first ↦ rw (first, ne) h
  | inr later ↦ rw later (ground (arith, live_of-insert_by slug p v ws ne))
]

live_of-sort_by :
    (slug : ℕ → String) (p : ℕ) (vs : Versions)
    → live_of p vs ≡ none
    → live_of p (sort_by (sorted_before slug) vs) ≡ none
live_of-sort_by slug p [] h = refl
live_of-sort_by slug p (v ∷ vs) h =
    live_of-insert_by slug p v (sort_by (sorted_before slug) vs) (ground arith)
      (live_of-sort_by slug p vs (ground arith))

insert_by-HasOnePerPolicy :
    (slug : ℕ → String) (v : DisseminationPolicyVersion) (vs : Versions)
    → live_of v.policy_id vs ≡ none
    → HasOnePerPolicy vs
    → HasOnePerPolicy (insert_by (sorted_before slug) v vs)
insert_by-HasOnePerPolicy slug v [] ne h = (refl, tt)
insert_by-HasOnePerPolicy slug v (w ∷ ws) ne h = elim (Bool-cases (sorted_before slug v w)) [
  | inl first ↦ rw first (ne, h)
  | inr later ↦ rw later (
    live_of-insert_by slug w.policy_id v ws (ground arith) h.0,
    insert_by-HasOnePerPolicy slug v ws (ground arith) h.1,
  )
]

sort_by-HasOnePerPolicy :
    (slug : ℕ → String) (vs : Versions)
    → HasOnePerPolicy vs
    → HasOnePerPolicy (sort_by (sorted_before slug) vs)
sort_by-HasOnePerPolicy slug [] h = tt
sort_by-HasOnePerPolicy slug (v ∷ vs) h =
    insert_by-HasOnePerPolicy slug v (sort_by (sorted_before slug) vs)
      (live_of-sort_by slug v.policy_id vs h.0) (sort_by-HasOnePerPolicy slug vs h.1)

-- At no moment do two versions of one policy count.
applicable_versions-HasOnePerPolicy :
    (slug : ℕ → String) (moment : Instant) (rows : Versions)
    → HasOnePerPolicy (applicable_versions slug moment rows)
unfolding applicable_versions
applicable_versions-HasOnePerPolicy slug moment rows =
    sort_by-HasOnePerPolicy slug _ (keep_live-HasOnePerPolicy moment rows [] tt)
