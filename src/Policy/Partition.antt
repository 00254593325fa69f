-- ===== src/Policy/Partition.antt =====
-- Nobody is lost: every stakeholder is either a recipient or excluded with a reason, exactly once.
use mathlib.Core.List.Perm
use mathlib.Core.List.{Perm, perm_middle}
use iceberg_cti.Base.{
  nat_eq, ℕ, List, [], ◌∷◌, ◌++◌, map, String, Bool-cases, inl, inr, dedup, sort_by, leb,
}
use iceberg_cti.Models.{Instant, Report}
use iceberg_cti.Dissemination.{MatchDecision}
use iceberg_cti.Policy.{Versions, applicable_versions}
use iceberg_cti.Policy.Rules.{Python}
use iceberg_cti.Policy.Resolve.{RecipientDecision, decide_one, sort_out, resolve}

sort_out-Perm : (ds : List RecipientDecision) → Perm ((sort_out ds).0 ++ (sort_out ds).1) ds
unfolding sort_out
sort_out-Perm [] = Perm.refl []
sort_out-Perm (d ∷ ds) = elim (Bool-cases d.included) [
  | inl in_ ↦ simp in_ (Perm.cons d (sort_out-Perm ds))
  | inr out ↦
      simp out
        (Perm.trans (perm_middle (sort_out ds).0 (sort_out ds).1) (Perm.cons d (sort_out-Perm ds)))
]

-- The two lists that a resolution returns hold the decisions on all base decisions, each once.
resolve-Perm :
    (py : Python) (slug : ℕ → String) (table : Versions) (known : List ℕ)
    (bases : List MatchDecision) (report : Report) (moment : Instant) (asked : List ℕ)
    → let r = resolve py slug table known bases report moment asked in
      Perm (r.included ++ r.excluded) (
        map
          (decide_one py slug
            (applicable_versions slug moment table)
            (sort_by leb (dedup asked))
            report)
          bases)
unfolding resolve
resolve-Perm py slug table known bases report moment asked = sort_out-Perm _
