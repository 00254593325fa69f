-- ===== src/Identity/Logins.antt =====
-- What a login and a link leave of the other accounts, and of the identities.
use iceberg_cti.Identity.Accounts.{frozen, holders}
use iceberg_cti.Identity.{has_value, holds, is_bound}
use iceberg_cti.Models.{User}
use iceberg_cti.Base.{
  str_eq_iff, sym, ◌∙◌, length, arith, some, none, true, false, nat_eq, string_eq, ◌≡◌, ◌≤◌, ◌++◌,
  not, Bool, List, Option, String, map, select,
}

-- No two accounts hold one identity.
abbrev pub HasOneHolder : List User → Type 0
HasOneHolder users = (issuer sub : String) → holders issuer sub users ≤ 1

-- The accounts that a login of this kind may not touch: for one with an identity those that are not
-- bound, for a local one those that are.
abbrev pub is_foreign : Bool → User → Bool
is_foreign true u = not (is_bound u)
is_foreign false u = is_bound u

-- What a login leaves: identities have one holder, the accounts of the other kind are as they were, and
-- every account keeps its id, identity, tokens, subscriptions and groups, after which at most a new one
-- stands.
pub record IsSafe (with_identity : Bool) (before after : List User) : Type 0 where
  pub one_holder : HasOneHolder after
  pub foreign_kept :
      select (is_foreign with_identity) after ≡ select (is_foreign with_identity) before
  pub added : List User
  pub at_most_one : length added ≤ 1
  pub frozen_kept : map frozen after ≡ map frozen before ++ map frozen added

has_value-eq :
    (o : Option String) (s t : String) → has_value o s ≡ true → has_value o t ≡ true → s ≡ t
has_value-eq none s t h k = cc
has_value-eq (some r) s t h k = sym ((str_eq_iff r s).0 h) ∙ (str_eq_iff r t).0 k

-- An account that holds an identity is bound.
holds-bound : (issuer sub : String) (u : User) → holds issuer sub u ≡ true → is_bound u ≡ true
holds-bound issuer sub u h = ground arith
