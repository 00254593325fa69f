-- ===== src/Identity.antt =====
-- src/iceberg/services/users.py: the accounts that a login creates or refreshes, keyed on the identity
-- that the provider asserts.
pub mod Accounts
pub mod Asserted
pub mod Logins
pub mod Links
mod Tests
use iceberg_cti.Models.{Instant, Role, User}
use iceberg_cti.Base.{
  any_of, update_first, find_first, is_none, is_some, raise_if, strip, is_blank, str_eq, zero, suc,
  [], ◌∷◌, refl, arith, inl, inr, some, none, ok, err, true, false, nat_eq, string_eq, ◌>>=◌, ◌>>◌,
  ◌≡◌, ◌≢◌, ◌≤◌, ◌<◌, ◌↔◌, ◌⊎◌, ◌+◌, ◌++◌, ◌&&◌, ◌||◌, ◌==◌, not, if◌then◌else◌, Bool, List, Option,
  ℕ, String, Result, All, map, select, elem, Bool-cases, Option-cases, Result-cases,
}

-- The sites that raise an `OIDCIdentityError`.
pub data IdentityError : Type 0 where
  email_required parts_together : IdentityError
  unbound_owner other_provider externally_bound : IdentityError
  link_parts_required has_issuer other_subject other_account : IdentityError

-- The database's `lower`, and Python's `str.casefold`.
pub record Folding : Type 0 where
  pub lower : String → String
  pub casefold : String → String

-- The trusted claims that are no identity.
pub record Profile : Type 0 where
  pub email : String
  pub display_name : String
  pub role : Role
  pub department : String
  pub job_title : String
  pub company_name : String
  pub office_location : String

-- `_normalise_identity_value`
abbrev pub normal_value : Option String → Option String
normal_value none = none
normal_value (some value) = if is_blank (strip value) then none else some (strip value)

-- `_is_bound`
abbrev pub is_bound : User → Bool
is_bound u = is_some u.auth_provider || is_some u.issuer || is_some u.sub

-- `column == value` in SQL, where the value is no NULL.
abbrev pub has_value : Option String → String → Bool
has_value none s = false
has_value (some t) s = str_eq t s

abbrev pub owns_email : Folding → String → User → Bool
owns_email fold email u = str_eq (fold.lower u.email) (fold.casefold email)

-- `_email_owners`
abbrev pub email_owners : Folding → String → List User → List User
email_owners fold email users = select (owns_email fold email) users

-- `_email_changed`
abbrev pub email_changed : Folding → User → String → Bool
email_changed fold u email = not (str_eq (fold.casefold u.email) (fold.casefold email))

abbrev pub is_excluded : Option ℕ → User → Bool
is_excluded none u = false
is_excluded (some id) u = u.id == id

-- `_reject_unbound_email_owner`, with the id of the row that is excluded.
unfoldable pub reject_unbound_email_owner :
    Folding → String → Option ℕ → List User → Result IdentityError (Unit {0})
reject_unbound_email_owner fold email exclude users =
    raise_if
      (any_of (λ u. not (is_excluded exclude u) && not (is_bound u))
        (email_owners fold email users))
      IdentityError.unbound_owner

-- `_refresh_profile`
abbrev pub refresh_profile : Profile → User → User
refresh_profile p u = record u {
  email = p.email;
  display_name = p.display_name;
  role = p.role;
  department = p.department;
  job_title = p.job_title;
  company_name = p.company_name;
  office_location = p.office_location;
}

-- The new row, with the id and the time that it gets.
abbrev pub new_user : ℕ → Instant → Option String → Option String → Option String → Profile → User
new_user id now provider issuer sub p = record {
  id = id;
  auth_provider = provider;
  issuer = issuer;
  sub = sub;
  email = p.email;
  display_name = p.display_name;
  role = p.role;
  preferred_intel_level = none;
  token_version = 0;
  department = p.department;
  job_title = p.job_title;
  company_name = p.company_name;
  office_location = p.office_location;
  created_at = now;
  tag_subscriptions = [];
  audience_groups = [];
}

-- The row of an issuer's subject, whatever its provider.
abbrev pub holds : String → String → User → Bool
holds issuer sub u = has_value u.issuer issuer && has_value u.sub sub

abbrev pub has_triple : String → String → String → User → Bool
has_triple provider issuer sub u = has_value u.auth_provider provider && holds issuer sub u

abbrev pub is_legacy : String → String → User → Bool
is_legacy issuer sub u = is_none u.auth_provider && holds issuer sub u

-- The guard of an update, which runs only on a new address.
unfoldable pub check_new_email :
    Folding → User → String → List User → Result IdentityError (Unit {0})
unfolding reject_unbound_email_owner
check_new_email fold u email users =
    if email_changed fold u email
    then reject_unbound_email_owner fold email (some u.id) users
    else ok tt

-- The row that is adopted: one from before there were providers, and only by "entra".
abbrev pub adoptable : String → String → String → List User → Option User
adoptable provider issuer sub users =
    if str_eq provider "entra" then find_first (is_legacy issuer sub) users else none

abbrev pub adopt : String → Profile → User → User
adopt provider p u = refresh_profile p (record u { auth_provider = some provider })

unfoldable pub create_bound :
    Folding
    → ℕ
    → Instant
    → String
    → String
    → String
    → Profile
    → List User
    → Result IdentityError (User × List User)
unfolding reject_unbound_email_owner
create_bound fold id now provider issuer sub p users = do
  raise_if (is_some (find_first (holds issuer sub) users)) IdentityError.other_provider
  reject_unbound_email_owner fold p.email none users
  let user : User = new_user id now (some provider) (some issuer) (some sub) p
  ok (user, users ++ (user ∷ []))

-- `upsert_user`, where the caller supplies an identity.
unfoldable pub upsert_bound :
    Folding
    → ℕ
    → Instant
    → String
    → String
    → String
    → Profile
    → List User
    → Result IdentityError (User × List User)
unfolding create_bound check_new_email
upsert_bound fold id now provider issuer sub p users =
    elim (find_first (has_triple provider issuer sub) users) [
      | some u ↦ do
        check_new_email fold u p.email users
        ok (
          refresh_profile p u,
          update_first (has_triple provider issuer sub) (refresh_profile p) users,
        )
      | none ↦ elim (adoptable provider issuer sub users) [
        | some u ↦ do
          check_new_email fold u p.email users
          ok (adopt provider p u, update_first (is_legacy issuer sub) (adopt provider p) users)
        | none ↦ create_bound fold id now provider issuer sub p users
      ]
    ]

-- `upsert_user`, where the caller supplies none.
unfoldable pub upsert_local :
    Folding → ℕ → Instant → Profile → List User → Result IdentityError (User × List User)
upsert_local fold id now p users = do
  raise_if (any_of is_bound (email_owners fold p.email users)) IdentityError.externally_bound
  elim (find_first (owns_email fold p.email) users) [
    | some u ↦
        ok (refresh_profile p u, update_first (owns_email fold p.email) (refresh_profile p) users)
    | none ↦ let user = new_user id now none none none p in ok (user, users ++ (user ∷ []))
  ]

-- The three parts: all, none, or some of them.
unfoldable pub dispatch :
    Folding
    → ℕ
    → Instant
    → Option String
    → Option String
    → Option String
    → Profile
    → List User
    → Result IdentityError (User × List User)
unfolding upsert_bound upsert_local
dispatch fold id now (some provider) (some issuer) (some sub) p users =
    upsert_bound fold id now provider issuer sub p users
dispatch fold id now none none none p users = upsert_local fold id now p users
dispatch fold id now _ _ _ p users = err IdentityError.parts_together

-- The row, and the table after the login.
unfoldable pub upsert_user :
    Folding
    → ℕ
    → Instant
    → Option String
    → Option String
    → Option String
    → Profile
    → List User
    → Result IdentityError (User × List User)
unfolding dispatch
upsert_user fold id now provider issuer sub given users = do
  let p : Profile = record given { email = strip given.email }
  raise_if (is_blank p.email) IdentityError.email_required
  dispatch fold id now (normal_value provider) (normal_value issuer) (normal_value sub) p users

abbrev pub bind_identity : String → String → String → User → User
bind_identity provider issuer sub u = record u {
  auth_provider = some provider;
  issuer = some issuer;
  sub = some sub;
}

-- A row holds the identity, and it is not this one.
abbrev pub is_other : ℕ → Option User → Bool
is_other id none = false
is_other id (some u) = not (u.id == id)

unfoldable pub bind_parts :
    User
    → Option String
    → Option String
    → Option String
    → List User
    → Result IdentityError (List User)
bind_parts u (some provider) (some issuer) (some sub) users = do
  raise_if (is_some u.issuer) IdentityError.has_issuer
  raise_if (is_some u.sub && not (has_value u.sub sub)) IdentityError.other_subject
  raise_if (is_other u.id (find_first (holds issuer sub) users)) IdentityError.other_account
  ok (update_first (λ v. v.id == u.id) (bind_identity provider issuer sub) users)
bind_parts u _ _ _ users = err IdentityError.link_parts_required

-- The table after the link of `u`, a row of it.
unfoldable pub link_legacy_oidc_identity :
    User
    → Option String
    → Option String
    → Option String
    → List User
    → Result IdentityError (List User)
unfolding bind_parts
link_legacy_oidc_identity u provider issuer sub users =
    bind_parts u (normal_value provider) (normal_value issuer) (normal_value sub) users
