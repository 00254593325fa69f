-- ===== src/Identity/Tests.antt =====
-- Logins on concrete accounts.
use iceberg_cti.Identity.Links.{link_legacy_oidc_identity-IsLinked, HasOneRow, IsLinked}
use iceberg_cti.Identity.Logins.{HasOneHolder}
use iceberg_cti.Base.{
  str_eq, is_ok, [], ◌∷◌, refl, arith, some, none, ok, err, true, nat_eq, string_eq, ◌≡◌,
  if◌then◌else◌, List, String,
}
use iceberg_cti.Identity.{
  Role, new_user, Folding, IdentityError, Profile, User, bind_identity, upsert_user, dispatch,
  upsert_bound, upsert_local, create_bound, check_new_email, reject_unbound_email_owner,
  link_legacy_oidc_identity, bind_parts,
}

abbrev same_case : Folding
same_case = record { lower = λ s. s; casefold = λ s. s }

abbrev claims : String → Profile
claims email = record {
  email = email;
  display_name = "B";
  role = Role.analyst;
  department = "";
  job_title = "";
  company_name = "Acme";
  office_location = "";
}

abbrev bob : User
bob = new_user 8 5 (some "entra") (some "iss") (some "s1") (claims "b@example.org")

abbrev local_row : User
local_row = new_user 9 5 none none none (claims "l@example.org")

abbrev accounts : List User
accounts = bob ∷ local_row ∷ []

spoof_refused :
    upsert_user same_case 7 5
      (some "okta")
      (some "iss")
      (some "s1")
      (claims "c@example.org")
      accounts
    ≡ err IdentityError.other_provider
unfolding upsert_user dispatch upsert_bound create_bound check_new_email reject_unbound_email_owner
spoof_refused = refl

local_over_bound_refused :
    upsert_user same_case 7 5 none none none (claims "b@example.org") accounts
    ≡ err IdentityError.externally_bound
unfolding upsert_user dispatch upsert_local
local_over_bound_refused = refl

taking_local_email_refused :
    upsert_user same_case 7 5
      (some "entra")
      (some "iss")
      (some "s1")
      (claims "l@example.org")
      accounts
    ≡ err IdentityError.unbound_owner
unfolding upsert_user dispatch upsert_bound create_bound check_new_email reject_unbound_email_owner
taking_local_email_refused = refl

-- `lower` keeps a letter that `casefold` writes as two, so that the owner of the address is not found.
abbrev sharp : Folding
sharp = record {
  lower = λ s. s;
  casefold = λ s. if str_eq s "ß@example.org" then "ss@example.org" else s;
}

folded_email_taken :
    is_ok (
      upsert_user sharp 7 5
        (some "entra")
        (some "iss")
        (some "s1")
        (claims "ß@example.org")
        (new_user 9 5 none none none (claims "ß@example.org") ∷ []))
    ≡ true
unfolding upsert_user dispatch upsert_bound create_bound check_new_email reject_unbound_email_owner
folded_email_taken = refl

accounts-HasOneHolder : HasOneHolder (local_row ∷ [])
accounts-HasOneHolder issuer sub = omega arith

links :
    link_legacy_oidc_identity local_row (some "entra") (some "iss") (some "s2") (local_row ∷ [])
    ≡ ok (bind_identity "entra" "iss" "s2" local_row ∷ [])
unfolding link_legacy_oidc_identity bind_parts
links = refl

accounts-HasOneRow : HasOneRow (local_row ∷ [])
accounts-HasOneRow id = ground arith

link_legacy_oidc_identity-IsLinked_example :
    IsLinked local_row
      (some "entra")
      (some "iss")
      (some "s2")
      (local_row ∷ [])
      (bind_identity "entra" "iss" "s2" local_row ∷ [])
link_legacy_oidc_identity-IsLinked_example =
    link_legacy_oidc_identity-IsLinked local_row (some "entra") (some "iss") (some "s2")
      (local_row ∷ []) accounts-HasOneRow accounts-HasOneHolder refl links

-- An account that has another subject already is not linked.
other_subject_refused :
    link_legacy_oidc_identity
      (record local_row { sub = some "s1" })
      (some "entra")
      (some "iss")
      (some "s2")
      (record local_row { sub = some "s1" } ∷ [])
    ≡ err IdentityError.other_subject
unfolding link_legacy_oidc_identity bind_parts
other_subject_refused = refl
