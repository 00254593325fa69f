-- ===== src/Identity/Asserted.antt =====
-- The account that a login returns, and whom it is.
use iceberg_cti.Identity.Accounts.{
  All-any, append-nil, select-join, select-update_first, unbound_owners, find_first-update_first,
  find_first-updated, found-passes,
}
use iceberg_cti.Identity.{
  adoptable, owns_email, adopt, email_owners, holds, is_legacy, new_user, refresh_profile, Folding,
  create_bound, has_triple, is_bound, Profile, has_value, upsert_bound, upsert_local,
}
use iceberg_cti.Models.{Instant, User}
use iceberg_cti.Base.{
  find_first_sound, ◌∙◌, find_first-append, str_eq, update_first, any_of, str_eq_iff, ap,
  find_first, [], ◌∷◌, refl, arith, inl, inr, some, none, ok, true, false, nat_eq, string_eq, ◌≡◌,
  ◌++◌, not, Bool, List, Option, ℕ, String, select, Bool-cases, Option-cases,
}

-- The row after the login holds the identity that was asserted, it is the one returned, with the address
-- given, and every row with another identity, or none, is as it was.
pub record IsAsserted (provider issuer sub email : String) (user : User) (before after : List User)
    : Type 0 where
  pub holds_provider : user.auth_provider ≡ some provider
  pub holds_issuer : user.issuer ≡ some issuer
  pub holds_sub : user.sub ≡ some sub
  pub has_email : user.email ≡ email
  pub stored : find_first (has_triple provider issuer sub) after ≡ some user
  pub others_kept :
      select (λ u. not (holds issuer sub u)) after ≡ select (λ u. not (holds issuer sub u)) before

-- A local login returns an account that is bound to no identity, with the address given.
abbrev pub IsLocal : String → User → Type 0
IsLocal email user = (is_bound user ≡ false) × (user.email ≡ email)

has_value-some : (o : Option String) (s : String) → has_value o s ≡ true → o ≡ some s
has_value-some none s h = cc
has_value-some (some r) s h = ap some ((str_eq_iff r s).0 h)

triple-parts :
    (provider issuer sub : String) (u : User)
    → has_triple provider issuer sub u ≡ true
    → (u.auth_provider ≡ some provider) × (u.issuer ≡ some issuer) × (u.sub ≡ some sub)
triple-parts provider issuer sub u h = (
  has_value-some u.auth_provider provider (ground (arith, h)),
  has_value-some u.issuer issuer (ground (arith, h)),
  has_value-some u.sub sub (ground (arith, h)),
)

-- A row that has the triple holds the identity, whatever is updated of its profile.
refreshed-IsAsserted :
    (p : Profile) (provider issuer sub : String) (users : List User) {u : User}
    → find_first (has_triple provider issuer sub) users ≡ some u
    → IsAsserted provider issuer sub p.email
        (refresh_profile p u)
        users
        (update_first (has_triple provider issuer sub) (refresh_profile p) users)
refreshed-IsAsserted p provider issuer sub users {u} found =
    let test : User → Bool = has_triple provider issuer sub in
    let hit : test u ≡ true = found-passes test users found in
    let (provider_is, issuer_is, sub_is) = triple-parts provider issuer sub u hit in
    record {
      holds_provider = provider_is;
      holds_issuer = issuer_is;
      holds_sub = sub_is;
      has_email = refl;
      stored = find_first-update_first test (refresh_profile p) users found hit;
      others_kept =
          select-update_first test (refresh_profile p) (λ v. not (holds issuer sub v)) users
            (All-any
              (λ x.
                test x ≡ true
                → (not (holds issuer sub x) ≡ false)
                  × (not (holds issuer sub (refresh_profile p x)) ≡ false))
              users (λ x m. ground arith));
    }

adopted-IsAsserted :
    (p : Profile) (provider issuer sub : String) (users : List User) {u : User}
    → find_first (has_triple provider issuer sub) users ≡ none
    → find_first (is_legacy issuer sub) users ≡ some u
    → IsAsserted provider issuer sub p.email
        (adopt provider p u)
        users
        (update_first (is_legacy issuer sub) (adopt provider p) users)
adopted-IsAsserted p provider issuer sub users {u} unknown found =
    let hit : is_legacy issuer sub u ≡ true = found-passes (is_legacy issuer sub) users found in
    let same : str_eq provider provider ≡ true = (str_eq_iff provider provider).1 refl in
    let has : has_triple provider issuer sub (adopt provider p u) ≡ true =
      ground (arith, same, hit) in
    let (provider_is, issuer_is, sub_is) =
      triple-parts provider issuer sub (adopt provider p u) has in
    record {
      holds_provider = provider_is;
      holds_issuer = issuer_is;
      holds_sub = sub_is;
      has_email = refl;
      stored =
          find_first-updated (is_legacy issuer sub) (has_triple provider issuer sub)
            (adopt provider p) users unknown found has;
      others_kept =
          select-update_first (is_legacy issuer sub) (adopt provider p)
            (λ v. not (holds issuer sub v)) users
            (All-any
              (λ x.
                is_legacy issuer sub x ≡ true
                → (not (holds issuer sub x) ≡ false)
                  × (not (holds issuer sub (adopt provider p x)) ≡ false))
              users (λ x m. ground arith));
    }

created-IsAsserted :
    (id : ℕ) (now : Instant) (p : Profile) (provider issuer sub : String) (users : List User)
    → find_first (has_triple provider issuer sub) users ≡ none
    → IsAsserted provider issuer sub p.email
        (new_user id now (some provider) (some issuer) (some sub) p)
        users
        (users ++ (new_user id now (some provider) (some issuer) (some sub) p ∷ []))
created-IsAsserted id now p provider issuer sub users unknown =
    let fresh : User = new_user id now (some provider) (some issuer) (some sub) p in
    let same_provider : str_eq provider provider ≡ true = (str_eq_iff provider provider).1 refl in
    let same_issuer : str_eq issuer issuer ≡ true = (str_eq_iff issuer issuer).1 refl in
    let same_sub : str_eq sub sub ≡ true = (str_eq_iff sub sub).1 refl in
    record {
      holds_provider = refl;
      holds_issuer = refl;
      holds_sub = refl;
      has_email = refl;
      stored =
          find_first-append (has_triple provider issuer sub) users (fresh ∷ []) unknown
          ∙ (rw (same_provider, same_issuer, same_sub) refl);
      others_kept =
          select-join (λ v. not (holds issuer sub v)) users (fresh ∷ [])
          ∙ (rw (same_issuer, same_sub)
              (append-nil (select (λ v. not (holds issuer sub v)) users)));
    }

pub upsert_bound-IsAsserted :
    (fold : Folding) (id : ℕ) (now : Instant) (provider issuer sub : String) (p : Profile)
    (users : List User) {user : User} {after : List User}
    → upsert_bound fold id now provider issuer sub p users ≡ ok (user, after)
    → IsAsserted provider issuer sub p.email user users after
unfolding upsert_bound create_bound
upsert_bound-IsAsserted fold id now provider issuer sub p users {user} {after} done =
    elim (Option-cases (find_first (has_triple provider issuer sub) users)) [
      | inr (u, found) ↦
          let made = rw (upsert_bound, found) at done in
          let row : user ≡ refresh_profile p u = ground (arith, made) in
          let table : after
              ≡ update_first (has_triple provider issuer sub) (refresh_profile p) users =
            ground (arith, made) in
          rw (row, table) (refreshed-IsAsserted p provider issuer sub users found)
      | inl unknown ↦ elim (Option-cases (adoptable provider issuer sub users)) [
        | inr (u, found) ↦
            let made = rw (upsert_bound, unknown, found) at done in
            let row : user ≡ adopt provider p u = ground (arith, made) in
            let table : after ≡ update_first (is_legacy issuer sub) (adopt provider p) users =
              ground (arith, made) in
            let legacy : find_first (is_legacy issuer sub) users ≡ some u = ground (arith, found) in
            rw (row, table) (adopted-IsAsserted p provider issuer sub users unknown legacy)
        | inl nobody ↦
            let made = rw (upsert_bound, create_bound, unknown, nobody) at done in
            let fresh : User = new_user id now (some provider) (some issuer) (some sub) p in
            let row : user ≡ fresh = ground (arith, made) in
            let table : after ≡ users ++ (fresh ∷ []) = ground (arith, made) in
            rw (row, table) (created-IsAsserted id now p provider issuer sub users unknown)
      ]
    ]

pub upsert_local-IsLocal :
    (fold : Folding) (id : ℕ) (now : Instant) (p : Profile) (users : List User) {user : User}
    {after : List User}
    → upsert_local fold id now p users ≡ ok (user, after)
    → IsLocal p.email user
unfolding upsert_local
upsert_local-IsLocal fold id now p users {user} {after} done =
    elim (Bool-cases (any_of is_bound (email_owners fold p.email users))) [
      | inl bound ↦ ground arith
      | inr free ↦ elim (Option-cases (find_first (owns_email fold p.email) users)) [
        | inr (u, found) ↦
            let row : user ≡ refresh_profile p u = ground arith in
            let (rule, owns) =
              find_first_sound (λ x. owns_email fold p.email x ≡ true → is_bound x ≡ false)
                (owns_email fold p.email) users u
                (unbound_owners (owns_email fold p.email) users free) found in
            rw row (rule owns, refl)
        | inl missing ↦
            let row : user ≡ new_user id now none none none p = ground arith in rw row (refl, refl)
      ]
    ]

-- Whom a login returns: with the three parts of an identity the account that holds it, with none an
-- account without; a login with some of them returns nobody.
abbrev pub IsWhom :
    Option String → Option String → Option String → String → User → List User → List User → Type 0
IsWhom (some provider) (some issuer) (some sub) email user before after =
    IsAsserted provider issuer sub email user before after
IsWhom none none none email user before after = IsLocal email user
IsWhom (some provider) (some issuer) none email user before after = true ≡ false
IsWhom (some provider) none sub email user before after = true ≡ false
IsWhom none (some issuer) sub email user before after = true ≡ false
IsWhom none none (some sub) email user before after = true ≡ false
