-- ===== src/Identity/Links.antt =====
-- The link of a legacy account to an identity.
use iceberg_cti.Identity.Accounts.{
  select-update_first, find_first-update_first, found-passes, holders, All-any, none_selected,
}
use iceberg_cti.Identity.Logins.{HasOneHolder}
use iceberg_cti.Identity.{
  has_value, bind_identity, normal_value, holds, bind_parts, is_other, link_legacy_oidc_identity,
}
use iceberg_cti.Models.{User}
use iceberg_cti.Base.{
  refl, ◌⊎◌, not, is_some, ap, str_eq_iff, str_eq, find_first_sound, update_first, find_first,
  length, [], ◌∷◌, arith, inl, inr, some, none, ok, true, false, nat_eq, string_eq, ◌≡◌, ◌≤◌, ◌+◌,
  ◌&&◌, ◌==◌, Bool, List, Option, ℕ, String, select, Bool-cases, Option-cases,
}

-- No two accounts have one id.
abbrev pub HasOneRow : List User → Type 0
HasOneRow users = (id : ℕ) → length (select (λ v. v.id == id) users) ≤ 1

found-select :
    (p q : User → Bool) (xs : List User) {b : User}
    → find_first q xs ≡ some b
    → p b ≡ true
    → 1 ≤ length (select p xs)
found-select p q [] h k = cc
found-select p q (x ∷ xs) {b} h k = elim (Bool-cases (p x)) [
  | inl here ↦ rw here (omega arith)
  | inr there ↦ elim (Bool-cases (q x)) [
    | inl hit ↦ let same : x ≡ b = ground arith in let bad : p x ≡ true = rw same k in cc
    | inr miss ↦ rw there (found-select p q xs (rw miss at h) k)
  ]
]

-- Two rows that pass a test that one row passes are one.
only_one :
    (p q : User → Bool) (xs : List User) {a b : User}
    → length (select p xs) ≤ 1
    → find_first p xs ≡ some a
    → find_first q xs ≡ some b
    → p b ≡ true
    → a ≡ b
only_one p q [] one fa fb pb = cc
only_one p q (x ∷ xs) {a} {b} one fa fb pb = elim (Bool-cases (q x)) [
  | inl hit ↦
      let same : x ≡ b = ground arith in let passes : p x ≡ true = rw same pb in ground arith
  | inr miss ↦ elim (Bool-cases (p x)) [
    | inr other ↦ only_one p q xs (rw other at one) (rw other at fa) (rw miss at fb) pb
    | inl here ↦
        let later = rw miss at fb in
        let many = found-select p q xs later pb in
        absurd (let k = rw here at one in omega (arith, k, many))
  ]
]

module _ (p : User → Bool) (f : User → User) (q : User → Bool) where
  count_more : (xs : List User) → length (select q (update_first p f xs)) ≤ length (select q xs) + 1
  count_more [] = omega arith
  count_more (x ∷ xs) = elim (Bool-cases (p x)) [
    | inl hit ↦ ground (arith, hit)
    | inr miss ↦ ground (arith, miss, count_more xs)
  ]

  count_less :
      (xs : List User)
      → ((x : User) → q (f x) ≡ false)
      → length (select q (update_first p f xs)) ≤ length (select q xs)
  count_less [] never = omega arith
  count_less (x ∷ xs) never = elim (Bool-cases (p x)) [
    | inl hit ↦ ground (arith, hit, never x)
    | inr miss ↦ ground (arith, miss, count_less xs never)
  ]

-- The identity is free, since a row with the id of `u` that held it would be `u`.
identity_free :
    (u : User) (issuer sub : String) (users : List User)
    → HasOneRow users
    → find_first (λ v. v.id == u.id) users ≡ some u
    → u.issuer ≡ none
    → is_other u.id (find_first (holds issuer sub) users) ≡ false
    → find_first (holds issuer sub) users ≡ none
identity_free u issuer sub users rows found unbound own =
    elim (Option-cases (find_first (holds issuer sub) users)) [
      | inl free ↦ free
      | inr (e, held) ↦
          let same_row : (e.id == u.id) ≡ true = ground (arith, held) in
          let is_u : u ≡ e =
            only_one (λ v. v.id == u.id) (holds issuer sub) users (rows u.id) found held same_row in
          let holding =
            (find_first_sound (λ v. Unit {0}) (holds issuer sub) users e
              (All-any (λ v. Unit {0}) users (λ v. tt)) held).1 in
          let bad : has_value u.issuer issuer ≡ true = rw is_u (ground (arith, holding)) in
          ground arith
    ]

-- What a link has written. The account `u` is that of the identity from then on, and of none before but
-- for the subject; nobody had the identity; and every other account is as it was.
pub record IsLinked (u : User) (provider issuer sub : Option String) (before after : List User)
    : Type 0 where
  pub its_provider : String
  pub its_issuer : String
  pub its_sub : String
  pub asserted_provider : normal_value provider ≡ some its_provider
  pub asserted_issuer : normal_value issuer ≡ some its_issuer
  pub asserted_sub : normal_value sub ≡ some its_sub
  pub had_no_issuer : u.issuer ≡ none
  pub had_no_other_sub : (u.sub ≡ none) ⊎ (u.sub ≡ some its_sub)
  pub was_free : find_first (holds its_issuer its_sub) before ≡ none
  pub linked :
      find_first (λ v. v.id == u.id) after
      ≡ some (record u {
        auth_provider = some its_provider;
        issuer = some its_issuer;
        sub = some its_sub;
      })
  pub others_kept : select (λ v. not (v.id == u.id)) after ≡ select (λ v. not (v.id == u.id)) before
  pub one_holder : HasOneHolder after

sub-same :
    (o : Option String) (sub : String)
    → (is_some o && not (has_value o sub)) ≡ false
    → (o ≡ none) ⊎ (o ≡ some sub)
sub-same none sub h = inl refl
sub-same (some s) sub h = inr (ap some ((str_eq_iff s sub).0 (ground (arith, h))))

bound-HasOneHolder :
    (id : ℕ) (provider issuer sub : String) (users : List User)
    → HasOneHolder users
    → find_first (holds issuer sub) users ≡ none
    → HasOneHolder (update_first (λ v. v.id == id) (bind_identity provider issuer sub) users)
bound-HasOneHolder id provider issuer sub users one free i s =
    let bind = bind_identity provider issuer sub in
    elim (Bool-cases (str_eq issuer i && str_eq sub s)) [
      | inl hit ↦
          let issuer_is : issuer ≡ i = (str_eq_iff issuer i).0 (ground arith) in
          let sub_is : sub ≡ s = (str_eq_iff sub s).0 (ground arith) in
          let most = count_more (λ v. v.id == id) bind (holds i s) users in
          let nobody : holders i s users ≡ 0 =
            rw (← issuer_is, ← sub_is) (ap length (none_selected (holds issuer sub) users free)) in
          omega (arith, most, nobody)
      | inr miss ↦
          omega (arith, count_less (λ v. v.id == id) bind (holds i s) users (λ x. miss), one i s)
    ]

bind_parts-IsLinked :
    (u : User) (provider issuer sub : Option String) (p i s : Option String) (users : List User)
    {after : List User}
    → normal_value provider ≡ p
    → normal_value issuer ≡ i
    → normal_value sub ≡ s
    → HasOneRow users
    → HasOneHolder users
    → find_first (λ v. v.id == u.id) users ≡ some u
    → bind_parts u p i s users ≡ ok after
    → IsLinked u provider issuer sub users after
unfolding bind_parts
bind_parts-IsLinked u provider issuer sub (some p) (some i) (some s) users {after} pe ie se rows one
      found done =
    let is_u : User → Bool = λ v. v.id == u.id in
    let bind = bind_identity p i s in
    let same : after ≡ update_first is_u bind users = ground arith in
    let unbound : u.issuer ≡ none = ground arith in
    let own : is_other u.id (find_first (holds i s) users) ≡ false = ground arith in
    let subject : (is_some u.sub && not (has_value u.sub s)) ≡ false = ground arith in
    let free = identity_free u i s users rows found unbound own in
    let hit : is_u u ≡ true = found-passes is_u users found in
    rw same (record {
      its_provider = p;
      its_issuer = i;
      its_sub = s;
      asserted_provider = pe;
      asserted_issuer = ie;
      asserted_sub = se;
      had_no_issuer = unbound;
      had_no_other_sub = sub-same u.sub s subject;
      was_free = free;
      linked = find_first-update_first is_u bind users found hit;
      others_kept =
          select-update_first is_u bind (λ v. not (is_u v)) users
            (All-any (λ x. is_u x ≡ true → (not (is_u x) ≡ false) × (not (is_u (bind x)) ≡ false))
              users (λ x m. (rw m refl, rw m refl)));
      one_holder = bound-HasOneHolder u.id p i s users one free;
    })
bind_parts-IsLinked u provider issuer sub (some p) (some i) none users pe ie se rows one found
      done =
    cc
bind_parts-IsLinked u provider issuer sub (some p) none s users pe ie se rows one found done = cc
bind_parts-IsLinked u provider issuer sub none i s users pe ie se rows one found done = cc

-- A link binds the account to the identity that is asserted, and takes it from nobody. Where ids and
-- identities are each held once, and `u` is the account of its id, a link that succeeds was asked with
-- three parts that are not blank, of an account without an issuer and without another subject, for an
-- identity that no account held; it gives that account the three parts and changes nothing else of it; it
-- leaves every other account as it was; and each identity is held at most once after it.
pub link_legacy_oidc_identity-IsLinked :
    (u : User) (provider issuer sub : Option String) (users : List User) {after : List User}
    → HasOneRow users
    → HasOneHolder users
    → find_first (λ v. v.id == u.id) users ≡ some u
    → link_legacy_oidc_identity u provider issuer sub users ≡ ok after
    → IsLinked u provider issuer sub users after
unfolding link_legacy_oidc_identity
link_legacy_oidc_identity-IsLinked u provider issuer sub users rows one found done =
    bind_parts-IsLinked u provider issuer sub (normal_value provider) (normal_value issuer)
      (normal_value sub) users refl refl refl rows one found done
