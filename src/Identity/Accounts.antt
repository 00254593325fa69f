-- ===== src/Identity/Accounts.antt =====
-- Updates of one account in the table, and what they leave of the others.
use iceberg_cti.Identity.{holds, is_bound}
use iceberg_cti.Models.{User}
use iceberg_cti.Base.{
  find_first_sound, some, ◌∙◌, any_of, find_first, length, update_first, [], ◌∷◌, refl, arith, inl,
  inr, none, true, false, nat_eq, string_eq, ◌≡◌, ◌++◌, Bool, List, Option, ℕ, String, All, map,
  select, Bool-cases,
}

-- What no login changes of a row.
pub record Frozen : Type 0 where
  pub id : ℕ
  pub issuer : Option String
  pub sub : Option String
  pub token_version : ℕ
  pub tag_subscriptions : List ℕ
  pub audience_groups : List ℕ

abbrev pub frozen : User → Frozen
frozen u = record {
  id = u.id;
  issuer = u.issuer;
  sub = u.sub;
  token_version = u.token_version;
  tag_subscriptions = u.tag_subscriptions;
  audience_groups = u.audience_groups;
}

-- The rows that hold one identity.
abbrev pub holders : String → String → List User → ℕ
holders issuer sub users = length (select (holds issuer sub) users)

module _ (p : User → Bool) (f : User → User) where
  pub frozen-update_first :
      (xs : List User)
      → ((x : User) → frozen (f x) ≡ frozen x)
      → map frozen (update_first p f xs) ≡ map frozen xs
  frozen-update_first [] keep = refl
  frozen-update_first (x ∷ xs) keep = elim (Bool-cases (p x)) [
    | inl hit ↦ rw (hit, keep x) refl
    | inr miss ↦ rw (miss, frozen-update_first xs keep) refl
  ]

  -- An update of a row that is not selected, before and after, leaves the selection.
  pub select-update_first :
      (q : User → Bool) (xs : List User)
      → All (λ x. p x ≡ true → (q x ≡ false) × (q (f x) ≡ false)) xs
      → select q (update_first p f xs) ≡ select q xs
  select-update_first q [] h = refl
  select-update_first q (x ∷ xs) h = elim (Bool-cases (p x)) [
    | inl hit ↦ let (was, now) = h.0 hit in rw (hit, was, now) refl
    | inr miss ↦ elim (Bool-cases (q x)) [
      | inl yes_q ↦ rw (miss, yes_q, select-update_first q xs h.1) refl
      | inr no_q ↦ rw (miss, no_q, select-update_first q xs h.1) refl
    ]
  ]

  pub count-update_first :
      (q : User → Bool) (xs : List User)
      → ((x : User) → q (f x) ≡ q x)
      → length (select q (update_first p f xs)) ≡ length (select q xs)
  count-update_first q [] same = refl
  count-update_first q (x ∷ xs) same = elim (Bool-cases (p x)) [
    | inl hit ↦ elim (Bool-cases (q x)) [
      | inl yes_q ↦ let after : q (f x) ≡ true = same x ∙ yes_q in rw (hit, after, yes_q) refl
      | inr no_q ↦ let after : q (f x) ≡ false = same x ∙ no_q in rw (hit, after, no_q) refl
    ]
    | inr miss ↦ ground (arith, miss, count-update_first q xs same)
  ]

pub All-any : (P : User → Type 0) (xs : List User) → ((x : User) → P x) → All P xs
All-any P [] h = tt
All-any P (x ∷ xs) h = (h x, All-any P xs h)

pub select-join :
    (q : User → Bool) (xs ys : List User) → select q (xs ++ ys) ≡ select q xs ++ select q ys
select-join q [] ys = refl
select-join q (x ∷ xs) ys = ground (arith, select-join q xs ys)

pub map-join : (xs ys : List User) → map frozen (xs ++ ys) ≡ map frozen xs ++ map frozen ys
map-join [] ys = refl
map-join (x ∷ xs) ys = rw (map-join xs ys) refl

pub append-nil : (xs : List User) → xs ++ [] ≡ xs
append-nil [] = refl
append-nil (x ∷ xs) = rw (append-nil xs) refl

pub append-nil-frozen : (xs : List Frozen) → xs ++ [] ≡ xs
append-nil-frozen [] = refl
append-nil-frozen (x ∷ xs) = rw (append-nil-frozen xs) refl

pub none_selected : (q : User → Bool) (xs : List User) → find_first q xs ≡ none → select q xs ≡ []
none_selected q [] h = refl
none_selected q (x ∷ xs) h = ground (arith, none_selected q xs)

-- The rows of an address are none of them bound.
pub unbound_owners :
    (p : User → Bool) (xs : List User)
    → any_of is_bound (select p xs) ≡ false
    → All (λ x. p x ≡ true → is_bound x ≡ false) xs
unbound_owners p [] h = tt
unbound_owners p (x ∷ xs) h = elim (Bool-cases (p x)) [
  | inl hit ↦
      let here = rw hit at h in
      ((λ _. ground (arith, here)), unbound_owners p xs (ground (arith, here)))
  | inr miss ↦ ((λ k. cc), unbound_owners p xs (rw miss at h))
]

module _ (p q : User → Bool) (f : User → User) where
  -- The row that an update found and changed, where the test finds none before.
  pub find_first-updated :
      (xs : List User) {u : User}
      → find_first q xs ≡ none
      → find_first p xs ≡ some u
      → q (f u) ≡ true
      → find_first q (update_first p f xs) ≡ some (f u)
  find_first-updated [] none_q found hit = cc
  find_first-updated (x ∷ xs) {u} none_q found hit = elim (Bool-cases (p x)) [
    | inl here ↦
        let row : some x ≡ some u = rw here at found in
        let same : x ≡ u = cc in rw (here, same, hit) refl
    | inr there ↦ elim (Bool-cases (q x)) [
      | inl bad ↦ ground (arith, bad, none_q)
      | inr miss ↦
          rw (there, miss) (find_first-updated xs (rw miss at none_q) (rw there at found) hit)
    ]
  ]

-- The row that an update found and changed, by the same test.
pub find_first-update_first :
    (p : User → Bool) (f : User → User) (xs : List User) {u : User}
    → find_first p xs ≡ some u
    → p (f u) ≡ true
    → find_first p (update_first p f xs) ≡ some (f u)
find_first-update_first p f [] found hit = cc
find_first-update_first p f (x ∷ xs) {u} found hit = elim (Bool-cases (p x)) [
  | inl here ↦
      let row : some x ≡ some u = rw here at found in
      let same : x ≡ u = cc in rw (here, same, hit) refl
  | inr there ↦ rw (there, there) (find_first-update_first p f xs (rw there at found) hit)
]

-- A row that was found passes the test.
pub found-passes :
    (p : User → Bool) (xs : List User) {u : User} → find_first p xs ≡ some u → p u ≡ true
found-passes p xs {u} found =
    (find_first_sound (λ v. Unit {0}) p xs u (All-any (λ v. Unit {0}) xs (λ v. tt)) found).1
