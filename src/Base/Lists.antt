-- ===== src/Base/Lists.antt =====
-- Lists as the code uses them: comprehensions, SQL filters and updates, and what holds of each item.
use Prim.Native.Nat.{ℕ, zero, suc, ◌+◌, ◌≤◌}
use mathlib.Core.Path.{◌≡◌, refl}
use mathlib.Core.Logic.{inl, inr}
use mathlib.Core.Bool.{Bool, true, false, ◌&&◌, ◌||◌}
use mathlib.Core.Option.{Option, none, some}
use mathlib.Core.List.{List, [], ◌∷◌, ◌++◌, Memᴰ}
use native.Mathlib.Omega.{arith}
use iceberg_cti.Base.Tests.{if◌then◌else◌, Bool-cases}

module _ {ℓ} {A : Type ℓ} where
  abbrev pub length : List A → ℕ
  length [] = 0
  length (x ∷ xs) = suc (length xs)

  -- `[x for x in xs if p(x)]`, `SELECT … WHERE p`
  abbrev pub select : (A → Bool) → List A → List A
  select p [] = []
  select p (x ∷ xs) = if p x then x ∷ select p xs else select p xs

  -- `any(p(x) for x in xs)`
  abbrev pub any_of : (A → Bool) → List A → Bool
  any_of p [] = false
  any_of p (x ∷ xs) = p x || any_of p xs

  abbrev pub all_of : (A → Bool) → List A → Bool
  all_of p [] = true
  all_of p (x ∷ xs) = p x && all_of p xs

  -- `.where(p).first()`
  abbrev pub find_first : (A → Bool) → List A → Option A
  find_first p [] = none
  find_first p (x ∷ xs) = if p x then some x else find_first p xs

  abbrev pub is_empty : List A → Bool
  is_empty [] = true
  is_empty (x ∷ xs) = false

  abbrev pub take : ℕ → List A → List A
  take zero xs = []
  take (suc n) [] = []
  take (suc n) (x ∷ xs) = x ∷ take n xs

  -- `UPDATE … SET f WHERE p`
  abbrev pub update_where : (A → Bool) → (A → A) → List A → List A
  update_where p f [] = []
  update_where p f (x ∷ xs) = (if p x then f x else x) ∷ update_where p f xs

module _ {ℓ} {A : Type ℓ} where
  -- The row that a query found first is changed.
  abbrev pub update_first : (A → Bool) → (A → A) → List A → List A
  update_first p f [] = []
  update_first p f (x ∷ xs) = if p x then f x ∷ xs else x ∷ update_first p f xs

-- What holds of every item.
abbrev pub All {ℓ κ} : {A : Type ℓ} → (A → Type κ) → List A → Type κ
All P [] = Unit
All P (x ∷ xs) = P x × All P xs

module _ {ℓ} {A : Type ℓ} where
  pub length-append : (xs ys : List A) → length (xs ++ ys) ≡ length xs + length ys
  length-append [] ys = omega arith
  length-append (x ∷ xs) ys = omega (arith, length-append xs ys)

  pub length-select : (p : A → Bool) (xs : List A) → length (select p xs) ≤ length xs
  length-select p [] = omega arith
  length-select p (x ∷ xs) = ground (arith, length-select p xs)

  pub length-update_where :
      (p : A → Bool) (f : A → A) (xs : List A) → length (update_where p f xs) ≡ length xs
  length-update_where p f [] = refl
  length-update_where p f (x ∷ xs) = ground (arith, length-update_where p f xs)

  -- What holds of each item holds of the items selected, and these pass the test.
  pub All-select :
      (P : A → Type 0) (p : A → Bool) (xs : List A)
      → All P xs
      → All (λ x. P x × (p x ≡ true)) (select p xs)
  All-select P p [] h = tt
  All-select P p (x ∷ xs) h = elim (Bool-cases (p x)) [
    | inl yes_p ↦ rw yes_p ((h.0, yes_p), All-select P p xs h.1)
    | inr no_p ↦ rw no_p (All-select P p xs h.1)
  ]

  -- An update keeps what each updated item and each other item keeps.
  pub All-update_where :
      (P : A → Type 0) (p : A → Bool) (f : A → A) (xs : List A)
      → ((x : A) → P x → p x ≡ true → P (f x))
      → All P xs
      → All P (update_where p f xs)
  All-update_where P p f [] keep h = tt
  All-update_where P p f (x ∷ xs) keep h = elim (Bool-cases (p x)) [
    | inl yes_p ↦ rw yes_p (keep x h.0 yes_p, All-update_where P p f xs keep h.1)
    | inr no_p ↦ rw no_p (h.0, All-update_where P p f xs keep h.1)
  ]

  -- The first match passes the test, and has what every item has.
  pub find_first_sound :
      (P : A → Type 0) (p : A → Bool) (xs : List A) (a : A)
      → All P xs
      → find_first p xs ≡ some a
      → P a × (p a ≡ true)
  find_first_sound P p [] a h e = cc
  find_first_sound P p (x ∷ xs) a h e = elim (Bool-cases (p x)) [
    | inl yes_p ↦ ground arith
    | inr no_p ↦ find_first_sound P p xs a h.1 (rw no_p at e)
  ]

  pub find_first-append :
      (p : A → Bool) (xs ys : List A)
      → find_first p xs ≡ none
      → find_first p (xs ++ ys) ≡ find_first p ys
  find_first-append p [] ys h = refl
  find_first-append p (x ∷ xs) ys h = ground (arith, find_first-append p xs ys)

  pub find_first-append_some :
      (p : A → Bool) (xs ys : List A) (a : A)
      → find_first p xs ≡ some a
      → find_first p (xs ++ ys) ≡ some a
  find_first-append_some p [] ys a h = cc
  find_first-append_some p (x ∷ xs) ys a h = ground (arith, find_first-append_some p xs ys a)

  pub All-append : (P : A → Type 0) (xs ys : List A) → All P xs → All P ys → All P (xs ++ ys)
  All-append P [] ys h k = k
  All-append P (x ∷ xs) ys h k = (h.0, All-append P xs ys h.1 k)

  pub update_where-none :
      (p : A → Bool) (f : A → A) (xs : List A) → any_of p xs ≡ false → update_where p f xs ≡ xs
  update_where-none p f [] h = refl
  update_where-none p f (x ∷ xs) h = ground (arith, update_where-none p f xs)

  mem_of_head :
      (p : A → Bool) (x : A) (xs : List A) {m : A}
      → p x ≡ true
      → (Memᴰ m (select p xs) → Memᴰ m xs × (p m ≡ true))
      → Memᴰ m (x ∷ select p xs)
      → Memᴰ m (x ∷ xs) × (p m ≡ true)
  mem_of_head p x xs h ih (Memᴰ.head e) = (Memᴰ.head e, rw e h)
  mem_of_head p x xs h ih (Memᴰ.tail k) = let (i, t) = ih k in (Memᴰ.tail i, t)

  -- A selected item is an item that passes the test.
  pub mem-select :
      (p : A → Bool) (xs : List A) {m : A} → Memᴰ m (select p xs) → Memᴰ m xs × (p m ≡ true)
  mem-select p [] k = elim k [ ]
  mem-select p (x ∷ xs) k = elim (Bool-cases (p x)) [
    | inl yes_p ↦ mem_of_head p x xs yes_p (mem-select p xs) (rw yes_p at k)
    | inr no_p ↦ let (i, t) = mem-select p xs (rw no_p at k) in (Memᴰ.tail i, t)
  ]

  pub All-passing : (p : A → Bool) (xs : List A) → All (λ x. p x ≡ true) (select p xs)
  All-passing p [] = tt
  All-passing p (x ∷ xs) = elim (Bool-cases (p x)) [
    | inl yes_p ↦ rw yes_p (yes_p, All-passing p xs)
    | inr no_p ↦ rw no_p (All-passing p xs)
  ]

  pub All-imply : (P Q : A → Type 0) (xs : List A) → ((x : A) → P x → Q x) → All P xs → All Q xs
  All-imply P Q [] f h = tt
  All-imply P Q (x ∷ xs) f h = (f x h.0, All-imply P Q xs f h.1)

  pub any_of-mem :
      (p : A → Bool) (xs : List A) {m : A} → Memᴰ m xs → p m ≡ true → any_of p xs ≡ true
  any_of-mem p [] k h = elim k [ ]
  any_of-mem p (x ∷ xs) (Memᴰ.head e) h = rw (← e, h) refl
  any_of-mem p (x ∷ xs) (Memᴰ.tail k) h = ground (arith, any_of-mem p xs k h)

  pub select-cons :
      (p : A → Bool) (xs : List A)
      → any_of p xs ≡ true
      → (y : A) × (ys : List A) × (select p xs ≡ y ∷ ys)
  select-cons p [] h = cc
  select-cons p (x ∷ xs) h = elim (Bool-cases (p x)) [
    | inl yes_p ↦ (x, select p xs, rw yes_p refl)
    | inr no_p ↦ let (y, ys, e) = select-cons p xs (rw no_p at h) in (y, ys, rw no_p e)
  ]

-- `sorted(xs)` by a test that says which of two items may come first.
module _ {ℓ} {A : Type ℓ} (le : A → A → Bool) where
  abbrev pub insert_by : A → List A → List A
  insert_by a [] = a ∷ []
  insert_by a (x ∷ xs) = if le a x then a ∷ x ∷ xs else x ∷ insert_by a xs

  abbrev pub sort_by : List A → List A
  sort_by [] = []
  sort_by (x ∷ xs) = insert_by x (sort_by xs)

  All-insert_by : (P : A → Type 0) (a : A) (xs : List A) → P a → All P xs → All P (insert_by a xs)
  All-insert_by P a [] p h = (p, tt)
  All-insert_by P a (x ∷ xs) p h = elim (Bool-cases (le a x)) [
    | inl first ↦ rw first (p, h)
    | inr later ↦ rw later (h.0, All-insert_by P a xs p h.1)
  ]

  pub All-sort_by : (P : A → Type 0) (xs : List A) → All P xs → All P (sort_by xs)
  All-sort_by P [] h = tt
  All-sort_by P (x ∷ xs) h = All-insert_by P x (sort_by xs) h.0 (All-sort_by P xs h.1)
