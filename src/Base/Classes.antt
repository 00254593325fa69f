-- ===== src/Base/Classes.antt =====
-- Equality as an interface, and sets of ids as lists: membership, overlap, and dropping repeats.
use Prim.Native.Nat.{ℕ}
use Prim.Native.String.{String}
use mathlib.Core.Path.{◌≡◌, refl}
use mathlib.Core.Logic.{◌↔◌, inl, inr}
use mathlib.Core.Bool.{Bool, true, false, not, ◌||◌}
use mathlib.Core.List.{List, [], ◌∷◌, Memᴰ}
use iceberg_cti.Base.Tests.{◌==◌, ==_iff, str_eq, str_eq_iff, if◌then◌else◌, Bool-cases}
use iceberg_cti.Base.Lists.{any_of, select}

pub record Eq {ℓ} (A : Type ℓ) : Type ℓ where
  pub beq : A → A → Bool
  pub beq_iff : (a b : A) → (beq a b ≡ true) ↔ (a ≡ b)

instance abbrev pub nat_eq : Eq ℕ
nat_eq = record { beq = ◌==◌; beq_iff = ==_iff }

instance abbrev pub string_eq : Eq String
string_eq = record { beq = str_eq; beq_iff = str_eq_iff }

module _ {ℓ} {A : Type ℓ} ⦃e : Eq A⦄ where
  -- `a in xs`
  abbrev pub elem : A → List A → Bool
  elem a [] = false
  elem a (x ∷ xs) = e.beq a x || elem a xs

  -- `set(xs) & set(ys)` is not empty
  abbrev pub overlaps : List A → List A → Bool
  overlaps xs ys = any_of (λ x. elem x ys) xs

  -- `set(xs) - set(ys)`, in the order of xs
  abbrev pub difference : List A → List A → List A
  difference xs ys = select (λ x. not (elem x ys)) xs

  -- `list(dict.fromkeys(xs))` keeps the first of each value; `seen` holds the values met.
  abbrev pub dedup_from : List A → List A → List A
  dedup_from seen [] = []
  dedup_from seen (x ∷ xs) =
      if elem x seen then dedup_from seen xs else x ∷ dedup_from (x ∷ seen) xs

  abbrev pub dedup : List A → List A
  dedup xs = dedup_from [] xs

  pub beq_refl : (a : A) → e.beq a a ≡ true
  beq_refl a = (e.beq_iff a a).1 refl

  pub mem_of_elem : (a : A) (xs : List A) → elem a xs ≡ true → Memᴰ a xs
  mem_of_elem a [] h = cc
  mem_of_elem a (x ∷ xs) h = elim (Bool-cases (e.beq a x)) [
    | inl same ↦ Memᴰ.head ((e.beq_iff a x).0 same)
    | inr other ↦ Memᴰ.tail (mem_of_elem a xs (rw other at h))
  ]

  pub elem_of_mem : (a : A) (xs : List A) → Memᴰ a xs → elem a xs ≡ true
  elem_of_mem a [] m = elim m [ ]
  elem_of_mem a (x ∷ xs) (Memᴰ.head same) = rw ((e.beq_iff a x).1 same) refl
  elem_of_mem a (x ∷ xs) (Memᴰ.tail m) = elim (Bool-cases (e.beq a x)) [
    | inl same ↦ rw same refl
    | inr other ↦ rw (other, elem_of_mem a xs m) refl
  ]
