-- ===== src/Retention/Lists.antt =====
-- What selecting, taking and dropping leave of a list.
use iceberg_cti.Base.{
  is_empty, min, All-select, take, All-imply, length, zero, suc, [], ◌∷◌, refl, arith, true, false,
  nat_eq, string_eq, ◌≡◌, ◌<◌, ◌+◌, Bool, List, ℕ, All, map, select,
}

pub select_comm :
    {A : Type 0} (p q : A → Bool) (xs : List A) → select p (select q xs) ≡ select q (select p xs)
select_comm p q [] = refl
select_comm p q (x ∷ xs) = ground (arith, select_comm p q xs)

pub select-ext :
    {A : Type 0} (p q : A → Bool) (xs : List A)
    → All (λ x. p x ≡ q x) xs
    → select p xs ≡ select q xs
select-ext p q [] h = refl
select-ext p q (x ∷ xs) h = rw (h.0, select-ext p q xs h.1) refl

pub select-All :
    {A : Type 0} (p : A → Bool) (xs : List A) → All (λ x. p x ≡ true) xs → select p xs ≡ xs
select-All p [] h = refl
select-All p (x ∷ xs) h = rw (h.0, select-All p xs h.1) refl

abbrev pub drop : {A : Type 0} → ℕ → List A → List A
drop zero xs = xs
drop (suc n) [] = []
drop (suc n) (x ∷ xs) = drop n xs

pub length-take-drop :
    {A : Type 0} (n : ℕ) (xs : List A) → length (take n xs) + length (drop n xs) ≡ length xs
length-take-drop zero xs = ground arith
length-take-drop (suc n) [] = ground arith
length-take-drop (suc n) (x ∷ xs) = omega (arith, length-take-drop n xs)

pub length-take : {A : Type 0} (n : ℕ) (xs : List A) → length (take n xs) ≡ min n (length xs)
length-take zero xs = omega arith
length-take (suc n) [] = omega arith
length-take (suc n) (x ∷ xs) = omega (arith, length-take n xs)

pub is_empty-length : (ids : List ℕ) → is_empty ids ≡ true → length ids ≡ 0
is_empty-length [] h = refl
is_empty-length (i ∷ ids) h = cc

pub nonempty-length : (ids : List ℕ) → is_empty ids ≡ false → 0 < length ids
nonempty-length [] h = cc
nonempty-length (i ∷ ids) h = omega arith

pub length-map : {A B : Type 0} (f : A → B) (xs : List A) → length (map f xs) ≡ length xs
length-map f [] = refl
length-map f (x ∷ xs) = rw (length-map f xs) refl

pub All-both :
    {A : Type 0} (P Q : A → Type 0) (xs : List A) → All P xs → All Q xs → All (λ x. P x × Q x) xs
All-both P Q [] h k = tt
All-both P Q (x ∷ xs) h k = ((h.0, k.0), All-both P Q xs h.1 k.1)

pub All-keep :
    {A : Type 0} (P : A → Type 0) (p : A → Bool) (xs : List A) → All P xs → All P (select p xs)
All-keep P p xs h =
    All-imply (λ x. P x × (p x ≡ true)) P (select p xs) (λ x k. k.0) (All-select P p xs h)
