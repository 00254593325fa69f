-- ===== src/Tags/Named.antt =====
-- The old name of a renamed term, which stays among its aliases or has the slug of the new name.
use iceberg_cti.Tags.Terms.{
  dedupe, in_slug, join_runs, normalise_aliases, slugify, dedupe_from, Letters,
}
use iceberg_cti.Base.{
  sym, any_of, strip_idem, is_blank, str_eq_iff, strip, str_eq, [], ◌∷◌, refl, arith, inl, inr,
  true, false, nat_eq, string_eq, ◌≡◌, ◌⊎◌, ◌&&◌, ◌||◌, not, Bool, List, String, select, elem,
  Bool-cases,
}

-- An alias as it is kept: stripped, with the lower-case key.
abbrev is_kept : Letters → String → String → Bool
is_kept letters key b = str_eq (letters.lower b) key && str_eq (strip b) b

pub str_eq_refl : (s : String) → str_eq s s ≡ true
str_eq_refl s = (str_eq_iff s s).1 refl

strip-is_kept :
    (letters : Letters) (key a : String)
    → letters.lower (strip a) ≡ key
    → is_kept letters key (strip a) ≡ true
strip-is_kept letters key a same =
    rw (same, str_eq_refl key, strip_idem a, str_eq_refl (strip a)) refl

pub or_later : (a : Bool) {b : Bool} → b ≡ true → (a || b) ≡ true
or_later true h = refl
or_later false h = h

module _ (letters : Letters) (s : String) (text : is_blank (strip s) ≡ false) where
  abbrev key : String
  key = letters.lower (strip s)

  dedupe_from-keeps :
      (seen aliases : List String)
      → elem s aliases ≡ true
      → (elem key seen ≡ true)
        ⊎ (any_of (is_kept letters key) (dedupe_from letters seen aliases) ≡ true)
  unfolding dedupe_from
  dedupe_from-keeps seen [] there = cc
  dedupe_from-keeps seen (a ∷ aliases) there = elim (Bool-cases (str_eq s a)) [
    | inl hit ↦
        let same : s ≡ a = (str_eq_iff s a).0 hit in
        elim (Bool-cases (elem key seen)) [
          | inl before ↦ inl before
          | inr new ↦
              let new_a : elem (letters.lower (strip a)) seen ≡ false = rw (← same) new in
              let text_a : is_blank (strip a) ≡ false = rw (← same) text in
              let good = strip-is_kept letters key a (rw same refl) in
              inr (rw (dedupe_from, text_a, new_a, good) refl)
        ]
    | inr miss ↦
        let there_after : elem s aliases ≡ true = rw miss at there in
        elim (Bool-cases (not (is_blank (strip a)) && not (elem (letters.lower (strip a)) seen))) [
          | inl kept ↦
              elim (dedupe_from-keeps (letters.lower (strip a) ∷ seen) aliases there_after) [
                | inl before ↦ elim (Bool-cases (str_eq key (letters.lower (strip a)))) [
                  | inl same_key ↦
                      let good =
                        strip-is_kept letters key a
                          (sym ((str_eq_iff key (letters.lower (strip a))).0 same_key)) in
                      inr (rw (dedupe_from, kept, good) refl)
                  | inr other_key ↦ inl (rw other_key at before)
                ]
                | inr later ↦
                    inr (rw (dedupe_from, kept) (or_later (is_kept letters key (strip a)) later))
              ]
          | inr dropped ↦ elim (dedupe_from-keeps seen aliases there_after) [
            | inl before ↦ inl before
            | inr later ↦ inr (rw (dedupe_from, dropped) later)
          ]
        ]
  ]

  -- A kept alias has the slug, and the new label does not drop it when its key is another.
  select-answers :
      (label : String) (aliases : List String)
      → str_eq key (letters.lower (strip label)) ≡ false
      → any_of (is_kept letters key) aliases ≡ true
      → any_of
          (λ a. str_eq (slugify letters a) (slugify letters s))
          (select (λ a. not (str_eq (letters.lower a) (letters.lower (strip label)))) aliases)
        ≡ true
  unfolding slugify
  select-answers label [] other there = cc
  select-answers label (b ∷ aliases) other there = elim (Bool-cases (is_kept letters key b)) [
    | inl kept ↦
        let low : letters.lower b ≡ key =
          (str_eq_iff (letters.lower b) key).0 (ground (arith, kept)) in
        let clean : strip b ≡ b = (str_eq_iff (strip b) b).0 (ground (arith, kept)) in
        rw (low, other, slugify, clean, low, str_eq_refl (join_runs in_slug "-" false false key))
          refl
    | inr dropped ↦ elim (Bool-cases (str_eq (letters.lower b) (letters.lower (strip label)))) [
      | inl new ↦ rw new (select-answers label aliases other (rw dropped at there))
      | inr old ↦ rw old (
          or_later (str_eq (slugify letters b) (slugify letters s))
            (select-answers label aliases other (rw dropped at there)))
    ]
  ]

  -- The new slug, or an alias that the new label leaves, answers to the old name.
  pub normalise_aliases-answers :
      (label : String) (aliases : List String)
      → elem s aliases ≡ true
      → (slugify letters label ≡ slugify letters s)
        ⊎ (any_of
              (λ a. str_eq (slugify letters a) (slugify letters s))
              (normalise_aliases letters label aliases)
            ≡ true)
  unfolding slugify normalise_aliases dedupe
  normalise_aliases-answers label aliases there =
      elim (Bool-cases (str_eq key (letters.lower (strip label)))) [
        | inl same ↦
            let equal : key ≡ letters.lower (strip label) =
              (str_eq_iff key (letters.lower (strip label))).0 same in
            inl (rw (slugify, ← equal) refl)
        | inr other ↦ elim (dedupe_from-keeps [] aliases there) [
          | inl before ↦ cc
          | inr kept ↦ inr (select-answers label (dedupe_from letters [] aliases) other kept)
        ]
      ]
