-- ===== src/Base/Search.antt =====
-- Searching a text: Python's `startswith`, `count` and `replace` on `str`.
use Prim.Native.Nat.{ℕ, zero, suc, ◌+◌, ◌-◌}
use Prim.Native.Char.{Char, code}
use Prim.Native.String.{String}
use mathlib.Core.Path.{◌≡◌, refl}
use mathlib.Core.Logic.{inl, inr}
use mathlib.Core.Bool.{Bool, true, false, ◌&&◌}
use text.Mathlib.TextEquality.{Char-path}
use mathlib.Core.Path.{ap, sym}
use mathlib.Core.Logic.{◌≢◌}
use native.Mathlib.Omega.{arith}
use iceberg_cti.Base.Tests.{◌==◌, ==_iff, if◌then◌else◌, Bool-cases}
use iceberg_cti.Base.Text.{is_blank, join}

-- `len(s)`
abbrev pub text_length : String → ℕ
text_length String.[] = 0
text_length (String.◌∷◌ c s) = suc (text_length s)

-- `s[n:]`
abbrev pub text_drop : ℕ → String → String
text_drop zero s = s
text_drop (suc n) String.[] = String.[]
text_drop (suc n) (String.◌∷◌ c s) = text_drop n s

-- `c == d`, of two characters
abbrev pub char_eq : Char → Char → Bool
char_eq c d = code c == code d

-- `s.startswith(sub)`
abbrev pub starts : String → String → Bool
starts String.[] s = true
starts (String.◌∷◌ a sub) String.[] = false
starts (String.◌∷◌ a sub) (String.◌∷◌ c s) = char_eq a c && starts sub s

-- The occurrences of a text that is not empty, of which no two overlap; `skip` characters belong to the
-- one found last.
pub count_from : ℕ → String → String → ℕ
count_from skip sub String.[] = 0
count_from (suc skip) sub (String.◌∷◌ c s) = count_from skip sub s
count_from zero sub (String.◌∷◌ c s) =
    let hit = suc (count_from (text_length sub - 1) sub s) in
    let miss = count_from zero sub s in if starts sub (String.◌∷◌ c s) then hit else miss

-- `s.count(sub)`
unfoldable pub count : String → String → ℕ
unfolding count_from
count sub s = if is_blank sub then text_length s + 1 else count_from zero sub s

-- `s.replace(old, new, 1)`
unfoldable pub replace_first : String → String → String → String
replace_first old new String.[] = if is_blank old then new else String.[]
replace_first old new (String.◌∷◌ c s) =
    if starts old (String.◌∷◌ c s)
    then join new (text_drop (text_length old) (String.◌∷◌ c s))
    else String.◌∷◌ c (replace_first old new s)

pub char_eq→eq : (c d : Char) → char_eq c d ≡ true → c ≡ d
char_eq→eq c d h = Char-path c d ((==_iff (code c) (code d)).0 h)

pub starts-join :
    (sub s : String) → starts sub s ≡ true → s ≡ join sub (text_drop (text_length sub) s)
starts-join String.[] s h = refl
starts-join (String.◌∷◌ a sub) String.[] h = cc
starts-join (String.◌∷◌ a sub) (String.◌∷◌ c s) h =
    let same = char_eq→eq a c (ground arith) in let rest = starts-join sub s (ground arith) in cc

-- One text is the other with a passage replaced, at one place.
pub record IsEdit (passage replacement old new : String) : Type 0 where
  pub before : String
  pub after : String
  pub was : old ≡ join before (join passage after)
  pub now : new ≡ join before (join replacement after)

-- Where a text that is not empty is counted at all, replacing its first occurrence edits one place.
pub replace_first-IsEdit :
    (passage replacement text : String)
    → is_blank passage ≡ false
    → count passage text ≢ 0
    → IsEdit passage replacement text (replace_first passage replacement text)
unfolding count count_from replace_first
replace_first-IsEdit passage replacement String.[] full found = absurd (found (rw full refl))
replace_first-IsEdit passage replacement (String.◌∷◌ c s) full found =
    elim (Bool-cases (starts passage (String.◌∷◌ c s))) [
      | inl here ↦ record {
        before = "";
        after = text_drop (text_length passage) (String.◌∷◌ c s);
        was = starts-join passage (String.◌∷◌ c s) here;
        now = rw here refl;
      }
      | inr later ↦
          let rest =
            replace_first-IsEdit passage replacement s full
              (λ e. found (rw full (rw later (rw full at e)))) in
          record {
            before = String.◌∷◌ c rest.before;
            after = rest.after;
            was = ap (String.◌∷◌ c) rest.was;
            now = rw later (ap (String.◌∷◌ c) rest.now);
          }
    ]

join-nil : (s : String) → join s "" ≡ s
join-nil String.[] = refl
join-nil (String.◌∷◌ c s) = ap (String.◌∷◌ c) (join-nil s)

replace_blank-IsEdit :
    (passage replacement text : String)
    → is_blank passage ≡ true
    → count passage text ≡ 1
    → IsEdit passage replacement text (replace_first passage replacement text)
unfolding count replace_first
replace_blank-IsEdit String.[] replacement String.[] blank once = record {
  before = "";
  after = "";
  was = refl;
  now = sym (join-nil replacement);
}
replace_blank-IsEdit String.[] replacement (String.◌∷◌ c s) blank once = absurd (omega arith)
replace_blank-IsEdit (String.◌∷◌ a p) replacement text blank once = cc

-- A text that is counted exactly once is replaced at that place, be it empty or not.
pub replace_one-IsEdit :
    (passage replacement text : String)
    → count passage text ≡ 1
    → IsEdit passage replacement text (replace_first passage replacement text)
replace_one-IsEdit passage replacement text once = elim (Bool-cases (is_blank passage)) [
  | inr full ↦ replace_first-IsEdit passage replacement text full (λ e. cc)
  | inl blank ↦ replace_blank-IsEdit passage replacement text blank once
]
