-- ===== src/Base/Stripped.antt =====
-- Stripping a text twice.
use mathlib.Core.Path.{◌≡◌, refl}
use Prim.Native.Char.{Char}
use Prim.Native.String.{String}
use mathlib.Core.Logic.{inl, inr}
use mathlib.Core.Bool.{◌&&◌}
use iceberg_cti.Base.Tests.{Bool-cases}
use iceberg_cti.Base.Text.{is_space, is_blank, lstrip, rstrip, strip}

rstrip_idem : (s : String) → rstrip (rstrip s) ≡ rstrip s
rstrip_idem String.[] = refl
rstrip_idem (String.◌∷◌ c s) = elim (Bool-cases (is_space c && is_blank (rstrip s))) [
  | inl gone ↦ rw gone refl
  | inr stays ↦ rw (stays, rstrip_idem s, stays) refl
]

lstrip_idem : (s : String) → lstrip (lstrip s) ≡ lstrip s
lstrip_idem String.[] = refl
lstrip_idem (String.◌∷◌ c s) = elim (Bool-cases (is_space c)) [
  | inl gone ↦ rw gone (lstrip_idem s)
  | inr stays ↦ rw (stays, stays) refl
]

rstrip-tail : (c : Char) (s : String) → rstrip (String.◌∷◌ c s) ≡ String.◌∷◌ c s → rstrip s ≡ s
rstrip-tail c s h = elim (Bool-cases (is_space c && is_blank (rstrip s))) [
  | inl gone ↦ let k = rw gone at h in cc
  | inr stays ↦ let k = rw stays at h in cc
]

rstrip-lstrip : (s : String) → rstrip s ≡ s → rstrip (lstrip s) ≡ lstrip s
rstrip-lstrip String.[] h = refl
rstrip-lstrip (String.◌∷◌ c s) h = elim (Bool-cases (is_space c)) [
  | inl gone ↦ rw gone (rstrip-lstrip s (rstrip-tail c s h))
  | inr stays ↦ rw stays h
]

pub strip_idem : (s : String) → strip (strip s) ≡ strip s
strip_idem s = rw (rstrip-lstrip (rstrip s) (rstrip_idem s), lstrip_idem (rstrip s)) refl
