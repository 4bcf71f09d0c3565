-- ===== src/Prelude/Strings.antt =====
-- Comparison of byte strings, and strings that end at a zero.
use mathlib.Core.Path.{◌≡◌, refl}
use mathlib.Core.Logic.{◌≢◌, inl, inr}
use mathlib.Core.Bool.{Bool, true, false, ◌&&◌}
use mathlib.Core.List.{[], ◌∷◌}
use native.Mathlib.Omega.{arith}
use pweb.Prelude.Tests.{if◌then◌else◌, ◌==◌, Bool-cases}
use pweb.Prelude.Lists.{Bytes}

abbrev pub same_bytes : Bytes → Bytes → Bool
same_bytes [] [] = true
same_bytes [] (c ∷ cs) = false
same_bytes (b ∷ bs) [] = false
same_bytes (b ∷ bs) (c ∷ cs) = b == c && same_bytes bs cs

pub same_bytes_sound : (s t : Bytes) → same_bytes s t ≡ true → s ≡ t
same_bytes_sound [] [] e = refl
same_bytes_sound [] (c ∷ cs) e = absurd (cc e)
same_bytes_sound (b ∷ bs) [] e = absurd (cc e)
same_bytes_sound (b ∷ bs) (c ∷ cs) e = elim (Bool-cases (b == c)) [
  | inl same ↦
      let head : b ≡ c = ground (arith, same) in
      let tail = same_bytes_sound bs cs (rw same at e) in rw (head, tail)
  | inr other ↦ absurd (cc (rw other at e))
]

pub same_bytes_refl : (s : Bytes) → same_bytes s s ≡ true
same_bytes_refl [] = refl
same_bytes_refl (b ∷ bs) =
    let same : (b == b) ≡ true = ground arith in rw (same, same_bytes_refl bs)

-- A C string in a buffer: what is in front of the first zero.
abbrev pub until_zero : Bytes → Bytes
until_zero [] = []
until_zero (c ∷ cs) = let rest = until_zero cs in if c == 0 then [] else c ∷ rest

abbrev pub NoZero : Bytes → Type 0
NoZero [] = Unit {0}
NoZero (c ∷ cs) = (c ≢ 0) × NoZero cs

pub until_zero-NoZero : (s : Bytes) → NoZero s → until_zero s ≡ s
until_zero-NoZero [] w = refl
until_zero-NoZero (c ∷ cs) w =
    let more : (c == 0) ≡ false = ground (arith, w.0) in rw (more, until_zero-NoZero cs w.1)
