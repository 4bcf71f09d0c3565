-- ===== src/Prelude/Stream.antt =====
-- Messages taken from a stream one after the other, until one says to stop.
use Prim.Native.Nat.{ℕ, zero, suc, ◌<◌, ◌≤◌}
use mathlib.Core.Path.{◌≡◌, refl}
use mathlib.Core.Logic.{◌⊎◌, inl, inr}
use mathlib.Core.Option.{Option, none, some}
use mathlib.Core.List.{List, [], ◌∷◌}
use native.Mathlib.Omega.{arith}
use pweb.Prelude.Lists.{Bytes, length}

-- A message with what is left of the stream, or the reason of the end.
pub data Event (A E : Type 0) : Type 0 where
  gives : A → Bytes → Event A E
  stops : E → Event A E

pub Event-cases :
    {A E : Type 0} (e : Event A E)
    → ((a : A) × (rest : Bytes) × (e ≡ gives a rest)) ⊎ ((r : E) × (e ≡ stops r))
Event-cases (gives a rest) = inl (a, rest, refl)
Event-cases (stops r) = inr (r, refl)

module _ {A E : Type 0} (next : Bytes → Event A E) where
  -- In at most so many rounds; there is no reason when they do not suffice.
  unfoldable pub take_within : ℕ → Bytes → List A × Option E
  take_within zero stream = ([], none)
  take_within (suc rounds) stream = elim (next stream) [
    | stops e ↦ ([], some e)
    | gives a rest ↦ let (items, e) = take_within rounds rest in (a ∷ items, e)
  ]

  unfoldable pub take_all : Bytes → List A × Option E
  take_all stream = take_within (suc (length stream)) stream

  -- Every message takes bytes from the stream.
  abbrev pub Shrinks : Type 0
  Shrinks =
      (stream : Bytes) (a : A) (rest : Bytes)
      → next stream ≡ gives a rest
      → length rest < length stream

  pub take_all-stops :
      (stream : Bytes) (e : E) → next stream ≡ stops e → take_all stream ≡ ([], some e)
  unfolding take_all take_within
  take_all-stops stream e h = rw (h, take_within)

  -- More rounds than there are bytes make no difference, and do not run out.
  take_within-same :
      (rounds more : ℕ) (stream : Bytes)
      → Shrinks
      → length stream < rounds
      → rounds ≤ more
      → take_within rounds stream ≡ take_within more stream
  unfolding take_within
  take_within-same zero more stream w h k = absurd (omega (arith, h))
  take_within-same (suc rounds) zero stream w h k = absurd (omega (arith, k))
  take_within-same (suc rounds) (suc more) stream w h k = elim (Event-cases (next stream)) [
    | inr (c, e) ↦ rw (e, take_within)
    | inl (q, rest, e) ↦
        let shorter = w stream q rest e in
        let same =
          take_within-same rounds more rest w (omega (arith, shorter, h)) (omega (arith, k)) in
        rw (e, take_within) (rw same)
  ]

  pub take_all-gives :
      (stream : Bytes) (a : A) (rest : Bytes)
      → Shrinks
      → next stream ≡ gives a rest
      → take_all stream ≡ (a ∷ (take_all rest).0, (take_all rest).1)
  unfolding take_all take_within
  take_all-gives stream a rest w e =
      let shorter = w stream a rest e in
      let same =
        take_within-same (suc (length rest)) (length stream) rest w (omega arith) shorter in
      rw (e, take_within) (rw (← same))

  take_within-ends :
      (rounds : ℕ) (stream : Bytes)
      → Shrinks
      → length stream < rounds
      → (r : E) × ((take_within rounds stream).1 ≡ some r)
  unfolding take_within
  take_within-ends zero stream w h = absurd (omega (arith, h))
  take_within-ends (suc rounds) stream w h = elim (Event-cases (next stream)) [
    | inr (c, e) ↦ (c, rw (e, take_within))
    | inl (q, rest, e) ↦
        let shorter = w stream q rest e in
        let (c, ends) = take_within-ends rounds rest w (omega (arith, shorter, h)) in
        (c, rw (e, take_within) ends)
  ]

  -- The rounds suffice.
  pub take_all-ends : (stream : Bytes) → Shrinks → (r : E) × ((take_all stream).1 ≡ some r)
  unfolding take_all
  take_all-ends stream w = take_within-ends (suc (length stream)) stream w (omega arith)
