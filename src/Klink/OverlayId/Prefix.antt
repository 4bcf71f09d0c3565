-- ===== src/Klink/OverlayId/Prefix.antt =====
-- Bits and common prefixes of identifiers, dnsgw_test_ha/klink/plnode/ds/overlay_id.h.
use pweb.Prelude.{
  ℕ, zero, suc, ◌+◌, ◌-◌, ◌/◌, ◌%◌, ◌^◌, ◌<◌, ◌≤◌, ◌≡◌, ◌≢◌, inl, inr, ◌==◌, ltb, if◌then◌else◌,
  false, Bool-cases, arith,
}
use pweb.Klink.OverlayId.{OverlayId, get_overlay_id}

-- Bit `n` of the identifier as an `int`, for `n` below 32.
unfoldable pub get_bit_at_position : OverlayId → ℕ → ℕ
get_bit_at_position o n = get_overlay_id o / 2 ^ n % 2

-- The loop, from `position` down: it stops at a position whose bits differ, or at 0.
unfoldable pub first_difference : OverlayId → OverlayId → ℕ → ℕ
first_difference o o' zero = zero
first_difference o o' (suc position) =
    let rest = first_difference o o' position in
    if get_bit_at_position o (suc position) == get_bit_at_position o' (suc position)
    then rest
    else suc position

-- `MAX_LENGTH` is that of the object, an `int`: the 32 bits that are read from a message stand for
-- a negative number from 2 ^ 31 on. Where it is negative or 0 the loop makes no round. The source
-- shifts an `int` by the position, which C++ defines for positions below 32 only: the model is that
-- of the source where `MAX_LENGTH` is at most 32 or negative.
unfoldable pub get_matched_prefix_length : OverlayId → OverlayId → ℕ
get_matched_prefix_length o o' =
    if ltb 2147483647 o.max_length
    then 0
    else o.max_length - first_difference o o' (o.max_length - 1) - 1

-- `length` bits from the highest position down are common, and the next one differs unless it is
-- the lowest, which is never looked at.
pub record IsCommonPrefix (o o' : OverlayId) (length : ℕ) : Type 0 where
  pub within : length < o.max_length
  pub common :
      (i : ℕ)
      → o.max_length - length ≤ i
      → i < o.max_length
      → get_bit_at_position o i ≡ get_bit_at_position o' i
  pub longest :
      length + 1 < o.max_length
      → get_bit_at_position o (o.max_length - length - 1)
        ≢ get_bit_at_position o' (o.max_length - length - 1)

record Stops (o o' : OverlayId) (start position : ℕ) : Type 0 where
  pub below : position ≤ start
  pub common :
      (i : ℕ) → position < i → i ≤ start → get_bit_at_position o i ≡ get_bit_at_position o' i
  pub differs : 0 < position → get_bit_at_position o position ≢ get_bit_at_position o' position

first_difference-Stops :
    (o o' : OverlayId) (start : ℕ) → Stops o o' start (first_difference o o' start)
unfolding first_difference
first_difference-Stops o o' zero = record {
  below = omega arith;
  common = λ i h k. absurd (omega arith);
  differs = λ h. absurd (omega arith);
}
first_difference-Stops o o' (suc start) =
    let rest = first_difference-Stops o o' start in
    elim (Bool-cases (get_bit_at_position o (suc start) == get_bit_at_position o' (suc start))) [
      | inl same ↦ rw same (record {
        below = omega (arith, rest.below);
        common = λ i h k. elim (Bool-cases (i == suc start)) [
          | inl last ↦ let e : i ≡ suc start = ground (arith, last) in rw e (ground (arith, same))
          | inr before ↦ rest.common i h (ground (arith, before, k))
        ];
        differs = rest.differs;
      })
      | inr other ↦ rw other (record {
        below = omega arith;
        common = λ i h k. absurd (omega arith);
        differs = λ h. ground (arith, other);
      })
    ]

-- For an identifier with at least one bit and at most 32, the length that is returned is that of the longest
-- common prefix as far as the loop looks: the lowest bit is never compared, so that the length is
-- below the number of bits.
pub get_matched_prefix_length-IsCommonPrefix :
    (o o' : OverlayId)
    → 0 < o.max_length
    → o.max_length ≤ 32
    → IsCommonPrefix o o' (get_matched_prefix_length o o')
unfolding get_matched_prefix_length
get_matched_prefix_length-IsCommonPrefix o o' h small =
    let int : ltb 2147483647 o.max_length ≡ false = ground (arith, small) in
    let stops = first_difference-Stops o o' (o.max_length - 1) in
    let back : o.max_length - (o.max_length - first_difference o o' (o.max_length - 1) - 1) - 1
        ≡ first_difference o o' (o.max_length - 1) =
      omega (arith, stops.below) in
    rw int (record {
      within = omega (arith, stops.below);
      common = λ i k l. stops.common i (omega (arith, stops.below)) (omega arith);
      longest = λ k. rw back (stops.differs (omega (arith, stops.below)));
    })
