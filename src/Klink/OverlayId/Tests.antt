-- ===== src/Klink/OverlayId/Tests.antt =====
-- Runs of prefix matching on short identifiers.
use pweb.Prelude.{ℕ, ◌≡◌, refl, arith}
use pweb.Klink.OverlayId.{OverlayId, get_overlay_id}
use pweb.Klink.OverlayId.Prefix.{
  get_bit_at_position, first_difference, get_matched_prefix_length, IsCommonPrefix,
  get_matched_prefix_length-IsCommonPrefix,
}

abbrev bits : ℕ → OverlayId
bits n = record { overlay_id = n; prefix_length = 4; max_length = 4 }

matched : get_matched_prefix_length (bits 12) (bits 14) ≡ 2
unfolding get_matched_prefix_length first_difference get_bit_at_position get_overlay_id
matched = refl

matched_itself : get_matched_prefix_length (bits 12) (bits 12) ≡ 3
unfolding get_matched_prefix_length first_difference get_bit_at_position get_overlay_id
matched_itself = refl

get_matched_prefix_length-IsCommonPrefix_example :
    IsCommonPrefix (bits 12) (bits 14) (get_matched_prefix_length (bits 12) (bits 14))
get_matched_prefix_length-IsCommonPrefix_example =
    get_matched_prefix_length-IsCommonPrefix (bits 12) (bits 14) (omega arith) (omega arith)
