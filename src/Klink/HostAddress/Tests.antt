-- ===== src/Klink/HostAddress/Tests.antt =====
-- Two addresses.
use pweb.Prelude.{◌≡◌, refl, true, [], ◌∷◌}
use pweb.Klink.OverlayId.{HostAddress}
use pweb.Klink.HostAddress.{less, less_both_ways}

abbrev ada : HostAddress
ada = record { host_name = b'a' ∷ []; host_port = 81 }

abbrev bob : HostAddress
bob = record { host_name = b'b' ∷ b'b' ∷ []; host_port = 80 }

less_both_ways_example : (less ada bob ≡ true) × (less bob ada ≡ true)
less_both_ways_example = less_both_ways ada bob refl refl
