-- ===== src/Klink/LookupTable/Tests.antt =====
-- Runs of the table on numbers.
use pweb.Prelude.{ℕ, ◌≡◌, refl, false, [], ◌∷◌, arith}
use pweb.Klink.LookupTable.{Table, insert, find, add}
use pweb.Klink.LookupTable.Laws.{IsOrdered}

abbrev itself : ℕ → ℕ
itself n = n

abbrev two : Table ℕ ℕ
two = (3, 30) ∷ (7, 70) ∷ []

two-IsOrdered : IsOrdered itself two
two-IsOrdered = (omega arith, tt)

add_five : add itself 5 50 two ≡ ((3, 30) ∷ (5, 50) ∷ (7, 70) ∷ [], false)
unfolding add insert find
add_five = refl
