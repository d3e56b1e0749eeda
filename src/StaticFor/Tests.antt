-- ===== src/StaticFor/Tests.antt =====
-- The loops of include/static_for.hpp with bodies that add up the indices.
use sallocator.Base.{ℕ, ◌+◌, ◌-◌, ◌≡◌, refl, Bool, ◌==◌}
use sallocator.StaticFor.{static_for, static_for_break, static_for_n}
use sallocator.StaticFor.Loops.{Stops, static_for_n-static_for, static_for_break-Stops}

abbrev add_up : ℕ → ℕ → ℕ
add_up i sum = sum + i

-- Breaks at the index 3.
abbrev add_up_to_three : ℕ → ℕ → ℕ × Bool
add_up_to_three i sum = (sum + i, i == 3)

sum_below_five : static_for_n 5 add_up 0 ≡ 10
unfolding static_for_n
sum_below_five = refl

sum_to_three : static_for_break 0 5 add_up_to_three 0 ≡ 6
unfolding static_for_break
sum_to_three = refl

static_for_n-static_for_example : static_for_n 5 add_up 0 ≡ static_for 0 5 add_up 0
static_for_n-static_for_example = static_for_n-static_for 5 add_up 0

static_for_break-Stops_example :
    Stops (5 - 1) 1 add_up_to_three 0 (static_for_break 1 5 add_up_to_three 0)
static_for_break-Stops_example = static_for_break-Stops 1 5 add_up_to_three 0
