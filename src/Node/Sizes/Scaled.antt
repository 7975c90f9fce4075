-- ===== src/Node/Sizes/Scaled.antt =====
-- The unit of a size, and its letter.
use edge_grid.Prelude.{ℕ, ◌+◌, ◌*◌, ◌^◌, ◌≤◌, ◌<◌, ◌≡◌, arith}
use edge_grid.Node.Sizes.{scale, scale_loop}

-- A size from 1024 on, below 2 ^ 64, is shown in the one unit of 1024 to a power in which it is at least
-- 1 and below 1024, and the index of the unit's letter is at most 5.
pub scale_bounds :
    (n : ℕ)
    → 1024 ≤ n
    → n < 2 ^ 64
    → ((scale n).1 ≤ 5)
      × ((scale n).0 ≡ 1024 ^ ((scale n).1 + 1))
      × ((scale n).0 ≤ n)
      × (n < 1024 * (scale n).0)
unfolding scale scale_loop
scale_bounds n low high = ground arith
