-- ===== src/Buckets/Swap.antt =====
-- How the price moves in one swap step, and what is paid out.
use quetzaldex.Prelude.{ℕ, ◌+◌, ◌*◌, ◌/◌, ◌≤◌, ◌<◌, ◌≡◌, arith}
use quetzaldex.Prelude.Result.{ok, >>=-eq-ok}
use quetzaldex.Prelude.Nats.{scale_le}
use quetzaldex.FixedPoint.{scale, div}
use quetzaldex.FixedPoint.Laws.{div-ok}
use quetzaldex.Buckets.{next_sqrt_p_up, next_sqrt_p_down}

pub next_sqrt_p_up-ok :
    (l p d : ℕ) {q : ℕ} → next_sqrt_p_up l p d ≡ ok q → (0 < l) × (q ≡ p + d * scale / l)
unfolding next_sqrt_p_up
next_sqrt_p_up-ok l p d h =
    let (x, e, f) = >>=-eq-ok (div (d * scale) l) _ h in ground (arith, div-ok (d * scale) l e)

pub next_sqrt_p_down-le : (l p d : ℕ) {q : ℕ} → next_sqrt_p_down l p d ≡ ok q → q ≤ p
unfolding next_sqrt_p_down
next_sqrt_p_down-le l p d h = ground (arith, div-ok _ _ h, scale_le p l (l + d * p / scale))
