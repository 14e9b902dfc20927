-- ===== src/Clearing/NetSwap/Outcome.antt =====
-- The outcome of `bucketNetSwap`: what a swap that returns does to the reserves, when it saturates,
-- and what it throws.
use quetzaldex.Prelude.{
  ℕ, suc, zero, ◌*◌, ◌/◌, ◌<◌, ◌≡◌, ◌⊎◌, if◌then◌else◌, refl, sym, ap, subst, ◌∙◌, true, ltb, arith,
  inl, inr, sum_by,
}
use quetzaldex.Prelude.Int.{ℤ, pos, negsuc, ◌+ℤ◌, ◌-ℤ◌, int_laws}
use quetzaldex.Prelude.Result.{Result, ok, err, Error, Result-cases}
use quetzaldex.FixedPoint.{scale}
use quetzaldex.Clearing.Types.{PoolWithBuckets, NetSwap}
use quetzaldex.Clearing.Trace.{trace_bucket_swap, after_fee}
use quetzaldex.Clearing.Trace.Routed.{trace_bucket_swap-zero, Routed, trace_bucket_swap-Routed}
use quetzaldex.Clearing.NetSwap.{bucket_net_swap, bucket_a_in, bucket_b_in}
use quetzaldex.Clearing.NetSwap.Errors.{Fatal, catch_throws, bucket_a_in-fails, bucket_b_in-fails}
use quetzaldex.Clearing.NetSwap.Flows.{SwapsA, SwapsB, Still, Moves, bucket_net_swap-Moves}

-- Each reserve grows by what comes in after the pool's fee and shrinks by what goes out.
abbrev pub Accounted : PoolWithBuckets → NetSwap → Type 0
Accounted pool s =
    (s.new_reserve_a +ℤ pos s.amm_a_out ≡ pool.reserve_a +ℤ pos (after_fee s.amm_a_in))
    × (s.new_reserve_b +ℤ pos s.amm_b_out ≡ pool.reserve_b +ℤ pos (after_fee s.amm_b_in))

-- A throw is the trace's, and not for want of room; or the price of a deficit is zero.
abbrev pub Throws : PoolWithBuckets → ℤ → ℕ → Error → Type 0
Throws pool (pos zero) p e = ⊥
Throws pool (pos (suc n)) p e = (trace_bucket_swap pool (suc n) 0 ≡ err e) × Fatal e
Throws pool (negsuc n) p e =
    (p ≡ 0) × (e ≡ Error.mul_div_zero)
    ⊎ (0 < p) × (trace_bucket_swap pool 0 (suc n * scale / p) ≡ err e) × Fatal e

abbrev pub Outcome : PoolWithBuckets → ℤ → ℕ → Result NetSwap → Type 0
Outcome pool net p (ok s) = Moves pool net p s × Accounted pool s
Outcome pool net p (err e) = Throws pool net p e

after_fee_zero : after_fee 0 ≡ 0
unfolding after_fee
after_fee_zero = omega arith

-- One reserve, which grows or which shrinks.
grown : (x y : ℤ) (i : ℕ) → x ≡ y +ℤ pos i → x +ℤ pos 0 ≡ y +ℤ pos i
grown x y i h = grind int_laws

shrunk : (x y : ℤ) (o : ℕ) → x ≡ y -ℤ pos o → x +ℤ pos o ≡ y +ℤ pos (after_fee 0)
shrunk x y o h = rw after_fee_zero (grind int_laws)

SwapsA-Accounted :
    (pool : PoolWithBuckets) (n : ℕ) (s : NetSwap) → SwapsA pool (suc n) s → Accounted pool s
SwapsA-Accounted pool n s m =
    let r = trace_bucket_swap-Routed pool (suc n) 0 m.traced in
    (
      rw (m.no_a_out, m.a_in)
          (grown s.new_reserve_a pool.reserve_a (after_fee (suc n)) (m.reserve_a ∙ r.paid_in)),
      rw m.no_b_in (
          shrunk s.new_reserve_b pool.reserve_b s.amm_b_out
            (m.reserve_b ∙ r.paid_out ∙ ap (λ o. pool.reserve_b -ℤ pos o) (sym m.b_out))),
    )

SwapsB-Accounted :
    (pool : PoolWithBuckets) (n p i : ℕ) (s : NetSwap)
    → s.amm_b_in ≡ i
    → SwapsB pool n p s
    → Accounted pool s
SwapsB-Accounted pool n p zero s e m =
    let traced : trace_bucket_swap pool 0 0 ≡ ok m.trace =
      subst (λ b. trace_bucket_swap pool 0 b ≡ ok m.trace) e m.traced in
    let r = trace_bucket_swap-Routed pool 0 0 traced in
    let untouched = trace_bucket_swap-zero pool traced in
    let none_out : s.amm_a_out ≡ 0 = m.a_out ∙ ap (sum_by (λ d. d.reserve_a_sub)) untouched in
    let none_paid : sum_by (λ d. d.reserve_b_sub) m.trace.bucket_deltas ≡ 0 =
      ap (sum_by (λ d. d.reserve_b_sub)) untouched in
    (
      rw (none_out, m.no_a_in)
          (grown s.new_reserve_a pool.reserve_a (after_fee 0) (m.reserve_a ∙ r.paid_in)),
      rw (m.no_b_out, e)
          (shrunk s.new_reserve_b pool.reserve_b 0
            (m.reserve_b ∙ r.paid_out ∙ ap (λ o. pool.reserve_b -ℤ pos o) none_paid)),
    )
SwapsB-Accounted pool n p (suc i) s e m =
    let traced : trace_bucket_swap pool 0 (suc i) ≡ ok m.trace =
      subst (λ b. trace_bucket_swap pool 0 b ≡ ok m.trace) e m.traced in
    let up : ltb 0 (suc i) ≡ true = ground arith in
    let r : Routed pool true (suc i) m.trace =
      subst (λ b. Routed pool b (if b then suc i else 0) m.trace) up
        (trace_bucket_swap-Routed pool 0 (suc i) traced) in
    (
      rw m.no_a_in (
          shrunk s.new_reserve_a pool.reserve_a s.amm_a_out
            (m.reserve_a ∙ (r.paid_out) ∙ ap (λ o. pool.reserve_a -ℤ pos o) (sym m.a_out))),
      rw (m.no_b_out, e)
          (grown s.new_reserve_b pool.reserve_b (after_fee (suc i)) (m.reserve_b ∙ r.paid_in)),
    )

Still-Accounted : (pool : PoolWithBuckets) (s : NetSwap) → Still pool s → Accounted pool s
Still-Accounted pool s m = (
  rw (m.no_a_out, m.no_a_in, after_fee_zero, m.reserve_a) refl,
  rw (m.no_b_out, m.no_b_in, after_fee_zero, m.reserve_b) refl,
)

Moves-Accounted :
    (pool : PoolWithBuckets) (net : ℤ) (p : ℕ) (s : NetSwap) → Moves pool net p s → Accounted pool s
Moves-Accounted pool (pos zero) p s m = Still-Accounted pool s m.1
Moves-Accounted pool (pos (suc n)) p s (inl m) = SwapsA-Accounted pool n s m
Moves-Accounted pool (pos (suc n)) p s (inr m) = Still-Accounted pool s m.1
Moves-Accounted pool (negsuc n) p s (q, inl m) = SwapsB-Accounted pool (suc n) p s.amm_b_in s refl m
Moves-Accounted pool (negsuc n) p s (q, inr m) = Still-Accounted pool s m.1

bucket_net_swap-Throws :
    (pool : PoolWithBuckets) (net : ℤ) (p : ℕ) {e : Error}
    → bucket_net_swap pool net p ≡ err e
    → Throws pool net p e
unfolding bucket_net_swap
bucket_net_swap-Throws pool (pos zero) p h = cc
bucket_net_swap-Throws pool (pos (suc n)) p h =
    let (failed, fatal) = catch_throws pool (bucket_a_in pool (suc n)) h in
    (bucket_a_in-fails pool (suc n) failed, fatal)
bucket_net_swap-Throws pool (negsuc n) p h =
    let (failed, fatal) = catch_throws pool (bucket_b_in pool (suc n) p) h in
    elim (bucket_b_in-fails pool (suc n) p failed) [
      | inl z ↦ inl z
      | inr (q, f) ↦ inr (q, f, fatal)
    ]

-- A net swap that returns changes each reserve by just what comes in of the token after the
-- pool's fee and what goes out. For a net flow of zero it neither moves anything nor saturates.
-- For another it moves it by the trace of the whole of it, which is token A or, at a price that
-- is not zero, the deficit valued in token B, and pays what the trace's buckets give up of the
-- other token; or it is saturated and moves nothing, and then the trace throws for want of room,
-- by exceeding all buckets or touching too many. A net swap that throws throws the error of that
-- trace, neither of those two, or divides a deficit by a price of zero.
pub bucket_net_swap-Outcome :
    (pool : PoolWithBuckets) (net : ℤ) (p : ℕ) → Outcome pool net p (bucket_net_swap pool net p)
bucket_net_swap-Outcome pool net p = elim (Result-cases (bucket_net_swap pool net p)) [
  | inl (s, e) ↦
      let moves = bucket_net_swap-Moves pool net p e in
      rw e (moves, Moves-Accounted pool net p s moves)
  | inr (f, e) ↦ rw e (bucket_net_swap-Throws pool net p e)
]
