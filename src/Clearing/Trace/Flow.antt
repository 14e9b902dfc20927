-- ===== src/Clearing/Trace/Flow.antt =====
-- The signed sums of `traceBucketSwap`, where each delta has one side.
use quetzaldex.Prelude.{
  ℕ, ◌+◌, ◌≡◌, refl, Bool, true, false, List, [], ◌∷◌, if◌then◌else◌, All, sum_by,
}
use quetzaldex.Prelude.Int.{ℤ, pos, sub_ℕ, ◌+ℤ◌, ◌-ℤ◌, int_laws}
use quetzaldex.Clearing.Types.{BucketDelta}
use quetzaldex.Clearing.Trace.{agg_a, agg_b}
use quetzaldex.Clearing.Trace.Account.{added, OneSided}

-- The output of a delta, on the other side of the walk.
abbrev pub paid : Bool → BucketDelta → ℕ
paid up d = if up then d.reserve_a_sub else d.reserve_b_sub

abbrev pub reserve_in : Bool → ℤ × ℤ → ℤ
reserve_in up (a, b) = if up then b else a

abbrev pub reserve_out : Bool → ℤ × ℤ → ℤ
reserve_out up (a, b) = if up then a else b

-- The sums of signed flows, where each delta has one side.
neg_add : (x y : ℕ) → sub_ℕ 0 x +ℤ (pos 0 -ℤ pos y) ≡ pos 0 -ℤ pos (x + y)
neg_add x y = grind int_laws

pos_add : (x y : ℕ) → sub_ℕ x 0 +ℤ pos y ≡ pos (x + y)
pos_add x y = grind int_laws

agg_a_up :
    (ds : List BucketDelta)
    → All (OneSided true) ds
    → agg_a ds ≡ pos 0 -ℤ pos (sum_by (paid true) ds)
unfolding agg_a
agg_a_up [] h = omega int_laws
agg_a_up (d ∷ ds) h = rw (agg_a_up ds h.1, h.0.0) (neg_add d.reserve_a_sub _)

agg_b_up :
    (ds : List BucketDelta) → All (OneSided true) ds → agg_b ds ≡ pos (sum_by (added true) ds)
unfolding agg_b
agg_b_up [] h = refl
agg_b_up (d ∷ ds) h = rw (agg_b_up ds h.1, h.0.1) (pos_add d.reserve_b_add _)

agg_b_down :
    (ds : List BucketDelta)
    → All (OneSided false) ds
    → agg_b ds ≡ pos 0 -ℤ pos (sum_by (paid false) ds)
unfolding agg_b
agg_b_down [] h = omega int_laws
agg_b_down (d ∷ ds) h = rw (agg_b_down ds h.1, h.0.0) (neg_add d.reserve_b_sub _)

agg_a_down :
    (ds : List BucketDelta) → All (OneSided false) ds → agg_a ds ≡ pos (sum_by (added false) ds)
unfolding agg_a
agg_a_down [] h = refl
agg_a_down (d ∷ ds) h = rw (agg_a_down ds h.1, h.0.1) (pos_add d.reserve_a_add _)

pub agg_in :
    (up : Bool) (ds : List BucketDelta)
    → All (OneSided up) ds
    → reserve_in up (agg_a ds, agg_b ds) ≡ pos (sum_by (added up) ds)
agg_in true ds h = agg_b_up ds h
agg_in false ds h = agg_a_down ds h

pub agg_out :
    (up : Bool) (ds : List BucketDelta)
    → All (OneSided up) ds
    → reserve_out up (agg_a ds, agg_b ds) ≡ pos 0 -ℤ pos (sum_by (paid up) ds)
agg_out true ds h = agg_a_up ds h
agg_out false ds h = agg_b_down ds h
