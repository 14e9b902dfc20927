-- ===== src/Clearing/Trace/Deltas.antt =====
-- The map of deltas, as long as each bucket is new to it.
use quetzaldex.Prelude.{
  ℕ, zero, suc, ◌<◌, ◌≡◌, refl, ◌≢◌, Bool, true, false, List, [], ◌∷◌, ◌++◌, none, some, arith, All,
  All-map,
}
use quetzaldex.Clearing.Types.{BucketDelta}
use quetzaldex.Clearing.Trace.{get_delta, set_delta, prev_delta, zero_delta, next_bucket}

-- `d` lies behind bucket `c` on the walk.
abbrev pub Behind : Bool → ℕ → BucketDelta → Type 0
Behind true c d = d.bucket_id < c
Behind false c d = c < d.bucket_id

Behind-ne : (up : Bool) (c : ℕ) (d : BucketDelta) → Behind up c d → d.bucket_id ≢ c
Behind-ne true c d h = omega arith
Behind-ne false c d h = omega arith

pub get_delta_new :
    (up : Bool) (c : ℕ) (ds : List BucketDelta) → All (Behind up c) ds → get_delta c ds ≡ none
unfolding get_delta
get_delta_new up c [] h = refl
get_delta_new up c (d ∷ ds) h = ground (arith, Behind-ne up c d h.0, get_delta_new up c ds h.1)

pub prev_delta_new :
    (up : Bool) (c : ℕ) (ds : List BucketDelta)
    → All (Behind up c) ds
    → prev_delta c ds ≡ zero_delta c
unfolding prev_delta
prev_delta_new up c ds h = rw (get_delta_new up c ds h, prev_delta)

pub set_delta_new :
    (up : Bool) (v : BucketDelta) (ds : List BucketDelta)
    → All (Behind up v.bucket_id) ds
    → set_delta v ds ≡ ds ++ v ∷ []
unfolding set_delta
set_delta_new up v [] h = refl
set_delta_new up v (d ∷ ds) h =
    ground (arith, Behind-ne up v.bucket_id d h.0, set_delta_new up v ds h.1)

-- The next bucket has this one and all before it behind.
pub next-Behind :
    (up : Bool) (id c : ℕ) (d : BucketDelta)
    → next_bucket up id ≡ some c
    → d.bucket_id ≡ id
    → Behind up c d
unfolding next_bucket
next-Behind true id c d e f = ground arith
next-Behind false zero c d e f = cc
next-Behind false (suc id) c d e f = ground arith

pub next-Behind_all :
    (up : Bool) (id c : ℕ) (ds : List BucketDelta)
    → next_bucket up id ≡ some c
    → All (Behind up id) ds
    → All (Behind up c) ds
unfolding next_bucket
next-Behind_all up id c ds e h = All-map ds (one up id e) h
  where
    one :
        (up : Bool) (id : ℕ)
        → next_bucket up id ≡ some c
        → (d : BucketDelta) → Behind up id d
        → Behind up c d
    one true id e d h = ground arith
    one false zero e d h = cc
    one false (suc id) e d h = ground arith
