-- ===== src/Prelude/StandIn.antt =====
-- Hashes for the tests, in place of the proof system's: one of any integers, and one that throws on
-- an integer outside a field.
use quetzaldex.Prelude.{ℕ, ◌+◌, ◌*◌, ◌%◌, List, [], ◌∷◌, ltb, if◌then◌else◌}
use quetzaldex.Prelude.Int.{ℤ, pos, negsuc, pos_part}
use quetzaldex.Prelude.Result.{Error, Result, ok, err, ◌>>=◌}

abbrev pub mix : List ℤ → ℕ
mix [] = 1
mix (w ∷ ws) = pos_part w + 31 * mix ws

abbrev pub field : ℕ
field = 1_000_003

unfoldable pub mix_field : List ℤ → Result ℕ
mix_field [] = ok 1
mix_field (pos n ∷ ws) =
    let rest = mix_field ws in
    if ltb n field then (rest >>= λ h. ok ((n + 31 * h) % field)) else err Error.outside_field
mix_field (negsuc n ∷ ws) = err Error.outside_field
