-- ===== src/Witness/Padding.antt =====
-- Lengths after padding.
use quetzaldex.Prelude.{ℕ, ◌-◌, ◌≤◌, ◌≡◌, List, length, length-append, arith}
use quetzaldex.Merkle.{replicate}
use quetzaldex.Merkle.Inclusion.{length-replicate}
use quetzaldex.Witness.{pad}

pub length-pad {ℓ} :
    {A : Type ℓ} (n : ℕ) (blank : A) (xs : List A) → length xs ≤ n → length (pad n blank xs) ≡ n
unfolding pad
length-pad n blank xs h =
    let both = length-append xs (replicate (n - length xs) blank) in
    let rest = length-replicate (n - length xs) blank in omega (arith, both, rest)
