-- ===== src/Faucet/Address.antt =====
-- Addresses: faucet/src/lib/address.ts. The text is walked character by character; of a text that
-- matches the pattern, `BigInt` returns the number its digits stand for.
use Prim.Native.Nat.{ℕ, ◌+◌, ◌*◌, ◌-◌}
use Prim.Native.Char.{code}
use Prim.Native.String.{String, [], ◌∷◌, count}
use quetzaldex.Prelude.{Bool, false, not, ◌&&◌, Option, none, some, ltb, leb, ◌==◌, if◌then◌else◌}

abbrev pub p_bn254 : ℕ
p_bn254 = 0x30644e72e131a029b85045b68181585d2833e84879b9709143e1f593f0000001

abbrev pub between : ℕ → ℕ → ℕ → Bool
between lo hi c = leb lo c && leb c hi

-- `[0-9a-fA-F]`, and what it counts for.
pub hex_digit : ℕ → Option ℕ
hex_digit c =
    if between 48 57 c
    then some (c - 48)
    else if between 97 102 c
    then some (c - 87)
    else if between 65 70 c
    then some (c - 55)
    else none

abbrev pub shift_in : ℕ → Option ℕ → Option ℕ
shift_in acc none = none
shift_in acc (some d) = some (16 * acc + d)

abbrev pub hex_step : Option ℕ → ℕ → Option ℕ
hex_step none c = none
hex_step (some acc) c = shift_in acc (hex_digit c)

-- The number of a text of hexadecimal digits.
unfoldable pub hex_value : Option ℕ → String → Option ℕ
unfolding hex_digit
hex_value acc [] = acc
hex_value acc (c ∷ s) = hex_value (hex_step acc (code c)) s

-- The digits after `0x`, where there are 64.
unfoldable pub sixty_four : String → Option ℕ
unfolding hex_value
sixty_four [] = none
sixty_four (a ∷ []) = none
sixty_four (a ∷ b ∷ s) =
    if (code a == 48) && (code b == 120) && (count s == 64) then hex_value (some 0) s else none

abbrev pub in_field : Option ℕ → Bool
in_field none = false
in_field (some n) = not (n == 0) && ltb n p_bn254

unfoldable pub validate_l2_address : String → Bool
unfolding sixty_four
validate_l2_address hex = in_field (sixty_four hex)
