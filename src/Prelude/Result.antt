-- ===== src/Prelude/Result.antt =====
-- Results of code that may throw: the thrown errors as values, one constructor for each
-- `throw new Error(...)` of the modelled files and for the language's own faults.
use mathlib.Core.Path.{◌≡◌, refl}
use mathlib.Core.Bool.{Bool, true, false}
use mathlib.Core.Option.{Option, none, some}
use mathlib.Core.List.{List, [], ◌∷◌}
use mathlib.Core.Logic.{◌⊎◌, inl, inr}

pub data Error : Type 0 where
  -- "mulDiv: division by zero", "mul_div: divisor is zero"
  mul_div_zero : Error
  -- the language's RangeError on `a / 0n`, and its TypeError on a field of `undefined`
  division_by_zero type_error : Error
  -- traceBucketSwap
  outside_grid exceeded_all_buckets too_many_buckets : Error
  -- path.ts and computeClearingMultiPair
  no_pool bad_path_length : Error
  -- resolveRevealPath and remapFillPoolIdsToSlots
  unregistered_hop inactive_pool : Error
  -- `BigInt(s)` of a text that is no number
  syntax_error : Error
  -- merkle.ts
  bad_leaf_count too_many_fills zero_nonce duplicate_key not_power_of_two : Error
  -- recoverForwardedFee
  length_mismatch : Error
  -- the witness builders
  order_count_mismatch cancel_count_mismatch too_many_deltas states_mismatch : Error
  too_many_pools too_many_orders unknown_fill : Error
  -- the SDK's OrderError and ConfigError, by their code
  invalid_path escrow_failed missing_env : Error
  -- the proof system's hash, of a number outside its field
  outside_field : Error
  -- a model's loop is out of fuel: shown never to happen
  out_of_fuel : Error

pub data Result {ℓ} (A : Type ℓ) : Type ℓ where
  err : Error → Result A
  ok : A → Result A

-- `if (c) throw thrown;`
abbrev pub throw_if : Bool → Error → Result (Unit {0})
throw_if true thrown = err thrown
throw_if false thrown = ok tt

module _ {ℓ κ} {A : Type ℓ} {B : Type κ} where
  -- A throw skips what follows.
  infixl 5 ◌>>=◌
  abbrev pub ◌>>=◌ : Result A → (A → Result B) → Result B
  err thrown >>= next = err thrown
  ok value >>= next = next value

infixl 5 ◌>>◌
abbrev pub ◌>>◌ {ℓ} : {B : Type ℓ} → Result (Unit {0}) → Result B → Result B
first >> next = first >>= λ done. next

-- `x!`, read where `undefined` faults.
abbrev pub or_fault {ℓ} : {A : Type ℓ} → Option A → Result A
or_fault none = err Error.type_error
or_fault (some a) = ok a

module _ {ℓ κ} {A : Type ℓ} {B : Type κ} where
  abbrev pub map_result : (A → Result B) → List A → Result (List B)
  map_result f [] = ok []
  map_result f (x ∷ xs) = do y ← f x; ys ← map_result f xs; ok (y ∷ ys)

  -- What a chain that returns went through.
  pub >>=-eq-ok :
      (first : Result A) (next : A → Result B) {out : B}
      → (first >>= next) ≡ ok out
      → (value : A) × (first ≡ ok value) × (next value ≡ ok out)
  >>=-eq-ok (err thrown) next h = cc
  >>=-eq-ok (ok value) next h = (value, refl, h)

pub Result-cases {ℓ} :
    {A : Type ℓ} (r : Result A) → ((a : A) × (r ≡ ok a)) ⊎ ((e : Error) × (r ≡ err e))
Result-cases (ok a) = inl (a, refl)
Result-cases (err e) = inr (e, refl)
