-- ===== src/Faucet/Handler.antt =====
-- POST /api/drip: faucet/src/pages/api/drip.ts, with cors.ts and client-ip.ts. Splitting and
-- trimming a header is left to its parts.
use quetzaldex.Prelude.{
  ℕ, suc, ◌≡◌, refl, ap, Bool, true, false, not, ◌&&◌, List, [], ◌∷◌, ◌++◌, Option, none, some,
  ◌==◌, if◌then◌else◌, any, filter, String, Bool-cases, inl, inr,
}
use quetzaldex.Faucet.Upstream.{Outcome, thrown, returned}
use quetzaldex.Faucet.Drip.{DripPipelineOutput}
use text.Mathlib.Text

-- An entry of an allow list: a text, or the test of a regular expression.
pub data OriginEntry : Type 0 where
  exact : String → OriginEntry
  pattern_of : (String → Bool) → OriginEntry

abbrev pub admits : String → OriginEntry → Bool
admits origin (exact s) = Text.◌==◌ s origin
admits origin (pattern_of test) = test origin

abbrev pub is_empty : String → Bool
is_empty s = Text.◌==◌ s ""

pub match_origin : String → List OriginEntry → Bool
match_origin origin allowed = not (is_empty origin) && any (admits origin) allowed

abbrev pub last : {A : Type 0} → List A → Option A
last [] = none
last (x ∷ []) = some x
last (x ∷ y ∷ xs) = last (y ∷ xs)

-- The parts of the closest `x-forwarded-for`, trimmed; `x-real-ip`; the socket's address.
pub record IpHeaders : Type 0 where
  pub forwarded : List String
  pub real_ip : Option String
  pub remote_address : Option String

abbrev pub or_unknown : Option String → String
or_unknown none = "unknown"
or_unknown (some a) = a

abbrev pub real_or : Option String → String → String
real_or none other = other
real_or (some a) other = if is_empty a then other else a

abbrev pub forwarded_or : Option String → String → String
forwarded_or none other = other
forwarded_or (some a) other = a

pub get_client_ip : IpHeaders → String
get_client_ip o =
    forwarded_or (last (filter (λ s. not (is_empty s)) o.forwarded))
      (real_or o.real_ip (or_unknown o.remote_address))

pub record Metrics : Type 0 where
  pub drip_total : ℕ
  pub throttled_total : ℕ
  pub drip_failed_total : ℕ

abbrev pub tally : ℕ → Metrics → Metrics
tally status m =
    if status == 200
    then record m { drip_total = suc m.drip_total }
    else if status == 429
    then record m { throttled_total = suc m.throttled_total }
    else record m { drip_failed_total = suc m.drip_failed_total }

pub data Method : Type 0 where
  options post other : Method

-- What the response is: its status, and whether the pipeline's body goes with it.
pub record Request : Type 0 where
  pub origin : String
  pub method : Method
  pub parses : Bool

abbrev pub by_method : Request → Outcome DripPipelineOutput → Metrics → Outcome ℕ × Metrics
by_method req out m = elim req.method [
  | options ↦ (returned 204, m)
  | other ↦ (returned 405, m)
  | post ↦ if not req.parses then (returned 400, m) else elim out [
    | thrown msg ↦ (thrown msg, m)
    | returned o ↦ (returned o.status, tally o.status m)
  ]
]

-- The pipeline is given as the outcome it would have; it runs only where the request gets so far.
pub handler :
    List OriginEntry → Request → Outcome DripPipelineOutput → Metrics → Outcome ℕ × Metrics
handler allowed req out m =
    if not (is_empty req.origin) && not (match_origin req.origin allowed)
    then (returned 403, m)
    else by_method req out m

last_snoc : {A : Type 0} (xs : List A) (x : A) → last (xs ++ x ∷ []) ≡ some x
last_snoc [] x = refl
last_snoc (y ∷ []) x = refl
last_snoc (y ∷ z ∷ xs) x = last_snoc (z ∷ xs) x

filter_snoc :
    (p : String → Bool) (xs : List String) (x : String)
    → p x ≡ true
    → filter p (xs ++ x ∷ []) ≡ filter p xs ++ x ∷ []
filter_snoc p [] x h = rw h refl
filter_snoc p (y ∷ xs) x h = elim (Bool-cases (p y)) [
  | inl e ↦ rw e (ap (λ l. y ∷ l) (filter_snoc p xs x h))
  | inr e ↦ rw e (filter_snoc p xs x h)
]

pub get_client_ip-forwarded :
    (forged : List String) (real_ip remote_address : Option String) (peer : String)
    → is_empty peer ≡ false
    → get_client_ip (record {
      forwarded = forged ++ peer ∷ [];
      real_ip = real_ip;
      remote_address = remote_address;
    })
      ≡ peer
unfolding get_client_ip
get_client_ip-forwarded forged real_ip remote_address peer h =
    rw
      (
        filter_snoc (λ s. not (is_empty s)) forged peer (rw h refl),
        last_snoc (filter (λ s. not (is_empty s)) forged) peer,
      )
      refl
