-- ===== src/Faucet/RateLimit/Oldest.antt =====
-- The oldest of a client's rows in its window, and the query that starts after it.
use quetzaldex.Prelude.{
  ℕ, suc, ◌+◌, ◌-◌, ◌≤◌, ◌<◌, ◌≡◌, refl, sym, subst, Bool, true, false, List, [], ◌∷◌, ◌++◌, some,
  leb, filter, length, get_elem?, arith, inl, inr, Bool-cases, String, All, All-filter, Some,
}
use quetzaldex.Prelude.Result.{ok}
use quetzaldex.Prelude.Sort.{
  sort_by, Sorted, sort_by-All, sort_by-All_back, sort_by-Some_back, sort_by-Sorted,
}
use quetzaldex.Faucet.RateLimit.{
  Hit, RateLimiterOpts, RateLimitResult, of_ip, since, by_ts, ip_hits, throttled,
}

-- The oldest of the client's rows in its window.
abbrev pub Oldest : String → ℕ → List Hit → Hit → Type 0
Oldest ip from rows o = get_elem? (ip_hits ip from rows) 0 ≡ some o

by_ts_total : (x y : Hit) → by_ts x y ≡ false → by_ts y x ≡ true
by_ts_total x y h = ground arith

by_ts_trans : (x y z : Hit) → by_ts x y ≡ true → by_ts y z ≡ true → by_ts x z ≡ true
by_ts_trans x y z h k = ground arith

pub head-All :
    (P : Hit → Type 0) (xs : List Hit) (o : Hit) → get_elem? xs 0 ≡ some o → All P xs → P o
head-All P [] o e h = cc
head-All P (x ∷ xs) o e h = let q : x ≡ o = cc in subst P q h.0

head-Some : (xs : List Hit) (o : Hit) → get_elem? xs 0 ≡ some o → Some (λ y. y ≡ o) xs
head-Some [] o e = cc
head-Some (x ∷ xs) o e = inl (cc)

head-Sorted :
    (xs : List Hit) (o : Hit)
    → get_elem? xs 0 ≡ some o
    → Sorted by_ts xs
    → All (λ y. leb o.ts y.ts ≡ true) xs
head-Sorted [] o e h = tt
head-Sorted (x ∷ xs) o e h =
    let q : x ≡ o = cc in
    subst (λ z. All (λ y. leb z.ts y.ts ≡ true) (x ∷ xs)) q (ground arith, h.0)

module _ (ip : String) (from : ℕ) (rows : List Hit) (o : Hit) (first : Oldest ip from rows o) where
  -- None is older; and it is one of them.
  pub Oldest-All : All (λ y. leb o.ts y.ts ≡ true) (filter (since from (of_ip ip)) rows)
  unfolding ip_hits
  Oldest-All =
      let hits = filter (since from (of_ip ip)) rows in
      sort_by-All_back by_ts (λ y. leb o.ts y.ts ≡ true) hits
        (head-Sorted (sort_by by_ts hits) o first
          (sort_by-Sorted by_ts by_ts_total by_ts_trans hits))

  pub Oldest-Some : Some (λ y. y ≡ o) (filter (since from (of_ip ip)) rows)
  unfolding ip_hits
  Oldest-Some =
      let hits = filter (since from (of_ip ip)) rows in
      sort_by-Some_back by_ts (λ y. y ≡ o) hits (head-Some (sort_by by_ts hits) o first)

  Oldest-since : since from (of_ip ip) o ≡ true
  unfolding ip_hits
  Oldest-since =
      let hits = filter (since from (of_ip ip)) rows in
      head-All (λ y. since from (of_ip ip) y ≡ true) (sort_by by_ts hits) o first
        (sort_by-All by_ts (λ y. since from (of_ip ip) y ≡ true) hits
          (All-filter (since from (of_ip ip)) rows))

  pub Oldest-le : from ≤ o.ts
  Oldest-le = let h = Oldest-since in ground arith

-- A query that starts at the oldest row finds as many; one that starts after it finds fewer.
pub length-since_oldest :
    (cond : Hit → Bool) (from t : ℕ) (rows : List Hit) (last : Hit)
    → All (λ y. leb t y.ts ≡ true) (filter (since from cond) rows)
    → length (filter (since from cond) rows) ≤ length (filter (since t cond) (rows ++ last ∷ []))
length-since_oldest cond from t [] last h = omega arith
length-since_oldest cond from t (r ∷ rows) last h = elim (Bool-cases (since from cond r)) [
  | inr e ↦
      let k = length-since_oldest cond from t rows last (rw e at h) in
      elim (Bool-cases (since t cond r)) [
        | inl z ↦ rw (e, z) (omega (arith, k))
        | inr z ↦ rw (e, z) k
      ]
  | inl e ↦
      let both : (leb t r.ts ≡ true)
          × All (λ y. leb t y.ts ≡ true) (filter (since from cond) rows) =
        rw e at h in
      let z : since t cond r ≡ true = ground (arith, both.0) in
      rw (e, z) (omega (arith, length-since_oldest cond from t rows last both.1))
]

length-since_later :
    (cond : Hit → Bool) (from t : ℕ) (rows : List Hit) (last : Hit)
    → cond last ≡ false
    → from ≤ t
    → length (filter (since t cond) (rows ++ last ∷ [])) ≤ length (filter (since from cond) rows)
length-since_later cond from t [] last q h = ground arith
length-since_later cond from t (r ∷ rows) last q h =
    ground (arith, length-since_later cond from t rows last q h)

pub length-since_after :
    (cond : Hit → Bool) (from t : ℕ) (rows : List Hit) (last o : Hit)
    → cond last ≡ false
    → from ≤ t
    → o.ts < t
    → Some (λ y. y ≡ o) (filter (since from cond) rows)
    → length (filter (since t cond) (rows ++ last ∷ [])) < length (filter (since from cond) rows)
length-since_after cond from t [] last o q h k s = absurd s
length-since_after cond from t (r ∷ rows) last o q h k s = elim (Bool-cases (since from cond r)) [
  | inr e ↦
      let z : since t cond r ≡ false = ground arith in
      rw (e, z) (length-since_after cond from t rows last o q h k (rw e at s))
  | inl e ↦ rw e (
      here (length-since_after cond from t rows last o q h k)
        (length-since_later cond from t rows last q h) (rw e at s))
]
  where
    here :
        (Some (λ y. y ≡ o) (filter (since from cond) rows)
          → length (filter (since t cond) (rows ++ last ∷ []))
            < length (filter (since from cond) rows))
        → length (filter (since t cond) (rows ++ last ∷ []))
          ≤ length (filter (since from cond) rows)
        → Some (λ y. y ≡ o) (r ∷ filter (since from cond) rows)
        → length (filter (since t cond) (r ∷ rows ++ last ∷ []))
          < suc (length (filter (since from cond) rows))
    here f le (inl j) =
        let z : since t cond r ≡ false = ground (arith, subst (λ x. x.ts < t) (sym j) k) in
        rw z (omega (arith, le))
    here f le (inr j) = elim (Bool-cases (since t cond r)) [
      | inl z ↦ rw z (omega (arith, f j))
      | inr z ↦ rw z (omega (arith, le))
    ]

pub throttled-oldest :
    (c : RateLimiterOpts) (now r : ℕ) (hits : List Hit) (res : RateLimitResult)
    → throttled c now hits ≡ ok res
    → res.retry_after_seconds ≡ some r
    → (o : Hit) × (get_elem? hits 0 ≡ some o) × (c.per_ip_window_seconds + o.ts - now ≡ r)
throttled-oldest c now r [] res h e = cc
throttled-oldest c now r (o ∷ hits) res h e = (o, refl, ground arith)
