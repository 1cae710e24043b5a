-- ===== src/Pool/Warm.antt =====
-- include/metal/pool.hpp: `warm_minimum`, the loop of the constructor. `create k` is what the
-- adapter's `k`-th call returns; none stands for a null pointer and for an exception, which are
-- handled alike.
use metal_orm_cpp.Base.{
  ℕ, zero, suc, ◌+◌, ◌≤◌, ◌≡◌, refl, subst, inl, inr, Bool, true, false, ◌||◌, Option, none, some,
  [], ◌∷◌, ◌++◌, length, length-append, arith, leb, Option-cases,
}
use metal_orm_cpp.Pool.{PoolOptions, State, total_live, uncreate}

-- The loop's test.
unfoldable pub is_warm : PoolOptions → State → Bool
is_warm o s = s.destroyed || leb o.min (length s.idle) || leb o.max (total_live s)

-- A created resource goes to the idle list.
unfoldable pub stock : ℕ → ℕ → State → State
unfolding uncreate
stock now r s = record (uncreate s) {
  idle = s.idle ++ record { resource = r; last_used_at = now } ∷ [];
}

unfoldable pub warm : ℕ → PoolOptions → ℕ → (ℕ → Option ℕ) → ℕ → State → State
unfolding is_warm stock uncreate
warm zero o now create k s = s
warm (suc fuel) o now create k s =
    let reserved = record s { creating = suc s.creating } in
    elim (is_warm o s) [
      | true ↦ s
      | false ↦ elim (create k) [
        | none ↦ uncreate reserved
        | some r ↦ warm fuel o now create (suc k) (stock now r reserved)
      ]
    ]

abbrev pub cold : State
cold = record { idle = []; creating = 0; leased = 0; destroyed = false }

-- `min` rounds are enough.
unfoldable pub warm_minimum : PoolOptions → ℕ → (ℕ → Option ℕ) → State
warm_minimum o now create = warm o.min o now create 0 cold

record Warming (o : PoolOptions) (s : State) (n : ℕ) : Type 0 where
  size : length s.idle ≡ n
  creating : s.creating ≡ 0
  leased : s.leased ≡ 0
  alive : s.destroyed ≡ false

-- How many of the calls from the `k`-th on succeed, before one fails and `n` have been made.
abbrev pub successes : ℕ → (ℕ → Option ℕ) → ℕ → ℕ
successes zero create k = 0
successes (suc n) create k = elim (create k) [
  | none ↦ 0
  | some r ↦ suc (successes n create (suc k))
]

warm-Warming :
    (fuel : ℕ) (o : PoolOptions) (now : ℕ) (create : ℕ → Option ℕ) (k n : ℕ) (s : State)
    → Warming o s n
    → fuel + n ≡ o.min
    → o.min ≤ o.max
    → Warming o (warm fuel o now create k s) (n + successes fuel create k)
unfolding warm
warm-Warming zero o now create k n s w e h = record {
  size = omega (arith, w.size);
  creating = w.creating;
  leased = w.leased;
  alive = w.alive;
}
warm-Warming (suc fuel) o now create k n s w e h = elim (Option-cases (create k)) [
  | inl c ↦
      rw (cold_yet, c, warm, successes)
        (unfold uncreate in
          record {
            size = omega (arith, w.size);
            creating = omega (arith, w.creating);
            leased = w.leased;
            alive = w.alive;
          })
  | inr (r, c) ↦
      rw (cold_yet, c, warm, successes)
        (subst (λ m. Warming o (warm fuel o now create (suc k) (stocked r)) m) (omega arith)
          (warm-Warming fuel o now create (suc k) (suc n) (stocked r)
            (record {
              size =
                  unfold stock in
                  omega (
                    arith,
                    w.size,
                    length-append s.idle (record { resource = r; last_used_at = now } ∷ []),
                  );
              creating = unfold stock in omega (arith, w.creating);
              leased = w.leased;
              alive = w.alive;
            })
            (omega (arith, e)) h))
]
  where
    stocked : ℕ → State
    stocked r = stock now r (record s { creating = suc s.creating })

    cold_yet : is_warm o s ≡ false
    cold_yet = unfold is_warm in rw w.alive (ground (arith, w.size, w.creating, w.leased, e, h))

-- A new pool with normalised options has, once the constructor has warmed it, as many idle resources
-- as the adapter created before its first failure, `min` at most; none is leased or under way.
pub warm_minimum_lem :
    (o : PoolOptions) (now : ℕ) (create : ℕ → Option ℕ)
    → o.min ≤ o.max
    → (length (warm_minimum o now create).idle ≡ successes o.min create 0)
      × ((warm_minimum o now create).creating ≡ 0)
      × ((warm_minimum o now create).leased ≡ 0)
      × ((warm_minimum o now create).destroyed ≡ false)
unfolding warm_minimum
warm_minimum_lem o now create h =
    let w =
      warm-Warming o.min o now create 0 0 cold
        (record { size = refl; creating = refl; leased = refl; alive = refl }) (omega arith) h in
    (omega (arith, w.size), w.creating, w.leased, w.alive)
