-- ===== src/Pool/Reap.antt =====
-- include/metal/pool.hpp: what `normalize_options` and the reaper's loop do.
use metal_orm_cpp.Base.{
  ℕ, suc, ◌+◌, ◌-◌, ◌≤◌, ◌≡◌, refl, ap, inl, inr, false, List, [], ◌∷◌, length, arith, ltb, leb,
  Bool-cases, if◌then◌else◌, ok, err, ◌==◌,
}
use metal_orm_cpp.Pool.{
  PoolOptions, max_must_be_positive, normalize_options, IdleEntry, State, reap_loop, reap,
}
use metal_orm_cpp.Pool.Counters.{length-reap_loop}

-- How many of the entries have timed out.
abbrev pub expired_count : ℕ → ℕ → List IdleEntry → ℕ
expired_count now timeout [] = 0
expired_count now timeout (e ∷ es) =
    (if leb (e.last_used_at + timeout) now then 1 else 0) + expired_count now timeout es

abbrev smaller : ℕ → ℕ → ℕ
smaller a b = if leb a b then a else b

length-expired :
    (now timeout removable removed : ℕ) (es : List IdleEntry)
    → removed ≤ removable
    → length (reap_loop now timeout removable removed es).0
      ≡ smaller (expired_count now timeout es) (removable - removed)
unfolding reap_loop
length-expired now timeout removable removed [] h = ground arith
length-expired now timeout removable removed (e ∷ es) h =
    elim (Bool-cases (leb (e.last_used_at + timeout) now)) [
      | inl late ↦ elim (Bool-cases (ltb removed removable)) [
        | inl room ↦
            rw (late, room)
              (ground (
                arith,
                room,
                length-expired now timeout removable (suc removed) es (ground (arith, room)),
              ))
        | inr full ↦
            rw (late, full)
              (ground (arith, full, h, length-expired now timeout removable removed es h))
      ]
      | inr fresh ↦ rw fresh (ground (arith, h, length-expired now timeout removable removed es h))
    ]

-- One run of the reaper takes as many timed-out resources as there are, but never one that `min`
-- needs: a pool above its minimum stays at or above it, and one at or below it loses nothing.
pub reap_lem :
    (now : ℕ) (o : PoolOptions) (s : State)
    → (length (reap now o s).0
        ≡ smaller (expired_count now o.idle_timeout s.idle) (length s.idle - o.min))
      × (length (reap now o s).1.idle + length (reap now o s).0 ≡ length s.idle)
      × (smaller (length s.idle) o.min ≤ length (reap now o s).1.idle)
unfolding reap
reap_lem now o s =
    let gone = length-expired now o.idle_timeout (length s.idle - o.min) 0 s.idle (omega arith) in
    let all = length-reap_loop now o.idle_timeout (length s.idle - o.min) 0 s.idle in
    (ground (arith, gone), omega (arith, all), ground (arith, gone, all))

-- Normalised options have a positive maximum that the minimum does not exceed, and are otherwise those
-- given; options are refused just where the maximum is 0.
pub normalize_options_lem :
    (o : PoolOptions)
    → (o.max ≡ 0 → normalize_options o ≡ err max_must_be_positive)
      × (1 ≤ o.max
          → (n : PoolOptions) × (normalize_options o ≡ ok n)
            × (n.min ≤ n.max)
            × (n.min ≡ smaller o.max o.min)
            × (n.max ≡ o.max)
            × (n.idle_timeout ≡ o.idle_timeout))
unfolding normalize_options
normalize_options_lem o = (
  λ z. rw z refl,
  λ p. (
    record o { min = if ltb o.max o.min then o.max else o.min },
    ap
        (λ b.
          if b
          then err max_must_be_positive
          else ok (record o { min = if ltb o.max o.min then o.max else o.min }))
        {x = o.max == 0} {y = false} (ground (arith, p)),
    ground arith,
    ground arith,
    refl,
    refl,
  ),
)
