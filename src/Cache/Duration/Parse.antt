-- ===== src/Cache/Duration/Parse.antt =====
-- What `parse_duration` accepts and what it returns.
use native.Mathlib.Nat.{mod-eq_of_lt, div-lt_iff_lt-mul, le-div_iff_mul-le}
use metal_orm_cpp.Base.{
  ℕ, ◌+◌, ◌-◌, ◌*◌, ◌/◌, ◌≤◌, ◌<◌, ◌≡◌, ◌≢◌, refl, ap, ◌∙◌, inl, inr, Bool, true, false, ◌&&◌, [],
  ◌∷◌, ◌++◌, Text, ok, err, arith, ltb, ◌==◌, if◌then◌else◌, Bool-cases, All, ltb→lt, ◌↔◌,
}
use metal_orm_cpp.Cache.Duration.{
  too_large, u64_max, max_ms, is_digit, is_unit, digits_then_unit, is_valid_duration, read_amount,
  multiplier, scale, scale_result, parse_duration,
}

-- The number that a text of decimal digits denotes, after `acc`.
abbrev pub decimal : ℕ → Text → ℕ
decimal acc [] = acc
decimal acc (c ∷ cs) = decimal (acc * 10 + (c - b'0')) cs

abbrev pub AllDigits : Text → Type 0
AllDigits ds = All (λ c. is_digit c ≡ true) ds

decimal_mono : (ds : Text) (acc : ℕ) → acc ≤ decimal acc ds
decimal_mono [] acc = omega arith
decimal_mono (d ∷ ds) acc = omega (arith, decimal_mono ds (acc * 10 + (d - b'0')))

-- One round of the loop: the test for overflow is exact.
read_amount_step :
    (acc c t : ℕ) (ts : Text)
    → is_digit c ≡ true
    → read_amount acc (c ∷ t ∷ ts) ≡ (
        if ltb u64_max (acc * 10 + (c - b'0'))
        then err too_large
        else read_amount (acc * 10 + (c - b'0')) (t ∷ ts))
unfolding read_amount
read_amount_step acc c t ts h =
    ap (λ b. if b then err too_large else read_amount (acc * 10 + (c - b'0')) (t ∷ ts))
      (exact acc c h)
  where
    exact :
        (acc c : ℕ)
        → is_digit c ≡ true
        → ltb ((u64_max - (c - b'0')) / 10) acc ≡ ltb u64_max (acc * 10 + (c - b'0'))
    exact acc c h = ground arith

pub not-ltb : (k n : ℕ) → n ≤ k → ltb k n ≡ false
not-ltb k n h = ground arith

pub is-ltb : (k n : ℕ) → k < n → ltb k n ≡ true
is-ltb k n h = ground arith

-- The loop returns the number exactly if it fits into 64 bits, and throws if it does not.
read_amount-decimal :
    (ds : Text) (acc unit : ℕ)
    → AllDigits ds
    → acc ≤ u64_max
    → read_amount acc (ds ++ unit ∷ [])
      ≡ (if ltb u64_max (decimal acc ds) then err too_large else ok (decimal acc ds, unit))
read_amount-decimal [] acc unit h le = unfold read_amount in rw (not-ltb u64_max acc le)
read_amount-decimal (c ∷ []) acc unit h le =
    read_amount_step acc c unit [] h.0 ∙ last (ltb u64_max (acc * 10 + (c - b'0')))
  where
    last :
        (b : Bool)
        → (if b then err too_large else read_amount (acc * 10 + (c - b'0')) (unit ∷ []))
          ≡ (if b then err too_large else ok (acc * 10 + (c - b'0'), unit))
    last true = refl
    last false = unfold read_amount in refl
read_amount-decimal (c ∷ d ∷ ds) acc unit h le =
    let next = acc * 10 + (c - b'0') in
    read_amount_step acc c d (ds ++ unit ∷ []) h.0 ∙ elim (Bool-cases (ltb u64_max next)) [
      | inl e ↦ rw e (
          rw (
            is-ltb u64_max (decimal next (d ∷ ds))
              (omega (arith, ltb→lt u64_max next e, decimal_mono (d ∷ ds) next))))
      | inr e ↦ rw e (read_amount-decimal (d ∷ ds) next unit h.1 (ground (arith, e)))
    ]

-- Digits, at least one, and a unit behind them.
pub record IsDuration (ds : Text) (unit : ℕ) : Type 0 where
  pub some_digit : ds ≢ []
  pub digits : AllDigits ds
  pub unit_known : is_unit unit ≡ true

digits_then_unit-true :
    (ds : Text) (unit : ℕ)
    → AllDigits ds
    → is_unit unit ≡ true
    → digits_then_unit (ds ++ unit ∷ []) ≡ true
unfolding digits_then_unit
digits_then_unit-true [] unit h u = u
digits_then_unit-true (c ∷ []) unit h u = rw h.0 u
digits_then_unit-true (c ∷ d ∷ ds) unit h u = rw h.0 (digits_then_unit-true (d ∷ ds) unit h.1 u)

is_valid_duration-true :
    (ds : Text) (unit : ℕ) → IsDuration ds unit → is_valid_duration (ds ++ unit ∷ []) ≡ true
unfolding is_valid_duration
is_valid_duration-true [] unit h = absurd (h.some_digit refl)
is_valid_duration-true (c ∷ []) unit h = digits_then_unit-true (c ∷ []) unit h.digits h.unit_known
is_valid_duration-true (c ∷ d ∷ ds) unit h =
    digits_then_unit-true (c ∷ d ∷ ds) unit h.digits h.unit_known

digits_then_unit-split :
    (c : ℕ) (cs : Text)
    → digits_then_unit (c ∷ cs) ≡ true
    → (ds : Text) × (unit : ℕ) × (c ∷ cs ≡ ds ++ unit ∷ []) × AllDigits ds × (is_unit unit ≡ true)
unfolding digits_then_unit
digits_then_unit-split c [] h = ([], c, refl, tt, h)
digits_then_unit-split c (d ∷ cs) h =
    let (ds, unit, e, a, u) = digits_then_unit-split d cs (and_right (is_digit c) _ h) in
    (c ∷ ds, unit, ap (◌∷◌ c) e, (and_left (is_digit c) _ h, a), u)
  where
    and_left : (a b : Bool) → (a && b) ≡ true → a ≡ true
    and_left true b h = refl
    and_left false b h = h

    and_right : (a b : Bool) → (a && b) ≡ true → b ≡ true
    and_right true b h = h
    and_right false b h = cc

is_valid_duration-split :
    (value : Text)
    → is_valid_duration value ≡ true
    → (ds : Text) × (unit : ℕ) × (value ≡ ds ++ unit ∷ []) × IsDuration ds unit
unfolding is_valid_duration
is_valid_duration-split [] h = absurd (cc)
is_valid_duration-split (c ∷ []) h = absurd (cc)
is_valid_duration-split (c ∷ d ∷ cs) h =
    let (ds, unit, e, a, u) = digits_then_unit-split c (d ∷ cs) h in
    (ds, unit, e, record { some_digit = several ds unit e; digits = a; unit_known = u })
  where
    several : (ds : Text) (unit : ℕ) → c ∷ d ∷ cs ≡ ds ++ unit ∷ [] → ds ≢ []
    several [] unit e n = cc
    several (x ∷ ds) unit e n = cc

-- `is_valid_duration` accepts exactly the texts of one or more digits and one of the letters
-- s, m, h, d and w.
pub is_valid_duration_iff :
    (value : Text)
    → (is_valid_duration value ≡ true)
      ↔ ((ds : Text) × (unit : ℕ) × (value ≡ ds ++ unit ∷ []) × IsDuration ds unit)
is_valid_duration_iff value =
    (is_valid_duration-split value, λ p. rw p.2 (is_valid_duration-true p.0 p.1 p.3))

-- In 64 bits no product is lost: the test on the quotient is the test on the product.
scale_exact :
    (amount factor : ℕ)
    → 0 < factor
    → scale amount factor
      ≡ (if ltb max_ms (amount * factor) then err too_large else ok (amount * factor))
unfolding scale
scale_exact amount factor pos = elim (Bool-cases (ltb max_ms (amount * factor))) [
  | inl e ↦ rw (e, is-ltb (max_ms / factor) amount ((div-lt_iff_lt-mul pos).1 (ltb→lt _ _ e)))
  | inr e ↦
      let small : amount * factor ≤ max_ms = ground (arith, e) in
      rw (
        e,
        not-ltb (max_ms / factor) amount ((le-div_iff_mul-le pos).1 small),
        mod-eq_of_lt {n = amount * factor} {m = u64_max + 1} (omega arith),
      )
]

pub multiplier_pos : (unit : ℕ) → 0 < multiplier unit
unfolding multiplier
multiplier_pos unit = ground arith

multiplier-big : (unit amount : ℕ) → amount ≤ amount * multiplier unit
multiplier-big unit amount = grind (arith, multiplier_pos unit)

-- The milliseconds in a second, a minute, an hour, a day of 24 hours and a week of seven days.
abbrev pub milliseconds_in : ℕ → ℕ
milliseconds_in unit =
    if unit == b's'
    then 1000
    else if unit == b'm'
    then 60 * 1000
    else if unit == b'h'
    then 60 * 60 * 1000
    else if unit == b'd'
    then 24 * 60 * 60 * 1000
    else 7 * 24 * 60 * 60 * 1000

multiplier_lem : (unit : ℕ) → is_unit unit ≡ true → multiplier unit ≡ milliseconds_in unit
unfolding multiplier
multiplier_lem unit h = ground arith

parse_duration-multiplier :
    (ds : Text) (unit : ℕ)
    → IsDuration ds unit
    → parse_duration (ds ++ unit ∷ []) ≡ (
        if ltb max_ms (decimal 0 ds * multiplier unit)
        then err too_large
        else ok (decimal 0 ds * multiplier unit))
unfolding parse_duration scale_result
parse_duration-multiplier ds unit h =
    rw (is_valid_duration-true ds unit h, read_amount-decimal ds 0 unit h.digits (omega arith))
      (elim (Bool-cases (ltb u64_max (decimal 0 ds))) [
        | inl e ↦ rw (
          e,
          is-ltb max_ms (decimal 0 ds * multiplier unit)
              (omega (arith, ltb→lt u64_max _ e, multiplier-big unit (decimal 0 ds))),
        )
        | inr e ↦ rw e (scale_exact (decimal 0 ds) (multiplier unit) (multiplier_pos unit))
      ])

-- `parse_duration` of digits and a unit (s, m, h, d or w) is exactly that number of seconds, minutes,
-- hours, days or weeks in milliseconds, or `too_large` where that does not fit into an `int64_t`.
pub parse_duration_exact :
    (ds : Text) (unit : ℕ)
    → IsDuration ds unit
    → parse_duration (ds ++ unit ∷ []) ≡ (
        if ltb 0x7fffffffffffffff (decimal 0 ds * milliseconds_in unit)
        then err too_large
        else ok (decimal 0 ds * milliseconds_in unit))
parse_duration_exact ds unit h =
    parse_duration-multiplier ds unit h
    ∙ ap (λ m. if ltb max_ms (decimal 0 ds * m) then err too_large else ok (decimal 0 ds * m))
        (multiplier_lem unit h.unit_known)
