-- ===== src/Cache/Duration/Format.antt =====
-- `parse_duration` on what `format_duration` printed.
use native.Mathlib.Nat.{pow-suc, div-mul-le_self, div-le_self}
use metal_orm_cpp.Base.{
  ℕ, zero, suc, ◌+◌, ◌*◌, ◌/◌, ◌%◌, ◌^◌, ◌≤◌, ◌<◌, ◌≡◌, ◌≢◌, refl, ap, ◌∙◌, inl, inr, true, false,
  [], ◌∷◌, ◌++◌, Text, codes, ok, err, arith, ltb, if◌then◌else◌, Bool-cases, ltb→lt,
}
use metal_orm_cpp.Base.Int.{ℤ, pos, negsuc, pos_part, ltb_ℤ, ◌≤ℤ◌}
use metal_orm_cpp.Cache.Duration.{
  invalid_duration, max_ms, is_digit, is_unit, digits_then_unit, is_valid_duration, parse_duration,
  digits_onto, to_string, format_duration,
}
use metal_orm_cpp.Cache.Duration.Parse.{
  decimal, AllDigits, IsDuration, milliseconds_in, parse_duration_exact, not-ltb,
}

digits_onto-decimal :
    (fuel n : ℕ) (acc : Text) → n < 10 ^ fuel → decimal 0 (digits_onto fuel n acc) ≡ decimal n acc
unfolding digits_onto
digits_onto-decimal zero n acc h = ap (λ k. decimal k acc) (omega arith)
digits_onto-decimal (suc fuel) n acc h = elim (Bool-cases (ltb n 10)) [
  | inl e ↦ rw e (ap (λ k. decimal k acc) (omega arith))
  | inr e ↦ rw e (
      digits_onto-decimal fuel (n / 10) _ (omega (arith, pow-suc 10 fuel))
      ∙ ap (λ k. decimal k acc) (omega arith))
]

digit_of : (n : ℕ) → n < 10 → is_digit (b'0' + n) ≡ true
digit_of n h = ground arith

digits_onto-AllDigits :
    (fuel n : ℕ) (acc : Text) → AllDigits acc → AllDigits (digits_onto fuel n acc)
unfolding digits_onto
digits_onto-AllDigits zero n acc h = h
digits_onto-AllDigits (suc fuel) n acc h = elim (Bool-cases (ltb n 10)) [
  | inl e ↦ rw e (digit_of n (ltb→lt n 10 e), h)
  | inr e ↦ rw e (digits_onto-AllDigits fuel (n / 10) _ (digit_of (n % 10) (omega arith), h))
]

digits_onto-ne-nil : (fuel n c : ℕ) (acc : Text) → digits_onto fuel n (c ∷ acc) ≢ []
unfolding digits_onto
digits_onto-ne-nil zero n c acc h = cc
digits_onto-ne-nil (suc fuel) n c acc h = elim (Bool-cases (ltb n 10)) [
  | inl e ↦ cc (rw e at h)
  | inr e ↦ digits_onto-ne-nil fuel (n / 10) (b'0' + n % 10) (c ∷ acc) (rw e at h)
]

to_string-ne-nil : (n : ℕ) → to_string n ≢ []
unfolding to_string digits_onto
to_string-ne-nil n h = elim (Bool-cases (ltb n 10)) [
  | inl e ↦ cc (rw e at h)
  | inr e ↦ digits_onto-ne-nil 19 (n / 10) (b'0' + n % 10) [] (rw e at h)
]

pub to_string-AllDigits : (n : ℕ) → AllDigits (to_string n)
unfolding to_string
to_string-AllDigits n = digits_onto-AllDigits 20 n [] tt

to_string-IsDuration : (n unit : ℕ) → is_unit unit ≡ true → IsDuration (to_string n) unit
unfolding to_string
to_string-IsDuration n unit u = record {
  some_digit = to_string-ne-nil n;
  digits = to_string-AllDigits n;
  unit_known = u;
}

pub to_string-decimal : (n : ℕ) → n < 10 ^ 20 → decimal 0 (to_string n) ≡ n
unfolding to_string
to_string-decimal n h = digits_onto-decimal 20 n [] h

-- The largest unit of at most `ms` milliseconds, in milliseconds.
abbrev pub unit_of : ℕ → ℕ
unit_of ms =
    if ltb ms 60000
    then 1000
    else if ltb ms 3600000
    then 60000
    else if ltb ms 86400000
    then 3600000
    else if ltb ms 604800000
    then 86400000
    else 604800000

parse-unit :
    (ms unit : ℕ)
    → is_unit unit ≡ true
    → ms ≤ max_ms
    → parse_duration (to_string (ms / milliseconds_in unit) ++ unit ∷ [])
      ≡ ok (ms / milliseconds_in unit * milliseconds_in unit)
parse-unit ms unit u h = go (milliseconds_in unit) refl
  where
    go :
        (factor : ℕ)
        → milliseconds_in unit ≡ factor
        → parse_duration (to_string (ms / factor) ++ unit ∷ []) ≡ ok (ms / factor * factor)
    go factor m =
        let q : ℕ = ms / factor in
        let small : q * factor ≤ max_ms = omega (arith, div-mul-le_self ms factor) in
        let exact : decimal 0 (to_string q) * milliseconds_in unit ≡ q * factor =
          cc (to_string-decimal q (omega (arith, div-le_self ms factor))) in
        parse_duration_exact (to_string q) unit (to_string-IsDuration q unit u)
        ∙ rw (exact, not-ltb max_ms (q * factor) small)

digits_then_unit_ms : (ds : Text) → AllDigits ds → digits_then_unit (ds ++ b'm' ∷ b's' ∷ []) ≡ false
unfolding digits_then_unit
digits_then_unit_ms [] h = refl
digits_then_unit_ms (c ∷ []) h = rw h.0
digits_then_unit_ms (c ∷ d ∷ ds) h = rw h.0 (digits_then_unit_ms (d ∷ ds) h.1)

is_valid_duration_ms :
    (ds : Text) → AllDigits ds → is_valid_duration (ds ++ b'm' ∷ b's' ∷ []) ≡ false
unfolding is_valid_duration digits_then_unit
is_valid_duration_ms [] h = refl
is_valid_duration_ms (c ∷ []) h = digits_then_unit_ms (c ∷ []) h
is_valid_duration_ms (c ∷ d ∷ ds) h = digits_then_unit_ms (c ∷ d ∷ ds) h

parse-format_pos :
    (ms : ℕ)
    → ms ≤ max_ms
    → parse_duration (format_duration (pos ms))
      ≡ (if ltb ms 1000 then err invalid_duration else ok (ms / unit_of ms * unit_of ms))
unfolding format_duration
parse-format_pos ms h = elim (Bool-cases (ltb ms 1000)) [
  | inl a ↦ rw a (
      unfold parse_duration to_string in
      rw (is_valid_duration_ms (to_string ms) (to_string-IsDuration ms b's' refl).digits))
  | inr a ↦ rw a (elim (Bool-cases (ltb ms 60000)) [
    | inl b ↦ rw b (parse-unit ms b's' refl h)
    | inr b ↦ rw b (elim (Bool-cases (ltb ms 3600000)) [
      | inl c ↦ rw c (parse-unit ms b'm' refl h)
      | inr c ↦ rw c (elim (Bool-cases (ltb ms 86400000)) [
        | inl d ↦ rw d (parse-unit ms b'h' refl h)
        | inr d ↦ rw d (elim (Bool-cases (ltb ms 604800000)) [
          | inl e ↦ rw e (parse-unit ms b'd' refl h)
          | inr e ↦ rw e (parse-unit ms b'w' refl h)
        ])
      ])
    ])
  ])
]

parse_negative : (ds : Text) → parse_duration (b'-' ∷ ds ++ codes "ms") ≡ err invalid_duration
unfolding parse_duration
parse_negative [] = refl
parse_negative (c ∷ ds) = refl

-- `parse_duration` reads what `format_duration` printed back rounded down to a whole number of the
-- unit that was printed, for every `int64_t`; what was printed for less than a second, or a negative
-- time, with the unit "ms", is refused.
pub parse-format :
    (value : ℤ)
    → value ≤ℤ pos max_ms
    → parse_duration (format_duration value) ≡ (
        if ltb_ℤ value (pos 1000)
        then err invalid_duration
        else ok (pos_part value / unit_of (pos_part value) * unit_of (pos_part value)))
parse-format (pos ms) h = parse-format_pos ms (omega (arith, h)) ∙ ground arith
parse-format (negsuc n) h =
    unfold format_duration in parse_negative (to_string (n + 1)) ∙ ground arith
