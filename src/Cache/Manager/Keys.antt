-- ===== src/Cache/Manager/Keys.antt =====
-- Which tenants share a key of the cache.
use mathlib.Core.List.{append_assoc}
use metal_orm_cpp.Base.{
  ℕ, ◌+◌, ◌<◌, ◌≡◌, ◌≢◌, refl, sym, ap, ◌∙◌, subst, ◌^◌, true, some, [], ◌∷◌, ◌++◌, Text, codes,
  arith, All,
}
use metal_orm_cpp.Base.Int.{ℤ, pos, negsuc}
use metal_orm_cpp.Value.{IsInt64}
use metal_orm_cpp.Cache.Duration.{to_string, int_to_string, is_digit}
use metal_orm_cpp.Cache.Duration.Parse.{AllDigits, decimal}
use metal_orm_cpp.Cache.Duration.Format.{to_string-decimal, to_string-AllDigits}
use metal_orm_cpp.Cache.Manager.{TenantId, number, name, tenant_text, generate_key}

-- No byte of the text is a colon.
abbrev pub NoColon : Text → Type 0
NoColon s = All (λ c. c ≢ b':') s

split_at_colon :
    (s t x y : Text) → NoColon s → NoColon t → s ++ b':' ∷ x ≡ t ++ b':' ∷ y → (s ≡ t) × (x ≡ y)
split_at_colon [] [] x y a b e = (refl, cc)
split_at_colon [] (d ∷ t) x y a b e = absurd (b.0 (cc))
split_at_colon (c ∷ s) [] x y a b e = absurd (a.0 (cc))
split_at_colon (c ∷ s) (d ∷ t) x y a b e =
    let (p, q) = split_at_colon s t x y a.1 b.1 (cc) in (cc, q)

-- Two tenants with no colon in their texts share a key of the cache only if their texts are the
-- same, and then for the same query key.
generate_key_tenants :
    (k k' : Text) (t t' : TenantId)
    → NoColon (tenant_text t)
    → NoColon (tenant_text t')
    → generate_key k (some t) ≡ generate_key k' (some t')
    → (tenant_text t ≡ tenant_text t') × (k ≡ k')
unfolding generate_key
generate_key_tenants k k' t t' a b e = split_at_colon (tenant_text t) (tenant_text t') k k' a b (cc)

NoColon-digits : (ds : Text) → AllDigits ds → NoColon ds
NoColon-digits [] h = tt
NoColon-digits (c ∷ ds) h = (not_colon c h.0, NoColon-digits ds h.1)
  where
    not_colon : (c : ℕ) → is_digit c ≡ true → c ≢ b':'
    not_colon c h e = ground arith

NoColon-int_to_string : (n : ℤ) → NoColon (int_to_string n)
unfolding int_to_string
NoColon-int_to_string (pos n) = NoColon-digits (to_string n) (to_string-AllDigits n)
NoColon-int_to_string (negsuc n) =
    (omega arith, NoColon-digits (to_string (n + 1)) (to_string-AllDigits (n + 1)))

to_string-injective : (m n : ℕ) → m < 10 ^ 20 → n < 10 ^ 20 → to_string m ≡ to_string n → m ≡ n
to_string-injective m n a b e =
    sym (to_string-decimal m a) ∙ ap (decimal 0) e ∙ to_string-decimal n b

not_minus : (n : ℕ) (s : Text) → to_string n ≢ b'-' ∷ s
not_minus n s e = minus_digit (subst AllDigits e (to_string-AllDigits n)).0
  where
    minus_digit : is_digit b'-' ≢ true
    minus_digit h = cc

int_to_string-injective :
    (m n : ℤ) → IsInt64 m → IsInt64 n → int_to_string m ≡ int_to_string n → m ≡ n
unfolding int_to_string
int_to_string-injective (pos m) (pos n) a b e =
    ap pos (to_string-injective m n (omega arith) (omega arith) e)
int_to_string-injective (pos m) (negsuc n) a b e = absurd (not_minus m _ e)
int_to_string-injective (negsuc m) (pos n) a b e = absurd (not_minus n _ (sym e))
int_to_string-injective (negsuc m) (negsuc n) a b e =
    let same : m + 1 ≡ n + 1 =
      to_string-injective (m + 1) (n + 1) (omega arith) (omega arith) (cc) in
    ap negsuc (omega arith)

-- Numbered tenants never share a key of the cache: two keys are equal only for the same tenant and
-- the same query key.
pub generate_key_numbers :
    (k k' : Text) (n n' : ℤ)
    → IsInt64 n
    → IsInt64 n'
    → generate_key k (some (number n)) ≡ generate_key k' (some (number n'))
    → (n ≡ n') × (k ≡ k')
unfolding tenant_text
generate_key_numbers k k' n n' a b e =
    let (p, q) =
      generate_key_tenants k k' (number n) (number n') (NoColon-int_to_string n)
        (NoColon-int_to_string n') e in
    (int_to_string-injective n n' a b p, q)

-- Named tenants can: a tenant whose name has a colon shares keys with the tenant named by what
-- stands before the colon, for every query key.
pub generate_key_collision :
    (a b k : Text)
    → generate_key k (some (name (a ++ (b':' ∷ b))))
      ≡ generate_key (b ++ (b':' ∷ k)) (some (name a))
unfolding generate_key tenant_text
generate_key_collision a b k = ap (λ s. codes "tenant:" ++ s) (append_assoc a (b':' ∷ b) (b':' ∷ k))
