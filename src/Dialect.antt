-- ===== src/Dialect.antt =====
-- include/metal/query/core_types.hpp: the dialects.
use metal_orm_cpp.Base.{ℕ, Bool, true, false, ◌+◌, ◌==◌, [], ◌∷◌, ◌++◌, Text, codes, if◌then◌else◌}
use metal_orm_cpp.Cache.Duration.{to_string}

-- The loop of `quote_ansi_identifier` over the characters.
unfoldable pub double_quotes : Text → Text
double_quotes [] = []
double_quotes (c ∷ cs) =
    let rest = double_quotes cs in if c == b'"' then b'"' ∷ b'"' ∷ rest else c ∷ rest

unfoldable pub quote_ansi_identifier : Text → Text
unfolding double_quotes
quote_ansi_identifier id = b'"' ∷ (double_quotes id ++ b'"' ∷ [])

pub data DialectFamily : Type 0 where
  generic sqlite postgresql : DialectFamily

unfoldable pub is_postgresql : DialectFamily → Bool
is_postgresql postgresql = true
is_postgresql f = false

pub record Dialect : Type 0 where
  pub family : DialectFamily
  pub quote_identifier : Text → Text
  pub placeholder : ℕ → Text

-- `PlaceholderOffsetDialect`.
unfoldable pub offset_placeholders : Dialect → ℕ → Dialect
offset_placeholders d offset = record {
  family = d.family;
  quote_identifier = d.quote_identifier;
  placeholder = λ i. d.placeholder (offset + i);
}

unfoldable pub sqlite_dialect : Dialect
unfolding quote_ansi_identifier
sqlite_dialect = record {
  family = sqlite;
  quote_identifier = quote_ansi_identifier;
  placeholder = λ i. codes "?";
}

-- Indexes are one-based; `placeholder(0)`, which throws, is not asked for.
unfoldable pub postgres_dialect : Dialect
unfolding quote_ansi_identifier to_string
postgres_dialect = record {
  family = postgresql;
  quote_identifier = quote_ansi_identifier;
  placeholder = λ i. b'$' ∷ to_string i;
}
