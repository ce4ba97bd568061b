-- ===== src/Config/Syntax.antt =====
-- The parsed configuration and its text form: `NginxConfig`, `NginxConfigStatement` and their
-- `ToString` (include/config_parser.h, src/config_parser.cc). A null `child_block_` is `simple`.
use ucla_bathroom_ratings.Base.{Bytes, ℕ, zero, suc, ◌≡◌, refl, ap, List, [], ◌∷◌, ◌++◌}

mutual
  pub data NginxConfigStatement : Type 0 where
    simple : List Bytes → NginxConfigStatement
    block : List Bytes → NginxConfig → NginxConfigStatement

  pub data NginxConfig : Type 0 where
    nil : NginxConfig
    cons : NginxConfigStatement → NginxConfig → NginxConfig

-- `tokens_`.
unfoldable pub tokens : NginxConfigStatement → List Bytes
tokens (simple ts) = ts
tokens (block ts c) = ts

-- `statements_`, as a list, and back.
abbrev pub statements : NginxConfig → List NginxConfigStatement
statements nil = []
statements (cons s c) = s ∷ statements c

abbrev pub of_statements : List NginxConfigStatement → NginxConfig
of_statements [] = nil
of_statements (s ∷ ss) = cons s (of_statements ss)

pub of_statements-statements : (c : NginxConfig) → of_statements (statements c) ≡ c
of_statements-statements nil = refl
of_statements-statements (cons s c) = ap (cons s) (of_statements-statements c)

-- Two spaces for each level.
unfoldable pub indent : ℕ → Bytes
indent zero = []
indent (suc n) = b' ' ∷ b' ' ∷ indent n

-- The tokens, with one space between two of them, in front of `rest`.
unfoldable pub join_tokens : List Bytes → Bytes → Bytes
join_tokens [] rest = rest
join_tokens (t ∷ []) rest = t ++ rest
join_tokens (t ∷ u ∷ ts) rest = t ++ (b' ' ∷ join_tokens (u ∷ ts) rest)

unfoldable mutual
  unfolding indent join_tokens

  pub statement_to_string : ℕ → NginxConfigStatement → Bytes
  statement_to_string depth (simple ts) = indent depth ++ join_tokens ts (b';' ∷ b'\n' ∷ [])
  statement_to_string depth (block ts c) =
      indent depth
      ++ join_tokens ts
          (b' ' ∷ b'{' ∷ b'\n' ∷ (to_string (suc depth) c ++ (indent depth ++ (b'}' ∷ b'\n' ∷ []))))

  pub to_string : ℕ → NginxConfig → Bytes
  to_string depth nil = []
  to_string depth (cons s c) = statement_to_string depth s ++ to_string depth c
