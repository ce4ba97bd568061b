-- ===== src/Config/Printable.antt =====
-- The tokens, statements and configurations that `ToString` writes in a form that `Parse`
-- (src/config_parser.cc) can read.
use ucla_bathroom_ratings.Base.{
  ◌==◌, All, Bytes, ℕ, ◌≡◌, ◌≢◌, ◌⊎◌, Bool, true, false, not, ◌||◌, List, [], ◌∷◌,
}
use ucla_bathroom_ratings.Config.Syntax.{
  NginxConfigStatement, NginxConfig, simple, block, nil, cons,
}
use ucla_bathroom_ratings.Config.Lexer.{is_token_delimiter, is_whitespace}

-- A byte that begins a plain word.
unfoldable pub starts_word : ℕ → Bool
unfolding is_whitespace
starts_word c =
    not (
      is_whitespace c
      || c == b'{'
      || c == b'}'
      || c == b'#'
      || c == b'"'
      || c == b'\''
      || c == b';')

-- What follows an opening quote `q`, up to the closing one.
pub data IsQuoted (q : ℕ) : Bytes → Type 0 where
  closed : {c : ℕ} → c ≡ q → IsQuoted q (c ∷ [])
  escaped : {c d : ℕ} {s : Bytes} → c ≡ b'\\' → IsQuoted q s → IsQuoted q (c ∷ d ∷ s)
  plain : {c : ℕ} {s : Bytes} → c ≢ b'\\' → c ≢ q → IsQuoted q s → IsQuoted q (c ∷ s)

pub data IsToken : Bytes → Type 0 where
  word :
      {c : ℕ} {s : Bytes}
      → starts_word c ≡ true
      → All (λ x. is_token_delimiter x ≡ false) s
      → IsToken (c ∷ s)
  quoted : {c : ℕ} {s : Bytes} → (c ≡ b'"') ⊎ (c ≡ b'\'') → IsQuoted c s → IsToken (c ∷ s)

abbrev pub IsTokens : List Bytes → Type 0
IsTokens ts = (ts ≢ []) × All IsToken ts

mutual
  pub data IsPrintableStatement : NginxConfigStatement → Type 0 where
    simple_ok : {ts : List Bytes} → IsTokens ts → IsPrintableStatement (simple ts)
    block_ok :
        {ts : List Bytes} {c : NginxConfig}
        → IsTokens ts
        → c ≢ nil
        → IsPrintable c
        → IsPrintableStatement (block ts c)

  pub data IsPrintable : NginxConfig → Type 0 where
    nil_ok : IsPrintable nil
    cons_ok :
        {s : NginxConfigStatement} {c : NginxConfig}
        → IsPrintableStatement s
        → IsPrintable c
        → IsPrintable (cons s c)
