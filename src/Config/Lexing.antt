-- ===== src/Config/Lexing.antt =====
-- `ParseToken` (src/config_parser.cc) on a token that a delimiter follows.
use ucla_bathroom_ratings.Base.{
  All, Bytes, ℕ, ◌≡◌, ◌≢◌, true, false, [], ◌∷◌, ◌++◌, append_assoc, append-nil, arith,
}
use ucla_bathroom_ratings.Config.Lexer.{
  is_token_delimiter, is_whitespace, lexed, lex_quoted, lex_normal, lex_first, parse_token, normal,
}
use ucla_bathroom_ratings.Config.Printable.{
  starts_word, IsQuoted, IsToken, closed, escaped, plain, word, quoted,
}

module _ (d : ℕ) (rest : Bytes) (delimiter : is_token_delimiter d ≡ true) where
  lex_normal-append :
      (v s : Bytes)
      → All (λ x. is_token_delimiter x ≡ false) s
      → lex_normal v (s ++ (d ∷ rest)) ≡ lexed normal (v ++ s) (d ∷ rest)
  unfolding lex_normal
  lex_normal-append v [] h = rw append-nil (rw delimiter)
  lex_normal-append v (c ∷ s) (h, hs) =
      ground (arith, lex_normal-append (v ++ (c ∷ [])) s hs, append_assoc v (c ∷ []) s)

  lex_quoted-append :
      (q : ℕ) (v : Bytes) {s : Bytes}
      → q ≢ b'\\'
      → IsQuoted q s
      → lex_quoted q v (s ++ (d ∷ rest)) ≡ lexed normal (v ++ s) (d ∷ rest)
  unfolding lex_quoted
  lex_quoted-append q v n (closed {c} e) = ground arith
  lex_quoted-append q v n (escaped {c} {d = x} {s} e h) =
      ground (arith, lex_quoted-append q (v ++ (c ∷ x ∷ [])) n h, append_assoc v (c ∷ x ∷ []) s)
  lex_quoted-append q v n (plain {c} {s = []} e f h) = elim h [ ]
  lex_quoted-append q v n (plain {c} {s = x ∷ s} e f h) =
      ground (arith, lex_quoted-append q (v ++ (c ∷ [])) n h, append_assoc v (c ∷ []) (x ∷ s))

  -- A printable token is read back whole, up to the delimiter.
  pub parse_token-append :
      {t : Bytes} → IsToken t → parse_token (t ++ (d ∷ rest)) ≡ lexed normal t (d ∷ rest)
  parse_token-append (word {c} {s} h hs) =
      unfold parse_token lex_first starts_word in ground (arith, lex_normal-append (c ∷ []) s hs)
  parse_token-append (quoted {c} {s} h hs) =
      unfold parse_token lex_first is_whitespace in
      ground (arith, lex_quoted-append c (c ∷ []) (ground arith) hs)

pub parse_token_space :
    (c : ℕ) (s : Bytes) → is_whitespace c ≡ true → parse_token (c ∷ s) ≡ parse_token s
unfolding parse_token
parse_token_space c s h = ground arith
