-- ===== src/Config/Levels.antt =====
-- The parser (src/config_parser.cc) on the marks between statements, and the text of one level.
use ucla_bathroom_ratings.Base.{
  Bytes, ℕ, suc, ◌≡◌, refl, ap, ◌∙◌, ◌≢◌, ◌⊎◌, inl, inr, true, List, [], ◌∷◌, ◌++◌, append_assoc,
}
use ucla_bathroom_ratings.Config.Syntax.{
  NginxConfigStatement, NginxConfig, indent, join_tokens, statement_to_string, to_string, simple,
  block, nil, cons,
}
use ucla_bathroom_ratings.Config.Lexer.{
  TokenType, is_token_delimiter, is_whitespace, lexed, lex_first, parse_token, start, start_block,
  end_block, statement_end,
}
use ucla_bathroom_ratings.Config.Parser.{
  is_valid_token_predecessor, can_follow_with_token, ends_statement, Frame, ParserState,
  close_frame, round, next,
}
use ucla_bathroom_ratings.Config.Run.{run}
use ucla_bathroom_ratings.Config.Statements.{
  run-lexed, run_space, Fresh, within, open_last-append, join_tokens-append,
}

abbrev pub end_of : NginxConfigStatement → TokenType
end_of (simple ts) = statement_end
end_of (block ts c) = end_block

-- The last token's type behind a printed configuration.
abbrev pub last_of : TokenType → NginxConfig → TokenType
last_of l nil = l
last_of l (cons s c) = last_of (end_of s) c

ends_statement-end_of : (s : NginxConfigStatement) → ends_statement (end_of s) ≡ true
ends_statement-end_of (simple ts) = refl
ends_statement-end_of (block ts c) = refl

pub ends_statement-last_of :
    (l : TokenType) (c : NginxConfig)
    → (ends_statement l ≡ true) ⊎ (c ≢ nil)
    → ends_statement (last_of l c) ≡ true
ends_statement-last_of l nil (inl h) = h
ends_statement-last_of l nil (inr h) = absurd (h refl)
ends_statement-last_of l (cons s c) h =
    ends_statement-last_of (end_of s) c (inl (ends_statement-end_of s))

pub Fresh-end_of : (s : NginxConfigStatement) → Fresh (end_of s)
Fresh-end_of (simple ts) = (unfold can_follow_with_token in refl, refl)
Fresh-end_of (block ts c) = (unfold can_follow_with_token in refl, refl)

abbrev pub at_level : List NginxConfigStatement → List Frame → TokenType → ParserState
at_level ss fs l = record { top = ss; below = fs; last_token_type = l }

-- `;` or `{` or `}`, and the newline behind it.
read_mark :
    (st st' : ParserState) (t : TokenType) (c : ℕ) (rest : Bytes)
    → ((s : Bytes) → parse_token (c ∷ s) ≡ lexed t (c ∷ []) s)
    → round st t (c ∷ []) ≡ next st'
    → run st (c ∷ b'\n' ∷ rest) ≡ run st' rest
read_mark st st' t c rest e f =
    run-lexed st st' (c ∷ b'\n' ∷ rest) t (c ∷ []) (b'\n' ∷ rest) (e (b'\n' ∷ rest)) f
    ∙ run_space st' b'\n' rest (unfold is_whitespace in refl)

parse_token-marks :
    (s : Bytes)
    → (parse_token (b';' ∷ s) ≡ lexed statement_end (b';' ∷ []) s)
      × (parse_token (b'{' ∷ s) ≡ lexed start_block (b'{' ∷ []) s)
      × (parse_token (b'}' ∷ s) ≡ lexed end_block (b'}' ∷ []) s)
unfolding parse_token lex_first is_whitespace
parse_token-marks s = (refl, refl, refl)

module _ (ss : List NginxConfigStatement) (fs : List Frame) where
  pub read_statement_end :
      (ts : List Bytes) (rest : Bytes)
      → run (within ss fs ts) (b';' ∷ b'\n' ∷ rest)
        ≡ run (at_level (ss ++ (simple ts ∷ [])) fs statement_end) rest
  read_statement_end ts rest =
      read_mark (within ss fs ts) (at_level (ss ++ (simple ts ∷ [])) fs statement_end) statement_end
        b';' rest (λ s. (parse_token-marks s).0) (unfold round is_valid_token_predecessor in refl)

  pub read_start_block :
      (ts : List Bytes) (rest : Bytes)
      → run (within ss fs ts) (b' ' ∷ b'{' ∷ b'\n' ∷ rest)
        ≡ run (at_level [] (record { before = ss; opener = ts } ∷ fs) start_block) rest
  read_start_block ts rest =
      run_space (within ss fs ts) b' ' _ (unfold is_whitespace in refl)
      ∙ read_mark (within ss fs ts)
          (at_level [] (record { before = ss; opener = ts } ∷ fs) start_block) start_block b'{' rest
          (λ s. (parse_token-marks s).1)
          (unfold round is_valid_token_predecessor in
            ap (λ (f : Frame). next (at_level [] (f ∷ fs) start_block)) (open_last-append ss ts))

  pub read_end_block :
      (f : Frame) (l : TokenType) (rest : Bytes)
      → ends_statement l ≡ true
      → run (at_level ss (f ∷ fs) l) (b'}' ∷ b'\n' ∷ rest)
        ≡ run (at_level (close_frame f ss) fs end_block) rest
  read_end_block f l rest h =
      read_mark (at_level ss (f ∷ fs) l) (at_level (close_frame f ss) fs end_block) end_block b'}'
        rest (λ s. (parse_token-marks s).2) (unfold round in rw h)

-- The text of one level, with everything behind it to the right.
pub statement_to_string-simple :
    (n : ℕ) (ts : List Bytes) (rest : Bytes)
    → statement_to_string n (simple ts) ++ rest ≡ indent n ++ join_tokens ts (b';' ∷ b'\n' ∷ rest)
unfolding statement_to_string
statement_to_string-simple n ts rest =
    append_assoc (indent n) _ rest
    ∙ ap (λ (x : Bytes). indent n ++ x) (join_tokens-append ts (b';' ∷ b'\n' ∷ []) rest)

pub statement_to_string-block :
    (n : ℕ) (ts : List Bytes) (c : NginxConfig) (rest : Bytes)
    → statement_to_string n (block ts c) ++ rest
      ≡ indent n
        ++ join_tokens ts
            (b' ' ∷ b'{' ∷ b'\n' ∷ (to_string (suc n) c ++ (indent n ++ (b'}' ∷ b'\n' ∷ rest))))
unfolding statement_to_string
statement_to_string-block n ts c rest =
    append_assoc (indent n) _ rest
    ∙ ap (λ (x : Bytes). indent n ++ x) (join_tokens-append ts _ rest)
    ∙ ap (λ (x : Bytes). indent n ++ join_tokens ts (b' ' ∷ b'{' ∷ b'\n' ∷ x))
        (append_assoc (to_string (suc n) c) _ rest
          ∙ ap (λ (x : Bytes). to_string (suc n) c ++ x) (append_assoc (indent n) _ rest))

pub to_string-cons :
    (n : ℕ) (s : NginxConfigStatement) (c : NginxConfig) (rest : Bytes)
    → to_string n (cons s c) ++ rest ≡ statement_to_string n s ++ (to_string n c ++ rest)
unfolding to_string
to_string-cons n s c rest = append_assoc (statement_to_string n s) (to_string n c) rest

pub to_string-nil : (n : ℕ) (rest : Bytes) → to_string n nil ++ rest ≡ rest
unfolding to_string
to_string-nil n rest = refl

pub Fresh-start : Fresh start
unfolding can_follow_with_token
Fresh-start = (refl, refl)

pub semicolon_delimits : is_token_delimiter b';' ≡ true
unfolding is_token_delimiter
semicolon_delimits = refl

pub space_delimits : is_token_delimiter b' ' ≡ true
unfolding is_token_delimiter
space_delimits = refl

pub Fresh-start_block : Fresh start_block
unfolding can_follow_with_token
Fresh-start_block = (refl, refl)
