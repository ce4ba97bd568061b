-- ===== src/Config/RoundTrip.antt =====
-- `Parse` after `ToString` (src/config_parser.cc).
use ucla_bathroom_ratings.Base.{
  All, Bytes, ℕ, suc, ◌≡◌, refl, sym, ap, ◌∙◌, ◌≢◌, inr, true, false, some, List, [], ◌∷◌, ◌++◌,
  append_assoc, append-nil, arith,
}
use ucla_bathroom_ratings.Config.Syntax.{
  NginxConfigStatement, NginxConfig, statements, of_statements, of_statements-statements, indent,
  statement_to_string, to_string, block, nil,
}
use ucla_bathroom_ratings.Config.Lexer.{
  TokenType, is_token_delimiter, lex_normal, lex_first, parse_token, start, start_block, end_block,
  eof,
}
use ucla_bathroom_ratings.Config.Parser.{
  ends_statement, Frame, ParserState, unwind, round, parse, done,
}
use ucla_bathroom_ratings.Config.Printable.{
  starts_word, IsPrintableStatement, IsPrintable, simple_ok, block_ok, nil_ok, cons_ok,
}
use ucla_bathroom_ratings.Config.Run.{run, parse-run, run-done}
use ucla_bathroom_ratings.Config.Statements.{run-indent, Fresh, run-join_tokens}
use ucla_bathroom_ratings.Config.Levels.{
  end_of, last_of, ends_statement-last_of, Fresh-end_of, at_level, read_statement_end,
  read_start_block, read_end_block, statement_to_string-simple, statement_to_string-block,
  to_string-cons, to_string-nil, Fresh-start, semicolon_delimits, space_delimits, Fresh-start_block,
}

unwind-nil : (ss : List NginxConfigStatement) → unwind ss [] ≡ of_statements ss
unfolding unwind
unwind-nil ss = refl

mutual
  read_statement :
      {s : NginxConfigStatement} (ss : List NginxConfigStatement) (fs : List Frame) (l : TokenType)
      (n : ℕ) (rest : Bytes)
      → Fresh l
      → IsPrintableStatement s
      → run (at_level ss fs l) (statement_to_string n s ++ rest)
        ≡ run (at_level (ss ++ (s ∷ [])) fs (end_of s)) rest
  read_statement ss fs l n rest f (simple_ok {ts} ok) =
      ap (run (at_level ss fs l)) (statement_to_string-simple n ts rest)
      ∙ run-indent (at_level ss fs l) n _
      ∙ run-join_tokens ss fs b';' (b'\n' ∷ rest) semicolon_delimits l ts f ok
      ∙ read_statement_end ss fs ts rest
  read_statement ss fs l n rest f (block_ok {ts} {c} ok ne ok_c) =
      let fr : Frame = record { before = ss; opener = ts } in
      let tail : Bytes = indent n ++ (b'}' ∷ b'\n' ∷ rest) in
      ap (run (at_level ss fs l)) (statement_to_string-block n ts c rest)
      ∙ run-indent (at_level ss fs l) n _
      ∙ run-join_tokens ss fs b' ' (b'{' ∷ b'\n' ∷ (to_string (suc n) c ++ tail)) space_delimits l
          ts f ok
      ∙ read_start_block ss fs ts (to_string (suc n) c ++ tail)
      ∙ read_config [] (fr ∷ fs) start_block (suc n) tail Fresh-start_block ok_c
      ∙ run-indent (at_level (statements c) (fr ∷ fs) (last_of start_block c)) n _
      ∙ read_end_block (statements c) fs fr (last_of start_block c) rest
          (ends_statement-last_of start_block c (inr ne))
      ∙ ap (λ (x : NginxConfig). run (at_level (ss ++ (block ts x ∷ [])) fs end_block) rest)
          (of_statements-statements c)

  read_config :
      {c : NginxConfig} (ss : List NginxConfigStatement) (fs : List Frame) (l : TokenType) (n : ℕ)
      (rest : Bytes)
      → Fresh l
      → IsPrintable c
      → run (at_level ss fs l) (to_string n c ++ rest)
        ≡ run (at_level (ss ++ statements c) fs (last_of l c)) rest
  read_config ss fs l n rest f nil_ok =
      ap (run (at_level ss fs l)) (to_string-nil n rest)
      ∙ ap (λ (x : List NginxConfigStatement). run (at_level x fs l) rest) (sym (append-nil ss))
  read_config ss fs l n rest f (cons_ok {s} {c} ok_s ok_c) =
      ap (run (at_level ss fs l)) (to_string-cons n s c rest)
      ∙ read_statement ss fs l n (to_string n c ++ rest) f ok_s
      ∙ read_config (ss ++ (s ∷ [])) fs (end_of s) n rest (Fresh-end_of s) ok_c
      ∙ ap (λ (x : List NginxConfigStatement). run (at_level x fs (last_of (end_of s) c)) rest)
          (append_assoc ss (s ∷ []) (statements c))

eof_accepts :
    (st : ParserState) (v : Bytes)
    → ends_statement st.last_token_type ≡ true
    → st.below ≡ []
    → round st eof v ≡ done true
unfolding round
eof_accepts st v h e = rw (h, e)

-- A printed configuration, and behind it bytes that make no token.
pub parse-to_string-append :
    (c : NginxConfig) (rest : Bytes)
    → c ≢ nil
    → IsPrintable c
    → (parse_token rest).type ≡ eof
    → parse (to_string 0 c ++ rest) ≡ some (true, c)
parse-to_string-append c rest ne ok e =
    let end : ParserState = at_level (statements c) [] (last_of start c) in
    parse-run (to_string 0 c ++ rest)
    ∙ read_config [] [] start 0 rest Fresh-start ok
    ∙ run-done end true rest
        (rw e (eof_accepts end _ (ends_statement-last_of start c (inr ne)) refl))
    ∙ ap (λ (x : NginxConfig). some (true, x))
        (unwind-nil (statements c) ∙ of_statements-statements c)

parse_token-nil : (parse_token []).type ≡ eof
unfolding parse_token
parse_token-nil = refl

-- For every configuration that is not empty, whose statements all have at least one token, whose
-- tokens are plain words or closed quotations, and whose blocks are not empty: `Parse` accepts the
-- text that `ToString` gives for it, and leaves that same configuration.
pub parse-to_string :
    (c : NginxConfig) → c ≢ nil → IsPrintable c → parse (to_string 0 c) ≡ some (true, c)
parse-to_string c ne ok =
    ap parse (sym (append-nil (to_string 0 c))) ∙ parse-to_string-append c [] ne ok parse_token-nil

lex_normal-eof :
    (v s : Bytes) → All (λ x. is_token_delimiter x ≡ false) s → (lex_normal v s).type ≡ eof
unfolding lex_normal
lex_normal-eof v [] h = refl
lex_normal-eof v (c ∷ s) (h, hs) = rw h (lex_normal-eof (v ++ (c ∷ [])) s hs)

parse_token-eof :
    (c : ℕ) (s : Bytes)
    → starts_word c ≡ true
    → All (λ x. is_token_delimiter x ≡ false) s
    → (parse_token (c ∷ s)).type ≡ eof
unfolding parse_token lex_first starts_word
parse_token-eof c s h hs = ground (arith, lex_normal-eof (c ∷ []) s hs)

-- Behind a printed configuration, as in `parse-to_string`, a plain word that runs to the end of the
-- file, with no `;` and no delimiter in it, is dropped: `Parse` accepts the text, and leaves the
-- configuration without the word.
pub parse_drops_last_word :
    (c : NginxConfig) (x : ℕ) (w : Bytes)
    → c ≢ nil
    → IsPrintable c
    → starts_word x ≡ true
    → All (λ y. is_token_delimiter y ≡ false) w
    → parse (to_string 0 c ++ (x ∷ w)) ≡ some (true, c)
parse_drops_last_word c x w ne ok h hs =
    parse-to_string-append c (x ∷ w) ne ok (parse_token-eof x w h hs)
