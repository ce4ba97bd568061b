-- ===== src/Config/Statements.antt =====
-- The tokens of one statement, as the loop of `Parse` (src/config_parser.cc) reads them. Each lemma
-- runs the loop over one piece of the text, with any `rest` behind it.
use ucla_bathroom_ratings.Base.{
  All, Bytes, ℕ, zero, suc, ◌≡◌, refl, sym, ap, ◌∙◌, inl, inr, true, false, List, [], ◌∷◌, ◌++◌,
  append_assoc, append-nil, arith,
}
use ucla_bathroom_ratings.Config.Syntax.{NginxConfigStatement, tokens, indent, join_tokens, simple}
use ucla_bathroom_ratings.Config.Lexer.{
  TokenType, is_token_delimiter, is_whitespace, Lexed, lexed, parse_token, normal,
}
use ucla_bathroom_ratings.Config.Parser.{
  can_follow_with_token, is_normal, Frame, ParserState, push_token, push_to_last, open_last, round,
  next,
}
use ucla_bathroom_ratings.Config.Run.{Round-cases, run, run-next, run-done}
use ucla_bathroom_ratings.Config.Printable.{IsToken, IsTokens}
use ucla_bathroom_ratings.Config.Lexing.{parse_token-append, parse_token_space}

pub run-lexed :
    (st st' : ParserState) (s : Bytes) (t : TokenType) (v r : Bytes)
    → parse_token s ≡ lexed t v r
    → round st t v ≡ next st'
    → run st s ≡ run st' r
run-lexed st st' s t v r e f = run-next st st' s (rw e f) ∙ ap (λ (x : Lexed). run st' x.rest) e

run_same : (st : ParserState) (s s' : Bytes) → parse_token s ≡ parse_token s' → run st s ≡ run st s'
run_same st s s' e = elim (Round-cases (round st (parse_token s).type (parse_token s).value)) [
  | inl (st', h) ↦
      run-next st st' s h
      ∙ ap (λ (x : Lexed). run st' x.rest) e
      ∙ sym (run-next st st' s' (rw e at h))
  | inr (b, h) ↦ run-done st b s h ∙ sym (run-done st b s' (rw e at h))
]

pub run_space :
    (st : ParserState) (c : ℕ) (s : Bytes) → is_whitespace c ≡ true → run st (c ∷ s) ≡ run st s
run_space st c s h = run_same st (c ∷ s) s (parse_token_space c s h)

pub run-indent : (st : ParserState) (n : ℕ) (s : Bytes) → run st (indent n ++ s) ≡ run st s
unfolding indent
run-indent st zero s = refl
run-indent st (suc n) s =
    run_space st b' ' (b' ' ∷ (indent n ++ s)) (unfold is_whitespace in refl)
    ∙ run_space st b' ' (indent n ++ s) (unfold is_whitespace in refl)
    ∙ run-indent st n s

-- A state in which a word begins a new statement.
abbrev pub Fresh : TokenType → Type 0
Fresh t = (can_follow_with_token t ≡ true) × (is_normal t ≡ false)

-- The state inside a statement, whose tokens are `ts`.
abbrev pub within : List NginxConfigStatement → List Frame → List Bytes → ParserState
within ss fs ts = record { top = ss ++ (simple ts ∷ []); below = fs; last_token_type = normal }

push_to_last-append :
    (t : Bytes) (ss : List NginxConfigStatement) (ts : List Bytes)
    → push_to_last t (ss ++ (simple ts ∷ [])) ≡ ss ++ (simple (ts ++ (t ∷ [])) ∷ [])
unfolding push_to_last push_token
push_to_last-append t [] ts = refl
push_to_last-append t (s ∷ []) ts = refl
push_to_last-append t (s ∷ s' ∷ ss) ts = ap (◌∷◌ s) (push_to_last-append t (s' ∷ ss) ts)

pub open_last-append :
    (ss : List NginxConfigStatement) (ts : List Bytes)
    → open_last (ss ++ (simple ts ∷ [])) ≡ record { before = ss; opener = ts }
unfolding open_last tokens
open_last-append [] ts = refl
open_last-append (s ∷ []) ts = refl
open_last-append (s ∷ s' ∷ ss) ts =
    ap (λ (f : Frame). record f { before = s ∷ f.before }) (open_last-append (s' ∷ ss) ts)

module _ (ss : List NginxConfigStatement) (fs : List Frame) where
  first_token :
      (l : TokenType) (t : Bytes) (d : ℕ) (rest : Bytes)
      → Fresh l
      → is_token_delimiter d ≡ true
      → IsToken t
      → run (record { top = ss; below = fs; last_token_type = l }) (t ++ (d ∷ rest))
        ≡ run (within ss fs (t ∷ [])) (d ∷ rest)
  first_token l t d rest h delimiter ok =
      run-lexed _ (within ss fs (t ∷ [])) _ normal t (d ∷ rest)
        (parse_token-append d rest delimiter ok)
        (unfold round in ground (arith, push_to_last-append t ss []))

  next_token :
      (ts : List Bytes) (t : Bytes) (d : ℕ) (rest : Bytes)
      → is_token_delimiter d ≡ true
      → IsToken t
      → run (within ss fs ts) (b' ' ∷ (t ++ (d ∷ rest)))
        ≡ run (within ss fs (ts ++ (t ∷ []))) (d ∷ rest)
  next_token ts t d rest delimiter ok =
      run_space (within ss fs ts) b' ' (t ++ (d ∷ rest)) (unfold is_whitespace in refl)
      ∙ run-lexed (within ss fs ts) (within ss fs (ts ++ (t ∷ []))) _ normal t (d ∷ rest)
          (parse_token-append d rest delimiter ok)
          (unfold round can_follow_with_token in ground (arith, push_to_last-append t ss ts))

-- The text behind the first token of a statement.
abbrev after_token : List Bytes → Bytes → Bytes
after_token [] rest = rest
after_token (t ∷ ts) rest = b' ' ∷ join_tokens (t ∷ ts) rest

join_tokens-cons :
    (t : Bytes) (ts : List Bytes) (rest : Bytes)
    → join_tokens (t ∷ ts) rest ≡ t ++ after_token ts rest
unfolding join_tokens
join_tokens-cons t [] rest = refl
join_tokens-cons t (u ∷ ts) rest = refl

-- It begins with a delimiter, if `rest` does.
after_token-head :
    (ts : List Bytes) (d : ℕ) (rest : Bytes)
    → is_token_delimiter d ≡ true
    → (d' : ℕ) × (rest' : Bytes) × (after_token ts (d ∷ rest) ≡ d' ∷ rest')
      × (is_token_delimiter d' ≡ true)
after_token-head [] d rest h = (d, rest, refl, h)
after_token-head (t ∷ ts) d rest h =
    (b' ', join_tokens (t ∷ ts) (d ∷ rest), refl, unfold is_token_delimiter in refl)

pub join_tokens-append :
    (ts : List Bytes) (k rest : Bytes) → join_tokens ts k ++ rest ≡ join_tokens ts (k ++ rest)
unfolding join_tokens
join_tokens-append [] k rest = refl
join_tokens-append (t ∷ []) k rest = append_assoc t k rest
join_tokens-append (t ∷ u ∷ ts) k rest =
    append_assoc t (b' ' ∷ join_tokens (u ∷ ts) k) rest
    ∙ ap (λ (x : Bytes). t ++ (b' ' ∷ x)) (join_tokens-append (u ∷ ts) k rest)

module _ (ss : List NginxConfigStatement) (fs : List Frame) (d : ℕ) (rest : Bytes)
    (delimiter : is_token_delimiter d ≡ true) where
  run-after_token :
      (ts us : List Bytes)
      → All IsToken us
      → run (within ss fs ts) (after_token us (d ∷ rest)) ≡ run (within ss fs (ts ++ us)) (d ∷ rest)
  run-after_token ts [] h = rw append-nil
  run-after_token ts (u ∷ us) (h, hs) =
      let (d', rest', e, k) = after_token-head us d rest delimiter in
      ap (λ (x : Bytes). run (within ss fs ts) (b' ' ∷ x))
        (join_tokens-cons u us (d ∷ rest) ∙ ap (λ (x : Bytes). u ++ x) e)
      ∙ next_token ss fs ts u d' rest' k h
      ∙ ap (λ (x : Bytes). run (within ss fs (ts ++ (u ∷ []))) x) (sym e)
      ∙ run-after_token (ts ++ (u ∷ [])) us hs
      ∙ ap (λ (x : List Bytes). run (within ss fs x) (d ∷ rest)) (append_assoc ts (u ∷ []) us)

  -- The tokens of a statement are read one by one.
  pub run-join_tokens :
      (l : TokenType) (ts : List Bytes)
      → Fresh l
      → IsTokens ts
      → run (record { top = ss; below = fs; last_token_type = l }) (join_tokens ts (d ∷ rest))
        ≡ run (within ss fs ts) (d ∷ rest)
  run-join_tokens l [] f (ne, h) = absurd (ne refl)
  run-join_tokens l (t ∷ ts) f (ne, (h, hs)) =
      let (d', rest', e, k) = after_token-head ts d rest delimiter in
      let at : ParserState = record { top = ss; below = fs; last_token_type = l } in
      ap (run at) (join_tokens-cons t ts (d ∷ rest) ∙ ap (λ (x : Bytes). t ++ x) e)
      ∙ first_token ss fs l t d' rest' f k h
      ∙ ap (run (within ss fs (t ∷ []))) (sym e)
      ∙ run-after_token (t ∷ []) ts hs
