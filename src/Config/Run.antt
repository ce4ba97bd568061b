-- ===== src/Config/Run.antt =====
-- The loop of `Parse` (src/config_parser.cc) with no fuel: each round but the last reads a byte.
use ucla_bathroom_ratings.Base.{
  length, Bytes, ℕ, zero, suc, ◌≤◌, ◌<◌, ◌≡◌, refl, ◌≢◌, ◌⊎◌, inl, inr, Bool, Option, some, [], ◌∷◌,
  ◌++◌, arith,
}
use ucla_bathroom_ratings.Config.Syntax.{NginxConfig}
use ucla_bathroom_ratings.Config.Lexer.{
  lex_quoted, lex_comment, lex_normal, lex_first, parse_token, eof,
}
use ucla_bathroom_ratings.Config.Parser.{
  ParserState, unwind, Round, round, parse_loop, initial, parse, next, done,
}

lex_quoted-le : (q : ℕ) (v s : Bytes) → length (lex_quoted q v s).rest ≤ length s
unfolding lex_quoted
lex_quoted-le q v [] = omega arith
lex_quoted-le q v (c ∷ []) = omega arith
lex_quoted-le q v (c ∷ d ∷ s) =
    ground (arith, lex_quoted-le q (v ++ (c ∷ d ∷ [])) s, lex_quoted-le q (v ++ (c ∷ [])) (d ∷ s))

lex_comment-le : (v s : Bytes) → length (lex_comment v s).rest ≤ length s
unfolding lex_comment
lex_comment-le v [] = omega arith
lex_comment-le v (c ∷ s) = ground (arith, lex_comment-le (v ++ (c ∷ [])) s)

lex_normal-le : (v s : Bytes) → length (lex_normal v s).rest ≤ length s
unfolding lex_normal
lex_normal-le v [] = omega arith
lex_normal-le v (c ∷ s) = ground (arith, lex_normal-le (v ++ (c ∷ [])) s)

lex_first-le : (c : ℕ) (s : Bytes) → length (lex_first c s).rest ≤ length s
lex_first-le c s =
    unfold lex_first in
    ground (
      arith,
      lex_comment-le (c ∷ []) s,
      lex_normal-le (c ∷ []) s,
      lex_quoted-le b'"' (c ∷ []) s,
      lex_quoted-le b'\'' (c ∷ []) s,
    )

-- A token that is not the end of the file has at least one byte.
pub parse_token-lt :
    (s : Bytes) → ((parse_token s).type ≡ eof) ⊎ (length (parse_token s).rest < length s)
unfolding parse_token
parse_token-lt [] = inl refl
parse_token-lt (c ∷ s) = ground (arith, parse_token-lt s, lex_first-le c s)

pub Round-cases : (r : Round) → ((st : ParserState) × (r ≡ next st)) ⊎ ((b : Bool) × (r ≡ done b))
Round-cases (next st) = inl (st, refl)
Round-cases (done b) = inr (b, refl)

round_eof : (st st' : ParserState) (v : Bytes) → round st eof v ≢ next st'
unfolding round
round_eof st st' v = ground arith

-- A round that goes on has read a byte.
pub next_reads :
    (st st' : ParserState) (s : Bytes)
    → round st (parse_token s).type (parse_token s).value ≡ next st'
    → length (parse_token s).rest < length s
next_reads st st' s e = elim (parse_token-lt s) [
  | inl ended ↦ absurd (round_eof st st' (parse_token s).value (rw ended at e))
  | inr lt ↦ lt
]

-- Any two amounts of fuel that are enough give the same.
parse_loop-fuel :
    (f g : ℕ) (st : ParserState) (s : Bytes)
    → length s < f
    → length s < g
    → parse_loop f st s ≡ parse_loop g st s
unfolding parse_loop
parse_loop-fuel zero g st s h k = absurd (omega arith)
parse_loop-fuel (suc f) zero st s h k = absurd (omega arith)
parse_loop-fuel (suc f) (suc g) st s h k =
    elim (Round-cases (round st (parse_token s).type (parse_token s).value)) [
      | inl (st', e) ↦
          let lt = next_reads st st' s e in
          rw (e, parse_loop)
            (parse_loop-fuel f g st' (parse_token s).rest (omega arith) (omega arith))
      | inr (b, e) ↦ rw (e, parse_loop)
    ]

-- The loop, on a stream, with the fuel that `parse` gives.
pub run : ParserState → Bytes → Option (Bool × NginxConfig)
run st s = parse_loop (suc (length s)) st s

pub parse-run : (s : Bytes) → parse s ≡ run initial s
unfolding parse run
parse-run s = refl

-- The two ways in which a round ends.
pub run-next :
    (st st' : ParserState) (s : Bytes)
    → round st (parse_token s).type (parse_token s).value ≡ next st'
    → run st s ≡ run st' (parse_token s).rest
unfolding run parse_loop
run-next st st' s e =
    let lt = next_reads st st' s e in
    rw (e, parse_loop)
      (parse_loop-fuel _ (suc (length (parse_token s).rest)) st' (parse_token s).rest (omega arith)
        (omega arith))

pub run-done :
    (st : ParserState) (b : Bool) (s : Bytes)
    → round st (parse_token s).type (parse_token s).value ≡ done b
    → run st s ≡ some (b, unwind st.top st.below)
unfolding run parse_loop
run-done st b s e = rw (e, parse_loop)

parse_loop_total :
    (f : ℕ) (st : ParserState) (s : Bytes)
    → length s < f
    → (r : Bool × NginxConfig) × (parse_loop f st s ≡ some r)
unfolding parse_loop
parse_loop_total zero st s h = absurd (omega arith)
parse_loop_total (suc f) st s h =
    elim (Round-cases (round st (parse_token s).type (parse_token s).value)) [
      | inl (st', e) ↦
          let lt = next_reads st st' s e in
          rw (e, parse_loop) (parse_loop_total f st' (parse_token s).rest (omega arith))
      | inr (b, e) ↦ ((b, unwind st.top st.below), rw (e, parse_loop))
    ]

-- On every input `Parse` returns: the rounds are bounded by the bytes of the input.
pub parse_total : (s : Bytes) → (r : Bool × NginxConfig) × (parse s ≡ some r)
unfolding parse
parse_total s = parse_loop_total (suc (length s)) initial s (omega arith)
