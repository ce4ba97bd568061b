-- ===== src/Config/Sound.antt =====
-- What `Parse` (src/config_parser.cc) accepts is printable: an invariant of its loop.
use ucla_bathroom_ratings.Base.{
  Bool-cases, length, is_empty, All, Bytes, ℕ, zero, suc, ◌≡◌, refl, ◌≢◌, inl, inr, Bool, true,
  false, Option, some, List, [], ◌∷◌, arith,
}
use ucla_bathroom_ratings.Config.Syntax.{NginxConfigStatement, NginxConfig, simple, nil}
use ucla_bathroom_ratings.Config.Lexer.{
  TokenType, parse_token, normal, start_block, end_block, comment, statement_end, eof, error,
  quoted_string,
}
use ucla_bathroom_ratings.Config.Parser.{
  is_valid_token_predecessor, can_follow_with_token, ends_statement, Frame, ParserState, unwind,
  Round, on_normal, on_end_block, round, parse_loop, initial, parse, next, done,
}
use ucla_bathroom_ratings.Config.Printable.{IsToken, IsPrintable}
use ucla_bathroom_ratings.Config.LexerSound.{parse_token-IsToken}
use ucla_bathroom_ratings.Config.Run.{Round-cases}
use ucla_bathroom_ratings.Config.Invariant.{
  Occupied, AllPrintable, FrameOk, Inv, append-ne-nil, push_to_last-ok, push_to_last-new,
  push_to_last-ne-nil, open_last-ok, of_statements-ok, of_statements-ne-nil, close_frame-ok,
  Occupied-of_ends,
}

abbrev InvRound : Round → Type 0
InvRound (next st) = Inv st
InvRound (done b) = Unit

abbrev state : List NginxConfigStatement → List Frame → TokenType → ParserState
state ss fs l = record { top = ss; below = fs; last_token_type = l }

on_normal-Inv :
    (l : TokenType) (ss : List NginxConfigStatement) (fs : List Frame) (v : Bytes)
    → IsToken v
    → AllPrintable ss
    → All FrameOk fs
    → Occupied l ss
    → InvRound (on_normal (state ss fs l) v)
unfolding can_follow_with_token
on_normal-Inv comment ss fs v h k f o = tt
on_normal-Inv eof ss fs v h k f o = tt
on_normal-Inv error ss fs v h k f o = tt
on_normal-Inv normal ss fs v h k f o = record {
  top_ok = push_to_last-ok v ss h k;
  below_ok = f;
  occupied = push_to_last-ne-nil v ss o;
}
on_normal-Inv l ss fs v h k f o = record {
  top_ok = push_to_last-new v ss h k;
  below_ok = f;
  occupied = push_to_last-ne-nil v _ (append-ne-nil ss (simple []));
}

statement_end-Inv :
    (l : TokenType) (ss : List NginxConfigStatement) (fs : List Frame) (v : Bytes)
    → AllPrintable ss
    → All FrameOk fs
    → Occupied l ss
    → InvRound (round (state ss fs l) statement_end v)
unfolding round is_valid_token_predecessor
statement_end-Inv normal ss fs v k f o = record { top_ok = k; below_ok = f; occupied = o }
statement_end-Inv quoted_string ss fs v k f o = record { top_ok = k; below_ok = f; occupied = o }
statement_end-Inv l ss fs v k f o = tt

start_block-Inv :
    (l : TokenType) (ss : List NginxConfigStatement) (fs : List Frame) (v : Bytes)
    → AllPrintable ss
    → All FrameOk fs
    → Occupied l ss
    → InvRound (round (state ss fs l) start_block v)
unfolding round is_valid_token_predecessor
start_block-Inv normal ss fs v k f o = record {
  top_ok = tt;
  below_ok = (open_last-ok ss o k, f);
  occupied = tt;
}
start_block-Inv quoted_string ss fs v k f o = record {
  top_ok = tt;
  below_ok = (open_last-ok ss o k, f);
  occupied = tt;
}
start_block-Inv l ss fs v k f o = tt

on_end_block-Inv :
    (l : TokenType) (ss : List NginxConfigStatement) (fs : List Frame)
    → AllPrintable ss
    → All FrameOk fs
    → ss ≢ []
    → InvRound (on_end_block (state ss fs l) fs)
on_end_block-Inv l ss [] k f o = tt
on_end_block-Inv l ss (g ∷ fs) k f o = record {
  top_ok = close_frame-ok g ss f.0 o k;
  below_ok = f.1;
  occupied = append-ne-nil g.before _;
}

end_block-Inv :
    (l : TokenType) (ss : List NginxConfigStatement) (fs : List Frame) (v : Bytes)
    → AllPrintable ss
    → All FrameOk fs
    → Occupied l ss
    → InvRound (round (state ss fs l) end_block v)
unfolding round
end_block-Inv statement_end ss fs v k f o = on_end_block-Inv statement_end ss fs k f o
end_block-Inv end_block ss fs v k f o = on_end_block-Inv end_block ss fs k f o
end_block-Inv l ss fs v k f o = tt

eof-Inv : (st : ParserState) (v : Bytes) → InvRound (round st eof v)
unfolding round
eof-Inv st v = elim (Bool-cases (ends_statement st.last_token_type)) [
  | inr a ↦ rw a tt
  | inl a ↦ elim (Bool-cases (is_empty st.below)) [ inr b ↦ rw (a, b) tt | inl b ↦ rw (a, b) tt ]
]

round-Inv :
    (st : ParserState) (t : TokenType) (v : Bytes)
    → (t ≡ normal → IsToken v)
    → Inv st
    → InvRound (round st t v)
unfolding round
round-Inv st normal v h i =
    on_normal-Inv st.last_token_type st.top st.below v (h refl) i.top_ok i.below_ok i.occupied
round-Inv st statement_end v h i =
    statement_end-Inv st.last_token_type st.top st.below v i.top_ok i.below_ok i.occupied
round-Inv st start_block v h i =
    start_block-Inv st.last_token_type st.top st.below v i.top_ok i.below_ok i.occupied
round-Inv st end_block v h i =
    end_block-Inv st.last_token_type st.top st.below v i.top_ok i.below_ok i.occupied
round-Inv st comment v h i = i
round-Inv st eof v h i = eof-Inv st v
round-Inv st t v h i = tt

-- The loop accepts behind a whole statement, with no block open.
is_empty-eq-nil : {A : Type 0} (xs : List A) → is_empty xs ≡ true → xs ≡ []
is_empty-eq-nil [] h = refl
is_empty-eq-nil (x ∷ xs) h = absurd (ground arith)

on_end_block-ne : (st : ParserState) (fs : List Frame) → on_end_block st fs ≢ done true
on_end_block-ne st [] = cc
on_end_block-ne st (f ∷ fs) = cc

round_accepts :
    (st : ParserState) (t : TokenType) (v : Bytes)
    → round st t v ≡ done true
    → (ends_statement st.last_token_type ≡ true) × (st.below ≡ [])
unfolding round
round_accepts st eof v e = (ground arith, is_empty-eq-nil st.below (ground arith))
round_accepts st normal v e = absurd (ground arith)
round_accepts st end_block v e = absurd (ground (arith, on_end_block-ne st st.below))
round_accepts st t v e = absurd (ground arith)

abbrev Sound : Option (Bool × NginxConfig) → Type 0
Sound (some (true, c)) = IsPrintable c × (c ≢ nil)
Sound _ = Unit

done-Sound :
    (st : ParserState) (b : Bool) (t : TokenType) (v : Bytes)
    → round st t v ≡ done b
    → Inv st
    → Sound (some (b, unwind st.top st.below))
done-Sound st false t v e i = tt
done-Sound st true t v e i =
    let (ended, empty) = round_accepts st t v e in
    let ne = Occupied-of_ends st.last_token_type st.top (rw ended) i.occupied in
    rw empty (unfold unwind in (of_statements-ok st.top i.top_ok, of_statements-ne-nil st.top ne))

parse_loop-Sound : (f : ℕ) (st : ParserState) (s : Bytes) → Inv st → Sound (parse_loop f st s)
unfolding parse_loop
parse_loop-Sound zero st s i = tt
parse_loop-Sound (suc f) st s i =
    let kept = round-Inv st (parse_token s).type (parse_token s).value (parse_token-IsToken s) i in
    elim (Round-cases (round st (parse_token s).type (parse_token s).value)) [
      | inl (st', e) ↦
          rw (e, parse_loop) (parse_loop-Sound f st' (parse_token s).rest (rw e at kept))
      | inr (b, e) ↦ rw (e, parse_loop) (done-Sound st b _ _ e i)
    ]

initial-Inv : Inv initial
initial-Inv = record { top_ok = tt; below_ok = tt; occupied = tt }

parse-Sound : (s : Bytes) → Sound (parse s)
unfolding parse
parse-Sound s = parse_loop-Sound (suc (length s)) initial s initial-Inv

-- Whatever text `Parse` accepts, the configuration that it leaves is not empty, each of its
-- statements has at least one token, each token is a plain word or a closed quotation, and no
-- block in it is empty.
pub parse-IsPrintable :
    (s : Bytes) (c : NginxConfig) → parse s ≡ some (true, c) → IsPrintable c × (c ≢ nil)
parse-IsPrintable s c e = rw e at (parse-Sound s)
