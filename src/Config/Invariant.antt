-- ===== src/Config/Invariant.antt =====
-- The invariant of the loop of `Parse` (src/config_parser.cc), kept by the changes of its stack.
use ucla_bathroom_ratings.Base.{
  All, All-append, Bytes, ◌≡◌, refl, ◌≢◌, true, ◌||◌, List, [], ◌∷◌, ◌++◌, arith,
}
use ucla_bathroom_ratings.Config.Syntax.{NginxConfigStatement, tokens, of_statements, simple, nil}
use ucla_bathroom_ratings.Config.Lexer.{TokenType, start, start_block}
use ucla_bathroom_ratings.Config.Parser.{
  is_valid_token_predecessor, ends_statement, Frame, ParserState, push_token, push_to_last,
  open_last, close_frame,
}
use ucla_bathroom_ratings.Config.Printable.{
  IsToken, IsTokens, IsPrintableStatement, IsPrintable, simple_ok, block_ok, nil_ok, cons_ok,
}

-- Behind these tokens there is a last statement.
abbrev pub Occupied : TokenType → List NginxConfigStatement → Type 0
Occupied start ss = Unit
Occupied start_block ss = Unit
Occupied t ss = ss ≢ []

abbrev pub AllPrintable : List NginxConfigStatement → Type 0
AllPrintable ss = All IsPrintableStatement ss

pub record FrameOk (f : Frame) : Type 0 where
  pub before_ok : AllPrintable f.before
  pub opener_ok : IsTokens f.opener

pub record Inv (st : ParserState) : Type 0 where
  pub top_ok : AllPrintable st.top
  pub below_ok : All FrameOk st.below
  pub occupied : Occupied st.last_token_type st.top

pub append-ne-nil : {A : Type 0} (xs : List A) (x : A) → xs ++ (x ∷ []) ≢ []
append-ne-nil [] x = cc
append-ne-nil (y ∷ xs) x = cc

IsTokens-append :
    (ts : List Bytes) (t : Bytes) → All IsToken ts → IsToken t → IsTokens (ts ++ (t ∷ []))
IsTokens-append ts t h k = (append-ne-nil ts t, All-append IsToken ts (t ∷ []) h (k, tt))

push_token-ok :
    (t : Bytes) (s : NginxConfigStatement)
    → IsToken t
    → IsPrintableStatement s
    → IsPrintableStatement (push_token t s)
unfolding push_token
push_token-ok t s h (simple_ok {ts} k) = simple_ok (IsTokens-append ts t k.1 h)
push_token-ok t s h (block_ok {ts} k ne c) = block_ok (IsTokens-append ts t k.1 h) ne c

pub push_to_last-ok :
    (t : Bytes) (ss : List NginxConfigStatement)
    → IsToken t
    → AllPrintable ss
    → AllPrintable (push_to_last t ss)
unfolding push_to_last
push_to_last-ok t [] h k = tt
push_to_last-ok t (s ∷ []) h k = (push_token-ok t s h k.0, tt)
push_to_last-ok t (s ∷ s' ∷ ss) h k = (k.0, push_to_last-ok t (s' ∷ ss) h k.1)

-- A new statement has no token until the word is pushed.
pub push_to_last-new :
    (t : Bytes) (ss : List NginxConfigStatement)
    → IsToken t
    → AllPrintable ss
    → AllPrintable (push_to_last t (ss ++ (simple [] ∷ [])))
unfolding push_to_last push_token
push_to_last-new t [] h k = (simple_ok (IsTokens-append [] t tt h), tt)
push_to_last-new t (s ∷ []) h k = (k.0, (simple_ok (IsTokens-append [] t tt h), tt))
push_to_last-new t (s ∷ s' ∷ ss) h k = (k.0, push_to_last-new t (s' ∷ ss) h k.1)

pub push_to_last-ne-nil :
    (t : Bytes) (ss : List NginxConfigStatement) → ss ≢ [] → push_to_last t ss ≢ []
unfolding push_to_last
push_to_last-ne-nil t [] h = absurd (h refl)
push_to_last-ne-nil t (s ∷ []) h = cc
push_to_last-ne-nil t (s ∷ s' ∷ ss) h = cc

tokens-ok : {s : NginxConfigStatement} → IsPrintableStatement s → IsTokens (tokens s)
unfolding tokens
tokens-ok (simple_ok k) = k
tokens-ok (block_ok k ne c) = k

pub open_last-ok :
    (ss : List NginxConfigStatement) → ss ≢ [] → AllPrintable ss → FrameOk (open_last ss)
unfolding open_last
open_last-ok [] ne h = absurd (ne refl)
open_last-ok (s ∷ []) ne h = record { before_ok = tt; opener_ok = tokens-ok h.0 }
open_last-ok (s ∷ s' ∷ ss) ne h =
    let f = open_last-ok (s' ∷ ss) (λ e. cc) h.1 in
    record { before_ok = (h.0, f.before_ok); opener_ok = f.opener_ok }

pub of_statements-ok :
    (ss : List NginxConfigStatement) → AllPrintable ss → IsPrintable (of_statements ss)
of_statements-ok [] h = nil_ok
of_statements-ok (s ∷ ss) h = cons_ok h.0 (of_statements-ok ss h.1)

pub of_statements-ne-nil : (ss : List NginxConfigStatement) → ss ≢ [] → of_statements ss ≢ nil
of_statements-ne-nil [] h = absurd (h refl)
of_statements-ne-nil (s ∷ ss) h = cc

pub close_frame-ok :
    (f : Frame) (ss : List NginxConfigStatement)
    → FrameOk f
    → ss ≢ []
    → AllPrintable ss
    → AllPrintable (close_frame f ss)
close_frame-ok f ss h ne k =
    All-append IsPrintableStatement f.before _ h.before_ok
      (block_ok h.opener_ok (of_statements-ne-nil ss ne) (of_statements-ok ss k), tt)

pub Occupied-of_ends :
    (t : TokenType) (ss : List NginxConfigStatement)
    → (ends_statement t || is_valid_token_predecessor t) ≡ true
    → Occupied t ss
    → ss ≢ []
unfolding is_valid_token_predecessor
Occupied-of_ends start ss h o = absurd (ground arith)
Occupied-of_ends start_block ss h o = absurd (ground arith)
Occupied-of_ends t ss h o = o
