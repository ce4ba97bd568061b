-- ===== src/Config/Parser.antt =====
-- `NginxConfigParser::Parse` (src/config_parser.cc). `config_stack` points along the last
-- statements of the tree: here its top is the list of the statements read so far at the current
-- level, and each level below keeps what stands before its open block and the tokens of that
-- block.
use ucla_bathroom_ratings.Base.{
  if◌then◌else◌, length, is_empty, Bytes, ℕ, zero, suc, Bool, true, false, not, Option, none, some,
  List, [], ◌∷◌, ◌++◌,
}
use ucla_bathroom_ratings.Config.Syntax.{
  NginxConfigStatement, NginxConfig, tokens, of_statements, simple, block,
}
use ucla_bathroom_ratings.Config.Lexer.{
  TokenType, is_token_delimiter, is_whitespace, lex_quoted, lex_comment, lex_normal, lex_first,
  parse_token, start, normal, start_block, end_block, comment, statement_end, eof, error,
  quoted_string,
}

unfoldable pub is_valid_token_predecessor : TokenType → Bool
is_valid_token_predecessor normal = true
is_valid_token_predecessor quoted_string = true
is_valid_token_predecessor _ = false

unfoldable pub can_follow_with_token : TokenType → Bool
can_follow_with_token start = true
can_follow_with_token statement_end = true
can_follow_with_token start_block = true
can_follow_with_token end_block = true
can_follow_with_token normal = true
can_follow_with_token quoted_string = true
can_follow_with_token _ = false

-- `last_token_type == TOKEN_TYPE_NORMAL`.
abbrev pub is_normal : TokenType → Bool
is_normal normal = true
is_normal _ = false

-- `last_token_type` is `TOKEN_TYPE_STATEMENT_END` or `TOKEN_TYPE_END_BLOCK`.
abbrev pub ends_statement : TokenType → Bool
ends_statement statement_end = true
ends_statement end_block = true
ends_statement _ = false

pub record Frame : Type 0 where
  pub before : List NginxConfigStatement
  pub opener : List Bytes

pub record ParserState : Type 0 where
  pub top : List NginxConfigStatement
  pub below : List Frame
  pub last_token_type : TokenType

unfoldable pub push_token : Bytes → NginxConfigStatement → NginxConfigStatement
push_token t (simple ts) = simple (ts ++ (t ∷ []))
push_token t (block ts c) = block (ts ++ (t ∷ [])) c

-- `statements_.back()->tokens_.push_back(token)`.
unfoldable pub push_to_last : Bytes → List NginxConfigStatement → List NginxConfigStatement
push_to_last t [] = []
push_to_last t (s ∷ []) = push_token t s ∷ []
push_to_last t (s ∷ s' ∷ ss) = s ∷ push_to_last t (s' ∷ ss)

-- `statements_.back()`, whose child is to be replaced, and what stands before it.
unfoldable pub open_last : List NginxConfigStatement → Frame
open_last [] = record { before = []; opener = [] }
open_last (s ∷ []) = record { before = []; opener = tokens s }
open_last (s ∷ s' ∷ ss) = let f = open_last (s' ∷ ss) in record f { before = s ∷ f.before }

abbrev pub close_frame : Frame → List NginxConfigStatement → List NginxConfigStatement
close_frame f ss = f.before ++ (block f.opener (of_statements ss) ∷ [])

-- The whole tree: what `config` points to.
unfoldable pub unwind : List NginxConfigStatement → List Frame → NginxConfig
unwind ss [] = of_statements ss
unwind ss (f ∷ fs) = unwind (close_frame f ss) fs

-- One round of the loop: it goes on in a new state, or returns (after `break`, false).
pub data Round : Type 0 where
  next : ParserState → Round
  done : Bool → Round

abbrev pub on_normal : ParserState → Bytes → Round
on_normal st token =
    if can_follow_with_token st.last_token_type
    then next (record st {
      top =
          push_to_last token
            (if not (is_normal st.last_token_type) then st.top ++ (simple [] ∷ []) else st.top);
      last_token_type = normal;
    })
    else done false

abbrev pub on_end_block : ParserState → List Frame → Round
on_end_block st [] = done false
on_end_block st (f ∷ fs) =
    next (record { top = close_frame f st.top; below = fs; last_token_type = end_block })

unfoldable pub round : ParserState → TokenType → Bytes → Round
round st error token = done false
round st comment token = next st
round st start token = done false
round st normal token = on_normal st token
round st statement_end token =
    if not (is_valid_token_predecessor st.last_token_type)
    then done false
    else next (record st { last_token_type = statement_end })
round st start_block token =
    if not (is_valid_token_predecessor st.last_token_type)
    then done false
    else next
        (record { top = []; below = open_last st.top ∷ st.below; last_token_type = start_block })
round st end_block token =
    if not (ends_statement st.last_token_type) then done false else on_end_block st st.below
round st eof token =
    if not (ends_statement st.last_token_type)
    then done false
    else if not (is_empty st.below)
    then done false
    else done true
round st quoted_string token = done false

-- The loop. The fuel bounds the rounds; `none` means that it ran out.
unfoldable pub parse_loop : ℕ → ParserState → Bytes → Option (Bool × NginxConfig)
parse_loop zero st input = none
parse_loop (suc fuel) st input =
    elim (round st (parse_token input).type (parse_token input).value) [
      | next st' ↦ parse_loop fuel st' (parse_token input).rest
      | done b ↦ some (b, unwind st.top st.below)
    ]

abbrev pub initial : ParserState
initial = record { top = []; below = []; last_token_type = start }

-- `Parse`: its result, and the configuration that it leaves. Each round but the last reads a byte.
unfoldable pub parse : Bytes → Option (Bool × NginxConfig)
unfolding parse_loop parse_token lex_first lex_quoted lex_comment lex_normal is_token_delimiter
    is_whitespace round can_follow_with_token is_valid_token_predecessor push_to_last push_token
    open_last tokens unwind
parse input = parse_loop (suc (length input)) initial input
