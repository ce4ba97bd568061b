-- ===== src/Config/Tests.antt =====
-- Runs of the configuration parser (src/config_parser.cc), and its theorems at small texts.
use ucla_bathroom_ratings.Base.{
  All, Bytes, codes, ◌≡◌, refl, ◌≢◌, Bool, true, false, some, [], ◌∷◌, ◌++◌,
}
use ucla_bathroom_ratings.Config.Syntax.{NginxConfig, to_string, simple, block, nil, cons}
use ucla_bathroom_ratings.Config.Lexer.{is_token_delimiter, is_whitespace}
use ucla_bathroom_ratings.Config.Parser.{parse}
use ucla_bathroom_ratings.Config.Printable.{
  starts_word, IsToken, IsTokens, IsPrintable, word, simple_ok, block_ok, nil_ok, cons_ok,
}
use ucla_bathroom_ratings.Config.Run.{parse_total}
use ucla_bathroom_ratings.Config.RoundTrip.{parse-to_string, parse_drops_last_word}
use ucla_bathroom_ratings.Config.Sound.{parse-IsPrintable}

abbrev sample : NginxConfig
sample =
    cons
      (block (codes "server" ∷ []) (
        cons (simple (codes "listen" ∷ codes "80" ∷ []))
          (cons (simple (codes "name" ∷ codes "\"a b\"" ∷ [])) nil)))
      (cons (simple (codes "x" ∷ [])) nil)

to_string-sample : to_string 0 sample ≡ codes "server {\n  listen 80;\n  name \"a b\";\n}\nx;\n"
unfolding to_string
to_string-sample = refl

parse-to_string-sample : parse (to_string 0 sample) ≡ some (true, sample)
unfolding to_string parse
parse-to_string-sample = refl

one_word : (t : Bytes) → IsToken t → IsTokens (t ∷ [])
one_word t h = (cc, (h, tt))

abbrev pair : NginxConfig
pair = cons (block (codes "server" ∷ []) (cons (simple (codes "listen" ∷ codes "80" ∷ [])) nil)) nil

server_word : IsToken (codes "server")
unfolding starts_word is_token_delimiter is_whitespace
server_word = word refl (refl, (refl, (refl, (refl, (refl, tt)))))

listen_word : IsToken (codes "listen")
unfolding starts_word is_token_delimiter is_whitespace
listen_word = word refl (refl, (refl, (refl, (refl, (refl, tt)))))

port_word : IsToken (codes "80")
unfolding starts_word is_token_delimiter is_whitespace
port_word = word refl (refl, tt)

pair-IsPrintable : IsPrintable pair
pair-IsPrintable =
    cons_ok
      (block_ok (one_word (codes "server") server_word) (cc)
        (cons_ok (simple_ok (cc, (listen_word, (port_word, tt)))) nil_ok))
      nil_ok

parse-to_string_example : parse (to_string 0 pair) ≡ some (true, pair)
parse-to_string_example = parse-to_string pair (cc) pair-IsPrintable

parse_total_example : (r : Bool × NginxConfig) × (parse (codes "a { b c") ≡ some r)
parse_total_example = parse_total (codes "a { b c")

pair_parses : parse (codes "server{listen 80;}#end\n") ≡ some (true, pair)
unfolding parse
pair_parses = refl

parse-IsPrintable_example : IsPrintable pair × (pair ≢ nil)
parse-IsPrintable_example = parse-IsPrintable (codes "server{listen 80;}#end\n") pair pair_parses

starts_with_letter : starts_word b'a' ≡ true
unfolding starts_word is_whitespace
starts_with_letter = refl

bc_plain : All (λ y. is_token_delimiter y ≡ false) (codes "bc")
unfolding is_token_delimiter
bc_plain = (refl, (refl, tt))

parse_drops_last_word_example : parse (to_string 0 pair ++ (b'a' ∷ codes "bc")) ≡ some (true, pair)
parse_drops_last_word_example =
    parse_drops_last_word pair b'a' (codes "bc") (cc) pair-IsPrintable starts_with_letter bc_plain
