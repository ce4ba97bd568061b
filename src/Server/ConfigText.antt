-- ===== src/Server/ConfigText.antt =====
-- The text of a configuration for a port and some locations, as an operator writes it and as
-- `ToString` (src/config_parser.cc) prints it: its tokens are ones that `Parse` reads back.
use ucla_bathroom_ratings.Base.{
  All, Bytes, codes, same, ℕ, suc, ◌+◌, ◌<◌, ◌≡◌, refl, ◌≢◌, true, false, some, List, [], ◌∷◌,
  arith,
}
use ucla_bathroom_ratings.Base.Map.{IsDistinct}
use ucla_bathroom_ratings.Base.Decimal.{to_decimal, decimal_loop-All}
use ucla_bathroom_ratings.Config.Syntax.{
  NginxConfigStatement, NginxConfig, simple, block, nil, cons,
}
use ucla_bathroom_ratings.Config.Lexer.{is_token_delimiter, is_whitespace}
use ucla_bathroom_ratings.Config.Printable.{
  starts_word, IsToken, IsPrintable, word, simple_ok, block_ok, nil_ok, cons_ok,
}
use ucla_bathroom_ratings.Server.Location.{LocationConfig}
use ucla_bathroom_ratings.Server.Registry.{HandlerFactory, factory_for}
use ucla_bathroom_ratings.Store.Identifiers.{decimal_loop-ne-nil}

-- The arguments of a location, a directive each.
abbrev pub argument_statements : List (Bytes × Bytes) → NginxConfig
argument_statements [] = nil
argument_statements ((k, v) ∷ args) = cons (simple (k ∷ v ∷ [])) (argument_statements args)

abbrev pub location_statement : LocationConfig → NginxConfigStatement
location_statement l =
    block (codes "location" ∷ l.path ∷ [])
      (cons (simple (codes "handler" ∷ l.handler_name ∷ [])) (argument_statements l.args))

abbrev pub location_statements : List LocationConfig → NginxConfig
location_statements [] = nil
location_statements (l ∷ ls) = cons (location_statement l) (location_statements ls)

abbrev pub server_config_text : ℕ → List LocationConfig → NginxConfig
server_config_text port ls =
    cons
      (block (codes "server" ∷ [])
        (cons (simple (codes "listen" ∷ to_decimal port ∷ [])) (location_statements ls)))
      nil

-- An argument whose key and value are tokens and whose key does not name the handler.
abbrev pub IsWritableArgument : Bytes × Bytes → Type 0
IsWritableArgument (k, v) = IsToken k × IsToken v × (same k (codes "handler") ≡ false)

-- A location that the text can name: its parts are tokens, no key of an argument stands twice, and
-- the handler is one that the server knows.
pub record IsWritableLocation (l : LocationConfig) : Type 0 where
  pub path_token : IsToken l.path
  pub handler_token : IsToken l.handler_name
  pub arguments : All IsWritableArgument l.args
  pub distinct : IsDistinct l.args
  pub factory : HandlerFactory
  pub known : factory_for l ≡ some factory

abbrev IsPlainDigit : ℕ → Type 0
IsPlainDigit c = (starts_word c ≡ true) × (is_token_delimiter c ≡ false)

digit_plain : (d : ℕ) → d < 10 → IsPlainDigit (b'0' + d)
unfolding starts_word is_whitespace is_token_delimiter
digit_plain d h = (ground arith, ground arith)

only_digits : (s : Bytes) → All IsPlainDigit s → All (λ x. is_token_delimiter x ≡ false) s
only_digits [] h = tt
only_digits (c ∷ s) (h, hs) = (h.1, only_digits s hs)

digits-IsToken : (s : Bytes) → s ≢ [] → All IsPlainDigit s → IsToken s
digits-IsToken [] ne h = absurd (ne refl)
digits-IsToken (c ∷ s) ne (h, hs) = word h.0 (only_digits s hs)

to_decimal-IsToken : (n : ℕ) → IsToken (to_decimal n)
unfolding to_decimal
to_decimal-IsToken n =
    digits-IsToken _ (decimal_loop-ne-nil (suc n) n (omega arith))
      (decimal_loop-All IsPlainDigit digit_plain (suc n) n)

arguments-IsPrintable :
    (args : List (Bytes × Bytes))
    → All IsWritableArgument args
    → IsPrintable (argument_statements args)
arguments-IsPrintable [] h = nil_ok
arguments-IsPrintable ((k, v) ∷ args) (h, hs) =
    cons_ok (simple_ok ((λ e. cc), (h.0, (h.1, tt)))) (arguments-IsPrintable args hs)

server_word : IsToken (codes "server")
unfolding starts_word is_whitespace is_token_delimiter
server_word = word refl (refl, (refl, (refl, (refl, (refl, tt)))))

listen_word : IsToken (codes "listen")
unfolding starts_word is_whitespace is_token_delimiter
listen_word = word refl (refl, (refl, (refl, (refl, (refl, tt)))))

handler_word : IsToken (codes "handler")
unfolding starts_word is_whitespace is_token_delimiter
handler_word = word refl (refl, (refl, (refl, (refl, (refl, (refl, tt))))))

location_word : IsToken (codes "location")
unfolding starts_word is_whitespace is_token_delimiter
location_word = word refl (refl, (refl, (refl, (refl, (refl, (refl, (refl, tt)))))))

locations-IsPrintable :
    (ls : List LocationConfig) → All IsWritableLocation ls → IsPrintable (location_statements ls)
locations-IsPrintable [] h = nil_ok
locations-IsPrintable (l ∷ ls) (h, hs) =
    cons_ok
      (block_ok ((λ e. cc), (location_word, (h.path_token, tt))) (λ e. cc)
        (cons_ok (simple_ok ((λ e. cc), (handler_word, (h.handler_token, tt))))
          (arguments-IsPrintable l.args h.arguments)))
      (locations-IsPrintable ls hs)

pub text-IsPrintable :
    (port : ℕ) (ls : List LocationConfig)
    → All IsWritableLocation ls
    → IsPrintable (server_config_text port ls)
text-IsPrintable port ls h =
    cons_ok
      (block_ok ((λ e. cc), (server_word, tt)) (λ e. cc)
        (cons_ok (simple_ok ((λ e. cc), (listen_word, (to_decimal-IsToken port, tt))))
          (locations-IsPrintable ls h)))
      nil_ok
