-- ===== src/Http/Tests.antt =====
-- The theorems on the request parser (src/request_parser.cc) at one request.
use ucla_bathroom_ratings.Base.{
  Bytes, codes, same, starts_with, find, ends_in, pop_back, trim_front, trim_back, get_lines, ◌≡◌,
  refl, true, false, some, [], ◌∷◌,
}
use ucla_bathroom_ratings.Http.Message.{Request}
use ucla_bathroom_ratings.Http.RequestParser.{
  strip_return, is_space, skip_space, take_word, drop_word, extract, is_allowed_method,
  begins_with_slash, parse_words, parse_request_line, parse_header_line, parse_headers, parse_rest,
  parse_lines, parse,
}
use ucla_bathroom_ratings.Http.Serialized.{one_line}
use ucla_bathroom_ratings.Http.Framing.{blank_line}
use ucla_bathroom_ratings.Http.RequestText.{Header, RequestText, render}
use ucla_bathroom_ratings.Http.RequestWords.{IsHeader}
use ucla_bathroom_ratings.Http.RequestReading.{
  IsRequestText, parsed, lacks, no_space-IsWord, parse-render,
}

abbrev blank : Request
blank = record {
  is_valid = false;
  raw_request = [];
  method = [];
  url = [];
  http_version = [];
  headers = [];
  body = [];
}

abbrev head : Bytes
head = codes "POST /api/a HTTP/1.1\r\nHost:  x \r\n\r\nab"

head_complete : find blank_line head ≡ some 31
unfolding find
head_complete = refl

head_valid : ((parse head blank).1).is_valid ≡ true
unfolding parse find parse_lines get_lines parse_request_line parse_words extract take_word
    skip_space drop_word strip_return ends_in pop_back is_space is_allowed_method same
    begins_with_slash parse_rest starts_with trim_back trim_front parse_header_line parse_headers
head_valid = refl

head_headers : ((parse head blank).1).headers ≡ codes "Host: x" ∷ []
unfolding parse find parse_lines get_lines parse_request_line parse_words extract take_word
    skip_space drop_word strip_return ends_in pop_back is_space is_allowed_method same
    begins_with_slash parse_rest starts_with trim_back trim_front parse_header_line parse_headers
head_headers = refl

abbrev host_header : Header
host_header = record { name = codes "Host"; value = codes "a" }

abbrev posted : RequestText
posted = record {
  method = codes "POST";
  url = codes "/e?x";
  headers = host_header ∷ [];
  body = codes "\r\n\r\n{}";
}

host_header-IsHeader : IsHeader host_header
unfolding trim_back trim_front
host_header-IsHeader = record {
  no_colon = lacks b':' (codes "Host") refl;
  trimmed = refl;
  is_line = record {
    no_return = one_line (codes "Host: a") refl;
    no_feed = lacks b'\n' (codes "Host: a") refl;
    some_text = cc;
  };
}

posted-IsRequestText : IsRequestText posted
unfolding is_space is_allowed_method same begins_with_slash
posted-IsRequestText = record {
  method_word = no_space-IsWord (codes "POST") refl;
  method_allowed = refl;
  url_word = no_space-IsWord (codes "/e?x") refl;
  url_absolute = refl;
  headers_well = (host_header-IsHeader, tt);
}

parse-render_example : parse (render posted) blank ≡ (true, parsed posted blank)
parse-render_example = parse-render posted blank posted-IsRequestText refl
