-- ===== src/Server/Metrics.antt =====
-- `LogResponseMetrics` and its calls in `handle_read` (src/session.cc): the record of a
-- response that goes to the log.
use mathlib.Core.Path.{subst}
use ucla_bathroom_ratings.Base.{
  if◌then◌else◌, Bool-cases, Option-cases, is_empty, take, drop, All, Bytes, codes, starts_with,
  find, ℕ, zero, suc, ◌+◌, ◌≡◌, refl, sym, ap, ◌∙◌, ◌≢◌, ◌⊎◌, inl, inr, Bool, true, false, not,
  Option, none, some, List, [], ◌∷◌, ◌++◌, append_assoc, append-nil, arith,
}
use ucla_bathroom_ratings.Base.Finding.{find-Found}
use ucla_bathroom_ratings.Http.Message.{Request, Response}
use ucla_bathroom_ratings.Http.RequestParser.{parse}
use ucla_bathroom_ratings.Server.Location.{LocationConfig}
use ucla_bathroom_ratings.Server.Registry.{get_handler_name, Registry}
use ucla_bathroom_ratings.Server.Dispatcher.{create_handler}
use ucla_bathroom_ratings.Server.Session.{Session, blank_request, Services, respond, handle_buffer}
use ucla_bathroom_ratings.Http.ResponseBuilder.{serialize_headers, serialize, serialize_response}
use ucla_bathroom_ratings.Http.Framing.{blank_line, parse_complete, parse-incomplete}
use ucla_bathroom_ratings.Server.Connection.{handle_buffer_complete}

pub record ResponseMetrics : Type 0 where
  pub response_code : Bytes
  pub request_ip : Bytes
  pub request_path : Bytes
  pub handler_name : Bytes

-- The code in front of the first space of the status.
unfoldable pub code_of : Bytes → Bytes
code_of status = elim (find (codes " ") status) [ none ↦ status | some n ↦ take n status ]

unfoldable pub log_response_metrics :
    Bytes → Option Response → Bytes → Bytes → Option ResponseMetrics
log_response_metrics ip none path name = none
log_response_metrics ip (some r) path name = some (record {
  response_code = code_of r.status_code;
  request_ip = ip;
  request_path = path;
  handler_name = name;
})

-- `request.url.empty() ? "<unknown>" : request.url`.
unfoldable pub known_path : Bytes → Bytes
known_path url = if is_empty url then codes "<unknown>" else url

space_found : (s : Bytes) (n : ℕ) → find (codes " ") s ≡ some n → All (λ c. c ≢ b' ') (take n s)
unfolding find starts_with
space_found [] n h = ground arith
space_found (c ∷ s) zero h = tt
space_found (c ∷ s) (suc n) h = (ground arith, space_found s n (ground arith))

no_space : (s : Bytes) → find (codes " ") s ≡ none → All (λ c. c ≢ b' ') s
unfolding find starts_with
no_space [] h = tt
no_space (c ∷ s) h = (ground arith, no_space s (ground arith))

code_of-one_word : (s : Bytes) → All (λ c. c ≢ b' ') (code_of s)
unfolding code_of
code_of-one_word s = elim (Option-cases (find (codes " ") s)) [
  | inl missing ↦ rw (missing, code_of) (no_space s missing)
  | inr (n, found) ↦ rw (found, code_of) (space_found s n found)
]

-- What stands behind the first word of a text: nothing, or a space and more.
EndsWord : Bytes → Type 0
EndsWord rest = (rest ≡ []) ⊎ ((more : Bytes) × (rest ≡ codes " " ++ more))

code_of-prefix : (s : Bytes) → (rest : Bytes) × (s ≡ code_of s ++ rest) × EndsWord rest
unfolding code_of EndsWord
code_of-prefix s = elim (Option-cases (find (codes " ") s)) [
  | inl missing ↦ ([], rw (missing, code_of) (sym (append-nil s)), inl refl)
  | inr (n, found) ↦ (
    codes " " ++ drop (n + 1) s,
    rw (found, code_of) (find-Found (codes " ") s n found).splits,
    inr (drop (n + 1) s, refl),
  )
]

-- The second word of the first line of a message: a word behind the version, then a space or the
-- end of the line.
pub record IsSentCode (code message : Bytes) : Type 0 where
  pub after : Bytes
  pub sent : message ≡ codes "HTTP/1.1 " ++ (code ++ after)
  pub ends_there :
      (starts_with (codes " ") after ≡ true) ⊎ (starts_with (codes "\r\n") after ≡ true)
  pub one_word : All (λ c. c ≢ b' ') code

EndsWord-after :
    (rest x : Bytes)
    → EndsWord rest
    → (starts_with (codes " ") (rest ++ (codes "\r\n" ++ x)) ≡ true)
      ⊎ (starts_with (codes "\r\n") (rest ++ (codes "\r\n" ++ x)) ≡ true)
unfolding EndsWord starts_with
EndsWord-after rest x (inl empty) = inr (rw empty refl)
EndsWord-after rest x (inr (more, at_space)) = inl (rw at_space refl)

serialize-code : (r : Response) → IsSentCode (code_of r.status_code) (serialize_response (some r))
unfolding serialize_response serialize
serialize-code r =
    let (rest, e, ends) = code_of-prefix r.status_code in
    let code = code_of r.status_code in
    let x = serialize_headers r.headers (codes "\r\n" ++ r.body) in
    record {
      after = rest ++ (codes "\r\n" ++ x);
      sent =
          ap (λ (y : Bytes). codes "HTTP/1.1 " ++ (y ++ (codes "\r\n" ++ x))) e
          ∙ ap (λ (y : Bytes). codes "HTTP/1.1 " ++ y) (append_assoc code rest (codes "\r\n" ++ x));
      ends_there = EndsWord-after rest x ends;
      one_word = code_of-one_word r.status_code;
    }

cons-ne : (c : ℕ) (s : Bytes) → c ∷ s ≢ []
cons-ne c s h = cc

module _ {W : Type 0} (services : Services W) (reg : Registry)
    (locations : List LocationConfig) where
  -- What is logged of the response to a complete request.
  unfoldable pub respond_metrics : Bytes → W → Request → Option ResponseMetrics
  unfolding log_response_metrics known_path
  respond_metrics ip w r =
      let answer = some (respond services reg locations w r).1 in
      if not r.is_valid
      then log_response_metrics ip answer (known_path r.url) (codes "BadRequest")
      else log_response_metrics ip answer r.url
          (get_handler_name (create_handler reg locations r.url))

  -- What `handle_read` logs, once the bytes are in the buffer.
  unfoldable pub buffer_metrics : Session → W → Option ResponseMetrics
  unfolding respond_metrics
  buffer_metrics s w =
      let (complete, r) = parse s.request_buffer blank_request in
      if complete then respond_metrics s.ip w r else none

  -- What the record says of the request: the URL, which has its own text where it is empty in a
  -- request that is not valid, and the handler's name.
  pub data IsAbout (r : Request) (m : ResponseMetrics) : Type 0 where
    good :
        r.is_valid ≡ true
        → m.request_path ≡ r.url
        → m.handler_name ≡ get_handler_name (create_handler reg locations r.url)
        → IsAbout r m
    bad :
        r.is_valid ≡ false
        → r.url ≢ []
        → m.request_path ≡ r.url
        → m.handler_name ≡ codes "BadRequest"
        → IsAbout r m
    unknown :
        r.is_valid ≡ false
        → r.url ≡ []
        → m.request_path ≡ codes "<unknown>"
        → m.handler_name ≡ codes "BadRequest"
        → IsAbout r m

  -- The record of a response, and the message that the session sends.
  pub record IsLogged (s : Session) (w : W) : Type 0 where
    pub metrics : ResponseMetrics
    pub logged : buffer_metrics s w ≡ some metrics
    pub sent_code :
        IsSentCode metrics.response_code (handle_buffer services reg locations s w).0.response
    pub peer_told : metrics.request_ip ≡ s.ip
    pub request_told : IsAbout (parse s.request_buffer blank_request).1 metrics

  abbrev code_for : W → Request → Bytes
  code_for w r = code_of (respond services reg locations w r).1.status_code

  bad_metrics :
      (ip url : Bytes) (w : W) (r : Request)
      → r.is_valid ≡ false
      → r.url ≡ url
      → (m : ResponseMetrics) × (m.request_ip ≡ ip)
        × (respond_metrics ip w r ≡ some m)
        × (m.response_code ≡ code_for w r)
        × IsAbout r m
  unfolding respond_metrics
  bad_metrics ip [] w r wrong at_url = (
    record {
      response_code = code_for w r;
      request_ip = ip;
      request_path = codes "<unknown>";
      handler_name = codes "BadRequest";
    },
    refl,
    rw (wrong, at_url),
    refl,
    unknown wrong at_url refl refl,
  )
  bad_metrics ip (c ∷ url) w r wrong at_url = (
    record {
      response_code = code_for w r;
      request_ip = ip;
      request_path = r.url;
      handler_name = codes "BadRequest";
    },
    refl,
    rw (wrong, at_url),
    refl,
    bad wrong (λ h. cons-ne c url (sym at_url ∙ h)) refl refl,
  )

  respond_metrics-code :
      (ip : Bytes) (w : W) (r : Request)
      → (m : ResponseMetrics) × (m.request_ip ≡ ip)
        × (respond_metrics ip w r ≡ some m)
        × (m.response_code ≡ code_for w r)
        × IsAbout r m
  unfolding respond_metrics
  respond_metrics-code ip w r = elim (Bool-cases r.is_valid) [
    | inl right ↦ (
      record {
        response_code = code_for w r;
        request_ip = ip;
        request_path = r.url;
        handler_name = get_handler_name (create_handler reg locations r.url);
      },
      refl,
      rw right,
      refl,
      good right refl refl,
    )
    | inr wrong ↦ bad_metrics ip r.url w r wrong refl
  ]

  buffer_metrics_complete :
      (s : Session) (w : W) (n : ℕ)
      → find blank_line s.request_buffer ≡ some n
      → buffer_metrics s w ≡ respond_metrics s.ip w (parse s.request_buffer blank_request).1
  unfolding buffer_metrics
  buffer_metrics_complete s w n e =
      rw (ap (λ (p : Bool × Request). p.0) (parse_complete s.request_buffer n blank_request e))

  complete-IsLogged :
      (s : Session) (w : W) (n : ℕ) → find blank_line s.request_buffer ≡ some n → IsLogged s w
  complete-IsLogged s w n e =
      let r = (parse s.request_buffer blank_request).1 in
      let (m, same_peer, logged, code, about) = respond_metrics-code s.ip w r in
      let response = serialize_response (some (respond services reg locations w r).1) in
      let message =
        ap (λ (x : Session × W). x.0.response)
          (handle_buffer_complete services reg locations s w n e) in
      record {
        metrics = m;
        logged = buffer_metrics_complete s w n e ∙ logged;
        sent_code =
            subst
              (λ (x : Bytes). IsSentCode x (handle_buffer services reg locations s w).0.response)
              (sym code)
              (subst (λ (x : Bytes). IsSentCode (code_for w r) x) (sym message)
                (serialize-code (respond services reg locations w r).1));
        peer_told = same_peer;
        request_told = about;
      }

  -- Each response is logged, and nothing else: while the buffer has no blank line nothing is
  -- logged, and where it has one there is one record, with the session's peer. Its code is the
  -- word between the version and the next space or line end in the message that the session sends.
  -- Its path is the URL and its name that of the URL's handler; of a request that is not valid it
  -- is "BadRequest", and an empty URL is "<unknown>" then.
  pub buffer_metrics-IsLogged :
      (s : Session) (w : W)
      → ((find blank_line s.request_buffer ≡ none) × (buffer_metrics s w ≡ none))
        ⊎ (((n : ℕ) × (find blank_line s.request_buffer ≡ some n)) × IsLogged s w)
  buffer_metrics-IsLogged s w = elim (Option-cases (find blank_line s.request_buffer)) [
    | inl missing ↦ inl (
      missing,
      (unfold buffer_metrics in
          rw (
            ap (λ (p : Bool × Request). p.0)
              (parse-incomplete s.request_buffer blank_request missing))),
    )
    | inr (n, found) ↦ inr ((n, found), complete-IsLogged s w n found)
  ]
