-- ===== src/Server/Tests/Serving.antt =====
-- The theorems on the sessions and the accept loop (src/session.cc, src/server.cc), and on `main`
-- (src/server_main.cc), at small inputs.
use ucla_bathroom_ratings.Base.{
  Bytes, codes, same, starts_with, find, ℕ, ◌≡◌, refl, ◌⊎◌, true, false, Option, none, some, List,
  [], ◌∷◌, ◌++◌,
}
use ucla_bathroom_ratings.Http.Framing.{blank_line}
use ucla_bathroom_ratings.Store.InMemory.{empty_store}
use ucla_bathroom_ratings.Server.Session.{
  new_session, blank_request, respond, handle_buffer, run, received, read_failed,
}
use ucla_bathroom_ratings.Http.RequestParser.{is_space, is_allowed_method, begins_with_slash, parse}
use ucla_bathroom_ratings.Http.RequestText.{RequestText}
use ucla_bathroom_ratings.Http.RequestReading.{IsRequestText, no_space-IsWord}
use ucla_bathroom_ratings.Server.Accept.{
  Server, new_server, ServerEvent, server_run, running, failed, connected, accept_done, signalled,
  at_session,
}
use ucla_bathroom_ratings.Server.Isolation.{events_of, RanAlone, heard, server_run-isolated}
use ucla_bathroom_ratings.Server.Progress.{joined, Answered, run-Answered}
use ucla_bathroom_ratings.Server.Exchange.{ServedPart, run-ServedPart}
use ucla_bathroom_ratings.Server.Metrics.{buffer_metrics, IsLogged, buffer_metrics-IsLogged}
use ucla_bathroom_ratings.Server.Launch.{Serves, Refuses, run_main-Serves}
use ucla_bathroom_ratings.Server.Tests.{
  none_registered, two_locations, memory_services, a_peer, other_peer, fresh, part_a, part_b,
  after_request, whole_request,
}
use ucla_bathroom_ratings.Server.AcceptLoop.{Kept, Threw, server_run-IsTallied}
use ucla_bathroom_ratings.Server.Answers.{IsAnswer, handle_buffer-IsAnswer}

nothing_read : find blank_line fresh.request_buffer ≡ none
unfolding find starts_with
nothing_read = refl

whole_request_read :
    find blank_line (fresh.request_buffer ++ joined (part_a ∷ part_b ∷ part_a ∷ [])) ≡ some 15
unfolding find starts_with
whole_request_read = refl

run-Answered_example :
    Answered memory_services none_registered two_locations fresh empty_store
      (part_a ∷ part_b ∷ part_a ∷ [])
run-Answered_example =
    run-Answered memory_services none_registered two_locations (part_a ∷ part_b ∷ part_a ∷ []) fresh
      empty_store 15 refl nothing_read whole_request_read

abbrev some_events : List ServerEvent
some_events =
    accept_done (connected (some other_peer))
    ∷ at_session 1 (received part_b)
    ∷ at_session 0 (received part_a)
    ∷ accept_done failed
    ∷ signalled false
    ∷ at_session 0 read_failed
    ∷ signalled true
    ∷ accept_done (connected (some a_peer))
    ∷ []

abbrev one_session : Server
one_session = record { sessions = fresh ∷ []; accepting = some new_session; status = running }

server_run-IsTallied_example :
    Kept memory_services none_registered two_locations some_events new_server empty_store
    ⊎ Threw memory_services none_registered two_locations some_events new_server empty_store
server_run-IsTallied_example =
    server_run-IsTallied memory_services none_registered two_locations some_events new_server
      empty_store refl refl

server_run-isolated_example :
    RanAlone memory_services none_registered two_locations 0
      (server_run memory_services none_registered two_locations some_events one_session
        empty_store).0
      (run memory_services none_registered two_locations
        (events_of 0
          (heard memory_services none_registered two_locations some_events one_session empty_store))
        fresh
        empty_store).0
server_run-isolated_example =
    server_run-isolated memory_services none_registered two_locations some_events one_session
      new_session 0 fresh empty_store empty_store refl refl refl

abbrev post_e : RequestText
post_e = record { method = codes "POST"; url = codes "/e"; headers = []; body = codes "ab" }

post_e-IsRequestText : IsRequestText post_e
unfolding is_space is_allowed_method same begins_with_slash
post_e-IsRequestText = record {
  method_word = no_space-IsWord (codes "POST") refl;
  method_allowed = refl;
  url_word = no_space-IsWord (codes "/e") refl;
  url_absolute = refl;
  headers_well = tt;
}

-- The last byte of the body comes late.
run-ServedPart_example :
    ServedPart memory_services none_registered two_locations a_peer post_e empty_store
      (codes "POST /e HT" ∷ codes "TP/1.1\r\n\r\na" ∷ codes "b" ∷ [])
run-ServedPart_example =
    run-ServedPart memory_services none_registered two_locations a_peer post_e empty_store
      (codes "POST /e HT" ∷ codes "TP/1.1\r\n\r\na" ∷ codes "b" ∷ []) post_e-IsRequestText refl

buffer_metrics-IsLogged_example :
    ((find blank_line after_request.request_buffer ≡ none)
      × (buffer_metrics memory_services none_registered two_locations after_request empty_store
          ≡ none))
    ⊎ (((n : ℕ) × (find blank_line after_request.request_buffer ≡ some n))
        × IsLogged memory_services none_registered two_locations after_request empty_store)
buffer_metrics-IsLogged_example =
    buffer_metrics-IsLogged memory_services none_registered two_locations after_request empty_store

abbrev echo_config : Option Bytes
echo_config = some (codes "server{listen 80;location /e{handler EchoHandler;}}")

run_main-Serves_example :
    Serves 2 echo_config none_registered ⊎ Refuses 2 echo_config none_registered
run_main-Serves_example = run_main-Serves 2 echo_config none_registered

handle_buffer-IsAnswer_example :
    IsAnswer
      (handle_buffer memory_services none_registered two_locations after_request
        empty_store).0.response
      (respond memory_services none_registered two_locations empty_store
        (parse after_request.request_buffer blank_request).1).1
handle_buffer-IsAnswer_example =
    handle_buffer-IsAnswer memory_services none_registered two_locations after_request empty_store
      15 whole_request
