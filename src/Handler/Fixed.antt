-- ===== src/Handler/Fixed.antt =====
-- The handlers whose answer is a fixed text or the request itself: src/request_handler_echo.cc,
-- src/request_handler_health.cc, src/request_handler_not_found.cc and src/request_handler_sleep.cc,
-- whose pause changes no state.
use ucla_bathroom_ratings.Base.{codes}
use ucla_bathroom_ratings.Http.Message.{Request, Response}
use ucla_bathroom_ratings.Http.ResponseBuilder.{plain, ok, not_found}

abbrev pub handle_echo : Request → Response
handle_echo r = ok r.raw_request plain

abbrev pub handle_health : Request → Response
handle_health r = ok (codes "OK") plain

abbrev pub handle_not_found : Request → Response
handle_not_found r = not_found (codes "404 Not Found")

abbrev pub handle_sleep : Request → Response
handle_sleep r = ok (codes "Slept for 3 seconds.") plain
