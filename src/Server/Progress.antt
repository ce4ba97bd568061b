-- ===== src/Server/Progress.antt =====
-- A session that receives the bytes of a request in reads of any length (src/session.cc).
use ucla_bathroom_ratings.Base.{
  Option-cases, Bytes, find, ℕ, ◌≡◌, refl, sym, ap, ◌∙◌, inl, inr, none, some, List, [], ◌∷◌, ◌++◌,
  append_assoc, append-nil, arith,
}
use ucla_bathroom_ratings.Http.RequestParser.{parse}
use ucla_bathroom_ratings.Http.Framing.{blank_line}
use ucla_bathroom_ratings.Server.Location.{LocationConfig}
use ucla_bathroom_ratings.Server.Registry.{Registry}
use ucla_bathroom_ratings.Server.Session.{
  Session, Event, blank_request, Services, step, run, reading, writing, received,
}
use ucla_bathroom_ratings.Server.Connection.{
  buffered, step_incomplete, answered, step_complete, after, run_cons,
}

-- The bytes of some reads, one after another.
abbrev pub joined : List Bytes → Bytes
joined [] = []
joined (c ∷ cs) = c ++ joined cs

abbrev pub reads : List Bytes → List Event
reads [] = []
reads (c ∷ cs) = received c ∷ reads cs

module _ {W : Type 0} (services : Services W) (reg : Registry)
    (locations : List LocationConfig) where
  -- The session has answered what its buffer held after some of the reads, and no more than that.
  pub record Answered (s : Session) (w : W) (cs : List Bytes) : Type 0 where
    pub used : Bytes
    pub unused : List Bytes
    pub parts : joined cs ≡ used ++ joined unused
    pub head_length : ℕ
    pub ends_head : find blank_line (s.request_buffer ++ used) ≡ some head_length
    pub answers :
        run services reg locations (reads cs) s w
        ≡ answered services reg locations
            (buffered s used)
            (parse (s.request_buffer ++ used) blank_request).1
            w

  writing_waits :
      (cs : List Bytes) (s : Session) (w : W)
      → s.pending ≡ writing
      → run services reg locations (reads cs) s w ≡ (s, w)
  unfolding run step
  writing_waits [] s w h = refl
  writing_waits (c ∷ cs) s w h =
      run_cons services reg locations (received c) (reads cs) s w writing h ∙ writing_waits cs s w h

  abbrev answer_at : Session → W → Bytes → Session × W
  answer_at s w b =
      answered services reg locations (record s { request_buffer = b }) (parse b blank_request).1 w

  incomplete-Answered :
      (c : Bytes) (cs : List Bytes) (s : Session) (w : W)
      → s.pending ≡ reading
      → find blank_line (s.request_buffer ++ c) ≡ none
      → Answered (record (buffered s c) { pending = reading }) w cs
      → Answered s w (c ∷ cs)
  incomplete-Answered c cs s w p missing later = record {
    used = c ++ later.used;
    unused = later.unused;
    parts = ap (λ x. c ++ x) later.parts ∙ sym (append_assoc c later.used (joined later.unused));
    head_length = later.head_length;
    ends_head =
        ap (find blank_line) (sym (append_assoc s.request_buffer c later.used)) ∙ later.ends_head;
    answers =
        run_cons services reg locations (received c) (reads cs) s w reading p
        ∙ ap (after services reg locations (reads cs))
            (step_incomplete services reg locations s w c missing)
        ∙ later.answers
        ∙ ap (answer_at s w) (append_assoc s.request_buffer c later.used);
  }

  -- A session that waits for a read and whose buffer has no blank line answers a request, once
  -- the bytes of the reads, however they are cut, bring the blank line: it runs the handler once,
  -- on the request parsed from what came up to then, and waits for its answer to be sent.
  -- The callbacks are those that return.
  pub run-Answered :
      (cs : List Bytes) (s : Session) (w : W) (n : ℕ)
      → s.pending ≡ reading
      → find blank_line s.request_buffer ≡ none
      → find blank_line (s.request_buffer ++ joined cs) ≡ some n
      → Answered s w cs
  run-Answered [] s w n p h f =
      let e : find blank_line s.request_buffer ≡ some n =
        ap (find blank_line) (sym (append-nil s.request_buffer)) ∙ f in
      absurd (ground arith)
  run-Answered (c ∷ cs) s w n p h f =
      elim (Option-cases (find blank_line (s.request_buffer ++ c))) [
        | inl missing ↦ incomplete-Answered c cs s w p missing (
            run-Answered cs (record (buffered s c) { pending = reading }) w n refl missing
              (ap (find blank_line) (append_assoc s.request_buffer c (joined cs)) ∙ f))
        | inr (k, found) ↦ record {
          used = c;
          unused = cs;
          parts = refl;
          head_length = k;
          ends_head = found;
          answers =
              run_cons services reg locations (received c) (reads cs) s w reading p
              ∙ ap (after services reg locations (reads cs))
                  (step_complete services reg locations s w c k found)
              ∙ writing_waits cs
                  (answered services reg locations (buffered s c)
                    (parse (s.request_buffer ++ c) blank_request).1 w).0
                  (answered services reg locations (buffered s c)
                    (parse (s.request_buffer ++ c) blank_request).1 w).1
                  refl;
        }
      ]
