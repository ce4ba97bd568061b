-- ===== src/Handler/File.antt =====
-- `FileRequestHandler` (src/request_handler_file.cc). Boost.Filesystem and the files are a
-- parameter.
use ucla_bathroom_ratings.Base.{
  ◌==◌, if◌then◌else◌, length, is_empty, drop, Bytes, codes, same, find, at_zero, Bool, false, not,
  ◌&&◌, ◌||◌, Option, none, some, [], ◌∷◌,
}
use ucla_bathroom_ratings.Http.Message.{Request, Response}
use ucla_bathroom_ratings.Http.ResponseBuilder.{ok, not_found, forbidden}

-- `exists` and `canonical` are `none` where they throw; `read` is `none` where the file does not
-- open.
pub record FileSystem : Type 0 where
  pub join : Bytes → Bytes → Bytes
  pub exists : Bytes → Option Bool
  pub canonical : Bytes → Option Bytes
  pub is_directory : Bytes → Bool
  pub extension : Bytes → Bytes
  pub read : Bytes → Option Bytes

-- Whether `exists` says that a file is there.
abbrev pub is_there : Option Bool → Bool
is_there none = false
is_there (some b) = b

-- The path behind the prefix, which is "/" where nothing is left.
unfoldable pub strip_url_prefix : Bytes → Bytes → Bytes
strip_url_prefix prefix url =
    if not (is_empty prefix) && at_zero (find prefix url)
    then if is_empty (drop (length prefix) url) then codes "/" else drop (length prefix) url
    else url

unfoldable pub drop_slash : Bytes → Bytes
drop_slash [] = []
drop_slash (c ∷ s) = if c == b'/' then s else c ∷ s

unfoldable pub relative_path : Bytes → Bytes → Bytes
unfolding strip_url_prefix drop_slash
relative_path prefix url =
    let path = drop_slash (strip_url_prefix prefix url) in if is_empty path then codes "." else path

module _ (fs : FileSystem) where
  unfoldable pub read_file : Bytes → Bytes
  read_file path = elim (fs.read path) [ none ↦ [] | some text ↦ text ]

  unfoldable pub get_content_type : Bytes → Bytes
  get_content_type path =
      let ext = fs.extension path in
      if same ext (codes ".html") || same ext (codes ".htm")
      then codes "text/html"
      else if same ext (codes ".css")
      then codes "text/css"
      else if same ext (codes ".js")
      then codes "application/javascript"
      else if same ext (codes ".json")
      then codes "application/json"
      else if same ext (codes ".png")
      then codes "image/png"
      else if same ext (codes ".jpg") || same ext (codes ".jpeg")
      then codes "image/jpeg"
      else if same ext (codes ".gif")
      then codes "image/gif"
      else if same ext (codes ".svg")
      then codes "image/svg+xml"
      else if same ext (codes ".ico")
      then codes "image/x-icon"
      else if same ext (codes ".txt")
      then codes "text/plain"
      else if same ext (codes ".pdf")
      then codes "application/pdf"
      else if same ext (codes ".zip")
      then codes "application/zip"
      else codes "application/octet-stream"

  abbrev pub missing : Response
  missing = not_found (codes "404 Not Found")

  unfoldable pub serve : Bytes → Response
  serve path = ok (read_file path) (get_content_type path)

  -- The part behind the two canonical paths, in the `try` block: what `exists` throws there is
  -- caught, and the response is that for a missing file.
  unfoldable pub serve_canonical : Bytes → Bytes → Response
  serve_canonical base requested =
      if not (at_zero (find base requested))
      then forbidden (codes "403 Forbidden")
      else if not (is_there (fs.exists requested))
      then missing
      else if fs.is_directory requested
      then if not (is_there (fs.exists (fs.join requested (codes "index.html"))))
        then missing
        else serve (fs.join requested (codes "index.html"))
      else serve requested

  unfoldable pub canonicalize : Option Bytes → Option Bytes → Response
  unfolding serve_canonical
  canonicalize (some requested) (some base) = serve_canonical base requested
  canonicalize _ _ = missing

  -- The part behind the first call of `exists`, which stands outside the `try` block: what it
  -- throws leaves the handler without a response.
  unfoldable pub handle_path : Bytes → Bytes → Option Bool → Option Response
  unfolding canonicalize
  handle_path base_dir requested none = none
  handle_path base_dir requested (some there) =
      if not there
      then some missing
      else some (canonicalize (fs.canonical requested) (fs.canonical base_dir))

  -- The response of a handler that returns; one that throws has none, and its place is taken.
  abbrev pub returned : Option Response → Response
  returned none = missing
  returned (some answer) = answer

  unfoldable pub handle_request : Bytes → Bytes → Request → Option Response
  unfolding handle_path
  handle_request base_dir prefix r =
      let requested = fs.join base_dir (relative_path prefix r.url) in
      handle_path base_dir requested (fs.exists requested)
