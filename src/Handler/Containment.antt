-- ===== src/Handler/Containment.antt =====
-- What `FileRequestHandler` (src/request_handler_file.cc) can serve.
use ucla_bathroom_ratings.Base.{
  Bool-cases, Option-cases, Bytes, codes, same, same_iff, starts_with, at_zero-find, ◌≡◌, refl, ◌≢◌,
  ◌↔◌, inl, inr, true, false, Option, none, some,
}
use ucla_bathroom_ratings.Http.Message.{Request, Response}
use ucla_bathroom_ratings.Http.ResponseBuilder.{format_response, forbidden}
use ucla_bathroom_ratings.Handler.File.{
  FileSystem, is_there, relative_path, missing, serve, serve_canonical, canonicalize, handle_path,
  handle_request,
}

-- The answers for canonical paths `base` and `requested`.
pub data IsAllowed (fs : FileSystem) (base requested : Bytes) : Response → Type 0 where
  not_there : IsAllowed fs base requested (missing fs)
  outside :
      starts_with base requested ≡ false
      → IsAllowed fs base requested (forbidden (codes "403 Forbidden"))
  whole_file :
      starts_with base requested ≡ true
      → is_there (fs.exists requested) ≡ true
      → fs.is_directory requested ≡ false
      → IsAllowed fs base requested (serve fs requested)
  index_file :
      starts_with base requested ≡ true
      → fs.is_directory requested ≡ true
      → is_there (fs.exists (fs.join requested (codes "index.html"))) ≡ true
      → IsAllowed fs base requested (serve fs (fs.join requested (codes "index.html")))

-- The outcomes of a request for `path` under `base_dir`: an answer, or what `exists` throws.
pub data IsContained (fs : FileSystem) (base_dir path : Bytes) : Option Response → Type 0 where
  thrown : fs.exists path ≡ none → IsContained fs base_dir path none
  no_path : IsContained fs base_dir path (some (missing fs))
  below :
      (base requested : Bytes) (answer : Response)
      → fs.canonical path ≡ some requested
      → fs.canonical base_dir ≡ some base
      → IsAllowed fs base requested answer
      → IsContained fs base_dir path (some answer)

serve_canonical-IsAllowed :
    (fs : FileSystem) (base requested : Bytes)
    → IsAllowed fs base requested (serve_canonical fs base requested)
unfolding serve_canonical
serve_canonical-IsAllowed fs base requested =
    rw at_zero-find (elim (Bool-cases (starts_with base requested)) [
      | inr other ↦ rw other (outside other)
      | inl under ↦ rw under (elim (Bool-cases (is_there (fs.exists requested))) [
        | inr gone ↦ rw gone not_there
        | inl there ↦ rw there (elim (Bool-cases (fs.is_directory requested)) [
          | inr file ↦ rw file (whole_file under there file)
          | inl folder ↦
              rw folder
                (elim (Bool-cases (is_there (fs.exists (fs.join requested (codes "index.html"))))) [
                  | inr gone ↦ rw gone not_there
                  | inl index ↦ rw index (index_file under folder index)
                ])
        ])
      ])
    ])

canonicalize-IsContained :
    (fs : FileSystem) (base_dir path : Bytes)
    → IsContained fs base_dir path
        (some (canonicalize fs (fs.canonical path) (fs.canonical base_dir)))
unfolding canonicalize
canonicalize-IsContained fs base_dir path = elim (Option-cases (fs.canonical path)) [
  | inl none_ ↦ rw none_ no_path
  | inr (requested, e) ↦ elim (Option-cases (fs.canonical base_dir)) [
    | inl none_ ↦ rw (e, none_) no_path
    | inr (base, e') ↦
        rw (e, e') (below base requested _ e e' (serve_canonical-IsAllowed fs base requested))
  ]
]

-- Every answer of the file handler is "404 Not Found", "403 Forbidden" because the canonical path
-- of what is asked for does not begin with the canonical base directory, or the file at a
-- canonical path that does begin with it, or the index file of that directory. There is no answer
-- only where `exists` throws for what is asked for.
pub handle_request-IsContained :
    (fs : FileSystem) (base_dir prefix : Bytes) (r : Request)
    → IsContained fs base_dir
        (fs.join base_dir (relative_path prefix r.url))
        (handle_request fs base_dir prefix r)
unfolding handle_request handle_path
handle_request-IsContained fs base_dir prefix r =
    let path = fs.join base_dir (relative_path prefix r.url) in
    elim (Option-cases (fs.exists path)) [
      | inl throws ↦ rw (throws, handle_path) (thrown throws)
      | inr (true, there) ↦ rw (there, handle_path) (canonicalize-IsContained fs base_dir path)
      | inr (false, gone) ↦ rw (gone, handle_path) no_path
    ]

false-ne-true : false ≢ true
false-ne-true e = cc

missing_status : codes "404 Not Found" ≢ codes "403 Forbidden"
unfolding same
missing_status e = false-ne-true ((same_iff (codes "404 Not Found") (codes "403 Forbidden")).1 e)

ok_status : codes "200 OK" ≢ codes "403 Forbidden"
unfolding same
ok_status e = false-ne-true ((same_iff (codes "200 OK") (codes "403 Forbidden")).1 e)

-- An allowed answer is "403 Forbidden" only for a path outside.
forbidden-outside :
    (fs : FileSystem) (base requested : Bytes) {answer : Response}
    → IsAllowed fs base requested answer
    → answer.status_code ≡ codes "403 Forbidden"
    → starts_with base requested ≡ false
unfolding serve format_response
forbidden-outside fs base requested not_there h = absurd (missing_status h)
forbidden-outside fs base requested (outside other) h = other
forbidden-outside fs base requested (whole_file under there file) h = absurd (ok_status h)
forbidden-outside fs base requested (index_file under folder index) h = absurd (ok_status h)

serve_canonical-forbidden :
    (fs : FileSystem) (base requested : Bytes)
    → (starts_with base requested ≡ false)
      ↔ ((serve_canonical fs base requested).status_code ≡ codes "403 Forbidden")
unfolding serve_canonical format_response
serve_canonical-forbidden fs base requested = (
  λ other. rw (at_zero-find, other) refl,
  forbidden-outside fs base requested (serve_canonical-IsAllowed fs base requested),
)

-- A path that exists is refused exactly if its canonical path does not begin with the bytes of the
-- canonical base directory: for a path at which both are found, the answer is "403 Forbidden" if
-- that comparison fails, and has another status if it holds, as for a directory beside the base
-- directory whose name begins with its name.
pub handle_request-forbidden_iff :
    (fs : FileSystem) (base_dir prefix base requested : Bytes) (r : Request)
    → fs.exists (fs.join base_dir (relative_path prefix r.url)) ≡ some true
    → fs.canonical (fs.join base_dir (relative_path prefix r.url)) ≡ some requested
    → fs.canonical base_dir ≡ some base
    → (answer : Response) × (handle_request fs base_dir prefix r ≡ some answer)
      × ((starts_with base requested ≡ false) ↔ (answer.status_code ≡ codes "403 Forbidden"))
unfolding handle_request handle_path canonicalize
handle_request-forbidden_iff fs base_dir prefix base requested r there at_path at_base = (
  serve_canonical fs base requested,
  rw (there, handle_path, at_path, at_base) refl,
  serve_canonical-forbidden fs base requested,
)
