-- ===== src/Fs/Static.antt =====
-- fs/static_serve.cpp: StaticServer::handler_fn and `hash_content`. Arguments of the model: the reader,
-- `flatten_path` (the library's lexically_normal), the hash of the library in memory, the generated
-- page, the table of types and the texts of dates. What is logged in debug mode is left out.
use lambda.Base.{
  ℕ, zero, suc, ◌+◌, ◌*◌, Bool, true, false, not, ◌&&◌, ◌||◌, ◌++◌, Option, none, some, Bytes,
  codes, ltb, leb, ◌==◌, equal, if◌then◌else◌, byte_at, length, is_empty, Result, ok, ◌>>=◌, ◌-◌,
}
use lambda.Base.Decimal.{to_decimal}
use lambda.Base64.{encode}
use lambda.Http.Values.{Values, get}
use lambda.Http.Method.{Method}
use lambda.Http.Url.{Url, href}
use lambda.Server.Status.{Status}
use lambda.Server.Writer.{ResponseWriter, write_header, write_response}
use lambda.Server.Pipeline.{Request, Handler, with_header}
use lambda.Fs.File.{StaticFile}
use lambda.Fs.Mimetypes.{infer_mimetype}
use lambda.Fs.Range.{Range, get_range}

abbrev pub max_oneshot_response_size : ℕ
max_oneshot_response_size = 1024 * 1024

abbrev pub ends_with_slash : Bytes → Bool
ends_with_slash path = not (is_empty path) && byte_at path (length path - 1) == b'/'

-- The server's options, and what is not the source's.
pub record Site : Type 0 where
  pub html_error_pages : Bool
  pub flatten_path : Bytes → Bytes
  pub std_hash : Bytes → Bytes
  pub render_404_page : Bytes → Bytes
  pub mimetype_map : Bytes → Option Bytes
  pub utc_string : ℕ → Bytes
  pub date : Bytes

abbrev pub hash_content : Site → Bytes → Bytes
hash_content site bytes = encode (site.std_hash bytes)

-- A head without a body.
abbrev pub answer : Site → ResponseWriter → Status → Result ResponseWriter
answer site w status = write_header site.date w status >>= λ started. ok started.1

abbrev pub answer_with : Site → ResponseWriter → Status → Bytes → Result ResponseWriter
answer_with site w status body = answer site w status >>= λ started.
    write_response site.date started body >>= λ written. ok written.1

abbrev pub no_file : Site → Bool → Bytes → ResponseWriter → Result ResponseWriter
no_file site is_head path w =
    let typed =
      with_header w (codes "content-type")
        (if site.html_error_pages then codes "text/html" else codes "text/plain") in
    let page =
      if site.html_error_pages
      then site.render_404_page path
      else codes "path '" ++ (path ++ codes "' not found") in
    if is_head then answer site w Status.not_found else answer_with site typed Status.not_found page

abbrev pub to_directory : Site → Url → ResponseWriter → Result ResponseWriter
to_directory site url w =
    let inside = record url {
      path = if ends_with_slash url.path then url.path else url.path ++ codes "/";
    } in
    href inside >>= λ location. answer site (with_header w (codes "location") location) Status.found

-- The loop over the chunks of a large file. Each chunk counts one at least, so that the file's size
-- is fuel enough.
unfoldable pub stream_content : ℕ → Site → StaticFile → ℕ → ResponseWriter → Result ResponseWriter
stream_content zero site file written w = ok w
stream_content (suc fuel) site file written w =
    let more = stream_content fuel site file in
    if ltb written file.size
    then (file.content >>= λ chunk.
        if is_empty chunk
        then ok w
        else write_response site.date w chunk >>= λ sent. more (written + length chunk) sent.1)
    else ok w

-- The part of the file that a range names.
unfoldable pub serve_range :
    Site → StaticFile → Values → Range → ResponseWriter → Result ResponseWriter
serve_range site file headers range w =
    if ltb file.size range.end || leb range.end range.begin
    then answer site w Status.requested_range_not_satisfiable
    else (file.part range.begin range.end >>= λ partial_content.
        let etag = hash_content site partial_content in
        if equal (get headers (codes "if-none-match")) etag
        then answer site w Status.not_modified
        else answer_with site
            (with_header
              (with_header (with_header w (codes "etag") etag) (codes "content-type")
                (infer_mimetype site.mimetype_map file.name))
              (codes "content-length") (to_decimal (length partial_content)))
            Status.partial_content partial_content)

-- The head of a response with the whole file.
abbrev described : Site → StaticFile → ResponseWriter → ResponseWriter
described site file w =
    with_header (with_header w (codes "content-type") (infer_mimetype site.mimetype_map file.name))
      (codes "content-length") (to_decimal file.size)

unfoldable pub serve_whole :
    Site → StaticFile → Bool → Values → ResponseWriter → Result ResponseWriter
unfolding stream_content
serve_whole site file is_head headers w =
    let bodiless = is_head || file.size == 0 in
    if leb max_oneshot_response_size file.size
    then (answer site (described site file w) Status.ok >>= λ started.
        if bodiless then ok started else stream_content file.size site file 0 started)
    else (file.content >>= λ complete_content.
        let etag = hash_content site complete_content in
        if equal (get headers (codes "if-none-match")) etag
        then answer site w Status.not_modified
        else answer site (described site file (with_header w (codes "etag") etag)) Status.ok
          >>= λ started.
              if bodiless
              then ok started
              else write_response site.date started complete_content >>= λ written. ok written.1)

abbrev cached_for : ResponseWriter → ResponseWriter
cached_for w =
    with_header
      (with_header (with_header w (codes "cache-control") (codes "max-age=604800, must-revalidate"))
        (codes "accept-ranges") (codes "bytes"))
      (codes "vary") (codes "range")

unfoldable pub serve_file :
    Site → StaticFile → Bool → Values → ResponseWriter → Result ResponseWriter
unfolding serve_range serve_whole
serve_file site file is_head headers w =
    let kept = cached_for w in
    let last_modified = site.utc_string file.modified in
    let dated = with_header kept (codes "last-modified") last_modified in
    if equal (get headers (codes "if-modified-since")) last_modified
    then answer site kept Status.not_modified
    else elim (get_range headers file.size) [
      | some range ↦ serve_range site file headers range dated
      | none ↦ serve_whole site file is_head headers dated
    ]

-- `m_reader->open`
abbrev pub Reader : Type 0
Reader = Bytes → Option StaticFile

-- The path of a directory is that of its index.
abbrev pub file_path : Bytes → Bytes
file_path path = if ends_with_slash path then path ++ codes "index.html" else path

-- What the method makes of it: the answers to HEAD and to GET, or one without a file.
unfoldable pub by_method :
    Site
    → Method
    → Result ResponseWriter
    → Result ResponseWriter
    → ResponseWriter
    → Result ResponseWriter
by_method site Method.head headed got w = headed
by_method site Method.get headed got w = got
by_method site Method.options headed got w =
    answer site (with_header w (codes "allow") (codes "OPTIONS, GET, HEAD")) Status.no_content
by_method site _ headed got w = answer site w Status.method_not_allowed

module _ (reader : Reader) (site : Site) where
  unfoldable pub serve_path : Bool → Request → ResponseWriter → Result ResponseWriter
  unfolding serve_file
  serve_path is_head request w =
      let path = request.url.path in
      let flattened = site.flatten_path path in
      if not (equal flattened path)
      then answer site (with_header w (codes "location") flattened) Status.permanent_redirect
      else elim (reader (file_path path)) [
        | none ↦ no_file site is_head path w
        | some file ↦
            if file.is_directory
            then to_directory site request.url w
            else serve_file site file is_head request.headers w
      ]

  unfoldable pub handler_fn : Handler
  unfolding serve_path by_method
  handler_fn request w =
      by_method site request.method (serve_path true request w) (serve_path false request w) w
