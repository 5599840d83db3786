-- ===== src/Fs/Partial.antt =====
-- fs/static_serve.cpp on the writer of responses: what a request for a part of a file puts on the wire.
use lambda.Base.{
  ℕ, ◌-◌, ◌<◌, ◌≤◌, ◌^◌, true, false, ◌||◌, ◌++◌, append_assoc, none, some, ◌≡◌, ◌∙◌, refl, sym, ap,
  arith, Bytes, codes, ltb, leb, equal, equal_iff, length, take, drop, scan, find_text, ok,
}
use lambda.Base.Decimal.{to_decimal}
use lambda.Dict.{find, put, less}
use lambda.Http.Values.{Values, get, set, has}
use lambda.Http.Trim.{reset_case, trim_space, is_space}
use lambda.Server.Head.{content_length}
use lambda.Server.Status.{Status, table_status}
use lambda.Server.Stream.{Io}
use lambda.Server.Writer.{
  ResponseWriter, new_writer, head_texts, write_header, write_response, flag_upgrade, flag_stream,
  utility_headers,
}
use lambda.Server.Writer.Bodies.{flatten}
use lambda.Server.Writer.Deferred.{IsReliable, with_sent}
use lambda.Server.Writer.Announced.{
  content_length-to_decimal, start_response_announced, write_body_announced,
}
use lambda.Server.Pipeline.{Request, with_header}
use lambda.Http.Method.{Method}
use lambda.Fs.File.{StaticFile, DirectoryFile, static_file}
use lambda.Fs.Ranges.{range_text, get_range-content_part}
use lambda.Fs.Mimetypes.{infer_mimetype}
use lambda.Fs.Range.{Range, get_range}
use lambda.Fs.Static.{
  Site, hash_content, answer_with, serve_range, serve_file, serve_path, by_method, file_path,
  handler_fn, Reader,
}

module _ (site : Site) (file : StaticFile) (io : Io) (modified part : Bytes) where
  abbrev type_text : Bytes
  type_text = infer_mimetype site.mimetype_map file.name

  -- The writer of a file, and the one that the part is written with.
  abbrev dated : ResponseWriter
  dated =
      with_header
        (with_header
          (with_header
            (with_header (new_writer io) (codes "cache-control")
              (codes "max-age=604800, must-revalidate"))
            (codes "accept-ranges") (codes "bytes"))
          (codes "vary") (codes "range"))
        (codes "last-modified") modified

  abbrev begun : ResponseWriter
  begun =
      record (with_header
        (with_header (with_header dated (codes "etag") (hash_content site part))
          (codes "content-type") type_text)
        (codes "content-length") (to_decimal (length part))) { header_written = true }

  type_told : get begun.headers (codes "content-type") ≡ type_text
  unfolding get set find put less equal reset_case trim_space is_space
  type_told = refl

  not_upgraded : flag_upgrade begun ≡ ok begun
  unfolding flag_upgrade get set find put less equal reset_case trim_space is_space scan
  not_upgraded = refl

  length_told :
      get (utility_headers site.date begun) (codes "content-length") ≡ to_decimal (length part)
  unfolding utility_headers has get set find put less equal reset_case trim_space is_space
  length_told = refl

  module _ (no_stream : find_text (codes "event-stream") (reset_case type_text) ≡ none) where
    not_streamed : flag_stream begun ≡ begun
    unfolding flag_stream
    not_streamed = rw (type_told, no_stream) refl

    module _ (reliable : IsReliable io.conn) (long : 0 < length part)
        (fits : length part < 2 ^ 64) where
      abbrev sent_headers : Values
      sent_headers = utility_headers site.date begun

      -- The head and the part behind it.
      abbrev partial_message : Bytes
      partial_message =
          flatten (head_texts Status.partial_content (codes "Partial Content") sent_headers) ++ part

      abbrev head : Bytes
      head = flatten (head_texts Status.partial_content (codes "Partial Content") sent_headers)

      abbrev behind_head : ResponseWriter
      behind_head = record begun {
        headers = sent_headers;
        announced = some (length part);
        io = record io { conn = with_sent io.conn head };
      }

      head_written :
          write_header site.date (record begun { header_written = false }) Status.partial_content
          ≡ ok (length head, behind_head)
      unfolding write_header table_status
      head_written =
          rw (not_upgraded, not_streamed)
            (start_response_announced Status.partial_content (codes "Partial Content") refl
              (record begun { headers = sent_headers }) (length part) reliable length_told fits)

      abbrev behind_part : ResponseWriter
      behind_part = record behind_head {
        io = record io { conn = with_sent (with_sent io.conn head) part };
        body_written = length part;
      }

      part_written : write_response site.date behind_head part ≡ ok (length part, behind_part)
      unfolding write_response
      part_written = write_body_announced behind_head part reliable refl refl refl long

      answer_with_part :
          answer_with site (record begun { header_written = false }) Status.partial_content part
          ≡ ok behind_part
      answer_with_part = rw (head_written, part_written) refl

      module _ (headers : Values) (range : Range) (proper : range.begin < range.end)
          (within : range.end ≤ file.size) (got : file.part range.begin range.end ≡ ok part)
          (changed : equal (get headers (codes "if-none-match")) (hash_content site part)
            ≡ false) where
        serve_range-behind_part : serve_range site file headers range dated ≡ ok behind_part
        unfolding serve_range
        serve_range-behind_part =
            let good : ltb file.size range.end || leb range.end range.begin ≡ false =
              ground arith in
            rw (good, got, changed) answer_with_part

        serve_file-behind_part :
            modified ≡ site.utc_string file.modified
            → equal (get headers (codes "if-modified-since")) modified ≡ false
            → get_range headers file.size ≡ some range
            → serve_file site file false headers (new_writer io) ≡ ok behind_part
        unfolding serve_file
        serve_file-behind_part told newer ranged =
            let newer' : equal (get headers (codes "if-modified-since"))
                  (site.utc_string file.modified)
                ≡ false =
              rw (← told) newer in
            rw (newer', ranged, serve_file, ← told) serve_range-behind_part

module _ (site : Site) (reader : Reader) (request : Request) (w : ResponseWriter) where
  handler_fn-get :
      request.method ≡ Method.get
      → handler_fn reader site request w ≡ serve_path reader site false request w
  unfolding handler_fn by_method
  handler_fn-get method =
      ap
        (λ m.
          by_method site m (serve_path reader site true request w)
            (serve_path reader site false request w) w)
        method

  serve_path-file :
      (file : StaticFile)
      → site.flatten_path request.url.path ≡ request.url.path
      → reader (file_path request.url.path) ≡ some file
      → file.is_directory ≡ false
      → serve_path reader site false request w ≡ serve_file site file false request.headers w
  unfolding serve_path
  serve_path-file file flat opened plain =
      let same : equal (site.flatten_path request.url.path) request.url.path ≡ true =
        (equal_iff (site.flatten_path request.url.path) request.url.path).1 flat in
      rw (same, opened, serve_path) (rw plain refl)

-- A GET request that names a part of a file of a directory by its first byte and the byte behind its
-- last one is answered with one message: status 206, the length of the part, and then exactly these
-- bytes of the file; nothing else of the connection and of the stream changes. The path is flat, the
-- file is open and its stream has its bytes, the range is not empty, ends in the file and has numbers
-- of 64 bits; the request's validators are not those of the file and of the part; the file's type is
-- not that of a stream of events; and the connection takes every write as a whole.
pub handler_fn-part :
    (site : Site) (reader : Reader) (f : DirectoryFile) (bytes : Bytes) (b e : ℕ)
    (request : Request) (io : Io)
    → request.method ≡ Method.get
    → site.flatten_path request.url.path ≡ request.url.path
    → reader (file_path request.url.path) ≡ some (static_file f)
    → f.stream ≡ some bytes
    → f.is_open ≡ true
    → f.file_size ≡ length bytes
    → get request.headers (codes "range") ≡ range_text b e
    → b < e
    → e ≤ length bytes
    → e < 2 ^ 64
    → equal (get request.headers (codes "if-modified-since")) (site.utc_string f.last_write_time)
      ≡ false
    → equal
        (get request.headers (codes "if-none-match"))
        (hash_content site (take (e - b) (drop b bytes)))
      ≡ false
    → find_text
        (codes "event-stream")
        (reset_case (infer_mimetype site.mimetype_map f.resolved_path))
      ≡ none
    → IsReliable io.conn
    → (w' : ResponseWriter) × (headers : Values) × (handler_fn reader site request (new_writer io)
        ≡ ok w')
      × (w'.io ≡ record io {
        conn = with_sent io.conn (
            flatten (head_texts Status.partial_content (codes "Partial Content") headers)
            ++ take (e - b) (drop b bytes));
      })
      × (content_length headers ≡ some (e - b))
unfolding static_file
handler_fn-part site reader f bytes b e request io method flat opened stream open_ size asked lt le
      fits newer changed no_stream reliable =
    let file = static_file f in
    let part = take (e - b) (drop b bytes) in
    let modified = site.utc_string f.last_write_time in
    let told : file.modified ≡ f.last_write_time = rw stream refl in
    let sized : file.size ≡ f.file_size = rw stream refl in
    let plain_file : file.is_directory ≡ false = rw stream refl in
    let (ranged, got, long) =
      get_range-content_part request.headers f bytes b e asked stream open_ size lt le fits in
    let filled : 0 < length part = omega (arith, long, lt) in
    let short : length part < 2 ^ 64 = omega (arith, long, fits) in
    let within : e ≤ file.size = omega (arith, sized, size, le) in
    let sends =
      serve_file-behind_part site file io modified part no_stream reliable filled short
        request.headers (record { begin = b; end = e }) lt within got changed
        (ap site.utc_string (sym told)) newer ranged in
    let hs = sent_headers site file io modified part no_stream reliable filled short in
    (
      behind_part site file io modified part no_stream reliable filled short,
      hs,
      handler_fn-get site reader request (new_writer io) method
          ∙ (serve_path-file site reader request (new_writer io) file flat opened plain_file
              ∙ sends),
      ap (λ t. record io { conn = record io.conn { sent = t } })
          (append_assoc io.conn.sent
            (head site file io modified part no_stream reliable filled short) part),
      content_length-to_decimal hs (length part) (length_told site file io modified part) short
          ∙ ap some long,
    )
