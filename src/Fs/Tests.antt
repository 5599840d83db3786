-- ===== src/Fs/Tests.antt =====
-- fs/ at concrete inputs.
use mathlib.Core.Path.{subst}
use lambda.Base.{
  true, false, [], ◌∷◌, none, some, ◌≡◌, refl, arith, Bytes, codes, equal, if◌then◌else◌, ok,
}
use lambda.Base.Decimal.{to_decimal}
use lambda.Dict.{find}
use lambda.Http.Trim.{reset_case, trim_space, is_space}
use lambda.Http.Method.{Method}
use lambda.Http.Values.{Values, get}
use lambda.Net.Conn.{Conn}
use lambda.Server.Stream.{new_stream}
use lambda.Server.Head.{empty_url, content_length}
use lambda.Server.Writer.{ResponseWriter, new_writer}
use lambda.Server.Pipeline.{Request}
use lambda.Fs.File.{DirectoryFile, static_file}
use lambda.Fs.Mimetypes.{infer_mimetype}
use lambda.Fs.Partial.{handler_fn-part}
use lambda.Base.{◌++◌, scan}
use lambda.Base64.{encode}
use lambda.Server.Status.{Status}
use lambda.Server.Writer.{head_texts}
use lambda.Server.Writer.Bodies.{flatten}
use lambda.Server.Writer.Deferred.{with_sent}
use lambda.Fs.Static.{Site, Reader, file_path, handler_fn}
use lambda.Fs.Paths.{handler_fn-flattened}

abbrev letters_file : DirectoryFile
letters_file = record {
  stream = some (codes "abcdef");
  is_open = true;
  resolved_path = codes "./letters.txt";
  last_write_time = 0;
  file_size = 6;
}

abbrev asked : Values
asked = (codes "range", codes "bytes=2-5" ∷ []) ∷ []

-- The place of the last dot decides.
type_of_archive :
    infer_mimetype
      (λ extension. if equal extension (codes "gz") then some (codes "gzip") else none)
      (codes "a.tar.gz")
    ≡ codes "gzip"
unfolding infer_mimetype equal
type_of_archive = refl

abbrev flat : Bytes → Bytes
flat path = codes "/b"

abbrev site : Site
site = record {
  html_error_pages = false;
  flatten_path = flat;
  std_hash = λ bytes. bytes;
  render_404_page = λ path. path;
  mimetype_map = λ extension. none;
  utc_string = λ time. codes "then";
  date = codes "now";
}

abbrev idle : Conn
idle = record {
  is_open = true;
  incoming = [];
  outcomes = [];
  sent = [];
  read_timeout = 15000;
  write_timeout = 15000;
  options_accepted = true;
}

abbrev above : Request
above = record {
  method = Method.get;
  url = record empty_url { path = codes "/a/../b" };
  headers = [];
  cookies = [];
}

abbrev writer : ResponseWriter
writer = new_writer (record { conn = idle; stream = new_stream })

-- A reader that has a file at the path above, and one that has none there.
abbrev open_reader : Reader
open_reader path = if equal path (codes "/a/../b") then some (static_file letters_file) else none

abbrev shut_reader : Reader
shut_reader path = none

agree :
    (path : Bytes)
    → site.flatten_path path ≡ path
    → open_reader (file_path path) ≡ shut_reader (file_path path)
unfolding equal
agree path e = subst (λ p. open_reader (file_path p) ≡ shut_reader (file_path p)) e refl

handler_fn-flattened_example :
    handler_fn open_reader site above writer ≡ handler_fn shut_reader site above writer
handler_fn-flattened_example = handler_fn-flattened site open_reader shut_reader agree above writer

abbrev plain_site : Site
plain_site = record site { flatten_path = λ path. path }

abbrev part_asked : Request
part_asked = record above {
  url = record empty_url { path = codes "/letters.txt" };
  headers = asked;
}

abbrev one_file : Reader
one_file path = if equal path (codes "/letters.txt") then some (static_file letters_file) else none

handler_fn-part_example :
    (w' : ResponseWriter) × (headers : Values) × (handler_fn one_file plain_site part_asked writer
      ≡ ok w')
    × (w'.io ≡ record writer.io {
      conn = with_sent idle (
          flatten (head_texts Status.partial_content (codes "Partial Content") headers)
          ++ codes "cde");
    })
    × (content_length headers ≡ some 3)
unfolding get find to_decimal reset_case trim_space is_space equal scan infer_mimetype encode
handler_fn-part_example =
    handler_fn-part plain_site one_file letters_file (codes "abcdef") 2 5 part_asked writer.io refl
      refl refl refl refl refl refl (omega arith) (omega arith) (omega arith) refl refl refl
      (refl, refl)
