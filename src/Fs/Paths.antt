-- ===== src/Fs/Paths.antt =====
-- fs/static_serve.cpp: the paths that the reader is asked for.
use lambda.Base.{Bool, true, false, ◌≡◌, refl, ap₂, inl, inr, Bytes, equal, equal_iff, Bool-cases}
use lambda.Server.Writer.{ResponseWriter}
use lambda.Server.Pipeline.{Request}
use lambda.Fs.Static.{Site, Reader, file_path, serve_path, by_method, handler_fn}

module _ (site : Site) (one two : Reader)
    (same : (path : Bytes)
      → site.flatten_path path ≡ path
      → one (file_path path) ≡ two (file_path path)) where
  serve_path-flattened :
      (is_head : Bool) (request : Request) (w : ResponseWriter)
      → serve_path one site is_head request w ≡ serve_path two site is_head request w
  unfolding serve_path
  serve_path-flattened is_head request w =
      let path = request.url.path in
      elim (Bool-cases (equal (site.flatten_path path) path)) [
        | inl e ↦ rw (e, same path ((equal_iff (site.flatten_path path) path).0 e)) refl
        | inr e ↦ rw e refl
      ]

  -- The handler asks its reader for no path but those that flattening keeps, and their index files:
  -- with any two readers that agree on these, every request is answered in the same way.
  pub handler_fn-flattened :
      (request : Request) (w : ResponseWriter)
      → handler_fn one site request w ≡ handler_fn two site request w
  unfolding handler_fn
  handler_fn-flattened request w =
      ap₂ (λ headed got. by_method site request.method headed got w)
        (serve_path-flattened true request w) (serve_path-flattened false request w)
