-- ===== src/Gateway.antt =====
-- The HTTP gateway to the node's contents, internal/gateway/gateway.go.
pub mod Served
use ipfs_lite.Prelude.{
  ℕ, Bool, true, false, Option, none, some, List, [], ◌∷◌, ◌++◌, codes, Str, str_eq, split_slash,
  get_elem?, if◌then◌else◌,
}
use ipfs_lite.Prelude.Paths.{base}
use ipfs_lite.Extern.Web.{
  WebError, no_link, not_found, deadline_exceeded, other, Answer, got, failed, panicked, Request,
  Response, no_response, set_header, write_header, write, http_error, UnixfsFile, Web,
}

-- The end of a handler: it returned, or it panicked, with what it had written.
pub data Handled : Type 0 where
  returned crashed : Response → Handled

-- `webError` chooses the status by the error.
unfoldable pub error_code : WebError → ℕ → ℕ
error_code (no_link t) default = 404
error_code (not_found t) default = 404
error_code (deadline_exceeded t) default = 408
error_code (other t) default = default

abbrev pub error_text : WebError → Str
error_text (no_link t) = t
error_text (not_found t) = t
error_text (deadline_exceeded t) = t
error_text (other t) = t

-- `webError` and `webErrorWithCode`
unfoldable pub web_error : Str → WebError → ℕ → Response → Response
unfolding error_code
web_error message e default r =
    http_error (message ++ (codes ": " ++ error_text e)) (error_code e default) r

-- `getFilename`
abbrev pub get_filename : Str → Str
get_filename s = base s

module _ (web : Web) where
  -- `ResolvePath` of a path that is not resolved yet: the CID of the node. The first segment of a
  -- valid path is its namespace, and an index out of range panics.
  unfoldable pub resolve_root : Str → Str → Answer Str
  resolve_root p node = elim (get_elem? (web.segments p) 1) [
    | none ↦ panicked
    | some root ↦ elim (web.parse_cid root) [
      | got c ↦ got node
      | failed e ↦ failed e
      | panicked ↦ panicked
    ]
  ]

  unfoldable pub resolve_named : Str → web.World → Answer Str
  unfolding resolve_root
  resolve_named p w = elim (web.resolve_to_last_node p w) [
    | got node ↦ resolve_root p node
    | failed e ↦ failed e
    | panicked ↦ panicked
  ]

  unfoldable pub resolve_path : Str → web.World → Answer Str
  unfolding resolve_named
  resolve_path p w = elim (web.is_valid p) [
    | some e ↦ failed e
    | none ↦ elim (get_elem? (web.segments p) 0) [
      | none ↦ panicked
      | some namespace ↦
          if str_eq namespace (codes "ipfs")
          then resolve_named p w
          else failed (other (codes "unsupported path namespace: " ++ namespace))
    ]
  ]

  -- The part of `getOrHeadHandler` for a file.
  unfoldable pub serve_file : Request → Str → Response → Response
  serve_file req content r =
      if str_eq req.filename []
      then web.serve_content req (get_filename req.url_path) content r
      else web.serve_content req req.filename content (
          set_header (codes "Content-Disposition")
            (codes "inline; filename*=UTF-8''" ++ web.path_escape req.filename) r)

  -- The end of `getOrHeadHandler`, for a file or a directory.
  unfoldable pub serve_node : Request → web.Node → web.World → Response → Handled
  unfolding serve_file web_error
  serve_node req node w r = elim (web.unixfs_file node w) [
    | got f ↦ elim f [
      | UnixfsFile.file content ↦ returned (serve_file req content r)
      | UnixfsFile.directory ↦ returned (set_header (codes "Content-Type") (codes "text/html") r)
    ]
    | failed e ↦
        returned (web_error (codes "failed to get cid content " ++ req.escaped_path) e 404 r)
    | panicked ↦ crashed r
  ]

  -- `p[2]` of the path's parts is decoded after the node was got.
  unfoldable pub serve_decoded : Request → web.Node → web.World → Response → Handled
  unfolding serve_node
  serve_decoded req node w r = elim (get_elem? (split_slash req.url_path) 2) [
    | none ↦ crashed r
    | some c ↦ elim (web.parse_cid c) [
      | got _ ↦ serve_node req node w r
      | failed e ↦ returned (web_error (codes "unable to decode cid") e 400 r)
      | panicked ↦ crashed r
    ]
  ]

  -- A node that is not there ends the handler with nothing written.
  unfoldable pub serve_resolved : Request → Str → web.World → Response → Handled
  unfolding serve_decoded
  serve_resolved req c w r = elim (web.get_node c w) [
    | got node ↦ serve_decoded req node w r
    | failed _ ↦ returned r
    | panicked ↦ crashed r
  ]

  unfoldable pub serve_valid : Request → web.World → Response → Handled
  unfolding resolve_path serve_resolved web_error
  serve_valid req w r = elim (resolve_path req.url_path w) [
    | got c ↦ serve_resolved req c w r
    | failed e ↦ returned (web_error (codes "unable to resolve path") e 400 r)
    | panicked ↦ crashed r
  ]

  -- `getOrHeadHandler`
  unfoldable pub get_or_head_handler : Request → web.World → Response → Handled
  unfolding serve_valid web_error
  get_or_head_handler req w r = elim (web.parse_request_uri req.request_uri) [
    | some e ↦ returned (web_error (codes "failed to parse request path") e 500 r)
    | none ↦ elim (web.is_valid req.url_path) [
      | some e ↦ returned (web_error (codes "invalid ipfs path") e 400 r)
      | none ↦ serve_valid req w r
    ]
  ]

  -- `ServeHTTP`: after the handler has returned, an error page is written; a panic is recovered, and
  -- then it is not. ServeHTTP returns either way, and net/http sends the status 200 where none was.
  unfoldable pub error_page : Request → Handled → Response
  error_page req (returned r) =
      http_error
        (codes "Method "
          ++ (req.method ++ (codes " not allowed: bad request for " ++ req.url_path)))
        400 r
  error_page req (crashed r) = write_header 200 r

  unfoldable pub serve_http : Request → web.World → Response
  unfolding get_or_head_handler error_page
  serve_http req w = error_page req (get_or_head_handler req w no_response)
