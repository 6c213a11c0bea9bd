-- ===== src/Extern/Web.antt =====
-- What the gateway uses of net/http, net/url, go-path, go-cid and go-unixfs.
use ipfs_lite.Prelude.{
  ℕ, ◌+◌, ◌≡◌, Bool, true, Option, none, some, List, [], ◌∷◌, ◌++◌, codes, Str, Dict, insert,
  length, leb, if◌then◌else◌,
}

-- The errors that the gateway tells apart: resolver.ErrNoLink, routing.ErrNotFound,
-- context.DeadlineExceeded, and the others, each with its text.
pub data WebError : Type 0 where
  no_link not_found deadline_exceeded other : Str → WebError

-- What a call returns that may fail with such an error or panic.
pub data Answer (A : Type 0) : Type 0 where
  got : A → Answer A
  failed : WebError → Answer A
  panicked : Answer A

-- The request: its method and paths, and whether it is plain, with no range and no condition.
pub record Request : Type 0 where
  pub method : Str
  pub request_uri : Str
  pub url_path : Str
  -- `EscapedPath` of the URL
  pub escaped_path : Str
  -- the value of the query's `filename`
  pub filename : Str
  pub plain : Bool

-- What a handler has written: the status that WriteHeader sent, the length that was declared then,
-- the headers, and the body.
pub record Response : Type 0 where
  pub status : Option ℕ
  pub declared : Option ℕ
  pub headers : Dict Str
  pub body : Str

abbrev pub no_response : Response
no_response = record { status = none; declared = none; headers = []; body = [] }

abbrev pub set_header : Str → Str → Response → Response
set_header k v r = record r { headers = insert k v r.headers }

-- `WriteHeader`: the first status counts.
abbrev pub write_header : ℕ → Response → Response
write_header code r = elim r.status [ none ↦ record r { status = some code } | some _ ↦ r ]

-- `Write`: nothing is written beyond a declared length.
abbrev pub write : Str → Response → Response
write text r = elim r.declared [
  | none ↦ record r { body = r.body ++ text }
  | some n ↦ if leb (length r.body + length text) n then record r { body = r.body ++ text } else r
]

-- `http.Error`
abbrev pub http_error : Str → ℕ → Response → Response
http_error text code r = write (text ++ (10 ∷ [])) (
    write_header code (
      set_header (codes "X-Content-Type-Options") (codes "nosniff")
        (set_header (codes "Content-Type") (codes "text/plain; charset=utf-8") r)))

-- What `unixfile.NewUnixfsFile` makes of a node: the content of a file, or a directory.
pub data UnixfsFile : Type 0 where
  file : Str → UnixfsFile
  directory : UnixfsFile

pub record Web : Type 1 where
  pub World : Type 0
  pub Node : Type 0
  -- `url.ParseRequestURI`
  pub parse_request_uri : Str → Option WebError
  -- `path.New(p).IsValid()`, and `Segments` and `Namespace` of a path
  pub is_valid : Str → Option WebError
  pub segments : Str → List Str
  -- `ResolveToLastNode`: the CID of the last node
  pub resolve_to_last_node : Str → World → Answer Str
  -- `cid.Parse`, `cid.Decode`
  pub parse_cid : Str → Answer Str
  -- `Get` of the DAG service, and `NewUnixfsFile`
  pub get_node : Str → World → Answer Node
  pub unixfs_file : Node → World → Answer UnixfsFile
  -- `url.PathEscape`
  pub path_escape : Str → Str
  -- `http.ServeContent` with the name and the content
  pub serve_content : Request → Str → Str → Response → Response
  -- A plain GET is answered with the whole content, of which the length is declared.
  pub serve_content-get :
      (req : Request) (name content : Str) (r : Response)
      → req.plain ≡ true
      → req.method ≡ codes "GET"
      → r.status ≡ none
      → r.body ≡ []
      → ((serve_content req name content r).status ≡ some 200)
        × ((serve_content req name content r).body ≡ content)
        × ((serve_content req name content r).declared ≡ some (length content))
