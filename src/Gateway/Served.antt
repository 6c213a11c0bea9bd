-- ===== src/Gateway/Served.antt =====
-- What the gateway answers with the status 200.
use mathlib.Core.Path.{subst}
use ipfs_lite.Prelude.{
  arith, ℕ, ◌≡◌, refl, ◌≢◌, true, none, some, [], ◌∷◌, ◌++◌, codes, Str, str_eq, split_slash,
  length, length-append, get_elem?, if_cases,
}
use ipfs_lite.Extern.Web.{
  WebError, no_link, not_found, deadline_exceeded, other, got, Request, Response, no_response,
  http_error, UnixfsFile, Web,
}
use ipfs_lite.Gateway.{
  Handled, returned, crashed, error_code, web_error, get_filename, resolve_path, serve_file,
  serve_node, serve_decoded, serve_resolved, serve_valid, get_or_head_handler, error_page,
  serve_http,
}

-- An error page after an answer whose status was sent and whose declared length was written whole
-- changes neither.
error_page-kept :
    (text : Str) (code : ℕ) (r : Response) (n : ℕ)
    → r.status ≡ some n
    → r.declared ≡ some (length r.body)
    → ((http_error text code r).status ≡ some n) × ((http_error text code r).body ≡ r.body)
error_page-kept text code r n hs hd =
    let longer = length-append text (10 ∷ []) in (ground (arith, longer), ground (arith, longer))

web_error-200 :
    (message : Str) (e : WebError) (default : ℕ)
    → default ≢ 200
    → (web_error message e default no_response).status ≢ some 200
unfolding web_error error_code
web_error-200 message (no_link t) default h q = absurd (ground arith)
web_error-200 message (not_found t) default h q = absurd (ground arith)
web_error-200 message (deadline_exceeded t) default h q = absurd (ground arith)
web_error-200 message (other t) default h q = h (ground arith)

module _ (web : Web) where
  serve_file-get :
      (req : Request) (content : Str)
      → req.plain ≡ true
      → req.method ≡ codes "GET"
      → ((serve_file web req content no_response).status ≡ some 200)
        × ((serve_file web req content no_response).body ≡ content)
        × ((serve_file web req content no_response).declared ≡ some (length content))
  unfolding serve_file
  serve_file-get req content hp hm =
      if_cases
        (λ (r : Response).
          (r.status ≡ some 200) × (r.body ≡ content) × (r.declared ≡ some (length content)))
        (str_eq req.filename [])
        (λ unnamed. web.serve_content-get req (get_filename req.url_path) content _ hp hm refl refl)
        λ named. web.serve_content-get req req.filename content _ hp hm refl refl

  -- A plain GET of a path that resolves to a file is answered 200 with exactly the file's content: the
  -- error page that is written after every request does not reach the client.
  pub file_served :
      (req : Request) (w : web.World) (c part root content : Str) (n : web.Node)
      → web.parse_request_uri req.request_uri ≡ none
      → web.is_valid req.url_path ≡ none
      → resolve_path web req.url_path w ≡ got c
      → web.get_node c w ≡ got n
      → get_elem? (split_slash req.url_path) 2 ≡ some part
      → web.parse_cid part ≡ got root
      → web.unixfs_file n w ≡ got (UnixfsFile.file content)
      → req.plain ≡ true
      → req.method ≡ codes "GET"
      → ((serve_http web req w).status ≡ some 200) × ((serve_http web req w).body ≡ content)
  unfolding serve_http get_or_head_handler serve_valid serve_resolved serve_decoded serve_node
      error_page
  file_served req w c part root content n h1 h2 h3 h4 h5 h6 h7 hp hm =
      let run : get_or_head_handler web req w no_response
          ≡ returned (serve_file web req content no_response) =
        ground arith in
      let (hs, hb, hd) = serve_file-get req content hp hm in
      let (status, body) =
        error_page-kept
          (codes "Method "
            ++ (req.method ++ (codes " not allowed: bad request for " ++ req.url_path)))
          400 (serve_file web req content no_response) 200 hs (ground (arith, hb, hd)) in
      (ground (arith, run, status), ground (arith, run, body, hb))

  -- What stands behind an answer 200: a file under the path.
  abbrev pub IsFile : Request → web.World → Type 0
  IsFile req w =
      (c : Str) × (n : web.Node) × (content : Str) × (resolve_path web req.url_path w ≡ got c)
      × (web.get_node c w ≡ got n)
      × (web.unixfs_file n w ≡ got (UnixfsFile.file content))

  -- The status that a handler has sent.
  abbrev Sent : Handled → Type 0
  Sent (returned r) = r.status ≡ some 200
  Sent (crashed r) = r.status ≡ some 200

  refused :
      (x : Handled) (message : Str) (e : WebError) (default : ℕ)
      → default ≢ 200
      → x ≡ returned (web_error message e default no_response)
      → Sent x
      → ⊥
  refused x message e default ne q h = web_error-200 message e default ne (subst Sent q h)
