-- ===== src/Tests/Pages.antt =====
-- The theorems on the gateway at concrete requests.
use ipfs_lite.Prelude.{
  ◌≡◌, refl, true, none, some, [], ◌∷◌, codes, Str, split_slash, split_rest, str_eq, length,
}
use ipfs_lite.Extern.Web.{got, Request, Response, file, Web}
use ipfs_lite.Gateway.{serve_http, resolve_path}
use ipfs_lite.Gateway.Served.{file_served}

-- Every path names a file of one content.
abbrev serve_text : Request → Str → Str → Response → Response
serve_text req name content r = record r {
  status = some 200;
  declared = some (length content);
  body = content;
}

pub serve_text-get :
    (req : Request) (name content : Str) (r : Response)
    → ((serve_text req name content r).status ≡ some 200)
      × ((serve_text req name content r).body ≡ content)
      × ((serve_text req name content r).declared ≡ some (length content))
serve_text-get req name content r = (refl, refl, refl)

abbrev one_file : Web
one_file = record {
  World = Str;
  Node = Str;
  parse_request_uri = λ u. none;
  is_valid = λ p. none;
  segments = λ p. codes "ipfs" ∷ codes "c" ∷ [];
  resolve_to_last_node = λ p w. got (codes "c");
  parse_cid = λ s. got s;
  get_node = λ c w. got c;
  unixfs_file = λ n w. got (file w);
  path_escape = λ s. s;
  serve_content = serve_text;
  serve_content-get = λ req name content r hp hm hs hb. serve_text-get req name content r;
}

abbrev get_page : Request
get_page = record {
  method = codes "GET";
  request_uri = codes "/ipfs/c";
  url_path = codes "/ipfs/c";
  escaped_path = codes "/ipfs/c";
  filename = [];
  plain = true;
}

file_served_example :
    ((serve_http one_file get_page (codes "la")).status ≡ some 200)
    × ((serve_http one_file get_page (codes "la")).body ≡ codes "la")
unfolding resolve_path str_eq split_slash split_rest
file_served_example =
    file_served one_file get_page (codes "la") (codes "c") (codes "c") (codes "c") (codes "la")
      (codes "c") refl refl refl refl refl refl refl refl refl
