-- ===== src/Cli/Out.antt =====
-- What the commands print: cli/out/out.go, and parseFormat of cli/cmd/info.go.
use ipfs_lite.Prelude.{Bool, not, ◌&&◌, [], ◌∷◌, ◌++◌, Str, Result, ok, if◌then◌else◌, ◌>>=◌}
use ipfs_lite.Extern.Json.{Json}

-- `Format`; the zero value is the first.
pub data Format : Type 0 where
  pretty_json json no_style : Format

-- `parseFormat` of the flags `pretty` and `json`
unfoldable pub parse_format : Bool → Bool → Format
parse_format pretty json_flag =
    let f = if json_flag then Format.json else Format.pretty_json in
    let f = if pretty then Format.pretty_json else f in
    if not pretty && not json_flag then Format.no_style else f

-- `Println` of a text
abbrev pub line : Str → Str
line s = s ++ (10 ∷ [])

-- `Print`: what is printed. `indent` is `json.Indent` with a tab, `plain` what Println makes of the
-- value itself.
unfoldable pub print :
    {A : Type 0} ⦃j : Json A⦄ → (Str → Result Str) → (A → Str) → A → Format → Result Str
print ⦃j⦄ indent plain value Format.pretty_json =
    j.marshal value >>= λ b. indent b >>= λ pretty. ok (line pretty)
print ⦃j⦄ indent plain value Format.json = j.marshal value >>= λ b. ok (line b)
print indent plain value Format.no_style = ok (line (plain value))
