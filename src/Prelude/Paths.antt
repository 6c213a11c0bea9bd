-- ===== src/Prelude/Paths.antt =====
-- Slash-separated paths: `path.Clean`, `path.Join` of two parts and `path.Dir`.

use mathlib.Core.Bool.{Bool, ◌||◌}
use mathlib.Core.Option.{Option, none, some}
use mathlib.Core.List.{List, [], ◌∷◌, ◌++◌}
use ipfs_lite.Prelude.Tests.{◌==◌, if◌then◌else◌}
use ipfs_lite.Prelude.Text.{Str, codes, str_eq, has_prefix, split_slash, split_head, split_rest}

-- One part of a path, on the parts that stand before it, the last first.
unfoldable pub clean_part : Bool → List Str → Str → List Str
clean_part rooted [] part =
    if str_eq part [] || str_eq part (codes ".")
    then []
    else if str_eq part (codes "..")
    then (if rooted then [] else part ∷ [])
    else part ∷ []
clean_part rooted (p ∷ out) part =
    if str_eq part [] || str_eq part (codes ".")
    then p ∷ out
    else if str_eq part (codes "..")
    then (if str_eq p (codes "..") then part ∷ p ∷ out else out)
    else part ∷ p ∷ out

unfoldable pub clean_parts : Bool → List Str → List Str → List Str
unfolding clean_part
clean_parts rooted out [] = out
clean_parts rooted out (part ∷ parts) = clean_parts rooted (clean_part rooted out part) parts

-- The parts, the last first, with slashes between them before what follows.
unfoldable pub with_slashes : List Str → Str → Str
with_slashes [] s = s
with_slashes (p ∷ []) s = p ++ s
with_slashes (p ∷ q ∷ out) s = with_slashes (q ∷ out) (b'/' ∷ (p ++ s))

unfoldable pub clean : Str → Str
unfolding clean_parts with_slashes
clean p =
    let rooted = has_prefix p (codes "/") in
    let out = with_slashes (clean_parts rooted [] (split_slash p)) [] in
    if rooted then b'/' ∷ out else if str_eq out [] then codes "." else out

unfoldable pub join : Str → Str → Str
unfolding clean
join [] name = if str_eq name [] then [] else clean name
join (c ∷ p) name = clean ((c ∷ p) ++ (b'/' ∷ name))

-- The path up to its last slash, with it.
unfoldable pub before_name : Str → Str
before_name [] = []
before_name (c ∷ p) = elim (before_name p) [
  | [] ↦ if c == b'/' then c ∷ [] else []
  | d ∷ q ↦ c ∷ d ∷ q
]

unfoldable pub dir : Str → Str
unfolding before_name clean
dir p = clean (before_name p)

-- `filepath.Base`: the last part of a path without its slashes at the end.
unfoldable pub trim_slashes : Str → Str
trim_slashes [] = []
trim_slashes (c ∷ p) = elim (trim_slashes p) [
  | [] ↦ if c == b'/' then [] else c ∷ []
  | d ∷ q ↦ c ∷ d ∷ q
]

unfoldable pub last_part : Str → List Str → Str
last_part p [] = p
last_part p (q ∷ parts) = last_part q parts

unfoldable pub base : Str → Str
unfolding trim_slashes last_part
base [] = codes "."
base (c ∷ p) = elim (trim_slashes (c ∷ p)) [
  | [] ↦ codes "/"
  | d ∷ q ↦ last_part (split_head (d ∷ q)) (split_rest (d ∷ q))
]

-- `filepath.Ext`: from the last dot on, if no slash follows it.
unfoldable pub ext_from : Str → Option Str
ext_from [] = none
ext_from (c ∷ p) = elim (ext_from p) [
  | some e ↦ some e
  | none ↦ if c == b'/' then some [] else if c == b'.' then some (c ∷ p) else none
]

unfoldable pub ext : Str → Str
unfolding ext_from
ext p = elim (ext_from p) [ some e ↦ e | none ↦ [] ]
