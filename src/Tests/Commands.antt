-- ===== src/Tests/Commands.antt =====
-- The theorems on the commands at concrete calls.
use ipfs_lite.Prelude.{
  arith, ◌≡◌, ◌≢◌, refl, ℕ, Bool, true, false, Option, some, [], ◌∷◌, ◌++◌, codes, Str, str_eq,
  split_rest, Dict, lookup, insert, Result, ok,
}
use ipfs_lite.Replication.Manager.{find_tag}
use ipfs_lite.Peer.Files.{get_file, add_file, known_hash, lay_out}
use ipfs_lite.Replication.Group.{tag_content}
use ipfs_lite.Security.{encrypt_content, block_or_nil}
use ipfs_lite.Prelude.Paths.{base}
use ipfs_lite.Cli.Out.{no_style, print}
use ipfs_lite.Cli.Get.{candidate, destination, save, contents_of, run_get}
use ipfs_lite.Cli.Get.Saved.{run_get_ends, run_get-saved}
use ipfs_lite.Cli.Add.{run_add}
use ipfs_lite.Cli.Add.Input.{read_input}
use ipfs_lite.Cli.Add.RoundTrip.{run_get-run_add}
use ipfs_lite.Store as Store
use ipfs_lite.Store.{Info}
use ipfs_lite.Tests.Codec.{Codec, json_of, list, pair, number, boolean, through}
use ipfs_lite.Tests.Codecs.{group_metadata, content_metatag, link, config}
use ipfs_lite.Tests.Group.{alice}
use ipfs_lite.Tests.OsFiles.{map_os}
use ipfs_lite.Tests.Services.{marking}
use ipfs_lite.Tests.Stores.{contents, song, added}
use ipfs_lite.Tests.Worlds.{map_store, plain_keys}

instance abbrev info_codec : Codec Info
info_codec =
    through {B = (Str × Str) × (Str × (Bool × ℕ))}
      (λ i. ((i.tag, i.content_type), (i.name, (i.is_encrypted, i.size))))
      (λ t. record {
        tag = t.0.0;
        content_type = t.0.1;
        name = t.1.0;
        is_encrypted = t.1.1.0;
        size = t.1.1.1;
      })
      (λ x. refl)

abbrev same_text : Str → Result Str
same_text s = ok s

abbrev name_of : Info → Str
name_of i = i.name

-- The folder has a file of the name already.
abbrev disk : Dict Str
disk = (codes "/d/a.b", codes "la") ∷ (codes "/h/Downloads/a.b", codes "x") ∷ []

abbrev mime : Str → Str
mime head = codes "text"

abbrev ran_add : Result Str × (Dict Str × (Dict Str × Dict Str))
ran_add =
    run_add map_os map_store plain_keys contents marking alice alice mime same_text name_of
      (some true) (codes "/d/a.b" ∷ []) [] (codes "pw") no_style 7 (disk, ([], []))

run_get-run_add_example :
    (n : ℕ) × (content : Str) × (w2 : Dict Str × (Dict Str × Dict Str)) × (true ≡ true)
    × (content ≢ [])
    × (map_os.read_file (codes "/d/a.b") disk ≡ ok content)
    × (run_get map_os map_store contents marking same_text name_of 9 true
          (codes "a.b" ∷ [])
          []
          (codes "pw")
          no_style
          ran_add.1
        ≡ some (ok (codes "a.b" ++ (10 ∷ [])), w2))
    × (map_os.stat (codes "/h/Downloads/" ++ candidate (codes "a.b") n) disk ≡ false)
    × (map_os.read_file (codes "/h/Downloads/" ++ candidate (codes "a.b") n) w2.0 ≡ ok content)
    × ((q : Str) → map_os.stat q disk ≡ true → map_os.read_file q w2.0 ≡ map_os.read_file q disk)
unfolding run_add read_input lookup str_eq encrypt_content block_or_nil Store.add add_file
    known_hash lay_out tag_content print base split_rest destination save
run_get-run_add_example =
    run_get-run_add map_os map_store plain_keys contents marking alice alice mime same_text name_of
      9 (some true) (codes "/d/a.b") [] [] (codes "/h/Downloads") (codes "pw")
      (codes "a.b" ++ (10 ∷ [])) [] [] no_style 7 (disk, ([], [])) ran_add.1 refl (omega arith) refl
      (
        (λ e. absurd (omega arith)),
        ((λ e. absurd (omega arith)), ((λ e. absurd (omega arith)), tt)),
      )
      (λ e. absurd (ground arith)) (λ p b. (_, refl))

abbrev ran_get : Option (Result Str × (Dict Str × (Dict Str × Dict Str)))
ran_get =
    run_get map_os map_store contents marking same_text name_of 9 true (codes "song" ∷ [])
      (codes "/h") [] no_style (disk, added.1)

abbrev disk_after : Dict Str
disk_after = insert (codes "/h/song") (codes "la") disk

run_get-saved_example :
    (n : ℕ) × (bytes : Str) × (contents_of marking [] (codes "la", song) ≡ ok bytes)
    × (map_os.stat (codes "/h/" ++ candidate (codes "song") n) disk ≡ false)
    × (map_os.read_file (codes "/h/" ++ candidate (codes "song") n) disk_after ≡ ok bytes)
    × ((q : Str)
        → map_os.stat q disk ≡ true
        → map_os.read_file q disk_after ≡ map_os.read_file q disk)
    × (◌≡◌ {A = Dict Str × Dict Str} added.1 added.1)
unfolding destination Store.get find_tag lookup Store.add add_file known_hash lay_out str_eq
    tag_content insert get_file run_get print base split_rest
run_get-saved_example =
    run_get-saved map_os map_store contents marking same_text name_of 9 (codes "song") []
      (codes "/h") (codes "/h") [] (codes "song" ++ (10 ∷ [])) no_style (codes "la", song)
      (disk, added.1) (disk_after, added.1) refl refl
      (
        (λ e. absurd (omega arith)),
        (
          (λ e. absurd (omega arith)),
          ((λ e. absurd (omega arith)), ((λ e. absurd (omega arith)), tt)),
        ),
      )
      (λ e. absurd (ground arith)) refl

run_get_ends_example :
    (r : Result Str) × (w' : Dict Str × (Dict Str × Dict Str)) × (run_get map_os map_store contents
        marking same_text name_of 4 true
        (codes "song" ∷ [])
        (codes "/h")
        []
        no_style
        (disk, added.1)
      ≡ some (r, w'))
run_get_ends_example =
    run_get_ends map_os map_store contents marking same_text name_of 4 true (codes "song" ∷ [])
      (codes "/h") [] no_style (disk, added.1) (omega arith)

-- A name with a slash: the free path is looked for under the whole name, and the file that stands
-- under its last part is overwritten.
abbrev slashed_added : Result Str × (Dict Str × Dict Str)
slashed_added =
    Store.add map_store plain_keys contents alice alice (codes "la")
      (record song { name = codes "x/a.b" }) 7 ([], [])

file_overwritten :
    run_get map_os map_store contents marking same_text name_of 3 true
      (codes "song" ∷ [])
      (codes "/h")
      []
      no_style
      ((codes "/h/a.b", codes "old") ∷ [], slashed_added.1)
    ≡ some (ok (codes "x/a.b" ++ (10 ∷ [])), ((codes "/h/a.b", codes "la") ∷ [], slashed_added.1))
unfolding destination Store.get find_tag lookup Store.add add_file known_hash lay_out str_eq
    tag_content insert get_file run_get print base split_rest
file_overwritten = refl
