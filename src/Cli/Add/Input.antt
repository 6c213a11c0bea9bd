-- ===== src/Cli/Add/Input.antt =====
-- What the commands add and addDir read before they call the node, cli/cmd/add.go.
use Prim.Native.Nat.{zero, suc}
use ipfs_lite.Prelude.{
  ℕ, ◌-◌, Bool, false, not, Option, none, some, List, [], ◌∷◌, ◌++◌, codes, Str, str_eq, Int64,
  length, take, Error, Result, ok, err, check, ◌>>=◌, ◌>>◌,
}
use ipfs_lite.Prelude.Paths.{base}
use ipfs_lite.Extern.Cipher.{Cipher}
use ipfs_lite.Extern.Os.{Os}
use ipfs_lite.Cli.Get.{first_arg}
use ipfs_lite.Security.{encrypt_content}
use ipfs_lite.Store.{Info}

-- `comm.Node`, which is nil before the daemon was started, by whether it is online.
abbrev pub NodeState : Type 0
NodeState = Option Bool

-- `comm.Node == nil || !comm.Node.IsOnline()`
unfoldable pub daemon_runs : NodeState → Bool
daemon_runs none = false
daemon_runs (some online) = online

-- The first `Read` of a file: its start in a buffer of 261 zeros, or io.EOF where it is empty.
abbrev zeros : ℕ → Str
zeros zero = []
zeros (suc n) = 0 ∷ zeros n

unfoldable pub head_of : Str → Result Str
head_of [] = err Error.end_of_file
head_of (b ∷ content) =
    let start = take 261 (b ∷ content) in ok (start ++ zeros (261 - length start))

-- The flag `tag`, or the name of the file.
unfoldable pub tag_of : Str → Str → Str
tag_of [] path = base path
tag_of (c ∷ tag) path = c ∷ tag

-- The information that add gives the content; `mime` is `filetype.Match`.
unfoldable pub file_info : (Str → Str) → Str → Str → Str → Int64 → Str → Info
unfolding tag_of
file_info mime tag path passphrase size head = record {
  tag = tag_of tag path;
  content_type = mime head;
  name = base path;
  is_encrypted = not (str_eq passphrase []);
  size = size;
}

-- The information of a directory.
unfoldable pub folder_info : Str → Str → Int64 → Info
unfolding tag_of
folder_info tag path size = record {
  tag = tag_of tag path;
  content_type = codes "directory";
  name = base path;
  is_encrypted = false;
  size = size;
}

-- The bytes that the node stores: encrypted where there is a passphrase.
unfoldable pub stored_bytes : Cipher → Str → Str → Result Str
stored_bytes c content [] = ok content
stored_bytes c content (p ∷ phrase) = encrypt_content c content (p ∷ phrase)

-- The bytes and the information of a file, up to the call of the node's Add.
unfoldable pub read_input :
    (os : Os)
    → Cipher
    → (Str → Str)
    → NodeState
    → List Str
    → Str
    → Str
    → os.World
    → Result (Str × Info)
unfolding daemon_runs first_arg head_of file_info stored_bytes
read_input os c mime comm args tag passphrase w = do
  check (daemon_runs comm) Error.daemon_not_running
  path ← first_arg args
  size ← os.lstat path w
  content ← os.read_file path w
  head ← head_of content
  bytes ← stored_bytes c content passphrase
  ok (bytes, file_info mime tag path passphrase size head)

-- The path and the information of a directory, up to the call of the node's AddDir.
unfoldable pub read_dir : (os : Os) → NodeState → List Str → Str → os.World → Result (Str × Info)
unfolding daemon_runs first_arg folder_info
read_dir os comm args tag w = do
  check (daemon_runs comm) Error.daemon_not_running
  path ← first_arg args
  size ← os.lstat path w
  ok (path, folder_info tag path size)
