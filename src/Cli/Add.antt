-- ===== src/Cli/Add.antt =====
-- The commands add and addDir, cli/cmd/add.go, and remove, cli/cmd/remove.go.
pub mod Input
pub mod RoundTrip
use ipfs_lite.Prelude.{
  suc, ℕ, ◌-◌, Bool, true, false, not, Option, none, some, List, [], ◌∷◌, ◌++◌, codes, Str, str_eq,
  Int64, length, take, Error, Result, ok, err, panic, if◌then◌else◌,
}
use ipfs_lite.Prelude.Paths.{base}
use ipfs_lite.Prelude.Io.{Io, pure, fail, check, lift, gets, ◌>>=◌, ◌>>◌}
use ipfs_lite.Extern.Cipher.{Cipher}
use ipfs_lite.Extern.Crdt.{Crdt}
use ipfs_lite.Extern.Json.{Json}
use ipfs_lite.Extern.Keys.{Keys}
use ipfs_lite.Extern.Os.{Os}
use ipfs_lite.Cli.Out.{Format, print}
use ipfs_lite.Cli.Get.{first_arg}
use ipfs_lite.Cli.Add.Input.{NodeState, daemon_runs, read_input, read_dir}
use ipfs_lite.Replication.Types.{ContentMetatag, GroupMetadata}
use ipfs_lite.Replication.Manager.{delete_tag}
use ipfs_lite.Security.{encrypt_content}
use ipfs_lite.Store as Store
use ipfs_lite.Store.{Info, on_left, on_right}
use ipfs_lite.Store.Content.{Contents}

module _ (os : Os) (db : Crdt) (ks : Keys) (ct : Contents) (c : Cipher) ⦃gj : Json GroupMetadata⦄
    ⦃mj : Json ContentMetatag⦄ ⦃ij : Json Info⦄ (host : Str) (key : ks.PrivKey) (mime : Str → Str)
    (indent : Str → Result Str) (plain : Info → Str) where
  abbrev pub World : Type 0
  World = os.World × (ct.World × db.World)

  -- `RunE` of add: what it prints.
  unfoldable pub run_add : NodeState → List Str → Str → Str → Format → Int64 → Io World Str
  run_add comm args tag passphrase format now = do
    (bytes, info) ← gets (λ (w : World). read_input os c mime comm args tag passphrase w.0)
    on_right (Store.add db ks ct host key bytes info now)
    lift (print indent plain info format)

  -- `RunE` of addDir
  unfoldable pub run_add_dir : NodeState → List Str → Str → Format → Int64 → Io World Str
  run_add_dir comm args tag format now = do
    (path, info) ← gets (λ (w : World). read_dir os comm args tag w.0)
    on_right (Store.add_dir db ks ct host key path info now)
    lift (print indent plain info format)

module _ (db : Crdt) (ct : Contents) ⦃mj : Json ContentMetatag⦄ where
  -- `RunE` of remove: the node's Delete has deleted the tag before it is deleted again.
  unfoldable pub run_remove : NodeState → List Str → Io (ct.World × db.World) Str
  unfolding daemon_runs first_arg
  run_remove comm args = do
    check (daemon_runs comm) Error.daemon_not_running
    tag ← lift (first_arg args)
    Store.delete db ct tag
    on_right (delete_tag db tag)
    pure (codes "Content with tag \"" ++ (tag ++ codes "\" removed"))
