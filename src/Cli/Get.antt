-- ===== src/Cli/Get.antt =====
-- The command get, cli/cmd/get.go: content that is found under a tag is saved under a name that no
-- file has yet.
pub mod Names
pub mod Folder
pub mod Saved
use ipfs_lite.Prelude.{
  ℕ, zero, suc, Bool, true, false, Option, none, some, List, [], ◌∷◌, ◌++◌, codes, Str, str_eq,
  trim_suffix, Error, Result, ok, err, panic, if◌then◌else◌,
}
use ipfs_lite.Prelude.Decimal.{decimal}
use ipfs_lite.Prelude.Paths.{ext, base}
use ipfs_lite.Prelude.Io.{Io, pure, fail, lift, ◌>>=◌, ◌>>◌}
use ipfs_lite.Extern.Cipher.{Cipher}
use ipfs_lite.Extern.Crdt.{Crdt}
use ipfs_lite.Extern.Json.{Json}
use ipfs_lite.Extern.Os.{Os}
use ipfs_lite.Cli.Out.{Format, print}
use ipfs_lite.Replication.Types.{ContentMetatag}
use ipfs_lite.Security.{decrypt_content}
use ipfs_lite.Store as Store
use ipfs_lite.Store.{Info, on_left}
use ipfs_lite.Store.Content.{Contents}

-- The name after so many that were taken: a number stands before the extension.
unfoldable pub candidate : Str → ℕ → Str
candidate output zero = output
candidate output (suc n) =
    if str_eq (ext output) []
    then output ++ (b'_' ∷ decimal (suc n))
    else trim_suffix output (ext output) ++ (b'_' ∷ (decimal (suc n) ++ ext output))

-- The loop over the names, which ends at the first that no file has. It has no bound of its own.
unfoldable pub free_name : ℕ → (Str → Bool) → Str → ℕ → Option Str
unfolding candidate
free_name zero exists output count = none
free_name (suc fuel) exists output count =
    let next = free_name fuel exists output (suc count) in
    if exists (candidate output count) then next else some (candidate output count)

module _ (os : Os) where
  -- The folder of the flag `location`, or the user's Downloads.
  unfoldable pub destination : Str → Result Str
  destination [] = elim os.home_dir [
    | ok home ↦ ok (home ++ codes "/Downloads")
    | err e ↦ err e
    | panic ↦ panic
  ]
  destination (c ∷ s) = ok (c ∷ s)

  -- `os.Create` and one write of the bytes.
  unfoldable pub save : Str → Str → Io os.World (Unit {0})
  save path bytes = os.create path >>= λ file. os.write file bytes

-- The bytes of the file, decrypted where the content is encrypted.
unfoldable pub contents_of : Cipher → Str → Str × Info → Result Str
contents_of c passphrase (stored, info) =
    if info.is_encrypted
    then if str_eq passphrase []
      then err Error.blank_passphrase
      else decrypt_content c stored passphrase
    else ok stored

-- `args[0]`
unfoldable pub first_arg : List Str → Result Str
first_arg [] = panic
first_arg (a ∷ args) = ok a

module _ (os : Os) (db : Crdt) (ct : Contents) (c : Cipher) ⦃mj : Json ContentMetatag⦄
    ⦃ij : Json Info⦄ (indent : Str → Result Str) (plain : Info → Str) where
  -- The files of the computer, and the node's store.
  abbrev pub World : Type 0
  World = os.World × (ct.World × db.World)

  -- The command once the content is found and has a name: the file stands in the folder under the
  -- last part of the name, and the information is printed.
  unfoldable pub finish : Str → Str → Format → Str → Str × Info → Io World Str
  unfolding contents_of save
  finish dest passphrase format path found = do
    bytes ← lift (contents_of c passphrase found)
    on_left (save os (dest ++ (b'/' ∷ base path)) bytes)
    lift (print indent plain found.1 format)

  -- The command of a node that was started; `none` while the loop over the names still runs.
  unfoldable pub get_started : ℕ → Str → Str → Str → Format → World → Option (Result Str × World)
  unfolding free_name finish
  get_started fuel tag dest passphrase format w = elim (Store.get db ct tag w.1) [
    | ok found ↦ elim (free_name fuel (λ p. os.stat p w.0) (dest ++ (b'/' ∷ found.1.name)) 0) [
      | some path ↦ some (finish dest passphrase format path found w)
      | none ↦ none
    ]
    | err e ↦ some (err e, w)
    | panic ↦ some (panic, w)
  ]

  -- `RunE`: it does not ask whether comm.Node is there, which is nil before the daemon was started.
  unfoldable pub run_get :
      ℕ → Bool → List Str → Str → Str → Format → World → Option (Result Str × World)
  unfolding first_arg destination get_started
  run_get fuel started args location passphrase format w = elim (first_arg args) [
    | ok tag ↦ elim (destination os location) [
      | ok dest ↦
          let run = get_started fuel tag dest passphrase format w in
          if started then run else some (panic, w)
      | err e ↦ some (err e, w)
      | panic ↦ some (panic, w)
    ]
    | err e ↦ some (err e, w)
    | panic ↦ some (panic, w)
  ]
