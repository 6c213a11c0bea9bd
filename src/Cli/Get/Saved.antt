-- ===== src/Cli/Get/Saved.antt =====
-- The command get ends, and saves the content in a new file.
use mathlib.Core.Path.{subst}
use ipfs_lite.Prelude.{
  arith, ℕ, suc, ◌<◌, ◌≡◌, refl, sym, ◌∙◌, ◌≢◌, Bool, true, false, Option, none, some, List, [],
  ◌∷◌, ◌++◌, Str, Result, ok, err, panic, NoSlash, length,
}
use ipfs_lite.Prelude.Io.{lift, bind-ok, lift-bind-ok, ◌>>◌}
use ipfs_lite.Prelude.Paths.{base}
use ipfs_lite.Extern.Cipher.{Cipher}
use ipfs_lite.Extern.Crdt.{Crdt}
use ipfs_lite.Extern.Json.{Json}
use ipfs_lite.Extern.Os.{Os}
use ipfs_lite.Cli.Out.{Format, print}
use ipfs_lite.Cli.Get.{
  candidate, free_name, destination, save, contents_of, first_arg, World, finish, get_started,
  run_get,
}
use ipfs_lite.Cli.Get.Names.{free_name_ends, free_name-free}
use ipfs_lite.Cli.Get.Folder.{base-append, candidate-append, candidate-NoSlash}
use ipfs_lite.Replication.Types.{ContentMetatag}
use ipfs_lite.Store as Store
use ipfs_lite.Store.{Info, on_left}
use ipfs_lite.Store.Content.{Contents}

-- A file that is saved under a free name is new: it reads as what was saved, and every file that
-- stood there reads as before.
pub save-new :
    (os : Os) (p b : Str) (w w' : os.World)
    → os.stat p w ≡ false
    → save os p b w ≡ (ok tt, w')
    → (os.read_file p w' ≡ ok b)
      × ((q : Str) → os.stat q w ≡ true → os.read_file q w' ≡ os.read_file q w)
unfolding save
save-new os p b w w' free h =
    let (f, w1, made, written) = bind-ok (os.create p) (λ file. os.write file b) w h in
    (
      os.read-write p b f w1 w' (os.is_file-create p f w w1 made) (os.read-create p f w w1 made)
          written,
      λ q there.
          os.read-write_other q b f w1 w' (os.create-new p q f w w1 made free there) written
          ∙ os.read-create_new p q f w w1 made free there,
    )

module _ (os : Os) (db : Crdt) (ct : Contents) (c : Cipher) ⦃mj : Json ContentMetatag⦄
    ⦃ij : Json Info⦄ (indent : Str → Result Str) (plain : Info → Str) where
  -- The node and the folder that the command was called with, where it goes on.
  run_get-started :
      (fuel : ℕ) (tag : Str) (args : List Str) (location dest passphrase : Str) (format : Format)
      (w : World os db ct c indent plain)
      → destination os location ≡ ok dest
      → run_get os db ct c indent plain fuel true (tag ∷ args) location passphrase format w
        ≡ get_started os db ct c indent plain fuel tag dest passphrase format w
  unfolding run_get first_arg
  run_get-started fuel tag args location dest passphrase format w h = ground (arith, h)

  -- The command get ends, whatever it is called with: its loop over the names has found a free one
  -- after one name more than there are files, and the name without a number.
  pub run_get_ends :
      (fuel : ℕ) (started : Bool) (args : List Str) (location passphrase : Str) (format : Format)
      (w : World os db ct c indent plain)
      → suc (length (os.names w.0)) < fuel
      → (r : Result Str) × (w' : World os db ct c indent plain) × (run_get os db ct c indent plain
            fuel started args location passphrase format w
          ≡ some (r, w'))
  unfolding run_get get_started
  run_get_ends fuel started args location passphrase format w enough =
      first (first_arg args) refl (destination os location) refl started refl
    where
      Ends : Type 0
      Ends =
          (r : Result Str) × (w' : World os db ct c indent plain) × (run_get os db ct c indent plain
              fuel started args location passphrase format w
            ≡ some (r, w'))

      found :
          (tag dest : Str) (got : Str × Info)
          → first_arg args ≡ ok tag
          → destination os location ≡ ok dest
          → started ≡ true
          → Store.get db ct tag w.1 ≡ ok got
          → Ends
      found tag dest got e1 e2 e3 e4 =
          let (path, e) =
            free_name_ends fuel (λ p. os.stat p w.0) (dest ++ (b'/' ∷ got.1.name)) (os.names w.0)
              (λ p there. os.names-stat p w.0 there) enough in
          let done = finish os db ct c indent plain dest passphrase format path got w in
          (done.0, done.1, ground (arith, e))

      content :
          (tag dest : Str)
          → first_arg args ≡ ok tag
          → destination os location ≡ ok dest
          → started ≡ true
          → (r : Result (Str × Info)) → Store.get db ct tag w.1 ≡ r
          → Ends
      content tag dest e1 e2 e3 (ok got) e4 = found tag dest got e1 e2 e3 e4
      content tag dest e1 e2 e3 (err x) e4 = (err x, w, ground arith)
      content tag dest e1 e2 e3 panic e4 = (panic, w, ground arith)

      first :
          (a : Result Str)
          → first_arg args ≡ a
          → (d : Result Str) → destination os location ≡ d
          → (b : Bool) → started ≡ b
          → Ends
      first (ok tag) e1 (ok dest) e2 true e3 =
          content tag dest e1 e2 e3 (Store.get db ct tag w.1) refl
      first (ok tag) e1 (ok dest) e2 false e3 = (panic, w, ground arith)
      first (ok tag) e1 (err x) e2 b e3 = (err x, w, ground arith)
      first (ok tag) e1 panic e2 b e3 = (panic, w, ground arith)
      first (err x) e1 d e2 b e3 = (err x, w, ground arith)
      first panic e1 d e2 b e3 = (panic, w, ground arith)

  -- The end of a command that succeeded, where the path that was found is free.
  finished :
      (dest passphrase printed name : Str) (n : ℕ) (format : Format) (found : Str × Info)
      (w w' : World os db ct c indent plain)
      → NoSlash name
      → name ≢ []
      → os.stat (dest ++ (b'/' ∷ candidate name n)) w.0 ≡ false
      → finish os db ct c indent plain dest passphrase format
          (dest ++ (b'/' ∷ candidate name n))
          found
          w
        ≡ (ok printed, w')
      → (bytes : Str) × (contents_of c passphrase found ≡ ok bytes)
        × (os.read_file (dest ++ (b'/' ∷ candidate name n)) w'.0 ≡ ok bytes)
        × ((q : Str) → os.stat q w.0 ≡ true → os.read_file q w'.0 ≡ os.read_file q w.0)
        × (w'.1 ≡ w.1)
  unfolding finish
  finished dest passphrase printed name n format found w w' plain_name named free h =
      let path = dest ++ (b'/' ∷ candidate name n) in
      let (bytes, eb, h1) =
        lift-bind-ok (contents_of c passphrase found)
          (λ bytes.
            on_left (save os (dest ++ (b'/' ∷ base path)) bytes)
            >> lift (print indent plain found.1 format))
          w h in
      let (u, w1, e1, h2) =
        bind-ok (on_left {B = ct.World × db.World} (save os (dest ++ (b'/' ∷ base path)) bytes))
          (λ _. lift (print indent plain found.1 format)) w h1 in
      let (cn, ce) = candidate-NoSlash name n plain_name named in
      let same = base-append dest (candidate name n) cn ce in
      let saved : save os path bytes w.0 ≡ (ok tt, w'.0) = ground (arith, same) in
      let (reads, others) = save-new os path bytes w.0 w'.0 free saved in
      (bytes, eb, reads, others, ground arith)

  -- When the command get succeeds, it has saved the content, decrypted where it is encrypted, in a
  -- file of the folder whose name no file had before: the file reads as the content, every file that
  -- stood there reads as before, and the node's store is as it was. The node was started, and the
  -- content's name is not empty and has no slash.
  pub run_get-saved :
      (fuel : ℕ) (tag : Str) (args : List Str) (location dest passphrase printed : Str)
      (format : Format) (found : Str × Info) (w w' : World os db ct c indent plain)
      → destination os location ≡ ok dest
      → Store.get db ct tag w.1 ≡ ok found
      → NoSlash found.1.name
      → found.1.name ≢ []
      → run_get os db ct c indent plain fuel true (tag ∷ args) location passphrase format w
        ≡ some (ok printed, w')
      → (n : ℕ) × (bytes : Str) × (contents_of c passphrase found ≡ ok bytes)
        × (os.stat (dest ++ (b'/' ∷ candidate found.1.name n)) w.0 ≡ false)
        × (os.read_file (dest ++ (b'/' ∷ candidate found.1.name n)) w'.0 ≡ ok bytes)
        × ((q : Str) → os.stat q w.0 ≡ true → os.read_file q w'.0 ≡ os.read_file q w.0)
        × (w'.1 ≡ w.1)
  unfolding get_started
  run_get-saved fuel tag args location dest passphrase printed format found w w' ed eg plain_name
        named h =
      go (free_name fuel (λ p. os.stat p w.0) (dest ++ (b'/' ∷ found.1.name)) 0) refl
    where
      run :
          get_started os db ct c indent plain fuel tag dest passphrase format w
          ≡ some (ok printed, w')
      run = sym (run_get-started fuel tag args location dest passphrase format w ed) ∙ h

      go :
          (o : Option Str)
          → free_name fuel (λ p. os.stat p w.0) (dest ++ (b'/' ∷ found.1.name)) 0 ≡ o
          → (n : ℕ) × (bytes : Str) × (contents_of c passphrase found ≡ ok bytes)
            × (os.stat (dest ++ (b'/' ∷ candidate found.1.name n)) w.0 ≡ false)
            × (os.read_file (dest ++ (b'/' ∷ candidate found.1.name n)) w'.0 ≡ ok bytes)
            × ((q : Str) → os.stat q w.0 ≡ true → os.read_file q w'.0 ≡ os.read_file q w.0)
            × (w'.1 ≡ w.1)
      go none e = absurd (ground (arith, run))
      go (some path) e =
          let (free, n, at) =
            free_name-free fuel (λ p. os.stat p w.0) (dest ++ (b'/' ∷ found.1.name)) 0 path e in
          let same = at ∙ candidate-append dest found.1.name n plain_name in
          let free' : os.stat (dest ++ (b'/' ∷ candidate found.1.name n)) w.0 ≡ false =
            subst (λ p. os.stat p w.0 ≡ false) same free in
          let done : finish os db ct c indent plain dest passphrase format path found w
              ≡ (ok printed, w') =
            ground (arith, run) in
          let done' =
            subst
              (λ p.
                finish os db ct c indent plain dest passphrase format p found w ≡ (ok printed, w'))
              same done in
          let (bytes, eb, reads, others, kept) =
            finished dest passphrase printed found.1.name n format found w w' plain_name named free'
              done' in
          (n, bytes, eb, free', reads, others, kept)

  -- The command succeeds where the content is found and decrypted, every file can be written, and the
  -- information can be printed.
  pub run_get-succeeds :
      (fuel : ℕ) (tag : Str) (args : List Str) (location dest passphrase bytes printed : Str)
      (format : Format) (found : Str × Info) (w : World os db ct c indent plain)
      → suc (length (os.names w.0)) < fuel
      → destination os location ≡ ok dest
      → Store.get db ct tag w.1 ≡ ok found
      → contents_of c passphrase found ≡ ok bytes
      → print indent plain found.1 format ≡ ok printed
      → ((p : Str) → (v : os.World) × (save os p bytes w.0 ≡ (ok tt, v)))
      → (w' : World os db ct c indent plain) × (run_get os db ct c indent plain fuel true
            (tag ∷ args)
            location
            passphrase
            format
            w
          ≡ some (ok printed, w'))
  unfolding get_started finish
  run_get-succeeds fuel tag args location dest passphrase bytes printed format found w enough ed eg
        eb ep writes =
      let (path, e) =
        free_name_ends fuel (λ p. os.stat p w.0) (dest ++ (b'/' ∷ found.1.name)) (os.names w.0)
          (λ p there. os.names-stat p w.0 there) enough in
      let (v, saved) = writes (dest ++ (b'/' ∷ base path)) in
      let run : get_started os db ct c indent plain fuel tag dest passphrase format w
          ≡ some (ok printed, (v, w.1)) =
        ground (arith, e, saved) in
      ((v, w.1), run_get-started fuel tag args location dest passphrase format w ed ∙ run)
