-- ===== src/Cli/Add/RoundTrip.antt =====
-- A file that is added on the command line is saved again by get.
use mathlib.Core.Path.{subst}
use ipfs_lite.Prelude.{
  arith, ℕ, suc, ◌<◌, ◌≡◌, sym, ap, ◌∙◌, ◌≢◌, true, false, some, List, [], ◌∷◌, ◌++◌, Str, str_eq,
  Int64, Error, Result, ok, NoSlash, length,
}
use ipfs_lite.Prelude.{check, check-ok, ok-bind}
use ipfs_lite.Prelude.Io.{lift, gets, bind-ok, ◌>>◌}
use ipfs_lite.Prelude.Paths.{base}
use ipfs_lite.Extern.Cipher.{Cipher}
use ipfs_lite.Extern.Crdt.{Crdt}
use ipfs_lite.Extern.Json.{Json}
use ipfs_lite.Extern.Keys.{Keys}
use ipfs_lite.Extern.Os.{Os}
use ipfs_lite.Cli.Out.{Format, print}
use ipfs_lite.Cli.Get.{candidate, destination, save, contents_of, first_arg, run_get}
use ipfs_lite.Cli.Get.Saved.{run_get-succeeds, run_get-saved}
use ipfs_lite.Cli.Add.{str_eq, first_arg, World, run_add}
use ipfs_lite.Cli.Add.Input.{
  NodeState, daemon_runs, head_of, tag_of, file_info, stored_bytes, read_input,
}
use ipfs_lite.Replication.Types.{ContentMetatag, GroupMetadata}
use ipfs_lite.Security.RoundTrip.{decrypt-encrypt_content}
use ipfs_lite.Store as Store
use ipfs_lite.Store.{Info, on_left, on_right}
use ipfs_lite.Store.Content.{Contents}
use ipfs_lite.Store.Laws as Laws

-- An input that was read: the daemon runs, and the file was read and is not empty.
read_input_lem :
    (os : Os) (c : Cipher) (mime : Str → Str) (comm : NodeState) (path tag passphrase : Str)
    (args : List Str) (w : os.World) (bytes : Str) (info : Info)
    → read_input os c mime comm (path ∷ args) tag passphrase w ≡ ok (bytes, info)
    → (size : Int64) × (content head : Str) × (daemon_runs comm ≡ true)
      × (os.read_file path w ≡ ok content)
      × (head_of content ≡ ok head)
      × (stored_bytes c content passphrase ≡ ok bytes)
      × (info ≡ file_info mime tag path passphrase size head)
unfolding read_input first_arg
read_input_lem os c mime comm path tag passphrase args w bytes info h =
    let (u, e1, h1) = ok-bind (check (daemon_runs comm) Error.daemon_not_running) _ h in
    let (size, e2, h2) = ok-bind (os.lstat path w) _ h1 in
    let (content, e3, h3) = ok-bind (os.read_file path w) _ h2 in
    let (head, e4, h4) = ok-bind (head_of content) _ h3 in
    let (stored, e5, h5) = ok-bind (stored_bytes c content passphrase) _ h4 in
    (
      size,
      content,
      head,
      check-ok (daemon_runs comm) Error.daemon_not_running e1,
      e3,
      e4,
      ground arith,
      ground arith,
    )

not_empty : (content head : Str) → head_of content ≡ ok head → content ≢ []
unfolding head_of
not_empty [] head h e = absurd (ground arith)
not_empty (b ∷ content) head h e = absurd (ground arith)

-- What was stored with a passphrase, or with none, is read with the same.
contents_of-stored_bytes :
    (c : Cipher) (mime : Str → Str) (tag path passphrase head content bytes : Str) (size : Int64)
    → stored_bytes c content passphrase ≡ ok bytes
    → contents_of c passphrase (bytes, file_info mime tag path passphrase size head) ≡ ok content
unfolding stored_bytes contents_of file_info str_eq
contents_of-stored_bytes c mime tag path [] head content bytes size h = ground arith
contents_of-stored_bytes c mime tag path (p ∷ phrase) head content bytes size h =
    ground (arith, decrypt-encrypt_content c content (p ∷ phrase) bytes h)

module _ (os : Os) (db : Crdt) (ks : Keys) (ct : Contents) (c : Cipher) ⦃gj : Json GroupMetadata⦄
    ⦃mj : Json ContentMetatag⦄ ⦃ij : Json Info⦄ (host : Str) (key : ks.PrivKey) (mime : Str → Str)
    (indent : Str → Result Str) (plain : Info → Str) where
  -- An addition that succeeded has read its input and stored it, and the files are as they were.
  run_add-ok :
      (comm : NodeState) (args : List Str) (tag passphrase printed : Str) (format : Format)
      (now : Int64) (w w' : World os db ks ct c host key mime indent plain)
      → run_add os db ks ct c host key mime indent plain comm args tag passphrase format now w
        ≡ (ok printed, w')
      → (bytes id : Str) × (info : Info) × (read_input os c mime comm args tag passphrase w.0
          ≡ ok (bytes, info))
        × (Store.add db ks ct host key bytes info now w.1 ≡ (ok id, w'.1))
        × (print indent plain info format ≡ ok printed)
        × (w'.0 ≡ w.0)
  unfolding run_add
  run_add-ok comm args tag passphrase printed format now w w' h =
      let read : World os db ks ct c host key mime indent plain → Result (Str × Info) =
        λ v. read_input os c mime comm args tag passphrase v.0 in
      let (input, w1, e1, h1) =
        bind-ok (gets read)
          (λ input.
            on_right (Store.add db ks ct host key input.0 input.1 now)
            >> lift (print indent plain input.1 format))
          w h in
      let (id, w2, e2, h2) =
        bind-ok (on_right {A = os.World} (Store.add db ks ct host key input.0 input.1 now))
          (λ _. lift (print indent plain input.1 format)) w1 h1 in
      (input.0, id, input.1, ground arith, ground arith, ground arith, ground arith)

  -- A file that was added with the command add is saved by the command get under the same tag, with
  -- the same passphrase or none in both: the addition succeeded, so the daemon runs and the file is
  -- not empty; the get then succeeds, and saves what was added in a file of the folder whose name no
  -- file had, and every file that stood there, the added one too, reads as before. Every file can be
  -- written, the information can be printed, and the last part of the added path is a name.
  pub run_get-run_add :
      (fuel : ℕ) (comm : NodeState) (path tag location dest passphrase printed : Str)
      (args args' : List Str) (format : Format) (now : Int64)
      (w w' : World os db ks ct c host key mime indent plain)
      → run_add os db ks ct c host key mime indent plain comm
          (path ∷ args)
          tag
          passphrase
          format
          now
          w
        ≡ (ok printed, w')
      → suc (length (os.names w.0)) < fuel
      → destination os location ≡ ok dest
      → NoSlash (base path)
      → base path ≢ []
      → ((p b : Str) → (v : os.World) × (save os p b w.0 ≡ (ok tt, v)))
      → (n : ℕ) × (content : Str) × (w2 : World os db ks ct c host key mime indent plain)
        × (daemon_runs comm ≡ true)
        × (content ≢ [])
        × (os.read_file path w.0 ≡ ok content)
        × (run_get os db ct c indent plain fuel true
              (tag_of tag path ∷ args')
              location
              passphrase
              format
              w'
            ≡ some (ok printed, w2))
        × (os.stat (dest ++ (b'/' ∷ candidate (base path) n)) w.0 ≡ false)
        × (os.read_file (dest ++ (b'/' ∷ candidate (base path) n)) w2.0 ≡ ok content)
        × ((q : Str) → os.stat q w.0 ≡ true → os.read_file q w2.0 ≡ os.read_file q w.0)
  unfolding tag_of file_info
  run_get-run_add fuel comm path tag location dest passphrase printed args args' format now w w' h
        enough ed plain_name named writes =
      let (bytes, id, info, read, added, shown, same) =
        run_add-ok comm (path ∷ args) tag passphrase printed format now w w' h in
      let (size, content, head, runs, there, started, sealed, eq) =
        read_input_lem os c mime comm path tag passphrase args w.0 bytes info read in
      let info' = file_info mime tag path passphrase size head in
      let added' : Store.add db ks ct host key bytes info' now w.1 ≡ (ok id, w'.1) = ground arith in
      let shown' : print indent plain info' format ≡ ok printed = ground arith in
      let found = Laws.get-add db ks ct host key bytes info' now w.1 w'.1 id added' in
      let opened =
        contents_of-stored_bytes c mime tag path passphrase head content bytes size sealed in
      let (w2, run) =
        run_get-succeeds os db ct c indent plain fuel (tag_of tag path) args' location dest
          passphrase content printed format (bytes, info') w'
          (subst (λ v. suc (length (os.names v)) < fuel) (sym same) enough) ed found opened shown'
          (λ p.
            subst (λ v. (v' : os.World) × (save os p content v ≡ (ok tt, v'))) (sym same)
              (writes p content)) in
      let (n, bytes', opened', free, saved, kept, rest) =
        run_get-saved os db ct c indent plain fuel (tag_of tag path) args' location dest passphrase
          printed format (bytes, info') w' w2 ed found plain_name named run in
      (
        n,
        content,
        w2,
        runs,
        not_empty content head started,
        there,
        run,
        subst (λ v. os.stat (dest ++ (b'/' ∷ candidate (base path) n)) v ≡ false) same free,
        ground arith,
        λ q e.
            kept q (subst (λ v. os.stat q v ≡ true) (sym same) e) ∙ ap (λ v. os.read_file q v) same,
      )
