-- ===== src/Mobile/Life/Begun.antt =====
-- The library before and after the node is started.
use ipfs_lite.Prelude.{
  arith, ◌≡◌, refl, ◌∙◌, Bool, true, Option, none, some, List, [], Str, Error, ok, err,
  if◌then◌else◌,
}
use ipfs_lite.Extern.Cipher.{Cipher}
use ipfs_lite.Extern.Host.{AddrInfo, Host}
use ipfs_lite.Daemon.{with_repo_config, start, swarm_key}
use ipfs_lite.Daemon.Started.{started_options, start_steps, start_lem}
use ipfs_lite.Mobile.Life.{Library, start_comm, start_node}
use ipfs_lite.Peer.Network.{bootstrap}
use ipfs_lite.Peer.Start.{Outcomes, Node}
use ipfs_lite.Peer.Start.Opened.{first_error, Runs}

-- Start before Init is an error. After Init it returns the first error of the steps of the start, which
-- decode no swarm key, and then the library is as it was and no peer is contacted; or it succeeds, and
-- then the node is online with the options asked for, the notifier is registered, the identity and the
-- discovery service are as they were, and the bootstrap peers were contacted exactly where that was
-- asked for.
pub start_node_lem :
    (hs : Host) {Store Filter F : Type 0} (c : Cipher) (decode_psk : Str → Option Error)
    (boot : List AddrInfo) (should_bootstrap auto_download : Bool) (o : Outcomes)
    (h : Library Store Filter F) (w : hs.World)
    → (start_node {Store = Store} {Filter = Filter} {F = F} hs c decode_psk boot should_bootstrap
          auto_download o none w
        ≡ (err Error.node_not_running, (none, w)))
      × ((e : Error)
          → first_error (
              start_steps decode_psk none
                (started_options auto_download)
                (with_repo_config h.comm o))
            ≡ err e
          → start_node hs c decode_psk boot should_bootstrap auto_download o (some h) w
            ≡ (err e, (some h, w)))
      × (first_error (
              start_steps decode_psk none
                (started_options auto_download)
                (with_repo_config h.comm o))
            ≡ ok tt
          → (n : Node) × (start_node hs c decode_psk boot should_bootstrap auto_download o
                (some h)
                w
              ≡ (
                ok tt,
                (
                  some (record h { comm = record h.comm { node = some n }; notified = true }),
                  if should_bootstrap then (bootstrap hs boot w).1 else w,
                ),
              ))
            × Runs (started_options auto_download) n)
unfolding start_node start_comm swarm_key
start_node_lem hs {Store} {Filter} {F} c decode_psk boot should_bootstrap auto_download o h w =
    let (first, well, bad) = start_lem c decode_psk [] auto_download o h.comm in
    (
      refl,
      λ e he.
          let failed : (start c decode_psk [] auto_download o h.comm).0 ≡ err e = first ∙ he in
          let kept = bad e failed in ground (arith, failed, kept),
      λ hok.
          let done : (start c decode_psk [] auto_download o h.comm).0 ≡ ok tt = first ∙ hok in
          let (n, made, runs) = well done in (n, ground (arith, done, made), runs),
    )
