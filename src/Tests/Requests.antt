-- ===== src/Tests/Requests.antt =====
-- The theorems on the requests to the daemon and on what it prints at concrete calls.
use ipfs_lite.Prelude.{
  ◌≡◌, refl, ℕ, Bool, true, false, Option, none, some, List, [], ◌∷◌, ◌++◌, codes, Str, Dict,
  lookup, Error, Result, ok, err, has_prefix, str_eq, if◌then◌else◌,
}
use ipfs_lite.Cli.Info.{NodeInfo, run_info}
use ipfs_lite.Cli.Info.Hidden.{Describes, run_info-hides}
use ipfs_lite.Cli.Out.{no_style, print}
use ipfs_lite.Cli.Socket.{
  Flag, SameFlags, Cobra, Command, split_args, join_args, flags_of, serve_all,
}
use ipfs_lite.Cli.Socket.Fresh.{Accepted, Agree, serve_all-unaffected}
use ipfs_lite.Cli.Socket.Split.{split_args-join_args}
use ipfs_lite.Repo.Config.{Config}
use ipfs_lite.Tests.Codec.{Codec, json_of, list, pair, number, boolean, through}
use ipfs_lite.Tests.Codecs.{config}
use ipfs_lite.Tests.FsRepo.{some_config}
use ipfs_lite.Tests.Nodes.{host_of}

split_args-join_args_example :
    split_args (join_args (codes "add" ∷ codes "$^~" ∷ [] ∷ []))
    ≡ codes "add" ∷ codes "$^~" ∷ [] ∷ []
unfolding has_prefix
split_args-join_args_example =
    split_args-join_args (codes "add") (codes "$^~" ∷ [] ∷ [])
      ((refl, (refl, (refl, tt))), ((refl, (refl, (refl, tt))), (tt, tt)))

-- A command line with one command, `put`, which has the flag `tag`: it keeps the flag's value, and
-- prints the arguments.
abbrev value_of : List Flag → Str
value_of [] = []
value_of (f ∷ fs) = f.value

abbrev first_of : List Str → Str
first_of [] = []
first_of (a ∷ args) = a

abbrev put : Command (List Str)
put = record {
  name = codes "put";
  args = none;
  pre_run_e = none;
  pre_run = none;
  run_e = some (λ flags args w. (ok (first_of args), value_of flags ∷ w));
  run = none;
}

-- The first argument is the flag's value.
abbrev set_first : List Str → List Flag → List Flag
set_first [] fs = fs
set_first (a ∷ rest) [] = []
set_first (a ∷ rest) (f ∷ fs) = record f { value = a } ∷ fs

pub same_self : (fs : List Flag) → SameFlags fs fs
same_self [] = tt
same_self (f ∷ fs) = (refl, refl, same_self fs)

pub set_first-SameFlags : (rest : List Str) (fs : List Flag) → SameFlags (set_first rest fs) fs
set_first-SameFlags [] fs = same_self fs
set_first-SameFlags (a ∷ rest) [] = tt
set_first-SameFlags (a ∷ rest) (f ∷ fs) = (refl, refl, same_self fs)

abbrev found_put : List Str → Result (Command (List Str) × List Str)
found_put [] = err (Error.foreign 1)
found_put (a ∷ args) = ok (put, args)

abbrev one_command : Cobra (List Str)
one_command = record {
  find = found_put;
  set = λ name text. ok text;
  parse = λ rest fs. (set_first rest fs, none);
  text = λ e. codes "error";
  parse-SameFlags = set_first-SameFlags;
}

abbrev tag_flag : Str → Flag
tag_flag v = record { name = codes "tag"; default = []; value = v }

abbrev fresh_flags : Dict (List Flag)
fresh_flags = (codes "put", tag_flag [] ∷ []) ∷ []

abbrev used_flags : Dict (List Flag)
used_flags = (codes "put", tag_flag (codes "old") ∷ []) ∷ []

abbrev or_no_flags : Option (List Flag) → List Flag
or_no_flags none = []
or_no_flags (some fs) = fs

agreeing_either :
    (b : Bool)
    → SameFlags
        (or_no_flags (if b then some (tag_flag (codes "old") ∷ []) else none))
        (or_no_flags (if b then some (tag_flag [] ∷ []) else none))
      × Accepted one_command (or_no_flags (if b then some (tag_flag (codes "old") ∷ []) else none))
agreeing_either true = ((refl, refl, tt), (([], refl), tt))
agreeing_either false = (tt, tt)

agreeing : Agree one_command used_flags fresh_flags
unfolding flags_of lookup
agreeing name = agreeing_either (str_eq (codes "put") name)

serve_all-unaffected_example :
    ((serve_all one_command (codes "put" ∷ codes "put" ∷ []) used_flags []).0
      ≡ (serve_all one_command (codes "put" ∷ codes "put" ∷ []) fresh_flags []).0)
    × ((serve_all one_command (codes "put" ∷ codes "put" ∷ []) used_flags []).1.1
        ≡ (serve_all one_command (codes "put" ∷ codes "put" ∷ []) fresh_flags []).1.1)
serve_all-unaffected_example =
    serve_all-unaffected one_command (codes "put" ∷ codes "put" ∷ []) used_flags fresh_flags []
      agreeing

instance abbrev node_info_codec : Codec (NodeInfo (List Str))
node_info_codec =
    through {B = (Bool × Config) × ((List Str × List Str) × (ℕ × List Str))}
      (λ i.
        ((i.is_daemon_running, i.config), ((i.peers, i.crdt_status), (i.disk_usage, i.addresses))))
      (λ t. record {
        is_daemon_running = t.0.0;
        config = t.0.1;
        peers = t.1.0.0;
        crdt_status = t.1.0.1;
        disk_usage = t.1.1.0;
        addresses = t.1.1.1;
      })
      (λ x. refl)

abbrev same_text : Str → Result Str
same_text s = ok s

abbrev id_of : NodeInfo (List Str) → Str
id_of i = i.config.identity.priv_key

run_info-hides_example :
    (inf : NodeInfo (List Str)) × (cfg : Config) × (10 ∷ [] ≡ id_of inf ++ (10 ∷ []))
    × (ok some_config ≡ ok cfg)
    × (inf.config
        ≡ record cfg { identity = record { peer_id = cfg.identity.peer_id; priv_key = [] } })
    × (inf.crdt_status ≡ codes "f" ∷ [])
    × Describes
        (host_of (codes "me"))
        (some true)
        (codes "/ip4/127.0.0.1" ∷ codes "/ip4/10.0.0.2" ∷ [])
        (ok 5)
        (codes "you" ∷ [])
        inf
unfolding run_info print
run_info-hides_example =
    run_info-hides (host_of (codes "me")) same_text id_of no_style (some true)
      (ok (codes "/ip4/127.0.0.1" ∷ codes "/ip4/10.0.0.2" ∷ [])) [] (ok 5) (ok some_config)
      (codes "f" ∷ []) (codes "you" ∷ []) (10 ∷ []) refl
