-- ===== src/Cli/Socket.antt =====
-- How a command reaches the daemon, cli/datahop.go: the client joins its arguments, and the daemon
-- splits them, finds the command, and answers with what the command prints or with its error. The
-- library of the commands, cobra and pflag, is a parameter.
pub mod Split
pub mod Fresh
use Prim.Native.Nat.{zero, suc}
use ipfs_lite.Prelude.{
  ℕ, ◌-◌, ◌≡◌, Bool, true, false, Option, none, some, List, [], ◌∷◌, ◌++◌, codes, Str, has_prefix,
  length, Dict, lookup, insert, Error, Result, ok, err, panic, if◌then◌else◌,
}

abbrev pub arg_separator : Str
arg_separator = codes "$^~@@*"

-- `strings.Join`
unfoldable pub join_args : List Str → Str
join_args [] = []
join_args (a ∷ []) = a
join_args (a ∷ b ∷ args) = a ++ (arg_separator ++ join_args (b ∷ args))

-- `strings.Split`: the text up to the first separator, and the pieces after it; so many bytes of a
-- separator are still to be passed over.
unfoldable pub split_from : ℕ → Str → Str × List Str
split_from k [] = ([], [])
split_from (suc k) (c ∷ s) = split_from k s
split_from zero (c ∷ s) =
    let here = has_prefix (c ∷ s) arg_separator in
    let (a, args) = split_from (if here then length arg_separator - 1 else 0) s in
    if here then ([], a ∷ args) else (c ∷ a, args)

unfoldable pub split_args : Str → List Str
unfolding split_from
split_args s = let (a, args) = split_from 0 s in a ∷ args

-- A flag of a command: the text of its default, and its value.
pub record Flag : Type 0 where
  pub name : Str
  pub default : Str
  pub value : Str

-- The same flags, but for their values.
abbrev pub SameFlags : List Flag → List Flag → Type 0
SameFlags [] [] = Unit
SameFlags [] (g ∷ gs) = ⊥
SameFlags (f ∷ fs) [] = ⊥
SameFlags (f ∷ fs) (g ∷ gs) = (f.name ≡ g.name) × (f.default ≡ g.default) × SameFlags fs gs

-- A command of cobra on a world: its checks and its functions, where it has them. A command writes
-- what it prints to the buffer that it is given.
pub record Command (W : Type 0) : Type 0 where
  pub name : Str
  pub args : Option (List Str → Option Error)
  pub pre_run_e : Option (List Flag → List Str → W → Option Error × W)
  pub pre_run : Option (List Flag → List Str → W → W)
  pub run_e : Option (List Flag → List Str → W → Result Str × W)
  pub run : Option (List Flag → List Str → W → Str × W)

-- cobra and pflag: `Find` on the root command, the `Set` of a flag's value by its name, `Parse`, which
-- leaves the names and the defaults of the flags alone, and the text of an error.
pub record Cobra (W : Type 0) : Type 0 where
  pub find : List Str → Result (Command W × List Str)
  pub set : Str → Str → Result Str
  pub parse : List Str → List Flag → List Flag × Option Error
  pub text : Error → Str
  pub parse-SameFlags : (rest : List Str) (fs : List Flag) → SameFlags (parse rest fs).0 fs

-- What the loop of a client does after a request: it writes an answer and reads on, it writes an
-- answer and ends, or it ends.
pub data Reply : Type 0 where
  answers ends_with : Str → Reply
  ends crashes : Reply

module _ {W : Type 0} (cobra : Cobra W) where
  -- `f.Value.Set(f.DefValue)`, whose error is only logged, for every flag of a command.
  unfoldable pub set_default : Flag → Flag
  set_default f = elim (cobra.set f.name f.default) [
    | ok v ↦ record f { value = v }
    | err _ ↦ f
    | panic ↦ f
  ]

  unfoldable pub reset : List Flag → List Flag
  unfolding set_default
  reset [] = []
  reset (f ∷ flags) = set_default f ∷ reset flags

  -- The functions of the command, after its checks.
  unfoldable pub run_command : Command W → List Flag → List Str → W → Reply × W
  run_command cmd flags rest w = elim cmd.run_e [
    | some f ↦
        let (r, w') = f flags rest w in
        elim r [
          | ok out ↦ (Reply.answers out, w')
          | err e ↦ (Reply.ends_with (cobra.text e), w')
          | panic ↦ (Reply.crashes, w')
        ]
    | none ↦ elim cmd.run [
      | some f ↦ let (out, w') = f flags rest w in (Reply.answers out, w')
      | none ↦ (Reply.answers [], w)
    ]
  ]

  -- `PreRunE`, or else `PreRun`, which is given the whole command.
  unfoldable pub prepare : Command W → List Flag → List Str → List Str → W → Option Error × W
  prepare cmd flags command rest w = elim cmd.pre_run_e [
    | some f ↦ f flags rest w
    | none ↦ elim cmd.pre_run [ some f ↦ (none, f flags command w) | none ↦ (none, w) ]
  ]

  -- The command's check of its arguments, where it has one.
  unfoldable pub refused : Command W → List Str → Option Error
  refused cmd rest = elim cmd.args [ some f ↦ f rest | none ↦ none ]

  -- The check of the arguments, and then the command.
  unfoldable pub run_checked : Command W → List Flag → List Str → List Str → W → Reply × W
  unfolding run_command prepare refused
  run_checked cmd flags command rest w = elim (refused cmd rest) [
    | some e ↦ (Reply.ends_with (cobra.text e), w)
    | none ↦
        let (failed, w') = prepare cmd flags command rest w in
        elim failed [
          | some e ↦ (Reply.ends_with (cobra.text e), w')
          | none ↦ run_command cmd flags rest w'
        ]
  ]

  -- The flags of all the commands, which stay as a request leaves them.
  unfoldable pub flags_of : Str → Dict (List Flag) → List Flag
  flags_of name all = elim (lookup name all) [ some fs ↦ fs | none ↦ [] ]

  -- The answer of a command whose flags were parsed.
  unfoldable pub answer : Command W → List Str → List Str → List Flag × Option Error → W → Reply × W
  unfolding run_checked
  answer cmd command rest (flags, none) w = run_checked cmd flags command rest w
  answer cmd command rest (flags, some e) w = (Reply.ends_with (cobra.text e), w)

  -- The command that was found, with its flags parsed on their defaults.
  unfoldable pub serve_found :
      Command W → List Str → List Str → Dict (List Flag) → W → Reply × (Dict (List Flag) × W)
  unfolding reset flags_of answer
  serve_found cmd command rest all w =
      let parsed = cobra.parse rest (reset (flags_of cmd.name all)) in
      let (reply, w') = answer cmd command rest parsed w in
      (reply, (insert cmd.name parsed.0 all, w'))

  -- One round of the loop, for a request that was read.
  unfoldable pub serve : Str → Dict (List Flag) → W → Reply × (Dict (List Flag) × W)
  unfolding split_args serve_found
  serve [] all w = (Reply.ends, (all, w))
  serve (c ∷ s) all w = elim (cobra.find (split_args (c ∷ s))) [
    | ok found ↦ serve_found found.0 (split_args (c ∷ s)) found.1 all w
    | err e ↦ (Reply.ends_with (cobra.text e), (all, w))
    | panic ↦ (Reply.crashes, (all, w))
  ]

  unfoldable pub continues : Reply → Bool
  continues (Reply.answers out) = true
  continues (Reply.ends_with out) = false
  continues Reply.ends = false
  continues Reply.crashes = false

  -- The loop of a client: its requests until one ends it, with the answers.
  unfoldable pub serve_all : List Str → Dict (List Flag) → W → List Reply × (Dict (List Flag) × W)
  unfolding serve continues
  serve_all [] all w = ([], (all, w))
  serve_all (s ∷ requests) all w =
      let (reply, (all', w')) = serve s all w in
      let (later, last) = serve_all requests all' w' in
      if continues reply then (reply ∷ later, last) else (reply ∷ [], (all', w'))
