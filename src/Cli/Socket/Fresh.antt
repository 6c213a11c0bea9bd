-- ===== src/Cli/Socket/Fresh.antt =====
-- The flags that a request leaves change no later answer of the daemon.
use mathlib.Core.Path.{subst}
use ipfs_lite.Prelude.{
  arith, ◌≡◌, refl, ap, sym, ◌∙◌, ◌≢◌, inl, inr, List, [], ◌∷◌, Str, str_eq, str_eq_iff, Dict,
  insert, lookup-insert_self, lookup-insert_ne, Result, ok, err, panic, Bool-cases,
}
use ipfs_lite.Cli.Socket.{
  set_default, Flag, SameFlags, Command, Cobra, Reply, reset, flags_of, split_args, serve,
  serve_found, answer, serve_all,
}

SameFlags-refl : (fs : List Flag) → SameFlags fs fs
SameFlags-refl [] = tt
SameFlags-refl (f ∷ fs) = (refl, refl, SameFlags-refl fs)

SameFlags-trans : (fs gs hs : List Flag) → SameFlags fs gs → SameFlags gs hs → SameFlags fs hs
SameFlags-trans [] [] [] a b = tt
SameFlags-trans [] [] (h ∷ hs) a b = b
SameFlags-trans [] (g ∷ gs) hs a b = absurd a
SameFlags-trans (f ∷ fs) [] hs a b = absurd a
SameFlags-trans (f ∷ fs) (g ∷ gs) [] a b = absurd b
SameFlags-trans (f ∷ fs) (g ∷ gs) (h ∷ hs) (n, d, a) (n', d', b) =
    (n ∙ n', d ∙ d', SameFlags-trans fs gs hs a b)

SameFlags-sym : (fs gs : List Flag) → SameFlags fs gs → SameFlags gs fs
SameFlags-sym [] [] a = tt
SameFlags-sym [] (g ∷ gs) a = absurd a
SameFlags-sym (f ∷ fs) [] a = absurd a
SameFlags-sym (f ∷ fs) (g ∷ gs) (n, d, a) = (sym n, sym d, SameFlags-sym fs gs a)

module _ {W : Type 0} (cobra : Cobra W) where
  -- pflag takes the default of a flag as its value.
  abbrev pub Accepted : List Flag → Type 0
  Accepted [] = Unit
  Accepted (f ∷ fs) = ((v : Str) × (cobra.set f.name f.default ≡ ok v)) × Accepted fs

  Accepted-same : (fs gs : List Flag) → SameFlags fs gs → Accepted fs → Accepted gs
  Accepted-same [] [] e a = tt
  Accepted-same [] (g ∷ gs) e a = absurd e
  Accepted-same (f ∷ fs) [] e a = absurd e
  Accepted-same (f ∷ fs) (g ∷ gs) (n, d, e) ((v, q), a) =
      ((v, ground arith), Accepted-same fs gs e a)

  reset-same : (fs gs : List Flag) → SameFlags fs gs → Accepted fs → reset cobra fs ≡ reset cobra gs
  unfolding reset set_default
  reset-same [] [] e a = refl
  reset-same [] (g ∷ gs) e a = absurd e
  reset-same (f ∷ fs) [] e a = absurd e
  reset-same (f ∷ fs) (g ∷ gs) (n, d, e) ((v, q), a) = ground (arith, n, d, q, reset-same fs gs e a)

  set_default-same :
      (f : Flag)
      → ((set_default cobra f).name ≡ f.name) × ((set_default cobra f).default ≡ f.default)
  unfolding set_default
  set_default-same f = go (cobra.set f.name f.default) refl
    where
      go :
          (r : Result Str)
          → cobra.set f.name f.default ≡ r
          → ((set_default cobra f).name ≡ f.name) × ((set_default cobra f).default ≡ f.default)
      go (ok v) e = (ground arith, ground arith)
      go (err x) e = (ground arith, ground arith)
      go panic e = (ground arith, ground arith)

  reset-SameFlags : (fs : List Flag) → SameFlags (reset cobra fs) fs
  unfolding reset
  reset-SameFlags [] = tt
  reset-SameFlags (f ∷ fs) = let (n, d) = set_default-same f in (n, d, reset-SameFlags fs)

  -- Two states of the flags of all commands that differ in the flags' values only.
  abbrev pub Agree : Dict (List Flag) → Dict (List Flag) → Type 0
  Agree all all' =
      (name : Str)
      → SameFlags (flags_of cobra name all) (flags_of cobra name all')
        × Accepted (flags_of cobra name all)

  Accepted-parse :
      (rest : List Str) (fs : List Flag)
      → Accepted fs
      → Accepted (cobra.parse rest (reset cobra fs)).0
  Accepted-parse rest fs a =
      let same =
        SameFlags-trans (cobra.parse rest (reset cobra fs)).0 (reset cobra fs) fs
          (cobra.parse-SameFlags rest (reset cobra fs)) (reset-SameFlags fs) in
      Accepted-same fs (cobra.parse rest (reset cobra fs)).0 (SameFlags-sym _ fs same) a

  flags_of-insert_self :
      (n m : Str) (fs : List Flag) (all : Dict (List Flag))
      → m ≡ n
      → flags_of cobra m (insert n fs all) ≡ fs
  unfolding flags_of
  flags_of-insert_self n m fs all e = ground (arith, e, lookup-insert_self n fs all)

  flags_of-insert_ne :
      (n m : Str) (fs : List Flag) (all : Dict (List Flag))
      → m ≢ n
      → flags_of cobra m (insert n fs all) ≡ flags_of cobra m all
  unfolding flags_of
  flags_of-insert_ne n m fs all h = ground (arith, lookup-insert_ne n m fs all h)

  both :
      (x y x' y' : List Flag)
      → x ≡ y
      → x' ≡ y'
      → SameFlags y y' × Accepted y
      → SameFlags x x' × Accepted x
  both x y x' y' e e' h =
      subst (λ z. SameFlags z x' × Accepted z) (sym e)
        (subst (λ z'. SameFlags y z' × Accepted y) (sym e') h)

  -- The states agree again after the same flags were stored under a command in both.
  Agree-insert :
      (n : Str) (fs : List Flag) (all all' : Dict (List Flag))
      → Accepted fs
      → Agree all all'
      → Agree (insert n fs all) (insert n fs all')
  Agree-insert n fs all all' a agree name = elim (Bool-cases (str_eq name n)) [
    | inl same ↦
        let e = (str_eq_iff name n).0 same in
        both (flags_of cobra name (insert n fs all)) fs (flags_of cobra name (insert n fs all')) fs
          (flags_of-insert_self n name fs all e) (flags_of-insert_self n name fs all' e)
          (SameFlags-refl fs, a)
    | inr other ↦
        let ne : name ≢ n = ground (arith, str_eq_iff name n) in
        both (flags_of cobra name (insert n fs all)) (flags_of cobra name all)
          (flags_of cobra name (insert n fs all')) (flags_of cobra name all')
          (flags_of-insert_ne n name fs all ne) (flags_of-insert_ne n name fs all' ne) (agree name)
  ]

  -- Two outcomes alike: the same answer and world, and flags that agree.
  abbrev pub Alike : Reply × (Dict (List Flag) × W) → Reply × (Dict (List Flag) × W) → Type 0
  Alike x y = (x.0 ≡ y.0) × (x.1.1 ≡ y.1.1) × Agree x.1.0 y.1.0

  serve_found-Alike :
      (cmd : Command W) (command rest : List Str) (all all' : Dict (List Flag)) (w : W)
      → Agree all all'
      → Alike (serve_found cobra cmd command rest all w) (serve_found cobra cmd command rest all' w)
  unfolding serve_found
  serve_found-Alike cmd command rest all all' w agree =
      let fs = flags_of cobra cmd.name all in
      let same =
        reset-same fs (flags_of cobra cmd.name all') (agree cmd.name).0 (agree cmd.name).1 in
      let parsed = cobra.parse rest (reset cobra fs) in
      let next =
        Agree-insert cmd.name parsed.0 all all' (Accepted-parse rest fs (agree cmd.name).1) agree in
      (
        ap (λ g. (answer cobra cmd command rest (cobra.parse rest g) w).0) same,
        ap (λ g. (answer cobra cmd command rest (cobra.parse rest g) w).1) same,
        subst
            (λ g.
              Agree (insert cmd.name parsed.0 all) (insert cmd.name (cobra.parse rest g).0 all'))
            same next,
      )

  -- A request is answered alike in states that agree, which agree again after it.
  serve-Alike :
      (s : Str) (all all' : Dict (List Flag)) (w : W)
      → Agree all all'
      → Alike (serve cobra s all w) (serve cobra s all' w)
  unfolding serve
  serve-Alike [] all all' w agree = (refl, refl, agree)
  serve-Alike (c ∷ s) all all' w agree = go (cobra.find (split_args (c ∷ s))) refl
    where
      go :
          (r : Result (Command W × List Str))
          → cobra.find (split_args (c ∷ s)) ≡ r
          → Alike (serve cobra (c ∷ s) all w) (serve cobra (c ∷ s) all' w)
      go (ok (cmd, rest)) e =
          let x : serve cobra (c ∷ s) all w
              ≡ serve_found cobra cmd (split_args (c ∷ s)) rest all w =
            ground (arith, e) in
          let y : serve cobra (c ∷ s) all' w
              ≡ serve_found cobra cmd (split_args (c ∷ s)) rest all' w =
            ground (arith, e) in
          subst (λ a. Alike a (serve cobra (c ∷ s) all' w)) (sym x)
            (subst (λ b. Alike (serve_found cobra cmd (split_args (c ∷ s)) rest all w) b) (sym y)
              (serve_found-Alike cmd (split_args (c ∷ s)) rest all all' w agree))
      go (err x) e =
          let a : serve cobra (c ∷ s) all w ≡ (Reply.ends_with (cobra.text x), (all, w)) =
            ground (arith, e) in
          let b : serve cobra (c ∷ s) all' w ≡ (Reply.ends_with (cobra.text x), (all', w)) =
            ground (arith, e) in
          subst (λ z. Alike z (serve cobra (c ∷ s) all' w)) (sym a)
            (subst (λ z. Alike (Reply.ends_with (cobra.text x), (all, w)) z) (sym b)
              (refl, refl, agree))
      go panic e =
          let a : serve cobra (c ∷ s) all w ≡ (Reply.crashes, (all, w)) = ground (arith, e) in
          let b : serve cobra (c ∷ s) all' w ≡ (Reply.crashes, (all', w)) = ground (arith, e) in
          subst (λ z. Alike z (serve cobra (c ∷ s) all' w)) (sym a)
            (subst (λ z. Alike (Reply.crashes, (all, w)) z) (sym b) (refl, refl, agree))

  -- The daemon answers the requests of a client alike, with the same effect, whatever values earlier
  -- requests have left in the flags of the commands: in two states of the flags that differ in their
  -- values only. The defaults of the flags are accepted as values.
  pub serve_all-unaffected :
      (requests : List Str) (all all' : Dict (List Flag)) (w : W)
      → Agree all all'
      → ((serve_all cobra requests all w).0 ≡ (serve_all cobra requests all' w).0)
        × ((serve_all cobra requests all w).1.1 ≡ (serve_all cobra requests all' w).1.1)
  unfolding serve_all
  serve_all-unaffected [] all all' w agree = (refl, refl)
  serve_all-unaffected (s ∷ requests) all all' w agree =
      let (reply, world, next) = serve-Alike s all all' w agree in
      let after = (serve cobra s all w).1.0 in
      let after' = (serve cobra s all' w).1.0 in
      let (later, last) =
        serve_all-unaffected requests after after' (serve cobra s all w).1.1 next in
      (ground (arith, reply, world, later), ground (arith, reply, world, last))
