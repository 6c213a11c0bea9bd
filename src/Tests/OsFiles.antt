-- ===== src/Tests/OsFiles.antt =====
-- Files of the operating system as a map by paths; a handle is the path.

use ipfs_lite.Prelude.{
  arith, ◌≡◌, ◌≢◌, inl, inr, Bool, true, false, none, some, List, [], ◌∷◌, Str, Dict, lookup,
  insert, codes, length, lookup-insert_self, lookup-insert_ne, str_eq, str_eq_iff, str_eq_refl, In,
  Error, Result, ok, err, Bool-cases, Int64,
}
use ipfs_lite.Extern.Os.{Os}
use ipfs_lite.Tests.Worlds.{get_map}

abbrev there : Str → Dict Str → Bool
there p w = elim (lookup p w) [ none ↦ false | some _ ↦ true ]

abbrev paths : Dict Str → List Str
paths [] = []
paths ((p, b) ∷ w) = p ∷ paths w

pub paths-there : (p : Str) (w : Dict Str) → there p w ≡ true → In p (paths w)
unfolding lookup
paths-there p [] h = absurd (ground arith)
paths-there p ((q, b) ∷ w) h = elim (Bool-cases (str_eq q p)) [
  | inl same ↦ inl (ground (arith, str_eq_iff q p))
  | inr other ↦ inr (paths-there p w (ground arith))
]

abbrev make : Str → Dict Str → Result Str × Dict Str
make p w = (ok p, insert p [] w)

abbrev size_of : Str → Dict Str → Result Int64
size_of p w = elim (lookup p w) [ none ↦ err (Error.foreign 1) | some b ↦ ok (length b) ]

abbrev put_file : Str → Str → Dict Str → Result (Unit {0}) × Dict Str
put_file f b w = (ok tt, insert f b w)

pub made : (p f : Str) (w w' : Dict Str) → make p w ≡ (ok f, w') → (f ≡ p) × (w' ≡ insert p [] w)
made p f w w' h = (ground arith, ground arith)

pub other_path : (p q : Str) (w : Dict Str) → there p w ≡ false → there q w ≡ true → q ≢ p
other_path p q w hp hq e =
    let same : there q w ≡ there p w = ground (arith, e) in absurd (ground (arith, same))

pub made_there : (p f : Str) (w w' : Dict Str) → make p w ≡ (ok f, w') → str_eq f p ≡ true
made_there p f w w' h = ground (arith, str_eq_refl p, (made p f w w' h).0)

pub made_empty : (p f : Str) (w w' : Dict Str) → make p w ≡ (ok f, w') → get_map p w' ≡ ok []
made_empty p f w w' h = ground (arith, lookup-insert_self p [] w, (made p f w w' h).1)

pub made_new :
    (p q f : Str) (w w' : Dict Str)
    → make p w ≡ (ok f, w')
    → there p w ≡ false
    → there q w ≡ true
    → str_eq f q ≡ false
made_new p q f w w' h hp hq =
    let ne = other_path p q w hp hq in
    elim (Bool-cases (str_eq f q)) [
      | inl same ↦
          let e = (str_eq_iff f q).0 same in
          let (is, rest) = made p f w w' h in absurd (ne (ground (arith, e, is)))
      | inr other ↦ other
    ]

pub made_keeps :
    (p q f : Str) (w w' : Dict Str)
    → make p w ≡ (ok f, w')
    → there p w ≡ false
    → there q w ≡ true
    → get_map q w' ≡ get_map q w
made_keeps p q f w w' h hp hq =
    let ne = other_path p q w hp hq in
    ground (arith, lookup-insert_ne p q [] w ne, (made p f w w' h).1)

pub written :
    (p b f : Str) (w w' : Dict Str)
    → str_eq f p ≡ true
    → put_file f b w ≡ (ok tt, w')
    → get_map p w' ≡ ok b
written p b f w w' same h =
    let e = (str_eq_iff f p).0 same in ground (arith, e, lookup-insert_self f b w)

pub written_keeps :
    (q b f : Str) (w w' : Dict Str)
    → str_eq f q ≡ false
    → put_file f b w ≡ (ok tt, w')
    → get_map q w' ≡ get_map q w
written_keeps q b f w w' other h =
    let ne : q ≢ f = λ e. absurd (ground (arith, str_eq_iff f q, e)) in
    ground (arith, lookup-insert_ne f q b w ne)

abbrev pub map_os : Os
map_os = record {
  World = Dict Str;
  File = Str;
  home_dir = ok (codes "/h");
  lstat = size_of;
  stat = there;
  names = paths;
  read_file = get_map;
  create = make;
  is_file = λ f p w. str_eq f p;
  write = put_file;
  names-stat = paths-there;
  is_file-create = λ p f w w' h. made_there p f w w' h;
  read-create = λ p f w w' h. made_empty p f w w' h;
  create-new = λ p q f w w' h hp hq. made_new p q f w w' h hp hq;
  read-create_new = λ p q f w w' h hp hq. made_keeps p q f w w' h hp hq;
  read-write = λ p b f w w' same empty h. written p b f w w' same h;
  read-write_other = λ q b f w w' other h. written_keeps q b f w w' other h;
}
