-- ===== src/Namei/Meaning.antt =====
-- What a path name means in a file system: namei.c of cmfs-tools/libcmfs.
use cmfs.Prelude.{
  ℕ, suc, ◌-◌, ◌^◌, ◌<◌, ◌≤◌, Bool, true, false, ◌≡◌, ◌≢◌, refl, arith, some, List, [], ◌∷◌, ◌++◌,
  ◌==◌, if◌then◌else◌, length, get_elem?, length-append, inl, inr, Bool-cases,
}
use cmfs.Err.{Result, ok, ◌>>=◌, Result-cases}
use cmfs.Volume.{Volume}
use cmfs.Dirs.Lookups.{lookup}
use cmfs.Dirs.Names.{NoNul}
use cmfs.Namei.{dir_namei, last_name, open_namei, Follow}
use cmfs.Namei.Paths.{
  slash, IsName, AreNames, render, as_length_small, walk_names, with_last, walk-names,
}

pub record FilePath : Type 0 where
  pub absolute : Bool
  pub names : List (List ℕ)
  pub last : List ℕ

abbrev pub bytes : FilePath → List ℕ
bytes p = if p.absolute then slash ∷ render p.names p.last else render p.names p.last

-- Where a path without a leading slash starts, there is a byte that is no slash.
abbrev pub Starts : Bool → List ℕ → Type 0
Starts true xs = Unit {0}
Starts false xs = (c : ℕ) × (get_elem? xs 0 ≡ some c) × (c ≢ slash)

-- A path whose bytes stand before others.
pub record IsPath (p : FilePath) (rest : List ℕ) : Type 0 where
  pub are_names : AreNames p.names
  pub is_last : IsName p.last
  pub short : length (bytes p) < 2 ^ 31
  pub starts : Starts p.absolute (bytes p ++ rest)

-- The end of a path: its last name, which may be empty.
unfoldable pub last_of : (ℕ → List ℕ → Result ℕ) → (ℕ → ℕ → Result ℕ) → List ℕ → Bool → ℕ → Result ℕ
last_of step fol last follow_last dir =
    let named = step dir last >>= λ inode. if follow_last then fol dir inode else ok inode in
    if length last == 0 then ok dir else named

unfoldable pub resolve_with :
    (ℕ → List ℕ → Result ℕ) → (ℕ → ℕ → Result ℕ) → ℕ → ℕ → FilePath → Bool → Result ℕ
resolve_with step fol root base p follow_last =
    walk_names step fol (if p.absolute then root else base) p.names
    >>= last_of step fol p.last follow_last

length-render : (cs : List (List ℕ)) (last : List ℕ) → length cs ≤ length (render cs last)
length-render [] last = omega arith
length-render (c ∷ cs) last =
    omega (arith, length-append c (slash ∷ render cs last), length-render cs last)

module _ {W : Type 0} (v : Volume W) (step : ℕ → List ℕ → Result ℕ) (fol : ℕ → ℕ → Result ℕ)
    (follow : Follow W)
    (looks : (dir : ℕ) (name : List ℕ) (w : W)
      → NoNul name
      → lookup v dir name (length name) w ≡ some (step dir name, w))
    (follows : (dir inode : ℕ) (w : W) → follow dir inode w ≡ some (fol dir inode, w)) where
  dir_namei-walk_names :
      (root base : ℕ) (absolute : Bool) (cs : List (List ℕ)) (last rest : List ℕ) (w : W)
      → AreNames cs
      → IsName last
      → (let path = if absolute then slash ∷ render cs last else render cs last in
          Starts absolute (path ++ rest)
          → dir_namei v follow root base (path ++ rest) (length path) w
            ≡ some (with_last last (walk_names step fol (if absolute then root else base) cs), w))
  unfolding dir_namei
  dir_namei-walk_names root base true cs last rest w names end start =
      let n = length (render cs last) in
      let e : suc n - 1 ≡ n = omega arith in
      rw e (
        walk-names v step fol follow looks follows cs last rest (suc (suc n)) root w names end.0
          (omega (arith, length-render cs last)))
  dir_namei-walk_names root base false cs last rest w names end (c, first, other) =
      let ne : (c == slash) ≡ false = ground arith in
      rw (first, ne)
        (walk-names v step fol follow looks follows cs last rest (suc (length (render cs last)))
          base w names end.0 (omega (arith, length-render cs last)))

  last_name-last_of :
      (last : List ℕ) (follow_last : Bool) (dir : ℕ) (w : W)
      → IsName last
      → last_name v follow follow_last (dir, last) w
        ≡ some (last_of step fol last follow_last dir, w)
  unfolding last_name last_of
  last_name-last_of last follow_last dir w end = elim (Bool-cases (length last == 0)) [
    | inl none' ↦ rw none' refl
    | inr named ↦
        rw (named, looks dir last w end.1)
          (elim (Result-cases (step dir last)) [
            | inr (e, failed) ↦ rw failed refl
            | inl (inode, found) ↦ rw found (elim (Bool-cases follow_last) [
              | inl f ↦ rw (f, follows dir inode w) refl
              | inr f ↦ rw f refl
            ])
          ])
  ]

  pub open_namei-resolve_with :
      (root base : ℕ) (p : FilePath) (rest : List ℕ) (follow_last : Bool) (w : W)
      → IsPath p rest
      → open_namei v follow root base (bytes p ++ rest) (length (bytes p)) follow_last w
        ≡ some (resolve_with step fol root base p follow_last, w)
  unfolding open_namei resolve_with
  open_namei-resolve_with root base p rest follow_last w is =
      rw
        (
          as_length_small (length (bytes p)) is.short,
          dir_namei-walk_names root base p.absolute p.names p.last rest w is.are_names is.is_last
              is.starts,
        )
        (elim (Result-cases (walk_names step fol (if p.absolute then root else base) p.names)) [
          | inr (e, failed) ↦ rw failed refl
          | inl (dir, walked) ↦ rw walked (last_name-last_of p.last follow_last dir w is.is_last)
        ])
