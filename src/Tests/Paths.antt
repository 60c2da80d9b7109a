-- ===== src/Tests/Paths.antt =====
-- Path names in the small volume, where `foo` is a symbolic link to itself.
use cmfs.Prelude.{
  ℕ, true, false, ◌≡◌, refl, arith, Option, none, some, List, [], ◌∷◌, ◌++◌, ◌==◌, if◌then◌else◌,
  length, inl, inr, Bool-cases,
}
use cmfs.Err.{Result, ok, err, no_directory, bad_blkno}
use cmfs.Volume.{in_range, is_dir, is_lnk, read_inode, check_directory}
use cmfs.Dirs.Lookups.{lookup}
use cmfs.Dirs.Blocks.{dir_iterate, dir_iterate2}
use cmfs.Dirs.Names.{NoNul, find_entry}
use cmfs.Dirs.Found.{found_or_not}
use cmfs.Namei.{namei, read_link}
use cmfs.Namei.Meaning.{resolve_with, last_of, FilePath, IsPath}
use cmfs.Namei.Resolved.{resolve_link, View, Represents, HasTarget, namei-resolve_with}
use cmfs.Namei.Paths.{IsName, walk_names}
use cmfs.Tests.Volumes.{foo, content, volume, small_inode, link_inode, entries}
use cmfs.Tests.Directories.{lookup_in_root}

abbrev step : ℕ → List ℕ → Result ℕ
step dir name =
    if dir == 2
    then found_or_not (find_entry name (entries 5 ++ []))
    else if in_range volume.fs dir
    then err no_directory
    else err bad_blkno

abbrev target : ℕ → Result (Option FilePath)
target inode =
    if in_range volume.fs inode
    then ok
        (if inode == 9 then some (record { absolute = false; names = []; last = foo }) else none)
    else err bad_blkno

abbrev view : View
view = record { step = step; target = target }

-- Only block 2 has a directory.
no_other : (dir : ℕ) → (dir == 2) ≡ false → is_dir (small_inode (content dir)) ≡ false
unfolding is_dir
no_other dir h = elim (Bool-cases (dir == 5)) [
  | inl five ↦ rw five refl
  | inr five ↦ elim (Bool-cases (dir == 6)) [
    | inl six ↦ rw (five, six) refl
    | inr six ↦ elim (Bool-cases (dir == 9)) [
      | inl nine ↦ rw (five, six, h, nine) refl
      | inr nine ↦ rw (five, six, h, nine) refl
    ]
  ]
]

signed : (b : ℕ) → (small_inode (content b)).has_signature ≡ true
signed b = elim (Bool-cases (b == 5)) [
  | inl five ↦ rw five refl
  | inr five ↦ elim (Bool-cases (b == 6)) [
    | inl six ↦ rw (five, six) refl
    | inr six ↦ elim (Bool-cases (b == 2)) [
      | inl two ↦ rw (five, six, two) refl
      | inr two ↦ elim (Bool-cases (b == 9)) [
        | inl nine ↦ rw (five, six, two, nine) refl
        | inr nine ↦ rw (five, six, two, nine) refl
      ]
    ]
  ]
]

looks :
    (dir : ℕ) (name : List ℕ) (w : Unit {0})
    → NoNul name
    → lookup volume dir name (length name) w ≡ some (step dir name, w)
unfolding lookup dir_iterate dir_iterate2 check_directory read_inode
looks dir name w clean = elim (Bool-cases (dir == 2)) [
  | inl two ↦ let e : dir ≡ 2 = ground arith in rw e (lookup_in_root name clean)
  | inr other ↦ elim (Bool-cases (in_range volume.fs dir)) [
    | inl inside ↦ rw (other, inside, signed dir, inside, signed dir, no_other dir other) refl
    | inr out ↦ rw (other, out) refl
  ]
]

no_other_link : (b : ℕ) → (b == 9) ≡ false → is_lnk (small_inode (content b)) ≡ false
unfolding is_lnk
no_other_link b h = elim (Bool-cases (b == 5)) [
  | inl five ↦ rw five refl
  | inr five ↦ elim (Bool-cases (b == 6)) [
    | inl six ↦ rw (five, six) refl
    | inr six ↦ elim (Bool-cases (b == 2)) [
      | inl two ↦ rw (five, six, two) refl
      | inr two ↦ rw (five, six, two, h) refl
    ]
  ]
]

foo-IsName : IsName foo
foo-IsName = (
  (omega arith, (omega arith, (omega arith, tt))),
  (omega arith, (omega arith, (omega arith, tt))),
)

foo-IsPath : IsPath (record { absolute = false; names = []; last = foo }) (0 ∷ [])
foo-IsPath = record {
  are_names = tt;
  is_last = foo-IsName;
  short = omega arith;
  starts = (b'f', refl, omega arith);
}

targets : (inode : ℕ) (w : Unit {0}) → HasTarget volume w inode (target inode)
unfolding read_inode read_link in_range is_lnk
targets inode w = elim (Bool-cases (inode == 9)) [
  | inl nine ↦
      let e : inode ≡ 9 = ground arith in
      rw e (link_inode, 0 ∷ [], refl, refl, refl, refl, foo-IsPath)
  | inr nine ↦ elim (Bool-cases (in_range volume.fs inode)) [
    | inr out ↦ rw out (rw out refl)
    | inl inside ↦
        rw (inside, nine)
          (small_inode (content inode), rw (inside, signed inode) refl, no_other_link inode nine)
  ]
]

represents : Represents volume view
represents = record { looks = looks; targets = targets }

-- `./foo`, whose last name is not followed.
below_dot-IsPath :
    IsPath (record { absolute = false; names = (b'.' ∷ []) ∷ []; last = foo }) (0 ∷ [])
below_dot-IsPath = record {
  are_names = (((omega arith, tt), (omega arith, tt)), tt);
  is_last = foo-IsName;
  short = omega arith;
  starts = (b'.', refl, omega arith);
}

namei-resolve_with_example :
    namei volume 2 2 (b'.' ∷ b'/' ∷ b'f' ∷ b'o' ∷ b'o' ∷ 0 ∷ []) 5 tt ≡ some (ok 9, tt)
unfolding in_range resolve_with resolve_link walk_names last_of found_or_not find_entry
namei-resolve_with_example =
    namei-resolve_with volume view represents 2 2
      (record { absolute = false; names = (b'.' ∷ []) ∷ []; last = foo }) (0 ∷ []) tt
      below_dot-IsPath

-- `foo/foo`.
through_link-IsPath : IsPath (record { absolute = false; names = foo ∷ []; last = foo }) (0 ∷ [])
through_link-IsPath = record {
  are_names = (foo-IsName, tt);
  is_last = foo-IsName;
  short = omega arith;
  starts = (b'f', refl, omega arith);
}
