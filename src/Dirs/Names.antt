-- ===== src/Dirs/Names.antt =====
-- The comparison of names, and the first entry that has a name.
use cmfs.Prelude.{
  ℕ, ◌+◌, Bool, true, false, ◌&&◌, not, ◌≡◌, ◌≢◌, refl, arith, Option, none, some, List, [], ◌∷◌,
  ◌++◌, ◌==◌, if◌then◌else◌, length, inl, inr, Bool-cases,
}
use cmfs.Dirs.Lookups.{no_flags, Lookup, same_name, lookup_proc}
use cmfs.Dirs.{header_size}
use cmfs.Dirs.Entries.{Dirent, IsEntry, bytes_from, Answer, visit}

-- Equality of names.
abbrev pub same : List ℕ → List ℕ → Bool
same [] [] = true
same [] (b ∷ bs) = false
same (a ∷ as') [] = false
same (a ∷ as') (b ∷ bs) = (a == b) && same as' bs

-- A name as C strings have it: without a NUL.
abbrev pub NoNul : List ℕ → Type 0
NoNul [] = Unit {0}
NoNul (c ∷ cs) = (c ≢ 0) × NoNul cs

-- The inode of the first entry in use that has the name.
unfoldable pub find_entry : List ℕ → List Dirent → Option ℕ
find_entry name [] = none
find_entry name (e ∷ es) =
    if not (e.inode == 0) && same name e.name then some e.inode else find_entry name es

same_name-same :
    (name : List ℕ) (buf : List ℕ) (o : ℕ) (found : List ℕ)
    → NoNul name
    → length name ≡ length found
    → bytes_from buf o (length found) ≡ some found
    → same_name name buf o (length found) ≡ some (same name found)
unfolding same_name bytes_from
same_name-same [] buf o [] clean len h = refl
same_name-same [] buf o (b ∷ bs) clean len h = absurd (omega arith)
same_name-same (a ∷ as') buf o [] clean len h = absurd (omega arith)
same_name-same (a ∷ as') buf o (b ∷ bs) (nonzero, clean) len h =
    let other : (a == 0) ≡ false = ground arith in
    ground (arith, same_name-same as' buf (o + 1) bs clean)

same-length : (a b : List ℕ) → same a b ≡ true → length a ≡ length b
same-length [] [] h = refl
same-length [] (b ∷ bs) h = cc
same-length (a ∷ as') [] h = cc
same-length (a ∷ as') (b ∷ bs) h = ground (arith, same-length as' bs)

differ : (a b : List ℕ) → (length a == length b) ≡ false → same a b ≡ false
differ a b ne = elim (Bool-cases (same a b)) [
  | inl eq ↦ absurd (ground (arith, same-length a b eq))
  | inr other ↦ other
]

module _ {W : Type 0} (name : List ℕ) (clean : NoNul name) where
  -- What `lookup_proc` answers for an entry.
  abbrev pub lookup_answer : Answer (W × Lookup)
  lookup_answer k e (w, ls) =
      if same name e.name
      then (true, (w, record { inode = e.inode; found = true }))
      else (false, (w, ls))

  pub lookup_proc-answer :
      (k blocknr o blocksize : ℕ) (buf : List ℕ) (e : Dirent) (w : W × Lookup)
      → IsEntry blocksize buf o e
      → lookup_proc name (length name) blocknr o buf w
        ≡ some (
          record { changed = false; abort = (lookup_answer k e w).0 },
          buf,
          (lookup_answer k e w).1,
        )
  unfolding lookup_proc
  lookup_proc-answer k blocknr o blocksize buf e (w, ls) is =
      rw is.has_name_len (elim (Bool-cases (length name == length e.name)) [
        | inl eq ↦
            let len : length name ≡ length e.name = ground arith in
            rw
              (
                eq,
                same_name-same name buf (o + header_size) e.name clean len is.has_name,
                is.has_inode,
              )
              (elim (Bool-cases (same name e.name)) [ inl s ↦ rw s refl | inr s ↦ rw s refl ])
        | inr ne ↦ let s : same name e.name ≡ false = differ name e.name ne in rw (ne, s) refl
      ])

abbrev pub is_some : Option ℕ → Bool
is_some none = false
is_some (some i) = true

abbrev pub found : Lookup → Option ℕ → Lookup
found ls none = ls
found ls (some i) = record { inode = i; found = true }

pub found-none : (ls : Lookup) (o : Option ℕ) → is_some o ≡ false → found ls o ≡ ls
found-none ls none h = refl
found-none ls (some i) h = cc

-- The entries of one block after those of another.
pub find_entry-append :
    (name : List ℕ) (xs ys : List Dirent)
    → find_entry name (xs ++ ys)
      ≡ (if is_some (find_entry name xs) then find_entry name xs else find_entry name ys)
unfolding find_entry
find_entry-append name [] ys = refl
find_entry-append name (e ∷ es) ys = elim (Bool-cases (not (e.inode == 0) && same name e.name)) [
  | inl h ↦ rw h refl
  | inr h ↦ rw h (find_entry-append name es ys)
]

-- The visit with `lookup_proc` finds the first entry that has the name.
pub visit-find :
    {W : Type 0} (name : List ℕ) (clean : NoNul name) (es : List Dirent) (o k : ℕ) (w : W)
    (ls : Lookup)
    → ((visit no_flags (lookup_answer name clean) es o k (w, ls)).stopped
        ≡ is_some (find_entry name es))
      × ((visit no_flags (lookup_answer name clean) es o k (w, ls)).world
          ≡ (w, found ls (find_entry name es)))
unfolding visit find_entry
visit-find name clean [] o k w ls = (refl, refl)
visit-find name clean (e ∷ es) o k w ls = elim (Bool-cases (e.inode == 0)) [
  | inl empty ↦ rw empty (visit-find name clean es (o + e.rec_len) k w ls)
  | inr used ↦ elim (Bool-cases (same name e.name)) [
    | inl s ↦ rw (used, s) (refl, refl)
    | inr s ↦ rw (used, s) (visit-find name clean es (o + e.rec_len) _ w ls)
  ]
]
