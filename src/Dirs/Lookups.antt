-- ===== src/Dirs/Lookups.antt =====
-- Looking a name up: lookup.c.
use cmfs.Prelude.{
  ℕ, zero, suc, ◌+◌, Bool, true, false, Option, none, some, List, [], ◌∷◌, ◌==◌, if◌then◌else◌,
  get_elem?,
}
use cmfs.Prelude.Fault.{◌>>=◌}
use cmfs.Err.{file_not_found, Result, ok, err}
use cmfs.Volume
use cmfs.Volume.{M, Volume, done, with_data, check_directory, read_inode}
use cmfs.Dirs.{inode_at, name_len_at, header_size, DirFlags}
use cmfs.Dirs.Blocks.{EntryFunc, dir_iterate}

-- `struct lookup_struct`, its results: `*inode`, and whether `found` is not 0.
pub record Lookup : Type 0 where
  pub inode : ℕ
  pub found : Bool

-- `!strncmp(name, buf + o, n)`.
unfoldable pub same_name : List ℕ → List ℕ → ℕ → ℕ → Option Bool
same_name name buf o zero = some true
same_name [] buf o (suc n) = none
same_name (a ∷ name) buf o (suc n) = get_elem? buf o >>= λ b.
    let rest = same_name name buf (o + 1) n in
    if a == b then (if a == 0 then some true else rest) else some false

unfoldable pub lookup_proc : {W : Type 0} → List ℕ → ℕ → EntryFunc (W × Lookup)
lookup_proc name len blocknr offset buf (w, ls) =
    let other = some (record { changed = false; abort = false }, buf, (w, ls)) in
    let match = inode_at buf offset >>= λ inode.
    some (
      record { changed = false; abort = true },
      buf,
      (w, record { inode = inode; found = true }),
    ) in
    name_len_at buf offset >>= λ name_len.
    let compared = same_name name buf (offset + header_size) name_len >>= λ same.
    if same then match else other in
    if len == name_len then compared else other

abbrev pub no_flags : DirFlags
no_flags = record { include_empty = false; include_removed = false; exclude_dots = false }

module _ {W : Type 0} (v : Volume W) where
  abbrev pub looked_up : Option (Result (Unit {0}) × (W × Lookup)) → Option (Result ℕ × W)
  looked_up none = none
  looked_up (some (err e, (w, ls))) = some (err e, w)
  looked_up (some (ok _, (w, ls))) = some (if ls.found then ok ls.inode else err file_not_found, w)

  abbrev look : ℕ → List ℕ → ℕ → M W ℕ
  look dir name len w = looked_up (
      dir_iterate (with_data v) no_flags (lookup_proc name len) dir
        (w, record { inode = 0; found = false }))

  unfoldable pub lookup : ℕ → List ℕ → ℕ → M W ℕ
  lookup dir name len = Volume.◌>>=◌ (read_inode v dir) (λ _. look dir name len)
