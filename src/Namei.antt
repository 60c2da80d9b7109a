-- ===== src/Namei.antt =====
-- Path names: namei.c of cmfs-tools/libcmfs. A path name is the bytes from its address on, with
-- their number `pathlen`; `none` is a read behind them.
pub mod Paths
pub mod Meaning
pub mod Resolved
use cmfs.Prelude.{
  ℕ, zero, suc, ◌+◌, ◌-◌, ◌%◌, ◌^◌, Bool, true, false, ◌||◌, not, Option, none, some, List, [], ◌∷◌,
  ltb, ◌==◌, if◌then◌else◌, get_elem?, get_or, length, drop,
}
use cmfs.Err.{symlink_loop, internal_failure, Result, ok, err}
use cmfs.Volume.{M, ◌>>=◌, ◌>>◌, done, check, Dinode, Volume, read_inode, is_lnk}
use cmfs.Extents.{ExtentRec}
use cmfs.Dirs.Lookups.{lookup}

-- A `size_t` that is passed as an `int`. A negative length acts as 0.
unfoldable pub as_length : ℕ → ℕ
as_length n = if ltb (n % 2 ^ 32) (2 ^ 31) then n % 2 ^ 32 else 0

-- The inner loop of `dir_namei`: the name up to a slash, with what follows the slash and its length,
-- or up to the end.
pub record Component : Type 0 where
  pub thisname : List ℕ
  pub rest : Option (ℕ × List ℕ)

abbrev pub with_char : ℕ → Option Component → Option Component
with_char c none = none
with_char c (some p) = some (record p { thisname = c ∷ p.thisname })

unfoldable pub component : ℕ → List ℕ → Option Component
component zero path = some (record { thisname = []; rest = none })
component (suc pathlen) [] = none
component (suc pathlen) (c ∷ path) =
    let more = with_char c (component pathlen path) in
    if c == b'/' then some (record { thisname = []; rest = some (pathlen, path) }) else more

abbrev pub lift : {W A : Type 0} → Option A → M W A
lift none w = none
lift (some a) w = some (ok a, w)

-- `inode` is followed from the directory `dir`.
abbrev pub Follow : Type 0 → Type 0
Follow W = ℕ → ℕ → M W ℕ

abbrev pub max_links : ℕ
max_links = 6

module _ {W : Type 0} (v : Volume W) where
  -- The outer loop of `dir_namei`: the directory and the last name.
  unfoldable pub walk : Follow W → ℕ → ℕ → ℕ → List ℕ → M W (ℕ × List ℕ)
  walk follow zero dir pathlen pathname = λ w. none
  walk follow (suc fuel) dir pathlen pathname = lift (component pathlen pathname) >>= λ p.
      elim p.rest [
        | none ↦ done (ok (dir, p.thisname))
        | some (pathlen', path') ↦ do
          inode ← lookup v dir p.thisname (length p.thisname)
          dir' ← follow dir inode
          walk follow fuel dir' pathlen' path'
      ]

  -- The first byte is looked at even where the length is 0.
  unfoldable pub dir_namei : Follow W → ℕ → ℕ → List ℕ → ℕ → M W (ℕ × List ℕ)
  dir_namei follow root dir pathname pathlen = do
    c ← lift (get_elem? pathname 0)
    if c == b'/'
        then walk follow (suc pathlen) root (pathlen - 1) (drop 1 pathname)
        else walk follow (suc pathlen) dir pathlen pathname

  -- What `open_namei` does behind `dir_namei`.
  unfoldable pub last_name : Follow W → Bool → ℕ × List ℕ → M W ℕ
  last_name follow follow_last (dir, basename) = if length basename == 0 then done (ok dir) else (do
    inode ← lookup v dir basename (length basename)
    if follow_last then follow dir inode else done (ok inode))

  unfoldable pub open_namei : Follow W → ℕ → ℕ → List ℕ → ℕ → Bool → M W ℕ
  open_namei follow root base pathname pathlen follow_last =
      dir_namei follow root base pathname (as_length pathlen) >>= last_name follow follow_last

  -- The path name of a symbolic link is in its first block.
  unfoldable pub read_link : Dinode → M W (List ℕ)
  read_link di = do
    check (not ((di.i_clusters == 0) || (di.i_list.l_next_free_rec == 0))) internal_failure
    rec ← lift (get_elem? di.i_list.l_recs 0)
    v.read_blocks rec.e_blkno

  -- `links` is the number of symbolic links that may still be followed, 6 less `link_count`.
  unfoldable pub follow_link : ℕ → ℕ → Follow W
  follow_link zero root dir inode = do
    di ← read_inode v inode
    if is_lnk di then done (err symlink_loop) else done (ok inode)
  follow_link (suc links) root dir inode = do
    di ← read_inode v inode
    if is_lnk di
        then (read_link di >>= λ pathname.
            open_namei (follow_link links root) root dir pathname di.i_size true)
        else done (ok inode)

  -- `name` is the bytes of the string, behind which its NUL is.
  unfoldable pub namei : ℕ → ℕ → List ℕ → ℕ → M W ℕ
  namei root cwd name strlen = open_namei (follow_link max_links root) root cwd name strlen false
