-- ===== src/Namei/Resolved.antt =====
-- What a path name means, symbolic links included, is what `cmfs_namei` returns.
use cmfs.Prelude.{
  ℕ, zero, suc, ◌<◌, true, false, ◌≡◌, refl, ◌∙◌, arith, Option, none, some, List, [], ◌∷◌, ◌++◌,
  ◌==◌, length,
}
use cmfs.Err.{symlink_loop, Result, ok, err, ◌>>=◌}
use cmfs.Volume.{Volume, Dinode, read_inode, is_lnk}
use cmfs.Dirs.Lookups.{lookup}
use cmfs.Dirs.Names.{NoNul}
use cmfs.Namei.{read_link, follow_link, namei, max_links}
use cmfs.Namei.Paths.{render, walk_names}
use cmfs.Namei.Meaning.{FilePath, bytes, IsPath, last_of, resolve_with, open_namei-resolve_with}

-- A file system as its directories and its symbolic links, seen from outside.
pub record View : Type 0 where
  pub step : ℕ → List ℕ → Result ℕ
  pub target : ℕ → Result (Option FilePath)

abbrev pub followed : Option FilePath → Result ℕ → (FilePath → Result ℕ) → Result ℕ
followed none here through = here
followed (some p) here through = through p

-- At most `links` symbolic links are followed inside one another.
unfoldable pub resolve_link : ℕ → View → ℕ → ℕ → ℕ → Result ℕ
resolve_link zero view root dir inode =
    view.target inode >>= λ t. followed t (ok inode) (λ p. err symlink_loop)
resolve_link (suc links) view root dir inode = view.target inode >>= λ t.
    followed t (ok inode)
      (λ p. resolve_with view.step (resolve_link links view root) root dir p true)

-- The inode at a block number is that of a symbolic link with this target, or of none.
abbrev pub HasTarget : {W : Type 0} → Volume W → W → ℕ → Result (Option FilePath) → Type 0
HasTarget v w inode (err e) = read_inode v inode w ≡ some (err e, w)
HasTarget v w inode (ok none) =
    (di : Dinode) × (read_inode v inode w ≡ some (ok di, w)) × (is_lnk di ≡ false)
HasTarget v w inode (ok (some p)) =
    (di : Dinode) × (rest : List ℕ) × (read_inode v inode w ≡ some (ok di, w))
    × (is_lnk di ≡ true)
    × (read_link v di w ≡ some (ok (bytes p ++ rest), w))
    × (di.i_size ≡ length (bytes p))
    × IsPath p rest

-- The volume shows this view, to reads that succeed or fail without an effect.
pub record Represents {W : Type 0} (v : Volume W) (view : View) : Type 0 where
  pub looks :
      (dir : ℕ) (name : List ℕ) (w : W)
      → NoNul name
      → lookup v dir name (length name) w ≡ some (view.step dir name, w)
  pub targets : (inode : ℕ) (w : W) → HasTarget v w inode (view.target inode)

module _ {W : Type 0} (v : Volume W) (view : View) (shows : Represents v view) where
  -- No more link may be followed.
  no_link :
      (root dir inode : ℕ) (w : W) (t : Result (Option FilePath))
      → HasTarget v w inode t
      → follow_link v zero root dir inode w
        ≡ some ((t >>= λ t'. followed t' (ok inode) (λ p. err symlink_loop)), w)
  unfolding follow_link
  no_link root dir inode w (err e) h = rw h refl
  no_link root dir inode w (ok none) (di, read, other) = rw (read, other) refl
  no_link root dir inode w (ok (some p)) (di, rest, read, lnk, bs, size, path) = rw (read, lnk) refl

  one_link :
      (links root dir inode : ℕ) (w : W) (t : Result (Option FilePath))
      → ((dir' inode' : ℕ) (w' : W)
          → follow_link v links root dir' inode' w'
            ≡ some (resolve_link links view root dir' inode', w'))
      → HasTarget v w inode t
      → follow_link v (suc links) root dir inode w
        ≡ some (
          (t >>= λ t'.
              followed t'
                (ok inode)
                (λ p. resolve_with view.step (resolve_link links view root) root dir p true)),
          w,
        )
  unfolding follow_link
  one_link links root dir inode w (err e) follows h = rw h refl
  one_link links root dir inode w (ok none) follows (di, read, other) = rw (read, other) refl
  one_link links root dir inode w (ok (some p)) follows (di, rest, read, lnk, bs, size, path) =
      rw (read, lnk, bs, size)
        (open_namei-resolve_with v view.step (resolve_link links view root)
          (follow_link v links root) shows.looks follows root dir p rest true w path)

  follow_link-resolve_link :
      (links root dir inode : ℕ) (w : W)
      → follow_link v links root dir inode w ≡ some (resolve_link links view root dir inode, w)
  unfolding resolve_link
  follow_link-resolve_link zero root dir inode w =
      no_link root dir inode w (view.target inode) (shows.targets inode w)
  follow_link-resolve_link (suc links) root dir inode w =
      one_link links root dir inode w (view.target inode) (follow_link-resolve_link links root)
        (shows.targets inode w)

  -- On a volume that shows a view of directories and symbolic links, `cmfs_namei` of the bytes of a
  -- path ends and returns what the path means: from the root or the current directory it goes down
  -- by the names, follows the symbolic links of all but the last name, at most six inside one
  -- another, and fails with the error of the first step that fails, or with
  -- `CMFS_ET_SYMLINK_LOOP`. The names have no slash and no NUL, and a path is shorter than 2^31.
  pub namei-resolve_with :
      (root cwd : ℕ) (p : FilePath) (rest : List ℕ) (w : W)
      → IsPath p rest
      → namei v root cwd (bytes p ++ rest) (length (bytes p)) w
        ≡ some (resolve_with view.step (resolve_link max_links view root) root cwd p false, w)
  unfolding namei
  namei-resolve_with root cwd p rest w path =
      open_namei-resolve_with v view.step (resolve_link max_links view root)
        (follow_link v max_links root) shows.looks (follow_link-resolve_link max_links root) root
        cwd p rest false w path

  -- A name in the current directory that is a symbolic link to itself.
  pub record IsSelfLink (cwd inode : ℕ) (name : List ℕ) : Type 0 where
    pub named : 0 < length name
    pub at_name : view.step cwd name ≡ ok inode
    pub to_itself :
        view.target inode ≡ ok (some (record { absolute = false; names = []; last = name }))

  resolve_link-IsSelfLink :
      (links root cwd inode : ℕ) (name : List ℕ)
      → IsSelfLink cwd inode name
      → resolve_link links view root cwd inode ≡ err symlink_loop
  unfolding resolve_link resolve_with walk_names last_of
  resolve_link-IsSelfLink zero root cwd inode name is = rw is.to_itself refl
  resolve_link-IsSelfLink (suc links) root cwd inode name is =
      let some_name : (length name == 0) ≡ false = ground (arith, is.named) in
      rw (is.to_itself, some_name, is.at_name)
        (resolve_link-IsSelfLink links root cwd inode name is)

  -- A path through a symbolic link to itself ends with `CMFS_ET_SYMLINK_LOOP`, on a volume that
  -- shows such a view.
  pub namei-loop :
      (root cwd inode : ℕ) (name : List ℕ) (cs : List (List ℕ)) (last rest : List ℕ) (w : W)
      → IsSelfLink cwd inode name
      → IsPath (record { absolute = false; names = name ∷ cs; last = last }) rest
      → (let path = render (name ∷ cs) last in
          namei v root cwd (path ++ rest) (length path) w ≡ some (err symlink_loop, w))
  unfolding resolve_with walk_names
  namei-loop root cwd inode name cs last rest w is path =
      namei-resolve_with root cwd (record { absolute = false; names = name ∷ cs; last = last }) rest
        w path
      ∙ rw (is.at_name, resolve_link-IsSelfLink max_links root cwd inode name is) refl
