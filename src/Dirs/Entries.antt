-- ===== src/Dirs/Entries.antt =====
-- Blocks that are divided into entries, and what `cmfs_process_dir_entry` makes of them.
use cmfs.Prelude.{
  ℕ, zero, suc, ◌+◌, ◌%◌, ◌≤◌, Bool, true, false, ◌&&◌, not, ◌≡◌, refl, arith, Option, some, List,
  [], ◌∷◌, ltb, ◌==◌, if◌then◌else◌, length, get_elem?, inl, inr, Bool-cases,
}
use cmfs.Prelude.Fault.{◌>>=◌}
use cmfs.Err.{Result, ok}
use cmfs.Volume.{Volume}
use cmfs.Dirs.{
  inode_at, rec_len_at, name_len_at, bad_lengths, is_dots, DirFlags, DirFunc, DirWalk, skipped,
  call_func, next_entry, process_entries, header_size,
}

-- The `n` bytes from `o` on.
unfoldable pub bytes_from : List ℕ → ℕ → ℕ → Option (List ℕ)
bytes_from buf o zero = some []
bytes_from buf o (suc n) = get_elem? buf o >>= λ b. bytes_from buf (o + 1) n >>= λ bs. some (b ∷ bs)

-- An entry as it is meant.
pub record Dirent : Type 0 where
  pub inode : ℕ
  pub rec_len : ℕ
  pub name : List ℕ

-- The bytes at `o` are those of an entry that lies in the block and holds its name.
pub record IsEntry (blocksize : ℕ) (buf : List ℕ) (o : ℕ) (e : Dirent) : Type 0 where
  pub has_inode : inode_at buf o ≡ some e.inode
  pub has_rec_len : rec_len_at buf o ≡ some e.rec_len
  pub has_name_len : name_len_at buf o ≡ some (length e.name)
  pub has_name : bytes_from buf (o + header_size) (length e.name) ≡ some e.name
  pub aligned : e.rec_len % 4 ≡ 0
  pub holds_name : length e.name + header_size ≤ e.rec_len
  pub inside : o + e.rec_len ≤ blocksize

-- From `o` to `end` the block is divided into these entries.
abbrev pub Entries : ℕ → List ℕ → ℕ → List Dirent → ℕ → Type 0
Entries blocksize buf o [] end = o ≡ end
Entries blocksize buf o (e ∷ es) end =
    IsEntry blocksize buf o e × Entries blocksize buf (o + e.rec_len) es end

abbrev pub dots : List ℕ → Bool
dots [] = false
dots (c ∷ []) = c == b'.'
dots (c ∷ d ∷ []) = (c == b'.') && (d == b'.')
dots (c ∷ d ∷ f ∷ name) = false

-- The entries that the caller does not want to see.
abbrev pub hidden : DirFlags → Dirent → Bool
hidden flags e =
    if (e.inode == 0) && not flags.include_empty then true else flags.exclude_dots && dots e.name

-- Where a visit of entries ended, with the number of the next kind of entry and the data.
pub record Seen (W : Type 0) : Type 0 where
  pub stopped : Bool
  pub at : ℕ
  pub entry : ℕ
  pub world : W

-- An answer of the caller's function that leaves the buffer alone: whether to stop, and its data.
abbrev pub Answer : Type 0 → Type 0
Answer W = ℕ → Dirent → W → Bool × W

abbrev next_kind : ℕ → ℕ
next_kind k = if ltb k 3 then k + 1 else k

-- The entries are shown in order until the caller stops.
unfoldable pub visit : {W : Type 0} → DirFlags → Answer W → List Dirent → ℕ → ℕ → W → Seen W
visit flags answer [] o k w = record { stopped = false; at = o; entry = k; world = w }
visit {W} flags answer (e ∷ es) o k w =
    let skip = visit flags answer es (o + e.rec_len) k w in
    let on = visit flags answer es (o + e.rec_len) (next_kind k) (answer k e w).1 in
    let stop : Seen W = record {
      stopped = true;
      at = o;
      entry = next_kind k;
      world = (answer k e w).1;
    } in
    if hidden flags e then skip else if (answer k e w).0 then stop else on

is_dots-bytes :
    (buf : List ℕ) (o : ℕ) (name : List ℕ)
    → bytes_from buf o (length name) ≡ some name
    → is_dots buf o (length name) ≡ some (dots name)
unfolding is_dots bytes_from
is_dots-bytes buf o [] h = refl
is_dots-bytes buf o (c ∷ []) h = ground arith
is_dots-bytes buf o (c ∷ d ∷ []) h = ground arith
is_dots-bytes buf o (c ∷ d ∷ f ∷ name) h = ground arith

module _ {W : Type 0} (v : Volume W) (flags : DirFlags) (func : DirFunc W) (dir blocknr : ℕ)
    (buf : List ℕ) (kept : flags.include_removed ≡ false) where
  -- The walk at `o`, of a caller that leaves the buffer alone.
  abbrev pub walk : ℕ → ℕ → W → DirWalk W
  walk o k w = record {
    offset = o;
    next_real_entry = o;
    entry = k;
    changed = false;
    do_abort = false;
    buf = buf;
    world = w;
  }

  module _ (e : Dirent) (o : ℕ) (is : IsEntry v.fs_blocksize buf o e) where
    skipped-hidden :
        (k : ℕ) (w : W) → skipped v flags func dir blocknr (walk o k w) ≡ some (hidden flags e)
    unfolding skipped
    skipped-hidden k w =
        rw (is.has_inode, is.has_name_len, is_dots-bytes buf (o + header_size) e.name is.has_name)
          (ground arith)

    next_entry_lem :
        (k : ℕ) (w : W)
        → next_entry v flags func dir blocknr (walk o k w) ≡ some (walk (o + e.rec_len) k w)
    unfolding next_entry
    next_entry_lem k w = rw (is.has_rec_len, kept) (ground arith)

    not_beyond : ltb v.fs_blocksize (o + e.rec_len) ≡ false
    not_beyond = ground (arith, is.inside)

    starts_before : ltb o v.fs_blocksize ≡ true
    starts_before = ground (arith, is.inside, is.holds_name)

    lengths_fit : bad_lengths buf o e.rec_len ≡ some false
    unfolding bad_lengths
    lengths_fit =
        let long : ltb e.rec_len 8 ≡ false = ground (arith, is.holds_name) in
        let whole : (e.rec_len % 4 == 0) ≡ true = ground (arith, is.aligned) in
        let fits : ltb e.rec_len (length e.name + 8) ≡ false = ground (arith, is.holds_name) in
        rw (long, whole, is.has_name_len, fits) refl

  module _ (answer : Answer W)
      (answers : (k o : ℕ) (e : Dirent) (w : W)
        → IsEntry v.fs_blocksize buf o e
        → func dir k blocknr o buf w
          ≡ some
              (record { changed = false; abort = (answer k e w).0 }, buf, (answer k e w).1)) where
    -- The walk after a visit: over, or with the fuel that is left.
    unfoldable pub outcome : ℕ → Seen W → Option (Result (Unit {0}) × DirWalk W)
    outcome fuel seen =
        let on =
          process_entries v flags func dir blocknr fuel (walk seen.at seen.entry seen.world) in
        if seen.stopped
        then some (ok tt, record (walk seen.at seen.entry seen.world) { do_abort = true })
        else on

    call_func_lem :
        (e : Dirent) (o k : ℕ) (w : W)
        → IsEntry v.fs_blocksize buf o e
        → call_func v flags func dir blocknr (walk o k w)
          ≡ some (
            record { changed = false; abort = (answer k e w).0 },
            record (walk o (next_kind k) (answer k e w).1) { do_abort = (answer k e w).0 },
          )
    unfolding call_func
    call_func_lem e o k w is =
        let same : ltb o o ≡ false = ground arith in rw (same, answers k o e w is) refl

    pub process_entries-visit :
        (es : List Dirent) (o k end fuel : ℕ) (w : W)
        → Entries v.fs_blocksize buf o es end
        → process_entries v flags func dir blocknr (length es + fuel) (walk o k w)
          ≡ outcome fuel (visit flags answer es o k w)
    unfolding process_entries visit outcome
    process_entries-visit [] o k end fuel w es = let z : 0 + fuel ≡ fuel = omega arith in rw z refl
    process_entries-visit (e ∷ es) o k end fuel w (is, rest) =
        let s : suc (length es) + fuel ≡ suc (length es + fuel) = omega arith in
        let on = process_entries-visit es (o + e.rec_len) in
        rw
          (
            s,
            starts_before e o is,
            is.has_rec_len,
            not_beyond e o is,
            lengths_fit e o is,
            skipped-hidden e o is k w,
          )
          (elim (Bool-cases (hidden flags e)) [
            | inl h ↦ rw (h, next_entry_lem e o is k w) (on k end fuel w rest)
            | inr h ↦
                rw (h, call_func_lem e o k w is)
                  (elim (Bool-cases ((answer k e w).0)) [
                    | inl a ↦ rw a refl
                    | inr a ↦
                        rw (a, next_entry_lem e o is (next_kind k) (answer k e w).1)
                          (on (next_kind k) end fuel (answer k e w).1 rest)
                  ])
          ])

    pub after-Entries :
        (es : List Dirent) (o end : ℕ) → Entries v.fs_blocksize buf o es end → o + length es ≤ end
    after-Entries [] o end h = ground arith
    after-Entries (e ∷ es) o end (is, rest) =
        omega (arith, after-Entries es (o + e.rec_len) end rest, is.holds_name)

    pub visit-at :
        (es : List Dirent) (o k end : ℕ) (w : W)
        → Entries v.fs_blocksize buf o es end
        → (visit flags answer es o k w).stopped ≡ false
        → (visit flags answer es o k w).at ≡ end
    unfolding visit
    visit-at [] o k end w h on = h
    visit-at (e ∷ es) o k end w (is, rest) on = ground (
      arith,
      visit-at es (o + e.rec_len) k end w rest,
      visit-at es (o + e.rec_len) (next_kind k) end (answer k e w).1 rest,
    )
