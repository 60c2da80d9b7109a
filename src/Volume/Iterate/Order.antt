-- ===== src/Volume/Iterate/Order.antt =====
-- The blocks that the iteration shows, in their order.
use cmfs.Prelude.{
  ℕ, zero, suc, ◌+◌, ◌*◌, ◌%◌, ◌^◌, Bool, true, false, ◌&&◌, not, ◌≡◌, refl, Option, none, some,
  List, [], ◌∷◌, ◌++◌, leb, if◌then◌else◌, inl, inr, Bool-cases,
}
use cmfs.Prelude.Fault.{◌>>=◌, >>=-eq-some, some_inj}
use cmfs.Extents.{ExtentRec}
use cmfs.Volume.{Volume}
use cmfs.Volume.Iterate.{Iret, no_bits, ExtentContext, Step, iterate_recs}
use cmfs.Volume.Iterate.Files.{BlockFunc, iterate_blocks}

-- A block of a file: its number on the disk, its number in the file, and the flags of its extent.
pub record FileBlock : Type 0 where
  pub blkno : ℕ
  pub bcount : ℕ
  pub ext_flags : ℕ

-- An answer of the caller's function: whether to stop, and its data.
abbrev pub Answer : Type 0 → Type 0
Answer W = FileBlock → W → Bool × W

-- The blocks are shown in order until the caller stops.
abbrev pub visit : {W : Type 0} → Answer W → List FileBlock → W → Bool × W
visit answer [] w = (false, w)
visit answer (x ∷ xs) w =
    let rest = visit answer xs (answer x w).1 in
    if (answer x w).0 then (true, (answer x w).1) else rest

visit-append :
    {W : Type 0} (answer : Answer W) (xs ys : List FileBlock) (w : W)
    → visit answer (xs ++ ys) w
      ≡ (if (visit answer xs w).0 then visit answer xs w else visit answer ys (visit answer xs w).1)
visit-append answer [] ys w = refl
visit-append answer (x ∷ xs) ys w = elim (Bool-cases ((answer x w).0)) [
  | inl a ↦ rw a refl
  | inr a ↦ rw a (visit-append answer xs ys (answer x w).1)
]

abbrev pub All : (FileBlock → Type 0) → List FileBlock → Type 0
All P [] = Unit {0}
All P (x ∷ xs) = P x × All P xs

All-append :
    (P : FileBlock → Type 0) (xs ys : List FileBlock) → All P (xs ++ ys) → All P xs × All P ys
All-append P [] ys h = (tt, h)
All-append P (x ∷ xs) ys (p, h) = let (a, b) = All-append P xs ys h in ((p, a), b)

abbrev pub quiet : Bool → Iret
quiet a = record { changed = false; abort = a; error = false }

-- `n` blocks from `blkno` on, up to the end of the file. Block numbers have 64 bits.
unfoldable pub blocks_from : Bool → ℕ → ℕ → ℕ → ℕ → ℕ → ℕ → List FileBlock
blocks_from append blocksize i_size flags zero blkno bcount = []
blocks_from append blocksize i_size flags (suc n) blkno bcount =
    let rest = blocks_from append blocksize i_size flags n ((blkno + 1) % 2 ^ 64) (bcount + 1) in
    if leb i_size (bcount * blocksize % 2 ^ 64) && not append
    then []
    else (record { blkno = blkno; bcount = bcount; ext_flags = flags } ∷ rest)

module _ {W : Type 0} (v : Volume W) (func : BlockFunc W) (answer : Answer W)
    (P : FileBlock → Type 0)
    (answers : (x : FileBlock) (w : W)
      → P x
      → func x.blkno x.bcount x.ext_flags w ≡ some (quiet (answer x w).0, (answer x w).1)) where
  pub iterate_blocks-visit :
      (append : Bool) (i_size flags n blkno bcount : ℕ) (w : W)
      → All P (blocks_from append v.fs_blocksize i_size flags n blkno bcount)
      → iterate_blocks v func append i_size flags n blkno bcount no_bits w ≡ (
          let seen =
            visit answer (blocks_from append v.fs_blocksize i_size flags n blkno bcount) w in
          some (quiet seen.0, seen.1))
  unfolding iterate_blocks blocks_from
  iterate_blocks-visit append i_size flags zero blkno bcount w ps = refl
  iterate_blocks-visit append i_size flags (suc n) blkno bcount w ps =
      let x : FileBlock = record { blkno = blkno; bcount = bcount; ext_flags = flags } in
      elim (Bool-cases (leb i_size (bcount * v.fs_blocksize % 2 ^ 64) && not append)) [
        | inl over ↦ rw over refl
        | inr on ↦
            let ps' : All P (
                x
                ∷ blocks_from append v.fs_blocksize i_size flags n ((blkno + 1) % 2 ^ 64)
                    (bcount + 1)) =
              rw on at ps in
            rw (on, answers x w ps'.0)
              (elim (Bool-cases ((answer x w).0)) [
                | inl a ↦ rw a refl
                | inr a ↦ rw a (
                    iterate_blocks-visit append i_size flags n ((blkno + 1) % 2 ^ 64) (bcount + 1)
                      (answer x w).1 ps'.1)
              ])
      ]

pub if-some :
    {A : Type 0} (b : Bool) (a : A) {c : A}
    → (if b then some a else none) ≡ some c
    → (b ≡ true) × (a ≡ c)
if-some true a h = (refl, some_inj h)
if-some false a h = cc

-- The blocks of what a function finds for each of `n` records, from record `i` on.
unfoldable pub over_recs :
    (ℕ → ExtentRec → Option (List FileBlock)) → ℕ → ℕ → List ExtentRec → Option (List FileBlock)
over_recs f zero i recs = some []
over_recs f (suc n) i [] = none
over_recs f (suc n) i (rec ∷ recs) =
    f i rec >>= λ xs. over_recs f n (i + 1) recs >>= λ ys. some (xs ++ ys)

module _ {W : Type 0} (answer : Answer W) (P : FileBlock → Type 0)
    (K : ExtentContext W → Type 0) where
  -- A step shows these blocks, leaves the record as it is and keeps `K`.
  abbrev pub Shows :
      Option (Iret × ExtentRec × ExtentContext W)
      → ExtentRec
      → ExtentContext W
      → List FileBlock
      → Type 0
  Shows run rec c xs =
      (c' : ExtentContext W) × (run ≡ some (quiet (visit answer xs c.world).0, rec, c'))
      × (c'.world ≡ (visit answer xs c.world).1)
      × K c'

  -- The loop over the records shows the blocks of all of them, if each step shows its blocks.
  pub iterate_recs-visit :
      (step : Step W) (f : ℕ → ExtentRec → Option (List FileBlock))
      (shows : (i : ℕ) (rec : ExtentRec) (c : ExtentContext W) (xs : List FileBlock)
        → K c
        → f i rec ≡ some xs
        → All P xs
        → Shows (step i rec c) rec c xs)
      (n i : ℕ) (recs : List ExtentRec) (c : ExtentContext W) (xs : List FileBlock)
      → K c
      → over_recs f n i recs ≡ some xs
      → All P xs
      → (c' : ExtentContext W) × (iterate_recs step n i recs no_bits c
          ≡ some (quiet (visit answer xs c.world).0, recs, c'))
        × (c'.world ≡ (visit answer xs c.world).1)
        × K c'
  unfolding iterate_recs over_recs
  iterate_recs-visit step f shows zero i recs c xs k e ps =
      let p : [] ≡ xs = some_inj e in rw (← p) (c, refl, refl, k)
  iterate_recs-visit step f shows (suc n) i [] c xs k e ps = cc
  iterate_recs-visit step f shows (suc n) i (rec ∷ recs) c xs k e ps =
      let (zs, e₁, e₂) = >>=-eq-some (f i rec) _ e in
      let (ys, e₃, e₄) = >>=-eq-some (over_recs f n (i + 1) recs) _ e₂ in
      let p : zs ++ ys ≡ xs = some_inj e₄ in
      let (ps₁, ps₂) = All-append P zs ys (rw p ps) in
      let (c₁, s₁, w₁, k₁) = shows i rec c zs k e₁ ps₁ in
      rw (← p) (
        rw (visit-append answer zs ys c.world, s₁)
          (elim (Bool-cases ((visit answer zs c.world).0)) [
            | inl a ↦ rw a (c₁, rw a refl, w₁, k₁)
            | inr a ↦
                let (c₂, s₂, w₂, k₂) =
                  iterate_recs-visit step f shows n (i + 1) recs c₁ ys k₁ e₃ ps₂ in
                rw (a, ← w₁) (c₂, rw s₂ refl, w₂, k₂)
          ]))
