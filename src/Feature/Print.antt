-- ===== src/Feature/Print.antt =====
-- What `cmfs_snprint_feature_flags` and `cmfs_snprint_extent_flags` write, and that they stay in
-- the buffer.
use cmfs.Prelude.{
  ℕ, zero, suc, ◌+◌, ◌-◌, ◌<◌, ◌≤◌, bit_and, Bool, true, false, ◌≡◌, refl, ap, arith, List, [], ◌∷◌,
  ◌++◌, leb, ◌==◌, if◌then◌else◌, length, length-append, take, length-take, inl, inr, Bool-cases,
}
use cmfs.Prelude.Text.{codes}
use cmfs.Feature.{FsOptions, no_options, feature_match}
use cmfs.Feature.Printer.{
  Printer, print_piece, print_last, FlagName, FeatureName, feature_names, extent_flag_names,
  snprint_flag_names_from, snprint_flag_names, snprint_extent_flags, snprint_features_from,
  snprint_feature_flags,
}

pub take_all : (n : ℕ) (xs : List ℕ) → length xs ≤ n → take n xs ≡ xs
take_all zero [] h = refl
take_all zero (x ∷ xs) h = absurd (omega arith)
take_all (suc n) [] h = refl
take_all (suc n) (x ∷ xs) h = ap (λ t. x ∷ t) (take_all n xs (omega arith))

-- The piece with its separator.
abbrev pub spaced : List ℕ → List ℕ → List ℕ
spaced text piece = if length text == 0 then piece else b' ' ∷ piece

pub print_piece-fits :
    (p : Printer) (piece : List ℕ)
    → length (spaced p.text piece) < p.remain
    → print_piece p piece ≡ (
      true,
      record {
        text = p.text ++ spaced p.text piece;
        remain = p.remain - length (spaced p.text piece);
      },
    )
unfolding print_piece
print_piece-fits p piece h =
    let e : leb p.remain (length (spaced p.text piece)) ≡ false = ground arith in
    rw (e, take_all (p.remain - 1) (spaced p.text piece) (omega arith))

-- The buffer of `size` bytes holds the text, its closing NUL and the room that is left.
abbrev Fits : ℕ → Printer → Type 0
Fits size p = (length p.text + p.remain ≡ size) × (0 < p.remain)

length-print_piece :
    (size : ℕ) (p : Printer) (piece : List ℕ)
    → Fits size p
    → (length (print_piece p piece).1.text < size)
      × ((print_piece p piece).0 ≡ true → Fits size (print_piece p piece).1)
unfolding print_piece
length-print_piece size p piece h =
    let whole = spaced p.text piece in
    let l = length-append p.text (take (p.remain - 1) whole) in
    let t = length-take (p.remain - 1) whole in
    elim (Bool-cases (leb p.remain (length whole))) [
      | inl long ↦ rw long (omega (arith, l, t), λ e. absurd (ground arith))
      | inr short ↦
          let lt : length whole < p.remain = ground arith in
          rw short (omega (arith, l, t), λ _. (omega (arith, l, t), omega arith))
    ]

print_last-Fits :
    (size : ℕ) (p : Printer) (known : Bool) → Fits size p → length (print_last p known).0 < size
print_last-Fits size p known h = ground (arith, length-print_piece size p (codes "unknow") h)

features_from-Fits :
    (size : ℕ) (names : List FeatureName) (flags : FsOptions) (p : Printer) (found : FsOptions)
    → Fits size p
    → length (snprint_features_from names flags p found).0 < size
unfolding snprint_features_from
features_from-Fits size [] flags p found h = print_last-Fits size p _ h
features_from-Fits size (n ∷ names) flags p found h =
    let r = length-print_piece size p n.fn_name h in
    elim (Bool-cases (feature_match flags n.fn_flag)) [
      | inr skip ↦ rw skip (features_from-Fits size names flags p found h)
      | inl hit ↦ elim (Bool-cases (print_piece p n.fn_name).0) [
        | inr full ↦ rw (hit, full) r.0
        | inl room ↦ rw (hit, room) (features_from-Fits size names flags _ _ (r.1 room))
      ]
    ]

flags_from-Fits :
    (size : ℕ) (names : List FlagName) (flags : ℕ) (p : Printer) (found : ℕ)
    → Fits size p
    → length (snprint_flag_names_from names flags p found).0 < size
unfolding snprint_flag_names_from
flags_from-Fits size [] flags p found h = print_last-Fits size p _ h
flags_from-Fits size (n ∷ names) flags p found h =
    let r = length-print_piece size p n.fl_name h in
    elim (Bool-cases (bit_and flags n.fl_flag == 0)) [
      | inl skip ↦ rw skip (flags_from-Fits size names flags p found h)
      | inr hit ↦ elim (Bool-cases (print_piece p n.fl_name).0) [
        | inr full ↦ rw (hit, full) r.0
        | inl room ↦ rw (hit, room) (flags_from-Fits size names flags _ _ (r.1 room))
      ]
    ]

-- With a buffer of at least one byte both functions leave a text that fits it with its closing
-- NUL, on success and on error.
pub snprint_fits :
    (size : ℕ)
    → 0 < size
    → ((flags : FsOptions) → length (snprint_feature_flags size flags).0 < size)
      × ((flags : ℕ) → length (snprint_extent_flags size flags).0 < size)
unfolding snprint_feature_flags snprint_extent_flags snprint_flag_names
snprint_fits size h = (
  λ flags.
      features_from-Fits size feature_names flags (record { text = []; remain = size }) no_options
        (omega arith, h),
  λ flags.
      flags_from-Fits size extent_flag_names flags (record { text = []; remain = size }) 0
        (omega arith, h),
)
