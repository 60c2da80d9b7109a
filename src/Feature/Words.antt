-- ===== src/Feature/Words.antt =====
-- The texts that the printing functions write when the buffer is large enough.
use cmfs.Prelude.{
  ℕ, ◌+◌, ◌-◌, ◌/◌, ◌^◌, ◌<◌, ◌≤◌, bit_and, Bool, true, false, not, ◌&&◌, ◌≡◌, refl, ◌∙◌, ap, arith,
  List, [], ◌∷◌, ◌++◌, ◌==◌, if◌then◌else◌, length, inl, inr, Bool-cases,
}
use cmfs.Prelude.Bits.{has_bit, bit_and_pow_test, bit_and-zero}
use cmfs.Prelude.Text.{codes}
use cmfs.Err.{ok}
use cmfs.Feature.{FsOptions, no_options, compat_only, merge_features, feature_match}
use cmfs.Feature.Printer.{
  Printer, print_last, FeatureName, snprint_flag_names_from, snprint_flag_names,
  snprint_extent_flags, snprint_features_from, snprint_feature_flags,
}
use cmfs.Feature.Print.{spaced, print_piece-fits}

-- Words with a space between them.
abbrev pub join : List (List ℕ) → List ℕ
join [] = []
join (w ∷ []) = w
join (w ∷ v ∷ ws) = w ++ b' ' ∷ join (v ∷ ws)

abbrev pub pick : Bool → List ℕ → List (List ℕ)
pick true w = w ∷ []
pick false w = []

-- No bit is set but those of the two features.
abbrev pub only_known : FsOptions → Bool
only_known flags =
    (flags.opt_compat / 4 == 0) && (flags.opt_incompat == 0) && (flags.opt_ro_compat == 0)

abbrev pub feature_words : FsOptions → List (List ℕ)
feature_words flags =
    pick (has_bit flags.opt_compat 0) (codes "backup-super")
    ++ pick (has_bit flags.opt_compat 1) (codes "journal")
    ++ pick (not (only_known flags)) (codes "unknow")

abbrev after : Printer → List ℕ → Printer
after p piece = record {
  text = p.text ++ spaced p.text piece;
  remain = p.remain - length (spaced p.text piece);
}

feature_match-eq :
    (a : FsOptions) (i : ℕ) → feature_match a (compat_only (2 ^ i)) ≡ has_bit a.opt_compat i
unfolding feature_match
feature_match-eq a i = ground (
  arith,
  bit_and_pow_test a.opt_compat i,
  bit_and-zero a.opt_incompat,
  bit_and-zero a.opt_ro_compat,
)

features_from-step :
    (n : FeatureName) (ns : List FeatureName) (flags : FsOptions) (p : Printer) (found : FsOptions)
    → length (spaced p.text n.fn_name) < p.remain
    → snprint_features_from (n ∷ ns) flags p found ≡ (
        if feature_match flags n.fn_flag
        then snprint_features_from ns flags (after p n.fn_name) (merge_features found n.fn_flag)
        else snprint_features_from ns flags p found)
unfolding snprint_features_from
features_from-step n ns flags p found h = rw (print_piece-fits p n.fn_name h)

print_last-step :
    (p : Printer) (known : Bool)
    → length (spaced p.text (codes "unknow")) < p.remain
    → print_last p known
      ≡ ((if known then p.text else p.text ++ spaced p.text (codes "unknow")), ok tt)
print_last-step p true h = refl
print_last-step p false h = rw (print_piece-fits p (codes "unknow") h)

abbrev same : FsOptions → FsOptions → Bool
same a b =
    a.opt_compat == b.opt_compat
    && a.opt_ro_compat == b.opt_ro_compat
    && a.opt_incompat == b.opt_incompat

-- The names that were found make up the flags exactly if nothing else is set.
found_all :
    (flags : FsOptions) (b j : Bool)
    → has_bit flags.opt_compat 0 ≡ b
    → has_bit flags.opt_compat 1 ≡ j
    → same (compat_only ((if b then 1 else 0) + (if j then 2 else 0))) flags ≡ only_known flags
unfolding has_bit
found_all flags true true hb hj = ground arith
found_all flags true false hb hj = ground arith
found_all flags false true hb hj = ground arith
found_all flags false false hb hj = ground arith

abbrev backup_name : FeatureName
backup_name = record { fn_name = codes "backup-super"; fn_flag = compat_only (2 ^ 0) }

abbrev journal_name : FeatureName
journal_name = record { fn_name = codes "journal"; fn_flag = compat_only (2 ^ 1) }

abbrev step : Bool → List ℕ → Printer → Printer
step b piece p = if b then after p piece else p

module _ (flags : FsOptions) (p : Printer) (found : FsOptions) where
  -- One round of the loop, for a feature that has bit `i` of the first word alone.
  round :
      (name : List ℕ) (i : ℕ) (ns : List FeatureName) (b : Bool)
      → has_bit flags.opt_compat i ≡ b
      → length (spaced p.text name) < p.remain
      → snprint_features_from
          (record { fn_name = name; fn_flag = compat_only (2 ^ i) } ∷ ns)
          flags
          p
          found
        ≡ snprint_features_from ns flags
            (step b name p)
            (if b then merge_features found (compat_only (2 ^ i)) else found)
  round name i ns true e room =
      features_from-step _ ns flags p found room ∙ rw (feature_match-eq flags i, e)
  round name i ns false e room =
      features_from-step _ ns flags p found room ∙ rw (feature_match-eq flags i, e)

abbrev start : ℕ → Printer
start size = record { text = []; remain = size }

module _ (size : ℕ) (room : 28 ≤ size) (flags : FsOptions) where
  abbrev found : Bool → Bool → FsOptions
  found b j = compat_only ((if b then 1 else 0) + (if j then 2 else 0))

  abbrev both : Bool → Bool → Printer
  both b j = step j (codes "journal") (step b (codes "backup-super") (start size))

  loop :
      (b j : Bool)
      → has_bit flags.opt_compat 0 ≡ b
      → has_bit flags.opt_compat 1 ≡ j
      → snprint_feature_flags size flags ≡ print_last (both b j) (same (found b j) flags)
  unfolding snprint_feature_flags merge_features
  loop true true hb hj =
      round flags (start size) no_options (codes "backup-super") 0 (journal_name ∷ []) true hb
        (omega arith)
      ∙ round flags (after (start size) (codes "backup-super")) (compat_only 1) (codes "journal") 1
          [] true hj (omega arith)
  loop true false hb hj =
      round flags (start size) no_options (codes "backup-super") 0 (journal_name ∷ []) true hb
        (omega arith)
      ∙ round flags (after (start size) (codes "backup-super")) (compat_only 1) (codes "journal") 1
          [] false hj (omega arith)
  loop false true hb hj =
      round flags (start size) no_options (codes "backup-super") 0 (journal_name ∷ []) false hb
        (omega arith)
      ∙ round flags (start size) no_options (codes "journal") 1 [] true hj (omega arith)
  loop false false hb hj =
      round flags (start size) no_options (codes "backup-super") 0 (journal_name ∷ []) false hb
        (omega arith)
      ∙ round flags (start size) no_options (codes "journal") 1 [] false hj (omega arith)

  last :
      (b j known : Bool)
      → print_last (both b j) known ≡ (
        join (
            pick b (codes "backup-super")
            ++ pick j (codes "journal")
            ++ pick (not known) (codes "unknow")),
        ok tt,
      )
  last true true true = refl
  last true false true = refl
  last false true true = refl
  last false false true = refl
  last true true false = print_last-step (both true true) false (omega arith)
  last true false false = print_last-step (both true false) false (omega arith)
  last false true false = print_last-step (both false true) false (omega arith)
  last false false false = print_last-step (both false false) false (omega arith)

  -- With room for 28 bytes the function writes the names of the features that are set, and
  -- `unknow` if anything else is, with a space between them.
  pub snprint_feature_flags-eq :
      snprint_feature_flags size flags ≡ (join (feature_words flags), ok tt)
  snprint_feature_flags-eq =
      loop _ _ refl refl
      ∙ ap (print_last (both (has_bit flags.opt_compat 0) (has_bit flags.opt_compat 1)))
          (found_all flags _ _ refl refl)
      ∙ last (has_bit flags.opt_compat 0) (has_bit flags.opt_compat 1) (only_known flags)

-- With room for 17 bytes and flags of 8 bits, `unknow` is written whatever the flags are, since
-- `!found != flags` is true of all of them: also where every flag that is set has a name, and
-- where none is set.
pub snprint_extent_flags_unknown :
    (size flags : ℕ)
    → 17 ≤ size
    → flags < 2 ^ 8
    → snprint_extent_flags size flags
      ≡ (join (pick (has_bit flags 0) (codes "Unwritten") ++ codes "unknow" ∷ []), ok tt)
unfolding snprint_extent_flags snprint_flag_names snprint_flag_names_from
snprint_extent_flags_unknown size flags room small = elim (Bool-cases (has_bit flags 0)) [
  | inl set ↦
      let hit : (bit_and flags 1 == 0) ≡ false = rw (bit_and_pow_test flags 0, set) in
      let odd : (0 == flags) ≡ false = unfold has_bit in ground arith in
      rw (hit, print_piece-fits (start size) (codes "Unwritten") (omega arith), odd, set)
        (print_last-step (after (start size) (codes "Unwritten")) false (omega arith))
  | inr clear ↦
      let miss : (bit_and flags 1 == 0) ≡ true = rw (bit_and_pow_test flags 0, clear) in
      let even : (1 == flags) ≡ false = unfold has_bit in ground arith in
      rw (miss, even, clear) (print_last-step (start size) false (omega arith))
]
