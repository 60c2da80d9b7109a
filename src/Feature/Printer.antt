-- ===== src/Feature/Printer.antt =====
-- cmfs-tools/libcmfs/feature_string.c: the printing of flags.
use cmfs.Prelude.{
  ℕ, ◌-◌, ◌%◌, ◌^◌, bit_and, bit_or, Bool, true, false, ◌&&◌, List, [], ◌∷◌, ◌++◌, leb, ◌==◌,
  if◌then◌else◌, length, take,
}
use cmfs.Prelude.Text.{codes}
use cmfs.Err.{no_space, Result, ok, err}
use cmfs.Feature.{
  FsOptions, no_options, compat_only, backup_sb, has_journal, is_set, feature_match, merge_features,
}

-- The buffer of a printing function: what is written so far, and the room that is left.
pub record Printer : Type 0 where
  pub text : List ℕ
  pub remain : ℕ

-- `snprintf(ptr, remain, "%s%s", sep, piece)`: it writes what fits with a closing NUL, and returns
-- the length of the whole. The second part is the `err` of the caller, which has no room beside.
unfoldable pub print_piece : Printer → List ℕ → Bool × Printer
print_piece p piece =
    let whole = (if length p.text == 0 then piece else b' ' ∷ piece) in
    let text = p.text ++ take (p.remain - 1) whole in
    if leb p.remain (length whole)
    then (false, record p { text = text })
    else (true, record { text = text; remain = p.remain - length whole })

-- What a printing function leaves in the buffer, and what it returns.
abbrev pub Printed : Type 0
Printed = List ℕ × Result (Unit {0})

abbrev pub print_last : Printer → Bool → Printed
print_last p none_unknown =
    if none_unknown
    then (p.text, ok tt)
    else let (fits, p') = print_piece p (codes "unknow") in
      if fits then (p'.text, ok tt) else (p'.text, err no_space)

pub record FlagName : Type 0 where
  pub fl_name : List ℕ
  pub fl_flag : ℕ

-- The loop over the names; `found` is a `uint16_t`.
unfoldable pub snprint_flag_names_from : List FlagName → ℕ → Printer → ℕ → Printed
snprint_flag_names_from [] flags p found = print_last p ((if found == 0 then 1 else 0) == flags)
snprint_flag_names_from (n ∷ names) flags p found =
    let (fits, p') = print_piece p n.fl_name in
    let skip = snprint_flag_names_from names flags p found in
    let go = snprint_flag_names_from names flags p' (bit_or found n.fl_flag % 2 ^ 16) in
    if is_set (bit_and flags n.fl_flag)
    then (if fits then go else (p'.text, err no_space))
    else skip

unfoldable pub snprint_flag_names : List FlagName → ℕ → ℕ → Printed
unfolding snprint_flag_names_from print_piece
snprint_flag_names names size flags =
    snprint_flag_names_from names flags (record { text = []; remain = size }) 0

-- CMFS_EXT_UNWRITTEN is the one flag that has a name.
abbrev pub extent_flag_names : List FlagName
extent_flag_names = record { fl_name = codes "Unwritten"; fl_flag = 0x01 } ∷ []

unfoldable pub snprint_extent_flags : ℕ → ℕ → Printed
unfolding snprint_flag_names
snprint_extent_flags size flags = snprint_flag_names extent_flag_names size flags

pub record FeatureName : Type 0 where
  pub fn_name : List ℕ
  pub fn_flag : FsOptions

abbrev pub feature_names : List FeatureName
feature_names =
    record { fn_name = codes "backup-super"; fn_flag = compat_only backup_sb }
    ∷ record { fn_name = codes "journal"; fn_flag = compat_only has_journal }
    ∷ []

abbrev same_options : FsOptions → FsOptions → Bool
same_options a b =
    a.opt_compat == b.opt_compat
    && a.opt_ro_compat == b.opt_ro_compat
    && a.opt_incompat == b.opt_incompat

unfoldable pub snprint_features_from : List FeatureName → FsOptions → Printer → FsOptions → Printed
snprint_features_from [] flags p found = print_last p (same_options found flags)
snprint_features_from (n ∷ names) flags p found =
    let (fits, p') = print_piece p n.fn_name in
    let skip = snprint_features_from names flags p found in
    let go = snprint_features_from names flags p' (merge_features found n.fn_flag) in
    if feature_match flags n.fn_flag then (if fits then go else (p'.text, err no_space)) else skip

unfoldable pub snprint_feature_flags : ℕ → FsOptions → Printed
unfolding snprint_features_from print_piece feature_match merge_features
snprint_feature_flags size flags =
    snprint_features_from feature_names flags (record { text = []; remain = size }) no_options
