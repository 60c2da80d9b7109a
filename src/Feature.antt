-- ===== src/Feature.antt =====
-- cmfs-tools/libcmfs/feature_string.c: feature flags, the `--fs-features` string and the printing
-- of flags.
pub mod Printer
pub mod Parse
pub mod RoundTrip
pub mod Leftover
pub mod Merge
pub mod Print
pub mod Words
use cmfs.Prelude.{
  ℕ, zero, suc, ◌+◌, ◌-◌, ◌%◌, ◌^◌, bit_and, bit_or, Bool, true, false, not, ◌&&◌, ◌||◌, Option,
  none, some, List, [], ◌∷◌, ◌++◌, leb, ◌==◌, if◌then◌else◌, length, take, drop,
}
use cmfs.Prelude.Text.{codes, same_text, starts_with}
use cmfs.Err.{
  Err, unsupp_feature, conflicting_features, no_space, Result, ok, err, ◌>>=◌, ◌>>◌, guard,
}

-- `cmfs_fs_options`, three `uint32_t`.
pub record FsOptions : Type 0 where
  pub opt_compat : ℕ
  pub opt_incompat : ℕ
  pub opt_ro_compat : ℕ

abbrev pub no_options : FsOptions
no_options = record { opt_compat = 0; opt_incompat = 0; opt_ro_compat = 0 }

abbrev pub compat_only : ℕ → FsOptions
compat_only flags = record { opt_compat = flags; opt_incompat = 0; opt_ro_compat = 0 }

-- CMFS_FEATURE_COMPAT_BACKUP_SB and CMFS_FEATURE_COMPAT_HAS_JOURNAL.
abbrev pub backup_sb : ℕ
backup_sb = 0x0001

abbrev pub has_journal : ℕ
has_journal = 0x0002

abbrev pub mkfs_features_default : FsOptions
mkfs_features_default = compat_only (bit_or backup_sb has_journal)

pub record FeatureFlags : Type 0 where
  pub ff_str : List ℕ
  pub ff_own_flags : FsOptions
  pub ff_flags : FsOptions

-- The table without its closing entry, whose flags are `no_options`.
abbrev pub supported_features : List FeatureFlags
supported_features =
    record {
      ff_str = codes "backup-super";
      ff_own_flags = compat_only backup_sb;
      ff_flags = compat_only backup_sb;
    }
    ∷ record {
      ff_str = codes "journal";
      ff_own_flags = compat_only has_journal;
      ff_flags = compat_only has_journal;
    }
    ∷ []

abbrev is_set : ℕ → Bool
is_set n = not (n == 0)

unfoldable pub feature_match : FsOptions → FsOptions → Bool
feature_match a b =
    is_set (bit_and a.opt_compat b.opt_compat)
    || is_set (bit_and a.opt_incompat b.opt_incompat)
    || is_set (bit_and a.opt_ro_compat b.opt_ro_compat)

unfoldable pub merge_features : FsOptions → FsOptions → FsOptions
merge_features features supp = record {
  opt_compat = bit_or features.opt_compat supp.opt_compat;
  opt_incompat = bit_or features.opt_incompat supp.opt_incompat;
  opt_ro_compat = bit_or features.opt_ro_compat supp.opt_ro_compat;
}

clear_deps_from : List FeatureFlags → FsOptions → FsOptions
clear_deps_from [] reverse_set = reverse_set
clear_deps_from (f ∷ fs) reverse_set = clear_deps_from fs (
    if feature_match reverse_set f.ff_flags
    then merge_features reverse_set f.ff_own_flags
    else reverse_set)

unfoldable pub feature_clear_deps : FsOptions → FsOptions
unfolding clear_deps_from feature_match merge_features
feature_clear_deps = clear_deps_from supported_features

unfoldable pub check_feature_flags : FsOptions → FsOptions → Bool
check_feature_flags fs_flags fs_r_flags =
    if is_set fs_r_flags.opt_compat && is_set (bit_and fs_flags.opt_compat fs_r_flags.opt_compat)
    then false
    else if is_set fs_r_flags.opt_incompat
        && is_set (bit_and fs_flags.opt_incompat fs_r_flags.opt_incompat)
    then false
    else if is_set fs_r_flags.opt_ro_compat
        && is_set (bit_and fs_flags.opt_ro_compat fs_r_flags.opt_ro_compat)
    then false
    else true

-- `strchr(token, ',')`: the token, and what follows its comma if there is one.
unfoldable pub cut : List ℕ → List ℕ × Option (List ℕ)
cut [] = ([], none)
cut (c ∷ s) = let (token, next) = cut s in if c == b',' then ([], some s) else (c ∷ token, next)

unfoldable pub find_feature : List ℕ → List FeatureFlags → Option FeatureFlags
find_feature token [] = none
find_feature token (f ∷ fs) = if same_text token f.ff_str then some f else find_feature token fs

-- The variables of `cmfs_parse_feature`: `match` keeps its value from token to token.
pub record ParseState : Type 0 where
  pub matched : Bool
  pub feature_flags : FsOptions
  pub reverse_flags : FsOptions

abbrev pub parse_start : ParseState
parse_start = record { matched = false; feature_flags = no_options; reverse_flags = no_options }

-- The flags at the index where the search stopped: those of the closing entry if nothing fits.
abbrev pub flags_at : (FeatureFlags → FsOptions) → Option FeatureFlags → FsOptions
flags_at field none = no_options
flags_at field (some f) = field f

abbrev pub is_some : Option FeatureFlags → Bool
is_some none = false
is_some (some f) = true

-- The body of the loop over tokens.
unfoldable pub parse_token : List ℕ → ParseState → Result ParseState
unfolding starts_with find_feature same_text merge_features
parse_token token s =
    let reverse = starts_with (codes "no") token in
    let found = find_feature (if reverse then drop 2 token else token) supported_features in
    let matched = s.matched || is_some found in
    if not matched
    then err unsupp_feature
    else if reverse
    then ok (record s {
      matched = matched;
      reverse_flags = merge_features s.reverse_flags (flags_at (λ f. f.ff_own_flags) found);
    })
    else ok (record s {
      matched = matched;
      feature_flags = merge_features s.feature_flags (flags_at (λ f. f.ff_flags) found);
    })

-- The end of a round: an early return, or `token = next`.
abbrev pub parse_next :
    (List ℕ → ParseState → Option (Result ParseState))
    → Result ParseState
    → Option (List ℕ)
    → Option (Result ParseState)
parse_next loop (err e) next = some (err e)
parse_next loop (ok s) none = some (ok s)
parse_next loop (ok s) (some rest) = loop rest s

-- `for (token = options; token && *token; token = next)`, on fuel; `none` is that it ran out.
pub parse_tokens : ℕ → List ℕ → ParseState → Option (Result ParseState)
parse_tokens zero options s = none
parse_tokens (suc fuel) [] s = some (ok s)
parse_tokens (suc fuel) (c ∷ options) s =
    let (token, next) = cut (c ∷ options) in
    parse_next (parse_tokens fuel) (parse_token token s) next

-- What follows the loop. The flags come back in `feature_flags` and `reverse_flags`.
unfoldable pub parse_end : ParseState → Result (FsOptions × FsOptions)
unfolding feature_clear_deps check_feature_flags
parse_end s = do
  let reverse_flags = feature_clear_deps s.reverse_flags
  guard (check_feature_flags s.feature_flags reverse_flags) conflicting_features
  ok (s.feature_flags, reverse_flags)

abbrev pub parse_finish : Option (Result ParseState) → Option (Result (FsOptions × FsOptions))
parse_finish none = none
parse_finish (some r) = some (r >>= parse_end)

unfoldable pub parse_feature : List ℕ → Option (Result (FsOptions × FsOptions))
unfolding parse_tokens cut parse_token parse_end
parse_feature opts = parse_finish (parse_tokens (length opts + 1) opts parse_start)

-- `a & ~b` in 32 bits.
abbrev pub without_bits : ℕ → ℕ → ℕ
without_bits a b = bit_and a (2 ^ 32 - 1 - b)

-- `dest` and `reverse_set` after the call.
unfoldable pub merge_feature_with_default_flags :
    FsOptions → FsOptions → Result (FsOptions × FsOptions)
unfolding feature_clear_deps check_feature_flags merge_features
merge_feature_with_default_flags feature_set reverse_set = do
  let reverse = feature_clear_deps reverse_set
  guard (check_feature_flags feature_set reverse) conflicting_features
  let dest = merge_features mkfs_features_default feature_set
  ok (
    record {
      opt_compat = without_bits dest.opt_compat reverse.opt_compat;
      opt_incompat = without_bits dest.opt_incompat reverse.opt_incompat;
      opt_ro_compat = without_bits dest.opt_ro_compat reverse.opt_ro_compat;
    },
    reverse,
  )
