-- ===== src/Tests/Features.antt =====
-- Feature strings and sets of features.
use cmfs.Prelude.{true, false, ◌≡◌, refl, arith, some, [], ◌∷◌}
use cmfs.Prelude.Bits.{has_bit}
use cmfs.Prelude.Text.{codes, same_text, starts_with}
use cmfs.Err.{ok}
use cmfs.Feature.{
  FsOptions, no_options, compat_only, backup_sb, has_journal, find_feature, parse_start,
  parse_token, parse_end, parse_feature, check_feature_flags, merge_feature_with_default_flags,
}
use cmfs.Feature.Parse.{NoComma, parse_feature→Disjoint}
use cmfs.Feature.RoundTrip.{
  backup_super, journal, show_items, apply_items, parse_feature-show_items,
}
use cmfs.Feature.Leftover.{IsUnknown, parse_feature_unknown_late}
use cmfs.Feature.Merge.{
  IsOptions, Disjoint, check_feature_flags_iff, IsMerge, merge_feature_with_default_flags-IsMerge,
}

abbrev journal_only : FsOptions
journal_only = compat_only has_journal

abbrev backup_only : FsOptions
backup_only = compat_only backup_sb

show_items_example :
    parse_feature (show_items ((false, journal) ∷ (true, backup_super) ∷ []))
    ≡ some (parse_end (apply_items ((false, journal) ∷ (true, backup_super) ∷ []) parse_start))
show_items_example = parse_feature-show_items ((false, journal) ∷ (true, backup_super) ∷ [])

junk-IsUnknown : IsUnknown (codes "junk")
unfolding find_feature same_text starts_with
junk-IsUnknown = refl

journal-NoComma : NoComma (codes "journal")
journal-NoComma = (refl, (refl, (refl, (refl, (refl, (refl, (refl, tt)))))))

junk-NoComma : NoComma (codes "junk")
junk-NoComma = (refl, (refl, (refl, (refl, tt))))

journal_accepted :
    parse_token (codes "journal") parse_start
    ≡ ok (record { matched = true; feature_flags = journal_only; reverse_flags = no_options })
unfolding parse_token
journal_accepted = refl

parsed_journal : parse_feature (codes "journal") ≡ some (ok (journal_only, no_options))
unfolding parse_feature parse_token
parsed_journal = refl

parse_feature→Disjoint_example : Disjoint journal_only no_options
parse_feature→Disjoint_example =
    parse_feature→Disjoint (codes "journal") journal_only no_options parsed_journal

unknown_late_example : parse_feature (codes "journal,junk") ≡ parse_feature (codes "journal")
unknown_late_example =
    parse_feature_unknown_late (codes "journal") (codes "junk")
      (record { matched = true; feature_flags = journal_only; reverse_flags = no_options })
      (omega arith) journal-NoComma journal_accepted (omega arith) junk-NoComma junk-IsUnknown

journal-IsOptions : IsOptions journal_only
journal-IsOptions = (omega arith, omega arith, omega arith)

backup-IsOptions : IsOptions backup_only
backup-IsOptions = (omega arith, omega arith, omega arith)

checks_pass : check_feature_flags journal_only backup_only ≡ true
unfolding check_feature_flags
checks_pass = refl

merge_feature_with_default_flags-IsMerge_example :
    (dest : FsOptions) × (merge_feature_with_default_flags journal_only backup_only
      ≡ ok (dest, backup_only))
    × IsMerge journal_only backup_only dest
merge_feature_with_default_flags-IsMerge_example =
    merge_feature_with_default_flags-IsMerge journal_only backup_only journal-IsOptions
      backup-IsOptions
      ((check_feature_flags_iff journal_only backup_only journal-IsOptions).0 checks_pass)

true≢false : true ≡ false → ⊥
true≢false h = cc

same_set_clashes : ¬ Disjoint journal_only journal_only
unfolding has_bit
same_set_clashes h = true≢false (h.0 1)
