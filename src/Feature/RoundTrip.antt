-- ===== src/Feature/RoundTrip.antt =====
-- `cmfs_parse_feature` reads back every list of supported features, each set or cleared.
use cmfs.Prelude.{
  ℕ, zero, suc, ◌+◌, ◌<◌, Bool, true, false, ◌≡◌, refl, ap, ◌∙◌, arith, some, List, [], ◌∷◌, ◌++◌,
  length, length-append,
}
use cmfs.Prelude.Text.{codes}
use cmfs.Err.{ok}
use cmfs.Feature.{
  compat_only, backup_sb, has_journal, FeatureFlags, merge_features, ParseState, parse_start,
  parse_token, parse_tokens, parse_next, parse_end, parse_feature,
}
use cmfs.Feature.Parse.{NoComma, parse_tokens-last, parse_tokens-more}

-- The entries of the table.
pub data Choice : Type 0 where
  backup_super journal : Choice

abbrev pub feature_of : Choice → FeatureFlags
feature_of backup_super = record {
  ff_str = codes "backup-super";
  ff_own_flags = compat_only backup_sb;
  ff_flags = compat_only backup_sb;
}
feature_of journal = record {
  ff_str = codes "journal";
  ff_own_flags = compat_only has_journal;
  ff_flags = compat_only has_journal;
}

-- An item of the list: `true` asks for the feature to be cleared.
abbrev pub Item : Type 0
Item = Bool × Choice

abbrev pub show_item : Item → List ℕ
show_item (true, c) = codes "no" ++ (feature_of c).ff_str
show_item (false, c) = (feature_of c).ff_str

-- The items with commas between them.
abbrev pub show_items : List Item → List ℕ
show_items [] = []
show_items (i ∷ []) = show_item i
show_items (i ∷ j ∷ is) = show_item i ++ b',' ∷ show_items (j ∷ is)

abbrev pub apply_item : Item → ParseState → ParseState
apply_item (true, c) s = record s {
  matched = true;
  reverse_flags = merge_features s.reverse_flags (feature_of c).ff_own_flags;
}
apply_item (false, c) s = record s {
  matched = true;
  feature_flags = merge_features s.feature_flags (feature_of c).ff_flags;
}

abbrev pub apply_items : List Item → ParseState → ParseState
apply_items [] s = s
apply_items (i ∷ is) s = apply_items is (apply_item i s)

parse_token-show : (i : Item) (s : ParseState) → parse_token (show_item i) s ≡ ok (apply_item i s)
unfolding parse_token
parse_token-show (true, backup_super) s = ground arith
parse_token-show (true, journal) s = ground arith
parse_token-show (false, backup_super) s = ground arith
parse_token-show (false, journal) s = ground arith

show_item-NoComma : (i : Item) → NoComma (show_item i)
show_item-NoComma (true, backup_super) = ground arith
show_item-NoComma (true, journal) = ground arith
show_item-NoComma (false, backup_super) = ground arith
show_item-NoComma (false, journal) = ground arith

length-show_item : (i : Item) → 0 < length (show_item i)
length-show_item (true, backup_super) = omega arith
length-show_item (true, journal) = omega arith
length-show_item (false, backup_super) = omega arith
length-show_item (false, journal) = omega arith

-- The loop over the tokens of a printed list.
parse_tokens-show :
    (fuel : ℕ) (is : List Item) (s : ParseState)
    → length (show_items is) < fuel
    → parse_tokens fuel (show_items is) s ≡ some (ok (apply_items is s))
parse_tokens-show zero is s h = absurd (omega arith)
parse_tokens-show (suc fuel) [] s h = unfold parse_tokens in refl
parse_tokens-show (suc fuel) (i ∷ []) s h =
    parse_tokens-last fuel (show_item i) s (length-show_item i) (show_item-NoComma i)
    ∙ ap some (parse_token-show i s)
parse_tokens-show (suc fuel) (i ∷ j ∷ is) s h =
    parse_tokens-more fuel (show_item i) (show_items (j ∷ is)) s (length-show_item i)
      (show_item-NoComma i)
    ∙ ap (λ r. parse_next (parse_tokens fuel) r (some (show_items (j ∷ is)))) (parse_token-show i s)
    ∙ parse_tokens-show fuel (j ∷ is) (apply_item i s)
        (omega (arith, length-append (show_item i) (b',' ∷ show_items (j ∷ is))))

-- A list of supported features, each set or cleared, is parsed to what it asks for: the flags of
-- its items are merged in order, and the checks after the loop are made on them.
pub parse_feature-show_items :
    (is : List Item) → parse_feature (show_items is) ≡ some (parse_end (apply_items is parse_start))
unfolding parse_feature
parse_feature-show_items is =
    rw (parse_tokens-show (length (show_items is) + 1) is parse_start (omega arith), parse_feature)
