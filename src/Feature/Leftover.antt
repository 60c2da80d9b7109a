-- ===== src/Feature/Leftover.antt =====
-- `match` keeps its value from one token to the next, so once a token was known no later one is
-- refused: it adds the flags of the table's closing entry, which are none.
use cmfs.Prelude.{
  ℕ, suc, ◌+◌, ◌<◌, true, false, ◌≡◌, refl, sym, ap, ◌∙◌, arith, none, some, List, ◌∷◌, ◌++◌,
  length, length-append, drop, if◌then◌else◌,
}
use cmfs.Prelude.Bits.{bit_or-zero}
use cmfs.Prelude.Text.{codes, starts_with}
use cmfs.Err.{ok, err, unsupp_feature}
use cmfs.Feature.{
  FsOptions, no_options, supported_features, find_feature, merge_features, ParseState, parse_start,
  parse_token, parse_tokens, parse_next, parse_finish, parse_feature,
}
use cmfs.Feature.Parse.{NoComma, parse_tokens-last, parse_tokens-more}

-- The name that a token is looked up by.
abbrev pub name_of : List ℕ → List ℕ
name_of token = if starts_with (codes "no") token then drop 2 token else token

abbrev pub IsUnknown : List ℕ → Type 0
IsUnknown token = find_feature (name_of token) supported_features ≡ none

merge_none : (a : FsOptions) → merge_features a no_options ≡ a
unfolding merge_features
merge_none a =
    ground
      (arith, bit_or-zero a.opt_compat, bit_or-zero a.opt_incompat, bit_or-zero a.opt_ro_compat)

parse_token_unknown_late :
    (token : List ℕ) (s : ParseState)
    → IsUnknown token
    → s.matched ≡ true
    → parse_token token s ≡ ok s
unfolding parse_token
parse_token_unknown_late token s h m =
    ground (arith, h, merge_none s.reverse_flags, merge_none s.feature_flags)

parse_token_unknown_first :
    (token : List ℕ) (s : ParseState)
    → IsUnknown token
    → s.matched ≡ false
    → parse_token token s ≡ err unsupp_feature
unfolding parse_token
parse_token_unknown_first token s h m = ground arith

parse_token-matched :
    (token : List ℕ) (s s' : ParseState) → parse_token token s ≡ ok s' → s'.matched ≡ true
unfolding parse_token
parse_token-matched token s s' h = ground arith

parse_feature-suc :
    (opts : List ℕ) (n : ℕ)
    → length opts ≡ n
    → parse_feature opts ≡ parse_finish (parse_tokens (suc n) opts parse_start)
unfolding parse_feature
parse_feature-suc opts n h =
    let e : length opts + 1 ≡ suc n = omega arith in
    ap (λ k. parse_finish (parse_tokens k opts parse_start)) e

-- After one accepted token an unknown one changes nothing: the string is accepted or refused as
-- if the unknown token were not there. Both tokens are non-empty and have no comma.
pub parse_feature_unknown_late :
    (token junk : List ℕ) (s : ParseState)
    → 0 < length token
    → NoComma token
    → parse_token token parse_start ≡ ok s
    → 0 < length junk
    → NoComma junk
    → IsUnknown junk
    → parse_feature (token ++ b',' ∷ junk) ≡ parse_feature token
parse_feature_unknown_late token junk s pos h accepted pos' h' unknown =
    parse_feature-suc (token ++ b',' ∷ junk) (suc (length token + length junk))
      (omega (arith, length-append token (b',' ∷ junk)))
    ∙ ap parse_finish (
        parse_tokens-more (suc (length token + length junk)) token junk parse_start pos h
        ∙ ap (λ r. parse_next (parse_tokens (suc (length token + length junk))) r (some junk))
            accepted
        ∙ parse_tokens-last (length token + length junk) junk s pos' h'
        ∙ ap some (
            parse_token_unknown_late junk s unknown
              (parse_token-matched token parse_start s accepted))
        ∙ sym (parse_tokens-last (length token) token parse_start pos h ∙ ap some accepted))
    ∙ sym (parse_feature-suc token (length token) refl)

-- An unknown token that comes first is refused, alone and whatever follows its comma. The token
-- is non-empty and has no comma.
pub parse_feature_unknown_first :
    (token : List ℕ)
    → 0 < length token
    → NoComma token
    → IsUnknown token
    → (parse_feature token ≡ some (err unsupp_feature))
      × ((rest : List ℕ) → parse_feature (token ++ b',' ∷ rest) ≡ some (err unsupp_feature))
parse_feature_unknown_first token pos h unknown = (
  parse_feature-suc token (length token) refl
      ∙ ap parse_finish
          (parse_tokens-last (length token) token parse_start pos h ∙ ap some refused),
  λ rest.
      parse_feature-suc (token ++ b',' ∷ rest) _ refl
      ∙ ap parse_finish (
          parse_tokens-more (length (token ++ b',' ∷ rest)) token rest parse_start pos h
          ∙ ap (λ r. parse_next (parse_tokens (length (token ++ b',' ∷ rest))) r (some rest))
              refused),
)
  where
    refused : parse_token token parse_start ≡ err unsupp_feature
    refused = parse_token_unknown_first token parse_start unknown refl
