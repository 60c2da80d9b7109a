-- ===== src/Feature/Parse.antt =====
-- `cmfs_parse_feature`: the loop over tokens ends, reads back what a list of features prints as,
-- and what it accepts.
use cmfs.Prelude.{
  ℕ, zero, suc, ◌+◌, ◌<◌, true, false, ◌≡◌, refl, sym, ◌∙◌, arith, Option, none, some, List, [],
  ◌∷◌, ◌++◌, ◌==◌, length,
}
use mathlib.Core.Path.{subst₂}
use cmfs.Err.{Result, ok, err, ◌>>=◌}
use cmfs.Feature.{
  FsOptions, feature_clear_deps, check_feature_flags, cut, ParseState, parse_start, parse_token,
  parse_tokens, parse_next, parse_end, parse_feature,
}
use cmfs.Feature.Merge.{Disjoint, check_feature_flags→Disjoint}

-- No byte of a token is a comma.
abbrev pub NoComma : List ℕ → Type 0
NoComma [] = Unit {0}
NoComma (c ∷ t) = ((c == b',') ≡ false) × NoComma t

cut-append : (t rest : List ℕ) → NoComma t → cut (t ++ b',' ∷ rest) ≡ (t, some rest)
unfolding cut
cut-append [] rest h = refl
cut-append (c ∷ t) rest h = rw (cut-append t rest h.1, h.0)

cut-eq_self : (t : List ℕ) → NoComma t → cut t ≡ (t, none)
unfolding cut
cut-eq_self [] h = refl
cut-eq_self (c ∷ t) h = rw (cut-eq_self t h.1, h.0)

cut-shorter : (s rest : List ℕ) → (cut s).1 ≡ some rest → length rest < length s
unfolding cut
cut-shorter [] rest h = absurd (ground arith)
cut-shorter (c ∷ s) rest h = ground (arith, cut-shorter s rest)

-- The fuel is enough for the loop to end.
parse_tokens_total :
    (fuel : ℕ) (options : List ℕ) (s : ParseState)
    → length options < fuel
    → (r : Result ParseState) × (parse_tokens fuel options s ≡ some r)
unfolding parse_tokens
parse_tokens_total zero options s h = absurd (omega arith)
parse_tokens_total (suc fuel) [] s h = (ok s, refl)
parse_tokens_total (suc fuel) (c ∷ options) s h =
    next (parse_token (cut (c ∷ options)).0 s) (cut (c ∷ options)).1
      λ rest e s'. parse_tokens_total fuel rest s' (omega (arith, cut-shorter (c ∷ options) rest e))
  where
    next :
        (r : Result ParseState) (o : Option (List ℕ))
        → ((rest : List ℕ)
            → o ≡ some rest
            → (s' : ParseState) → (r' : Result ParseState) × (parse_tokens fuel rest s' ≡ some r'))
        → (r' : Result ParseState) × (parse_next (parse_tokens fuel) r o ≡ some r')
    next (err e) o go = (err e, refl)
    next (ok s') none go = (ok s', refl)
    next (ok s') (some rest) go = go rest refl s'

parse_feature_steps :
    (opts : List ℕ) → (r : Result ParseState) × (parse_feature opts ≡ some (r >>= parse_end))
unfolding parse_feature
parse_feature_steps opts =
    let (r, e) = parse_tokens_total (length opts + 1) opts parse_start (omega arith) in
    (r, rw (e, parse_feature))

-- `cmfs_parse_feature` ends on every string.
pub parse_feature_total :
    (opts : List ℕ) → (r : Result (FsOptions × FsOptions)) × (parse_feature opts ≡ some r)
parse_feature_total opts = let (r, e) = parse_feature_steps opts in (r >>= parse_end, e)

parse_end_parts :
    (s : ParseState) (set reverse : FsOptions)
    → parse_end s ≡ ok (set, reverse)
    → (s.feature_flags ≡ set)
      × (feature_clear_deps s.reverse_flags ≡ reverse)
      × (check_feature_flags s.feature_flags (feature_clear_deps s.reverse_flags) ≡ true)
unfolding parse_end
parse_end_parts s set reverse h = (ground arith, ground arith, ground arith)

parse_end→Disjoint :
    (s : ParseState) (set reverse : FsOptions)
    → parse_end s ≡ ok (set, reverse)
    → Disjoint set reverse
parse_end→Disjoint s set reverse h =
    let (a, b, c) = parse_end_parts s set reverse h in
    subst₂ Disjoint a b (check_feature_flags→Disjoint _ _ c)

some_eq : {A : Type 0} {x y : A} → some x ≡ some y → x ≡ y
some_eq h = cc

bind_ok :
    (r : Result ParseState) (f : ParseState → Result (FsOptions × FsOptions))
    (out : FsOptions × FsOptions)
    → (r >>= f) ≡ ok out
    → (s : ParseState) × (f s ≡ ok out)
bind_ok (ok s) f out h = (s, h)
bind_ok (err e) f out h = absurd (ground arith)

-- What the function accepts asks for no feature to be both set and cleared.
pub parse_feature→Disjoint :
    (opts : List ℕ) (set reverse : FsOptions)
    → parse_feature opts ≡ some (ok (set, reverse))
    → Disjoint set reverse
parse_feature→Disjoint opts set reverse h =
    let (r, e) = parse_feature_steps opts in
    let e' : (r >>= parse_end) ≡ ok (set, reverse) = some_eq (sym e ∙ h) in
    let (s, h') = bind_ok r parse_end (set, reverse) e' in parse_end→Disjoint s set reverse h'

next_none :
    (loop : List ℕ → ParseState → Option (Result ParseState)) (r : Result ParseState)
    → parse_next loop r none ≡ some r
next_none loop (ok s) = refl
next_none loop (err e) = refl

-- The last token of a string.
pub parse_tokens-last :
    (fuel : ℕ) (token : List ℕ) (s : ParseState)
    → 0 < length token
    → NoComma token
    → parse_tokens (suc fuel) token s ≡ some (parse_token token s)
unfolding parse_tokens
parse_tokens-last fuel [] s pos h = absurd (omega arith)
parse_tokens-last fuel (c ∷ t) s pos h =
    rw (cut-eq_self (c ∷ t) h) (next_none (parse_tokens fuel) (parse_token (c ∷ t) s))

-- A token that a comma follows.
pub parse_tokens-more :
    (fuel : ℕ) (token rest : List ℕ) (s : ParseState)
    → 0 < length token
    → NoComma token
    → parse_tokens (suc fuel) (token ++ b',' ∷ rest) s
      ≡ parse_next (parse_tokens fuel) (parse_token token s) (some rest)
unfolding parse_tokens
parse_tokens-more fuel [] rest s pos h = absurd (omega arith)
parse_tokens-more fuel (c ∷ t) rest s pos h = rw (cut-append (c ∷ t) rest h)
