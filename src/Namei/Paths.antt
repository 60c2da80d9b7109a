-- ===== src/Namei/Paths.antt =====
-- Path names as they are meant, and how the loops of `dir_namei` take them apart.
use cmfs.Prelude.{
  ℕ, zero, suc, ◌+◌, ◌%◌, ◌^◌, ◌<◌, true, false, ◌≡◌, ◌≢◌, refl, arith, none, some, List, [], ◌∷◌,
  ◌++◌, ltb, ◌==◌, length, length-append, inl, inr,
}
use mathlib.Core.List.{append_assoc}
use cmfs.Err.{Result, ok, err, ◌>>=◌, Result-cases}
use cmfs.Volume.{Volume}
use cmfs.Dirs.Lookups.{lookup}
use cmfs.Dirs.Names.{NoNul}
use cmfs.Namei.{component, walk, Follow, as_length}

abbrev pub slash : ℕ
slash = b'/'

-- A name that a path can have: without a slash and without a NUL.
abbrev pub NoSlash : List ℕ → Type 0
NoSlash [] = Unit {0}
NoSlash (c ∷ cs) = (c ≢ slash) × NoSlash cs

abbrev pub IsName : List ℕ → Type 0
IsName name = NoSlash name × NoNul name

abbrev pub AreNames : List (List ℕ) → Type 0
AreNames [] = Unit {0}
AreNames (c ∷ cs) = IsName c × AreNames cs

-- The names that end with a slash, and the last one.
abbrev pub render : List (List ℕ) → List ℕ → List ℕ
render [] last = last
render (c ∷ cs) last = c ++ slash ∷ render cs last

component-slash :
    (name path : List ℕ) (n : ℕ)
    → NoSlash name
    → component (length name + suc n) (name ++ slash ∷ path)
      ≡ some (record { thisname = name; rest = some (n, path) })
unfolding component
component-slash [] path n h = let e : 0 + suc n ≡ suc n = omega arith in rw e refl
component-slash (c ∷ name) path n (other, h) =
    let e : suc (length name) + suc n ≡ suc (length name + suc n) = omega arith in
    let ne : (c == slash) ≡ false = ground arith in rw (e, ne, component-slash name path n h) refl

component-end :
    (name rest : List ℕ)
    → NoSlash name
    → component (length name) (name ++ rest) ≡ some (record { thisname = name; rest = none })
unfolding component
component-end [] rest h = refl
component-end (c ∷ name) rest (other, h) =
    let ne : (c == slash) ≡ false = ground arith in rw (ne, component-end name rest h) refl

pub as_length_small : (n : ℕ) → n < 2 ^ 31 → as_length n ≡ n
unfolding as_length
as_length_small n h =
    let e : n % 2 ^ 32 ≡ n = omega arith in
    let s : ltb n (2 ^ 31) ≡ true = ground arith in rw (e, s) refl

-- The names of the way are looked up from directory to directory, and links are followed.
unfoldable pub walk_names :
    (ℕ → List ℕ → Result ℕ) → (ℕ → ℕ → Result ℕ) → ℕ → List (List ℕ) → Result ℕ
walk_names step follow dir [] = ok dir
walk_names step follow dir (c ∷ cs) =
    step dir c >>= λ inode. follow dir inode >>= λ dir'. walk_names step follow dir' cs

abbrev pub with_last : List ℕ → Result ℕ → Result (ℕ × List ℕ)
with_last last (err e) = err e
with_last last (ok dir) = ok (dir, last)

module _ {W : Type 0} (v : Volume W) (step : ℕ → List ℕ → Result ℕ) (fol : ℕ → ℕ → Result ℕ)
    (follow : Follow W)
    (looks : (dir : ℕ) (name : List ℕ) (w : W)
      → NoNul name
      → lookup v dir name (length name) w ≡ some (step dir name, w))
    (follows : (dir inode : ℕ) (w : W) → follow dir inode w ≡ some (fol dir inode, w)) where
  pub walk-names :
      (cs : List (List ℕ)) (last rest : List ℕ) (fuel dir : ℕ) (w : W)
      → AreNames cs
      → NoSlash last
      → length cs < fuel
      → walk v follow fuel dir (length (render cs last)) (render cs last ++ rest) w
        ≡ some (with_last last (walk_names step fol dir cs), w)
  unfolding walk walk_names
  walk-names cs last rest zero dir w names end enough = absurd (omega arith)
  walk-names [] last rest (suc fuel) dir w names end enough = rw (component-end last rest end) refl
  walk-names (c ∷ cs) last rest (suc fuel) dir w (name, names) end enough =
      rw
        (
          append_assoc c (slash ∷ render cs last) rest,
          length-append c (slash ∷ render cs last),
          component-slash c (render cs last ++ rest) (length (render cs last)) name.0,
          looks dir c w name.1,
        )
        (elim (Result-cases (step dir c)) [
          | inr (e, failed) ↦ rw failed refl
          | inl (inode, found) ↦
              rw (found, follows dir inode w)
                (elim (Result-cases (fol dir inode)) [
                  | inr (e, failed) ↦ rw failed refl
                  | inl (dir', followed) ↦
                      rw followed (walk-names cs last rest fuel dir' w names end (omega arith))
                ])
        ])
