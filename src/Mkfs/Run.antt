-- ===== src/Mkfs/Run.antt =====
-- How a function of mkfs ends: `none` is undefined behaviour, `some none` the call of `exit(1)`.
use cmfs.Prelude.{Bool, true, false, Option, none, some}

abbrev pub Run : Type 0 → Type 0
Run A = Option (Option A)

abbrev pub ends : {A : Type 0} → A → Run A
ends a = some (some a)

abbrev pub exits : {A : Type 0} → Run A
exits = some none

infixl 5 ◌>>=◌
abbrev pub ◌>>=◌ : {A B : Type 0} → Run A → (A → Run B) → Run B
none >>= f = none
some none >>= f = some none
some (some a) >>= f = f a

-- `exit` unless the test holds.
abbrev pub require : Bool → Run (Unit {0})
require true = ends tt
require false = exits
