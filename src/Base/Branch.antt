-- ===== src/Base/Branch.antt =====
-- Both branches of a test at once.
use mathlib.Core.Path.{◌≡◌, refl}
use mathlib.Core.Bool.{Bool, true, false}
use otdb.Base.Tests.{if◌then◌else◌}

-- A property of an if: it holds of each branch where its test has that value.
pub if-both {ℓ κ} :
    {A : Type ℓ} (P : A → Type κ) (b : Bool) (x y : A)
    → (b ≡ true → P x)
    → (b ≡ false → P y)
    → P (if b then x else y)
if-both P true x y f g = f refl
if-both P false x y f g = g refl
