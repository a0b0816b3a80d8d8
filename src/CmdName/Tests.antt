-- ===== src/CmdName/Tests.antt =====
-- Names of command lines.
use otdb.Base.{◌≡◌, refl, [], ◌∷◌, ◌++◌, length, take}
use otdb.Text.{codes, is_space}
use otdb.CmdName.{getname}
use otdb.CmdName.Cut.{Word, ends, goes_on, getname-Word}

-- The word "rh" before a space.
header-Word : Word (codes "rh") (codes "rh 1")
unfolding is_space
header-Word = goes_on b'r' _ _ refl (goes_on b'h' _ _ refl (ends b' ' _ refl))

getname-Word_example :
    getname (codes "rh 1") 2 ≡ (take 2 (codes "rh") ++ 0 ∷ [], length (take 2 (codes "rh")))
getname-Word_example = getname-Word (codes "rh") (codes "rh 1") 2 header-Word
