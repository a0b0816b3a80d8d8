-- ===== src/DevLink/Tests.antt =====
-- Command lines of dm_xnprintf on concrete inputs.
use otdb.Base.{none, some, ltb, length, ◌==◌, if◌then◌else◌, ℕ, ◌≡◌, refl, List}
use otdb.Text.{codes}
use otdb.DevLink.{root, guest, user, xnode_line, minauth_get}
use otdb.DevLink.Whole.{xnode_text, cut_last, xnode_line-exact}

abbrev read_header : List ℕ
read_header = codes "file rh 1"

minauth_get_runs :
    (minauth_get 0x04 0x24 ≡ user)
    × (minauth_get 0x30 0x24 ≡ root)
    × (minauth_get 0x05 0x01 ≡ guest)
unfolding minauth_get
minauth_get_runs = (refl, refl, refl)

xnode_line-exact_example : xnode_line user 0x1234 read_header 128 ≡ (
    if ltb (length (xnode_text user 0x1234 read_header)) 128
    then some (xnode_text user 0x1234 read_header)
    else (if length (xnode_text user 0x1234 read_header) == 128
        then some (cut_last (xnode_text user 0x1234 read_header))
        else none))
xnode_line-exact_example = xnode_line-exact user 0x1234 read_header 128
