-- ===== src/Output/Tests.antt =====
-- The reply writers on concrete inputs.
use otdb.Base.{ℕ, ◌≡◌, refl, List}
use otdb.Base.Int.{negsuc}
use otdb.Text.{codes, show_int}
use otdb.Output.{err_text}

abbrev buffer : List ℕ
buffer = codes "................................................."

abbrev name : List ℕ
name = codes "del"

err_text_runs : err_text name (negsuc 3) ≡ codes "{\"type\":\"otdb\", \"cmd\":\"del\", \"err\":-4}"
unfolding err_text otdb.Text.show_int otdb.Text.show_loop otdb.Text.digit_char
err_text_runs = refl
