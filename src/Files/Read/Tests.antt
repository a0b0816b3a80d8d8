-- ===== src/Files/Read/Tests.antt =====
-- Reads of a small filesystem.
use otdb.Base.{leb, if◌then◌else◌, ◌-◌, ◌≡◌, refl, min}
use otdb.Files.Read.{read_span}
use otdb.Files.Read.Span.{read_span-exact}

read_span-exact_example :
    read_span 1024 2 1 4 ≡ (if leb 2 1 then min (min (1 - 2) 1024) (4 - 2) else min 1024 (4 - 2))
read_span-exact_example = read_span-exact 1024 2 1 4

read_span_runs : read_span 8 1 65535 4 ≡ 3
unfolding read_span
read_span_runs = refl
