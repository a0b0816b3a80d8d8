-- ===== src/Request/Tests.antt =====
-- A request in JSON.
use otdb.Base.{ℕ, ◌<◌, ◌≡◌, refl, List, [], Option, some, arith, length}
use otdb.Base.Int.{pos}
use otdb.Text.{codes}
use otdb.Request.{Parsed, object, Run, header_of, proc_lineinput}
use otdb.Request.Envelope.{reply, proc_lineinput-reply}

abbrev parse : List ℕ → Parsed
parse text = object (some (codes "otdb")) (some (codes "rh 1"))

abbrev run : Run
run bytesin text room = (pos 4, codes "1234")

abbrev search : List ℕ → Option Run
search name = some run

short : length (reply (codes "otdb") (codes "1234") (codes "\n")) < 1023
unfolding header_of
short = omega arith

reply_runs : reply (codes "otdb") (codes "1234") [] ≡ codes "{\"type\":\"otdb\", \"data\":1234}"
unfolding header_of
reply_runs = refl

proc_lineinput-reply_example :
    proc_lineinput parse search (codes "{}") 2 (codes "\n") []
    ≡ some (reply (codes "otdb") (codes "1234") (codes "\n"))
proc_lineinput-reply_example =
    proc_lineinput-reply parse search run (codes "{}") (codes "otdb") (codes "rh 1") (codes "1234")
      (codes "\n") [] 2 refl refl refl (omega arith) short
