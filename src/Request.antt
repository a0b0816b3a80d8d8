-- ===== src/Request.antt =====
-- A request line: sub_proc_lineinput of main/dterm.c. The write to the client is its result.
pub mod Envelope
mod Tests
use otdb.Base.{
  ℕ, zero, suc, ◌+◌, ◌-◌, List, [], ◌∷◌, ◌++◌, Bool, true, false, Option, none, some, length, take,
  drop, ltb, ◌==◌, if◌then◌else◌, ◌&&◌,
}
use otdb.Base.Int.{ℤ, pos, negsuc, pos_part, neg_part, ltb_ℤ, sub_ℕ, ◌-ℤ◌}
use otdb.Text.{codes, show_int, snprintf}
use otdb.Output.{put_at}
use otdb.DevList.{size_of}
use otdb.CmdName.{getname, copy_name}

-- What cJSON_Parse finds: an object with its "type" and "data" where they are strings, or no object.
pub data Parsed : Type 0 where
  no_object : Parsed
  object : Option (List ℕ) → Option (List ℕ) → Parsed

-- A command as cmd_run calls it: from `bytesin`, the text after the name, and the room, to the
-- return value and the bytes that it stores at the cursor.
abbrev pub Run : Type 0
Run = ℤ → List ℕ → ℤ → ℤ × List ℕ

-- The command line to search, what is at the buffer's start, and whether the request was an object.
pub record Request : Type 0 where
  pub line : List ℕ
  pub header : List ℕ
  pub is_object : Bool

unfoldable pub header_of : List ℕ → List ℕ
header_of kind = codes "{\"type\":\"" ++ (kind ++ codes "\", \"data\":")

-- `none` is the jump to sub_proc_lineinput_FREE.
unfoldable pub request_of : List ℕ → Parsed → Option Request
request_of loadbuf no_object = some (record { line = loadbuf; header = []; is_object = false })
request_of loadbuf (object (some kind) (some body)) =
    some (record { line = body; header = header_of kind; is_object = true })
request_of loadbuf (object (some kind) none) = none
request_of loadbuf (object none body) = none

unfoldable pub not_found_text : List ℕ → List ℕ → List ℕ
not_found_text cmdname term =
    codes "{\"cmd\":\""
    ++ (cmdname ++ (codes "\", \"err\":1, \"desc\":\"command not found\"}" ++ term))

unfoldable pub failed_text : List ℕ → ℤ → List ℕ → List ℕ
failed_text cmdname rc term =
    codes "{\"cmd\":\""
    ++ (cmdname
        ++ (codes "\", \"err\":"
            ++ (show_int rc ++ (codes ", \"desc\":\"command execution error\"}" ++ term))))

-- `bytesout`, and the buffer.
abbrev pub Result : Type 0
Result = ℕ × List ℕ

-- The end of a command that has stored `rc` bytes at the cursor.
unfoldable pub finish : Request → List ℕ → ℕ → List ℕ → Result
finish r term rc buf =
    let cursor = length r.header + rc in
    let text = (if r.is_object then codes "}" ++ term else term) in
    let room = sub_ℕ 1024 cursor in
    if rc == 0
    then (0, buf)
    else (cursor + length text, put_at cursor (snprintf (size_of room) text) buf)

unfoldable pub after_run : Request → List ℕ → List ℕ → List ℕ → ℤ × List ℕ → Result
after_run r cmdname term buf (negsuc n, out) =
    let text = failed_text cmdname (negsuc n) term in
    (length text, put_at 0 (snprintf 1023 text) (put_at (length r.header) out buf))
after_run r cmdname term buf (pos n, out) = finish r term n (put_at (length r.header) out buf)

unfoldable pub run_found : Request → ℕ → List ℕ → List ℕ → Option Run → Result
run_found r linelen term buf none =
    let text = not_found_text (copy_name 32 r.line) term in
    if linelen == 0 then (0, buf) else (length text, put_at 0 (snprintf 1023 text) buf)
run_found r linelen term buf (some run) =
    let cmdlen = (getname r.line 32).1 in
    after_run r (copy_name 32 r.line) term buf
      (run (sub_ℕ linelen cmdlen) (drop cmdlen r.line) (sub_ℕ 1024 (length r.header)))

unfoldable pub proc_request : (List ℕ → Option Run) → ℕ → List ℕ → List ℕ → Option Request → Result
proc_request search linelen term buf none = (0, buf)
proc_request search linelen term buf (some r) =
    let opened = (if r.is_object then put_at 0 (snprintf 1023 r.header) buf else buf) in
    run_found r linelen term opened (search (copy_name 32 r.line))

-- The bytes written to the client: `none` where there are none. `buf` is `protocol_buf`.
unfoldable pub written : Result → Option (List ℕ)
written (n, buf) = if n == 0 then none else some (take n buf)

unfoldable pub proc_lineinput :
    (List ℕ → Parsed) → (List ℕ → Option Run) → List ℕ → ℕ → List ℕ → List ℕ → Option (List ℕ)
proc_lineinput parse search loadbuf linelen term buf =
    written (proc_request search linelen term buf (request_of loadbuf (parse loadbuf)))
