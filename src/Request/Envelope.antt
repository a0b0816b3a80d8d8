-- ===== src/Request/Envelope.antt =====
-- The reply of sub_proc_lineinput in main/dterm.c to a request in JSON.
use otdb.Base.{
  ℕ, ◌+◌, ◌-◌, ◌<◌, ◌≡◌, ◌∙◌, refl, sym, ap, List, [], ◌∷◌, ◌++◌, true, false, Option, some, length,
  drop, arith, ◌==◌, append_assoc, length-append,
}
use otdb.Base.Int.{pos, sub_ℕ}
use otdb.Base.Splice.{take_prefix}
use otdb.Text.{codes, snprintf}
use otdb.Output.{put_at}
use otdb.DevList.{size_of}
use otdb.DevList.Fits.{stored-append, put_at-append}
use otdb.CmdName.{getname, copy_name}
use otdb.Request.{
  Parsed, object, Run, Request, header_of, request_of, finish, after_run, run_found, proc_request,
  written, proc_lineinput,
}

abbrev pub reply : List ℕ → List ℕ → List ℕ → List ℕ
reply kind out term = header_of kind ++ (out ++ (codes "}" ++ term))

size_pos : (n : ℕ) → size_of (pos n) ≡ n
unfolding size_of
size_pos n = refl

module _ (kind out term buf : List ℕ) (some_out : 0 < length out)
    (fits : length (reply kind out term) < 1023) where
  sizes : length (reply kind out term) ≡ length (header_of kind) + (length out + (1 + length term))
  sizes = omega (
    arith,
    length-append (header_of kind) (out ++ (codes "}" ++ term)),
    length-append out (codes "}" ++ term),
  )

  room :
      sub_ℕ 1024 (length (header_of kind) + length out)
      ≡ pos (1024 - (length (header_of kind) + length out))
  room = ground (arith, sizes, fits)

  opened :
      put_at 0 (snprintf 1023 (header_of kind)) buf
      ≡ header_of kind ++ (0 ∷ drop (length (header_of kind) + 1) buf)
  opened = stored-append [] (header_of kind) buf 1023 (omega (arith, sizes, fits))

  -- The buffer behind the header and the command's bytes.
  abbrev tail : List ℕ
  tail = drop (length out) (0 ∷ drop (length (header_of kind) + 1) buf)

  ran :
      put_at
        (length (header_of kind))
        out
        (header_of kind ++ (0 ∷ drop (length (header_of kind) + 1) buf))
      ≡ (header_of kind ++ out) ++ tail
  ran =
      put_at-append (header_of kind) out (0 ∷ drop (length (header_of kind) + 1) buf)
      ∙ sym (append_assoc (header_of kind) out tail)

  abbrev closing : List ℕ
  closing = codes "}" ++ term

  abbrev request : List ℕ → Request
  request body = record { line = body; header = header_of kind; is_object = true }

  whole : (header_of kind ++ out) ++ closing ≡ reply kind out term
  whole = append_assoc (header_of kind) out closing

  finish-written :
      (body : List ℕ)
      → written (finish (request body) term (length out) ((header_of kind ++ out) ++ tail))
        ≡ some (reply kind out term)
  unfolding finish written
  finish-written body =
      let H = header_of kind in
      let at_end = length-append H out in
      let left = 1024 - length (H ++ out) in
      let busy : (length out == 0) ≡ false = ground (arith, some_out) in
      let long : (length H + length out + length closing == 0) ≡ false = ground (arith, some_out) in
      rw (busy, room, long)
        (ap some (
          rw
            (
              sym at_end,
              size_pos left,
              stored-append (H ++ out) closing tail left (omega (arith, sizes, fits, at_end)),
            )
            (take_prefix (length (H ++ out) + length closing) ((H ++ out) ++ closing) _
                (length-append (H ++ out) closing)
              ∙ whole)))

-- A request object whose data names a command that stores some bytes and returns their number is
-- answered by the request's type, those bytes as they are, and the closing brace before the
-- terminating string, where all of that is shorter than 1023 bytes.
pub proc_lineinput-reply :
    (parse : List ℕ → Parsed) (search : List ℕ → Option Run) (run : Run)
    (loadbuf kind body out term buf : List ℕ) (linelen : ℕ)
    → parse loadbuf ≡ object (some kind) (some body)
    → search (copy_name 32 body) ≡ some run
    → run
        (sub_ℕ linelen (getname body 32).1)
        (drop (getname body 32).1 body)
        (sub_ℕ 1024 (length (header_of kind)))
      ≡ (pos (length out), out)
    → 0 < length out
    → length (reply kind out term) < 1023
    → proc_lineinput parse search loadbuf linelen term buf ≡ some (reply kind out term)
unfolding proc_lineinput request_of proc_request run_found after_run
proc_lineinput-reply parse search run loadbuf kind body out term buf linelen parsed found result
      some_out fits =
    rw
      (
        parsed,
        found,
        result,
        opened kind out term buf some_out fits,
        ran kind out term buf some_out fits,
      )
      (finish-written kind out term buf some_out fits body)
