-- ===== src/DevList/Whole.antt =====
-- The JSON reply of cmd_devls in main/cmd_devls.c, where it fits.
use otdb.Base.{
  ℕ, ◌+◌, ◌-◌, ◌<◌, ◌≡◌, ◌∙◌, sym, ap, List, [], ◌∷◌, ◌++◌, true, length, drop, arith, append_assoc,
  append-nil, length-append, ◌==◌, if◌then◌else◌,
}
use otdb.Base.Int.{ℤ, pos, sub_ℕ}
use otdb.Text.{codes, show_hex}
use otdb.Args.{Arglist}
use otdb.Otfs.{Otfs}
use otdb.DevList.{
  next_devices, size_of, iterator_uids, device_text, devls_opening, devls_close, devls_walk,
}
use otdb.DevList.Fits.{put_at-append, stored-append, texts, minus_pos, iterate-Listed, not_below}

abbrev pub quoted : ℕ → List ℕ
quoted uid = codes "\"" ++ (show_hex uid ++ codes "\"")

-- The quoted identities of a device and those after it, between commas.
abbrev pub ids : ℕ → List ℕ → List ℕ
ids uid [] = quoted uid
ids uid (next ∷ devices) = quoted uid ++ (codes "," ++ ids next devices)

abbrev pub reply : ℕ → List ℕ → List ℕ
reply uid devices = devls_opening ++ (ids uid devices ++ codes "]}")

device_text-quoted : (index uid : ℕ) → device_text true index uid ≡ quoted uid ++ codes ","
unfolding device_text
device_text-quoted index uid =
    ap (λ u. codes "\"" ++ u) (sym (append_assoc (show_hex uid) (codes "\"") (codes ",")))

texts-ids :
    (count uid : ℕ) (devices : List ℕ)
    → texts true count (uid ∷ devices) ≡ ids uid devices ++ codes ","
texts-ids count uid [] =
    append-nil (device_text true (count + 1) uid) ∙ device_text-quoted (count + 1) uid
texts-ids count uid (next ∷ devices) =
    rw (device_text-quoted (count + 1) uid, texts-ids (count + 1) next devices)
      (append_assoc (quoted uid) (codes ",") (ids next devices ++ codes ",")
        ∙ (ap (λ u. quoted uid ++ u) (sym (append_assoc (codes ",") (ids next devices) (codes ",")))
            ∙ sym (append_assoc (quoted uid) (codes "," ++ ids next devices) (codes ","))))

-- Some memory that begins with the text and its terminator, with the text's length.
pub record Holds (text : List ℕ) (r : ℤ × List ℕ) : Type 0 where
  pub after : List ℕ
  pub result : r ≡ (pos (length text), text ++ (0 ∷ after))

curs_is :
    (uid : ℕ) (devices : List ℕ)
    → length devls_opening + (length (ids uid devices ++ codes ",") - 1)
      ≡ length (devls_opening ++ ids uid devices)
curs_is uid devices = omega (
  arith,
  length-append (ids uid devices) (codes ","),
  length-append devls_opening (ids uid devices),
)

-- The closing replaces the last comma.
close-Holds :
    (uid : ℕ) (devices after : List ℕ) (r : ℤ × List ℕ)
    → r ≡ (
      pos (length (ids uid devices ++ codes ",")),
      devls_opening ++ ((ids uid devices ++ codes ",") ++ after),
    )
    → Holds (reply uid devices) (devls_close true (length devls_opening) r)
unfolding devls_close
close-Holds uid devices after r h =
    let O = devls_opening in
    let I = ids uid devices in
    let size = length-append O I in
    let comma = length-append I (codes ",") in
    record {
      after = drop 2 after;
      result =
          rw
            (
              h,
              ap (λ u. O ++ u) (append_assoc I (codes ",") after)
                  ∙ sym (append_assoc O I (codes "," ++ after)),
              curs_is uid devices,
              put_at-append (O ++ I) (codes "]}" ++ 0 ∷ []) (codes "," ++ after),
            )
            (ap (λ n. (pos n, (O ++ I) ++ (codes "]}" ++ (0 ∷ drop 2 after))))
                (omega
                  (arith, size, length-append O (I ++ codes "]}"), length-append I (codes "]}")))
              ∙ ap (λ u. (pos (length (reply uid devices)), u))
                  (append_assoc O I (codes "]}" ++ (0 ∷ drop 2 after))
                    ∙ sym (
                        append_assoc O (I ++ codes "]}") (0 ∷ drop 2 after)
                        ∙ ap (λ u. O ++ u) (append_assoc I (codes "]}") (0 ∷ drop 2 after)))));
    }

-- With JSON asked for and at least one device to list, where two more bytes than the reply are still
-- below `dstmax`: dev-ls stores the opening, the quoted identities between commas and the closing, with
-- the terminator, and returns their length.
pub devls_walk-Holds :
    (fs : Otfs) (all : List ℕ) (a : Arglist) (dstmax : ℕ) (mem : List ℕ) (db : fs.Db) (uid : ℕ)
    (devices : List ℕ)
    → a.jsonout_flag ≡ true
    → (if length a.devid_strlist == 0 then all else (next_devices fs a.devid_strlist db).0)
      ≡ uid ∷ devices
    → length (reply uid devices) + 2 < dstmax
    → Holds (reply uid devices) (devls_walk fs all a dstmax mem db)
unfolding devls_walk iterator_uids size_of
devls_walk-Holds fs all a dstmax mem db uid devices json listed h =
    let O = devls_opening in
    let I = ids uid devices in
    let size : length (reply uid devices) ≡ length O + (length I + 2) =
      omega (arith, length-append O (I ++ codes "]}"), length-append I (codes "]}")) in
    let total = length-append I (codes ",") in
    let l0 : sub_ℕ dstmax 1 ≡ pos (dstmax - 1) = ground (arith, h) in
    let l1 = minus_pos (dstmax - 1) 2 (omega (arith, h, size)) in
    let l2 = minus_pos (dstmax - 1 - 2) (length O) (omega (arith, h, size)) in
    let fits : length (texts true 0 (uid ∷ devices)) < dstmax - 1 - 2 - length O =
      rw (texts-ids 0 uid devices) (omega (arith, h, size, total)) in
    let walk =
      iterate-Listed true (uid ∷ devices) 0 (dstmax - 1 - 2 - length O) 0 O
        (0 ∷ drop (length O + 1) mem) fits in
    rw
      (
        json,
        listed,
        l0,
        l1,
        l2,
        not_below (dstmax - 1 - 2 - length O),
        stored-append [] O mem (dstmax - 1 - 2) (omega (arith, h, size)),
      )
      (close-Holds uid devices walk.after _ (
        walk.result
        ∙ (ap (λ u. (pos (0 + length u), O ++ (u ++ walk.after))) (texts-ids 0 uid devices)
            ∙ ap (λ n. (pos n, O ++ ((I ++ codes ",") ++ walk.after))) (omega arith))))
