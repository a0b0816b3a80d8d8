-- ===== src/PushPull/Whole.antt =====
-- The JSON reply of sub_pushpull in main/cmd_pushpull.c, where it fits.
use mathlib.Core.Path.{subst}
use otdb.Base.{
  ℕ, ◌+◌, ◌-◌, ◌<◌, ◌≡◌, ◌∙◌, sym, ap, List, [], ◌∷◌, ◌++◌, true, false, Option, some, length, drop,
  arith, append_assoc, append-nil, length-append, ◌==◌, if◌then◌else◌, leb,
}
use otdb.Base.Int.{ℤ, pos, sub_ℕ}
use otdb.Text.{codes}
use otdb.Args.{Arglist, arglist, Parsed, argfield_jsonout, argfield_blockid, argfield_deviceidlist}
use otdb.Args.Extract.{extract_args}
use otdb.Otfs.{Otfs}
use otdb.DevList.{Action, size_of, next_devices, iterate, iterator_uids}
use otdb.DevList.Fits.{put_at-append, stored-append, minus_pos, not_below}
use otdb.PushPull.{testbuffer, eat_comma, pushpull_end, pushpull_opening, pushpull_walk, pushpull}

module _ (object : ℕ → ℕ → List ℕ) where
  -- The objects of a device and of those after it, between commas, the first device having the number `count`.
  abbrev pub objects : ℕ → ℕ → List ℕ → List ℕ
  objects count uid [] = object count uid
  objects count uid (next ∷ devices) =
      object count uid ++ (codes "," ++ objects (count + 1) next devices)

  abbrev pub pushpull_reply : List ℕ → ℕ → List ℕ → List ℕ
  pushpull_reply cmdname uid devices =
      pushpull_opening cmdname ++ (objects 1 uid devices ++ codes "]}")

  -- The texts that the action leaves, each with its comma.
  abbrev texts : ℕ → List ℕ → List ℕ
  texts count [] = []
  texts count (device ∷ devices) =
      (object (count + 1) device ++ codes ",") ++ texts (count + 1) devices

  texts-objects :
      (count uid : ℕ) (devices : List ℕ)
      → texts count (uid ∷ devices) ≡ objects (count + 1) uid devices ++ codes ","
  texts-objects count uid [] = append-nil (object (count + 1) uid ++ codes ",")
  texts-objects count uid (next ∷ devices) =
      let o = object (count + 1) uid in
      let later = objects (count + 1 + 1) next devices in
      rw (texts-objects (count + 1) next devices) (
        append_assoc o (codes ",") (later ++ codes ",")
        ∙ sym (append_assoc o (codes "," ++ later) (codes ",")))

  -- Where there is room for it, the action stores the device's object, a comma and a terminator behind what
  -- is there, and returns the length without the terminator.
  pub record Appends (action : Action) : Type 0 where
    pub tail_of : ℕ → ℕ → ℕ → List ℕ → List ℕ → List ℕ
    pub appends :
        (count uid limit : ℕ) (pre tail : List ℕ)
        → length (object count uid ++ codes ",") < limit
        → action count uid (pos limit) (length pre) (pre ++ tail) ≡ (
          pos (length (object count uid ++ codes ",")),
          (pre ++ (object count uid ++ codes ",")) ++ (0 ∷ tail_of count uid limit pre tail),
        )

  record Listed (devices : List ℕ) (count out : ℕ) (pre : List ℕ) (r : ℤ × List ℕ) : Type 0 where
    after : List ℕ
    result : r ≡ (pos (out + length (texts count devices)), pre ++ (texts count devices ++ after))

  iterate-Listed :
      (action : Action) (devices : List ℕ) (count limit out : ℕ) (pre tail : List ℕ)
      → Appends action
      → length (texts count devices) < limit
      → Listed devices count out pre
          (iterate action devices count (pos limit) (length pre) out (pre ++ tail))
  unfolding iterate
  iterate-Listed action [] count limit out pre tail law h = record {
    after = tail;
    result = ap (λ n. (pos n, pre ++ tail)) (omega arith);
  }
  iterate-Listed action (device ∷ devices) count limit out pre tail law h =
      let t = object (count + 1) device ++ codes "," in
      let k = length t in
      let left = texts (count + 1) devices in
      let all = length-append t left in
      let rest =
        iterate-Listed action devices (count + 1) (limit - k) (out + k) (pre ++ t)
          (0 ∷ law.tail_of (count + 1) device limit pre tail) law (omega (arith, all)) in
      record {
        after = rest.after;
        result =
            rw
              (
                law.appends (count + 1) device limit pre tail (omega (arith, all)),
                not_below k,
                not_below limit,
                minus_pos limit k (omega (arith, all)),
                sym (length-append pre t),
              )
              (rest.result
                ∙ (ap (λ n. (pos n, (pre ++ t) ++ (left ++ rest.after))) (omega (arith, all))
                    ∙ ap (λ u. (pos (out + length (t ++ left)), u))
                        (append_assoc pre t (left ++ rest.after)
                          ∙ ap (λ u. pre ++ u) (sym (append_assoc t left rest.after)))));
      }

  -- Some memory that begins with the text and its terminator, with the text's length.
  pub record Holds (text : List ℕ) (r : Option (ℤ × List ℕ)) : Type 0 where
    pub after : List ℕ
    pub result : r ≡ some (pos (length text), text ++ (0 ∷ after))

  -- The closing replaces the last comma.
  close-Holds :
      (cmdname : List ℕ) (dstmax uid : ℕ) (devices after : List ℕ) (r : ℤ × List ℕ)
      → length (pushpull_reply cmdname uid devices) < dstmax
      → r ≡ (
        pos (length (objects 1 uid devices ++ codes ",")),
        pushpull_opening cmdname ++ ((objects 1 uid devices ++ codes ",") ++ after),
      )
      → Holds
          (pushpull_reply cmdname uid devices)
          (pushpull_end cmdname dstmax true (eat_comma (length (pushpull_opening cmdname)) r))
  unfolding pushpull_end eat_comma
  close-Holds cmdname dstmax uid devices after r room h =
      let O = pushpull_opening cmdname in
      let I = objects 1 uid devices in
      let size = length-append O I in
      let comma = length-append I (codes ",") in
      let ends = length-append I (codes "]}") in
      let all = length-append O (I ++ codes "]}") in
      let curs : length O + (length (I ++ codes ",") - 1) ≡ length (O ++ I) =
        omega (arith, size, comma) in
      let fits : leb (length (O ++ I) + 3) dstmax ≡ true = ground (arith, room, size, ends, all) in
      record {
        after = drop 2 after;
        result =
            rw
              (
                h,
                ap (λ u. O ++ u) (append_assoc I (codes ",") after)
                    ∙ sym (append_assoc O I (codes "," ++ after)),
                curs,
                fits,
                put_at-append (O ++ I) (codes "]}" ++ 0 ∷ []) (codes "," ++ after),
              )
              (ap (λ n. some (pos n, (O ++ I) ++ (codes "]}" ++ (0 ∷ drop 2 after))))
                  (omega (arith, size, ends, all))
                ∙ ap (λ u. some (pos (length (O ++ (I ++ codes "]}"))), u))
                    (append_assoc O I (codes "]}" ++ (0 ∷ drop 2 after))
                      ∙ sym (
                          append_assoc O (I ++ codes "]}") (0 ∷ drop 2 after)
                          ∙ ap (λ u. O ++ u) (append_assoc I (codes "]}") (0 ∷ drop 2 after)))));
      }

  walk-Holds :
      (fs : Otfs) (cmdname : List ℕ) (action : Action) (all : List ℕ) (a : Arglist) (dstmax : ℕ)
      (mem : List ℕ) (db : fs.Db) (uid : ℕ) (devices : List ℕ)
      → a.jsonout_flag ≡ true
      → (if length a.devid_strlist == 0 then all else (next_devices fs a.devid_strlist db).0)
        ≡ uid ∷ devices
      → Appends action
      → length (pushpull_reply cmdname uid devices) + 2 < dstmax
      → Holds
          (pushpull_reply cmdname uid devices)
          (pushpull_end cmdname dstmax true (pushpull_walk fs cmdname action all a dstmax mem db))
  unfolding pushpull_walk iterator_uids size_of testbuffer
  walk-Holds fs cmdname action all a dstmax mem db uid devices json listed law h =
      let O = pushpull_opening cmdname in
      let I = objects 1 uid devices in
      let size : length (O ++ (I ++ codes "]}")) ≡ length O + (length I + 2) =
        omega (arith, length-append O (I ++ codes "]}"), length-append I (codes "]}")) in
      let total = length-append I (codes ",") in
      let l0 : sub_ℕ dstmax 1 ≡ pos (dstmax - 1) = ground (arith, h) in
      let l1 = minus_pos (dstmax - 1) 2 (omega (arith, h, size)) in
      let l2 = minus_pos (dstmax - 1 - 2) (length O) (omega (arith, h, size)) in
      let fits : length (texts 0 (uid ∷ devices)) < dstmax - 1 - 2 - length O =
        rw (texts-objects 0 uid devices) (omega (arith, h, size, total)) in
      let walk =
        iterate-Listed action (uid ∷ devices) 0 (dstmax - 1 - 2 - length O) 0 O
          (0 ∷ drop (length O + 1) mem) law fits in
      rw
        (
          json,
          listed,
          l0,
          l1,
          l2,
          not_below (dstmax - 1 - 2 - length O),
          not_below (length O),
          stored-append [] O mem (dstmax - 1 - 2) (omega (arith, h, size)),
        )
        (close-Holds cmdname dstmax uid devices walk.after _ (omega (arith, h)) (
          walk.result
          ∙ (ap (λ u. (pos (0 + length u), O ++ (u ++ walk.after))) (texts-objects 0 uid devices)
              ∙ ap (λ n. (pos n, O ++ ((I ++ codes ",") ++ walk.after))) (omega arith))))

-- With JSON asked for, the database open and at least one device to go through, for an action that
-- appends an object and a comma for a device where there is room, and where two more bytes than the
-- reply are still below `dstmax`: push and pull store the opening with the command's name, the
-- objects of the devices between commas, "]}" and the terminator, and return the reply's length.
pub pushpull-Holds :
    (bintex_ss : List ℕ → List ℕ → ℤ → List ℕ × ℤ) (fs : Otfs) (cmdname : List ℕ)
    (action : Arglist → Action) (object : ℕ → ℕ → List ℕ) (all : List ℕ) (p : Parsed) (mem : List ℕ)
    (dstmax : ℕ) (db : fs.Db) (a : Arglist) (uid : ℕ) (devices : List ℕ)
    → extract_args bintex_ss p
        (arglist (argfield_jsonout + (argfield_blockid + argfield_deviceidlist)))
      ≡ (pos 0, a)
    → a.jsonout_flag ≡ true
    → (if length a.devid_strlist == 0 then all else (next_devices fs a.devid_strlist db).0)
      ≡ uid ∷ devices
    → Appends object (action a)
    → length (pushpull_reply object cmdname uid devices) + 2 < dstmax
    → Holds object
        (pushpull_reply object cmdname uid devices)
        (pushpull bintex_ss fs cmdname action all true p mem dstmax db)
unfolding pushpull
pushpull-Holds bintex_ss fs cmdname action object all p mem dstmax db a uid devices e json listed
      law h =
    let some_room : (dstmax == 0) ≡ false = ground (arith, h) in
    let reply = pushpull_reply object cmdname uid devices in
    rw (e, some_room)
      (subst
        (λ j.
          Holds object reply (
            pushpull_end cmdname dstmax j
              (pushpull_walk fs cmdname (action a) all a dstmax mem db)))
        (sym json)
        (walk-Holds object fs cmdname (action a) all a dstmax mem db uid devices json listed law h))
