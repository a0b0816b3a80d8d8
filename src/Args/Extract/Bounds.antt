-- ===== src/Args/Extract/Bounds.antt =====
-- The fields that cmd_extract_args of main/cmds.c stores stay within their C types.
use otdb.Base.{ℕ, ◌^◌, ◌<◌, ◌≡◌, List, Option, none, some, arith}
use otdb.Base.Int.{ℤ, pos, negsuc}
use otdb.Text.{strtoull}
use otdb.Args.{Arglist, Parsed, Outcome, cont, stop, ◌>>=◌, low_bits, strtok_colon}
use otdb.Args.Extract.{
  take_errors, put_devid, put_devid_opt, take_devid, put_archive, take_archive, take_flags,
  take_age, put_block, take_block, bound, put_range, take_range, take_fileid, put_perms, take_perms,
  put_alloc, take_alloc, put_filedata, take_filedata, extract, extract_args, returned,
}

-- A predicate of the argument list, on both ways out of a stage.
abbrev pub Both {κ} : (Arglist → Type κ) → Outcome → Type κ
Both P (cont a) = P a
Both P (stop rc a) = P a

Both-bind {κ} :
    (P : Arglist → Type κ) (m : Outcome) (f : Arglist → Outcome)
    → Both P m
    → ((a : Arglist) → P a → Both P (f a))
    → Both P (m >>= f)
Both-bind P (cont a) f h k = k a h
Both-bind P (stop rc a) f h k = h

-- `n` is the allocation that the caller put into the list.
pub record IsSized (n : ℕ) (a : Arglist) : Type 0 where
  pub devid : a.devid < 2 ^ 64
  pub file_id : a.file_id < 256
  pub file_perms : a.file_perms < 64
  pub range_lo : a.range_lo < 65536
  pub range_hi : a.range_hi < 65536
  pub file_alloc : a.file_alloc ≡ n

low_bits_8 : (z : ℤ) → low_bits 8 z < 256
unfolding low_bits
low_bits_8 (pos n) = omega arith
low_bits_8 (negsuc n) = omega arith

low_bits_16 : (z : ℤ) → low_bits 16 z < 65536
unfolding low_bits
low_bits_16 (pos n) = omega arith
low_bits_16 (negsuc n) = omega arith

bound-lt : (default : ℕ) (text : Option (List ℕ)) → default < 65536 → bound default text < 65536
unfolding bound
bound-lt default none h = h
bound-lt default (some text) h = low_bits_16 _

pub strtoull-lt : (s : List ℕ) (base : ℕ) → strtoull s base < 2 ^ 64
unfolding strtoull
strtoull-lt s base = ground arith

module _ (n : ℕ) where
  put_devid-ok :
      (a : Arglist) (o : Option (List ℕ)) → IsSized n a → Both (IsSized n) (put_devid a o)
  unfolding put_devid
  put_devid-ok a none v = v
  put_devid-ok a (some text) v = omega (arith, strtoull-lt text 16)

  put_devid_opt-ok :
      (a : Arglist) (o : Option (List ℕ)) → IsSized n a → Both (IsSized n) (put_devid_opt a o)
  unfolding put_devid_opt
  put_devid_opt-ok a none v = omega arith
  put_devid_opt-ok a (some text) v = omega (arith, strtoull-lt text 16)

  put_block-ok :
      (a : Arglist) (o : Option (List ℕ)) → IsSized n a → Both (IsSized n) (put_block a o)
  unfolding put_block
  put_block-ok a none v = omega arith
  put_block-ok a (some text) v = ground arith

  put_range-ok :
      (a : Arglist) (o : Option (List ℕ)) → IsSized n a → Both (IsSized n) (put_range a o)
  unfolding put_range
  put_range-ok a none v = omega arith
  put_range-ok a (some text) v = omega (
    arith,
    bound-lt 0 (strtok_colon text).0 (omega arith),
    bound-lt 65535 (strtok_colon (strtok_colon text).1).0 (omega arith),
  )

  put_archive-ok :
      (a : Arglist) (o : Option (List ℕ)) → IsSized n a → Both (IsSized n) (put_archive a o)
  unfolding put_archive
  put_archive-ok a none v = v
  put_archive-ok a (some path) v = omega arith

  put_perms-ok :
      (a : Arglist) (o : Option (List ℕ)) → IsSized n a → Both (IsSized n) (put_perms a o)
  unfolding put_perms
  put_perms-ok a none v = v
  put_perms-ok a (some text) v = omega arith

  put_alloc-ok :
      (a : Arglist) (i : ℤ) (o : Option ℤ) → IsSized n a → Both (IsSized n) (put_alloc a i o)
  unfolding put_alloc
  put_alloc-ok a i none v = v
  put_alloc-ok a i (some k) v = omega (arith, low_bits_8 i)

  put_filedata-ok :
      (bx : List ℕ → List ℕ → ℤ → List ℕ × ℤ) (a : Arglist) (o dst : Option (List ℕ))
      → IsSized n a
      → Both (IsSized n) (put_filedata bx a o dst)
  unfolding put_filedata
  put_filedata-ok bx a none dst v = v
  put_filedata-ok bx a (some text) none v = v
  put_filedata-ok bx a (some text) (some dst) v = omega arith

module _ (n : ℕ) (p : Parsed) (a : Arglist) (v : IsSized n a) where
  errors : Both (IsSized n) (take_errors p a)
  unfolding take_errors
  errors = ground arith

  devids : Both (IsSized n) (take_devid p a)
  unfolding take_devid
  devids = ground (arith, put_devid-ok n a p.devid_man v, put_devid_opt-ok n a p.devid_opt v)

  archives : Both (IsSized n) (take_archive p a)
  unfolding take_archive
  archives = ground (arith, put_archive-ok n a p.archive_man v)

  flags : Both (IsSized n) (take_flags p a)
  unfolding take_flags
  flags = omega arith

  ages : Both (IsSized n) (take_age p a)
  unfolding take_age
  ages = ground arith

  blocks : Both (IsSized n) (take_block p a)
  unfolding take_block
  blocks = ground (arith, put_block-ok n a p.fileblock_opt v)

  ranges : Both (IsSized n) (take_range p a)
  unfolding take_range
  ranges = ground (arith, put_range-ok n a p.filerange_opt v)

  fileids : Both (IsSized n) (take_fileid p a)
  unfolding take_fileid
  fileids = ground (arith, low_bits_8 p.fileid_ival)

  perms : Both (IsSized n) (take_perms p a)
  unfolding take_perms
  perms = ground (arith, put_perms-ok n a p.fileperms_man v)

  allocs : Both (IsSized n) (take_alloc p a)
  unfolding take_alloc
  allocs = ground (arith, put_alloc-ok n a p.fileid_ival p.filealloc_man v)

  filedatas : (bx : List ℕ → List ℕ → ℤ → List ℕ × ℤ) → Both (IsSized n) (take_filedata bx p a)
  unfolding take_filedata
  filedatas bx = ground (arith, put_filedata-ok n bx a p.filedata_man a.filedata v)

module _ (bx : List ℕ → List ℕ → ℤ → List ℕ × ℤ) (n : ℕ) (p : Parsed) where
  stages : (a : Arglist) → IsSized n a → Both (IsSized n) (extract bx p a)
  unfolding extract
  stages a v = Both-bind (IsSized n) _ _ (errors n p a v) λ a1 v1.
      Both-bind (IsSized n) _ _ (devids n p a1 v1) λ a2 v2.
        Both-bind (IsSized n) _ _ (archives n p a2 v2) λ a3 v3.
          Both-bind (IsSized n) _ _ (flags n p a3 v3) λ a4 v4.
            Both-bind (IsSized n) _ _ (ages n p a4 v4) λ a5 v5.
              Both-bind (IsSized n) _ _ (blocks n p a5 v5) λ a6 v6.
                Both-bind (IsSized n) _ _ (ranges n p a6 v6) λ a7 v7.
                  Both-bind (IsSized n) _ _ (fileids n p a7 v7) λ a8 v8.
                    Both-bind (IsSized n) _ _ (perms n p a8 v8) λ a9 v9.
                      Both-bind (IsSized n) _ _ (allocs n p a9 v9)
                        λ a10 v10. filedatas n p a10 v10 bx

Both-returned : (P : Arglist → Type 0) (o : Outcome) → Both P o → P (returned o).1
Both-returned P (cont a) h = h
Both-returned P (stop rc a) h = h

-- Whatever the arguments and the error, cmd_extract_args keeps a list with fields in range in
-- range: the device ID below 2^64, the file ID below 256, the permissions below 64, both ends of
-- the range below 65536. It never changes `file_alloc`, not even for ARGFIELD_FILEALLOC.
pub extract_args-IsSized :
    (bintex_ss : List ℕ → List ℕ → ℤ → List ℕ × ℤ) (n : ℕ) (p : Parsed) (a : Arglist)
    → IsSized n a
    → IsSized n (extract_args bintex_ss p a).1
unfolding extract_args
extract_args-IsSized bx n p a v = Both-returned (IsSized n) (extract bx p a) (stages bx n p a v)
