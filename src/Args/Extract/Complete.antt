-- ===== src/Args/Extract/Complete.antt =====
-- When cmd_extract_args of main/cmds.c accepts a command line.
use mathlib.Core.Path.{subst₂}
use otdb.Base.{
  ℕ, ◌<◌, ◌≡◌, ◌≢◌, ◌⊎◌, ◌↔◌, refl, sym, List, true, false, Option, none, some, arith, take,
}
use otdb.Base.Int.{ℤ, pos}
use otdb.Base.Bytes.{bytes_eq}
use otdb.Text.{codes}
use otdb.Args.{
  Arglist, Parsed, Outcome, cont, stop, ◌>>=◌, has, asks, argfield_deviceid, argfield_archive,
  argfield_blockid, argfield_fileid, argfield_fileperms, argfield_filealloc, argfield_filedata,
}
use otdb.Args.Extract.{
  take_errors, put_devid, put_devid_opt, take_devid, put_archive, take_archive, take_flags,
  take_age, put_block, take_block, put_range, take_range, take_fileid, put_perms, take_perms,
  put_alloc, take_alloc, put_filedata, take_filedata, extract, extract_args, returned,
}

-- A text that starts with a block's name.
abbrev pub IsBlock : List ℕ → Type 0
IsBlock text =
    (bytes_eq (take 3 text) (codes "isf") ≡ true)
    ⊎ (bytes_eq (take 3 text) (codes "iss") ≡ true)
    ⊎ (bytes_eq (take 3 text) (codes "gfb") ≡ true)

abbrev pub GoodBlock : Option (List ℕ) → Type 0
GoodBlock none = Unit
GoodBlock (some text) = IsBlock text

-- What the mandatory arguments of a list ask of the command line.
pub record Accepts (p : Parsed) (a : Arglist) : Type 0 where
  pub no_help : p.help ≡ false
  pub no_errors : p.nerrors ≡ 0
  pub devid : has a argfield_deviceid ≡ true → p.devid_man ≢ none
  pub archive : has a argfield_archive ≡ true → p.archive_man ≢ none
  pub block : has a argfield_blockid ≡ true → GoodBlock p.fileblock_opt
  pub fileid : has a argfield_fileid ≡ true → 0 < p.fileid_count
  pub perms : has a argfield_fileperms ≡ true → p.fileperms_man ≢ none
  pub alloc : has a argfield_filealloc ≡ true → p.filealloc_man ≢ none
  pub filedata : has a argfield_filedata ≡ true → (p.filedata_man ≢ none) × (a.filedata ≢ none)

-- A condition on the fields and the data pointer of a list.
abbrev Cond : Type 1
Cond = ℕ → Option (List ℕ) → Type 0

-- A stage goes on exactly under a condition, and keeps what conditions are about.
abbrev Splits : Cond → Arglist → Outcome → Type 0
Splits C a (cont b) = C a.fields a.filedata × (b.fields ≡ a.fields) × (b.filedata ≡ a.filedata)
Splits C a (stop rc b) = (C a.fields a.filedata → ⊥) × (rc ≢ pos 0)

-- The same of the last stage, which replaces the data.
abbrev Ends : Cond → Arglist → Outcome → Type 0
Ends C a (cont b) = C a.fields a.filedata
Ends C a (stop rc b) = (C a.fields a.filedata → ⊥) × (rc ≢ pos 0)

abbrev Both : Cond → Cond → Cond
Both C D x y = C x y × D x y

module _ (C D : Cond) (a : Arglist) where
  Ends-after :
      (b : Arglist) (o : Outcome)
      → C a.fields a.filedata
      → b.fields ≡ a.fields
      → b.filedata ≡ a.filedata
      → Ends D b o
      → Ends (Both C D) a o
  Ends-after b (cont d) c e e' h = (c, subst₂ D e e' h)
  Ends-after b (stop rc d) c e e' h = (λ cd. h.0 (subst₂ D (sym e) (sym e') cd.1), h.1)

  Ends-bind :
      (m : Outcome) (f : Arglist → Outcome)
      → Splits C a m
      → ((b : Arglist) → Ends D b (f b))
      → Ends (Both C D) a (m >>= f)
  Ends-bind (cont b) f h k = Ends-after b (f b) h.0 h.1 h.2 (k b)
  Ends-bind (stop rc b) f h k = (λ cd. h.0 cd.0, h.1)

module _ (p : Parsed) where
  abbrev no_errors : Cond
  no_errors x y = (p.help ≡ false) × (p.nerrors ≡ 0)

  abbrev wants_devid : Cond
  wants_devid x y = asks x argfield_deviceid ≡ true → p.devid_man ≢ none

  abbrev wants_archive : Cond
  wants_archive x y = asks x argfield_archive ≡ true → p.archive_man ≢ none

  abbrev wants_block : Cond
  wants_block x y = asks x argfield_blockid ≡ true → GoodBlock p.fileblock_opt

  abbrev wants_fileid : Cond
  wants_fileid x y = asks x argfield_fileid ≡ true → 0 < p.fileid_count

  abbrev wants_perms : Cond
  wants_perms x y = asks x argfield_fileperms ≡ true → p.fileperms_man ≢ none

  abbrev wants_alloc : Cond
  wants_alloc x y = asks x argfield_filealloc ≡ true → p.filealloc_man ≢ none

  abbrev wants_filedata : Cond
  wants_filedata x y = asks x argfield_filedata ≡ true → (p.filedata_man ≢ none) × (y ≢ none)

  abbrev nothing : Cond
  nothing x y = Unit

  module _ (a : Arglist) where
    errors : Splits no_errors a (take_errors p a)
    unfolding take_errors
    errors = ground arith

    devids : Splits wants_devid a (take_devid p a)
    unfolding take_devid put_devid put_devid_opt
    devids = ground arith

    archives : Splits wants_archive a (take_archive p a)
    unfolding take_archive put_archive
    archives = ground arith

    flags : Splits nothing a (take_flags p a)
    unfolding take_flags
    flags = (tt, refl, refl)

    ages : Splits nothing a (take_age p a)
    unfolding take_age
    ages = ground arith

    blocks : Splits wants_block a (take_block p a)
    unfolding take_block put_block
    blocks = ground arith

    ranges : Splits nothing a (take_range p a)
    unfolding take_range put_range
    ranges = ground arith

    fileids : Splits wants_fileid a (take_fileid p a)
    unfolding take_fileid
    fileids = ground arith

    perms : Splits wants_perms a (take_perms p a)
    unfolding take_perms put_perms
    perms = ground arith

    allocs : Splits wants_alloc a (take_alloc p a)
    unfolding take_alloc put_alloc
    allocs = ground arith

    filedatas :
        (bx : List ℕ → List ℕ → ℤ → List ℕ × ℤ) → Ends wants_filedata a (take_filedata bx p a)
    unfolding take_filedata put_filedata
    filedatas bx = ground arith

  -- The conditions of the stages from each one on.
  abbrev from_allocs : Cond
  from_allocs = Both wants_alloc wants_filedata

  abbrev from_perms : Cond
  from_perms = Both wants_perms from_allocs

  abbrev from_fileids : Cond
  from_fileids = Both wants_fileid from_perms

  abbrev from_ranges : Cond
  from_ranges = Both nothing from_fileids

  abbrev from_blocks : Cond
  from_blocks = Both wants_block from_ranges

  abbrev from_ages : Cond
  from_ages = Both nothing from_blocks

  abbrev from_flags : Cond
  from_flags = Both nothing from_ages

  abbrev from_archives : Cond
  from_archives = Both wants_archive from_flags

  abbrev from_devids : Cond
  from_devids = Both wants_devid from_archives

  abbrev all_wanted : Cond
  all_wanted = Both no_errors from_devids

  stages :
      (bx : List ℕ → List ℕ → ℤ → List ℕ × ℤ) (a : Arglist) → Ends all_wanted a (extract bx p a)
  unfolding extract
  stages bx a0 = Ends-bind no_errors from_devids a0 _ _ (errors a0) λ a1.
      Ends-bind wants_devid from_archives a1 _ _ (devids a1) λ a2.
        Ends-bind wants_archive from_flags a2 _ _ (archives a2) λ a3.
          Ends-bind nothing from_ages a3 _ _ (flags a3) λ a4.
            Ends-bind nothing from_blocks a4 _ _ (ages a4) λ a5.
              Ends-bind wants_block from_ranges a5 _ _ (blocks a5) λ a6.
                Ends-bind nothing from_fileids a6 _ _ (ranges a6) λ a7.
                  Ends-bind wants_fileid from_perms a7 _ _ (fileids a7) λ a8.
                    Ends-bind wants_perms from_allocs a8 _ _ (perms a8) λ a9.
                      Ends-bind wants_alloc wants_filedata a9 _ _ (allocs a9)
                        λ a10. filedatas a10 bx

Ends-zero :
    (C : Cond) (a : Arglist) (o : Outcome)
    → Ends C a o
    → ((returned o).0 ≡ pos 0) ↔ C a.fields a.filedata
Ends-zero C a (cont b) h = (λ e. h, λ c. refl)
Ends-zero C a (stop rc b) h = (λ e. absurd (h.1 e), λ c. absurd (h.0 c))

-- cmd_extract_args returns 0 exactly if there is no help flag and no parser error, each mandatory
-- argument that the fields ask for is there, a given block starts with isf, iss or gfb, and file
-- data has a buffer to go to.
pub extract_args-zero_iff :
    (bintex_ss : List ℕ → List ℕ → ℤ → List ℕ × ℤ) (p : Parsed) (a : Arglist)
    → ((extract_args bintex_ss p a).0 ≡ pos 0) ↔ Accepts p a
unfolding extract_args
extract_args-zero_iff bx p a =
    let e = Ends-zero (all_wanted p) a (extract bx p a) (stages p bx a) in
    (λ z. ground (arith, e.0 z), λ v. e.1 (ground arith))
