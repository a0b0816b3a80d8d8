-- ===== src/Otfs.antt =====
-- The filesystem library behind the commands: what main/cmd_filecmds.c and main/cmd_devcmds.c call
-- of otfs and veelite, over a state of its own. It is a parameter of the commands.
use otdb.Base.{ℕ, List, Option}
use otdb.Base.Int.{ℤ}
use otdb.Args.{BlockId}

-- VL_ACCESS_R and VL_ACCESS_W
pub data Access : Type 0 where
  access_r access_w : Access

-- The fields of `vlFILE` that the commands read, and the one they write: `length`. `start` says which
-- file it is.
pub record File : Type 0 where
  pub start : ℕ
  pub alloc : ℕ
  pub length : ℕ
  pub idmod : ℕ

-- `vl_header_t`: its bytes in memory, and its fields.
pub record Header : Type 0 where
  pub bytes : List ℕ
  pub idmod : ℕ
  pub alloc : ℕ
  pub length : ℕ
  pub modtime : ℕ

-- The calls that ERRCODE is given.
pub data OtfsCall : Type 0 where
  call_setfs call_new call_del : OtfsCall

-- The library's calls. Those that can fail return 0 for success.
pub record Otfs : Type 1 where
  pub Db : Type 0
  -- otfs_setfs and otfs_activeuid
  pub setfs : ℕ → Db → ℤ × Db
  pub activeuid : Db → ℕ
  -- otfs_new with a device and its bytes, otfs_del of a device, and the macro ERRCODE
  pub new_fs : ℕ → List ℕ → Db → ℤ × Db
  pub del_fs : ℕ → Db → ℤ × Db
  pub errcode : OtfsCall → ℤ → ℤ
  -- vl_delete; vl_new with the vl_close after it; vl_chmod
  pub delete : BlockId → ℕ → Db → ℤ × Db
  pub new : BlockId → ℕ → ℕ → ℕ → Db → ℤ × Db
  pub chmod : BlockId → ℕ → ℕ → Db → ℤ × Db
  -- the values of VL_ACCESS_R and VL_ACCESS_W, of the block IDs, and sizeof(vl_header_t)
  pub access_mask : Access → ℕ
  pub block_code : BlockId → ℕ
  pub header_size : ℕ
  -- vl_getheader_vaddr; vworm_get and vworm_read at an address
  pub getheader : BlockId → ℕ → Access → Db → ℤ × ℕ
  pub worm_get : ℕ → Db → Option Header
  pub worm_read : ℕ → Db → ℕ
  -- vl_open_file; the memory that vl_memptr points to; a store to it; vl_getmodtime
  pub open_file : ℕ → Db → Option File × Db
  pub memptr : File → Db → Option (List ℕ)
  pub poke : File → List ℕ → Db → Db
  pub getmodtime : File → Db → ℕ
  -- vl_store, with the file after it; vl_close
  pub store : File → List ℕ → Db → ℤ × (File × Db)
  pub close : File → Db → Db
