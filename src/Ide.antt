-- ===== src/Ide.antt =====
-- The buffer of buf.h and the disk in memory of memide.c, block by block. `none` is a panic.
use tron_boss_os.Base.{
  ℕ, Bool, true, false, ◌&&◌, not, Option, none, some, ◌==◌, leb, if◌then◌else◌, update,
}

-- The bytes of a block
abbrev pub Bytes : Type 0
Bytes = ℕ → ℕ

-- `flags` bit by bit: B_BUSY, B_VALID, B_DIRTY. The links are fields of the cache in Bio.
pub record Buf : Type 0 where
  pub busy : Bool
  pub valid : Bool
  pub dirty : Bool
  pub dev : ℕ
  pub blockno : ℕ
  pub bytes : Bytes

pub record Memdisk : Type 0 where
  pub disksize : ℕ
  pub blocks : ℕ → Bytes

-- The guards of iderw
abbrev pub is_served : Buf → Memdisk → Bool
is_served b d =
    b.busy && not (b.valid && not b.dirty) && (b.dev == 1) && not (leb d.disksize b.blockno)

-- The transfer behind the guards
abbrev pub transfer : Buf → Memdisk → Buf × Memdisk
transfer b d =
    if b.dirty
    then (
      record b { dirty = false; valid = true },
      record d { blocks = update d.blocks b.blockno b.bytes },
    )
    else (record b { bytes = d.blocks b.blockno; valid = true }, d)

unfoldable pub iderw : Buf → Memdisk → Option (Buf × Memdisk)
iderw b d = if is_served b d then some (transfer b d) else none
