-- ===== src/Disk.antt =====
-- The admission of work on a volume by its free space, crates/media/src/disk.rs on Unix. A `u64` or `u128` is a
-- number, and `statvfs` is a parameter.
pub mod Budget
mod Tests
use sooqa.Prelude.{
  ℕ, ◌+◌, ◌-◌, ◌*◌, ◌^◌, String, Bool, false, not, leb, ltb, if◌then◌else◌, Option, none, some,
  Result, ok, err, map_err, ok_or, ◌>>=◌,
}

abbrev pub max_concurrent_workspace_operations : ℕ
max_concurrent_workspace_operations = 2

-- `saturating_mul` on `u64`
unfoldable pub concurrent_operation_budget : ℕ → ℕ → ℕ
concurrent_operation_budget operation_bytes concurrency =
    let product = operation_bytes * concurrency in
    if ltb product (2 ^ 64) then product else 2 ^ 64 - 1

pub record DiskSpace : Type 0 where
  pub available_bytes : ℕ

pub data DiskAdmissionError : Type 0 where
  -- the path and a message; the path, the free bytes, the reserve and the bytes required
  stat : String → String → DiskAdmissionError
  insufficient : String → ℕ → ℕ → ℕ → DiskAdmissionError

-- `checked_add` on `u64`
unfoldable pub admits : DiskSpace → ℕ → ℕ → Bool
admits space reserve_bytes required_bytes =
    if ltb (reserve_bytes + required_bytes) (2 ^ 64)
    then leb (reserve_bytes + required_bytes) space.available_bytes
    else false

unfoldable pub check : DiskSpace → String → ℕ → ℕ → Result DiskAdmissionError DiskSpace
check space path reserve_bytes required_bytes =
    if not (admits space reserve_bytes required_bytes)
    then err (insufficient path space.available_bytes reserve_bytes required_bytes)
    else ok space

-- What the code reads of `nix::sys::statvfs::Statvfs`.
pub record Statvfs : Type 0 where
  pub blocks_available : ℕ
  pub fragment_size : ℕ

-- `checked_mul` on `u128`, and `u64::try_from`
abbrev pub available : Statvfs → Option ℕ
available stats =
    let product = stats.blocks_available * stats.fragment_size in
    if ltb product (2 ^ 128) then if ltb product (2 ^ 64) then some product else none else none

module _ (statvfs : String → Result String Statvfs) where
  unfoldable pub filesystem_space : String → Result DiskAdmissionError DiskSpace
  filesystem_space path = do
    stats ← map_err (stat path) (statvfs path)
    available_bytes ←
        ok_or (available stats) (stat path "filesystem free-space value overflowed u64")
    ok (record { available_bytes = available_bytes })

  unfoldable pub check_disk_space : String → ℕ → ℕ → Result DiskAdmissionError DiskSpace
  check_disk_space path reserve_bytes required_bytes = do
    space ← filesystem_space path
    check space path reserve_bytes required_bytes
