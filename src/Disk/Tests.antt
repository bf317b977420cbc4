-- ===== src/Disk/Tests.antt =====
-- The check of a volume for two concurrent operations.
use sooqa.Prelude.{◌+◌, ◌*◌, ◌^◌, ◌≤◌, ◌<◌, ◌≡◌, ◌↔◌, refl, arith, String, Result, ok, err}
use sooqa.Disk.{
  DiskSpace, DiskAdmissionError, Statvfs, concurrent_operation_budget, check_disk_space,
  filesystem_space, check, admits, insufficient,
}
use sooqa.Disk.Budget.{check_disk_space_iff}

abbrev stats : Statvfs
stats = record { blocks_available = 30; fragment_size = 4 }

abbrev statvfs : String → Result String Statvfs
statvfs path = ok stats

abbrev no_space : Result DiskAdmissionError DiskSpace
no_space = err (insufficient "/work" 120 21 100)

too_little : check_disk_space statvfs "/work" 21 (concurrent_operation_budget 50 2) ≡ no_space
unfolding check_disk_space filesystem_space check admits concurrent_operation_budget
too_little = refl

check_disk_space_iff_example :
    check_disk_space statvfs "/work" 20 (concurrent_operation_budget 50 2)
      ≡ ok (record { available_bytes = 30 * 4 })
    ↔ (30 * 4 < 2 ^ 64) × (20 + 50 * 2 ≤ 30 * 4)
check_disk_space_iff_example =
    check_disk_space_iff statvfs "/work" stats 20 50 2 refl (ground arith)
