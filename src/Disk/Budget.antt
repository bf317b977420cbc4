-- ===== src/Disk/Budget.antt =====
-- The check admits work exactly when the reserve and all concurrent operations fit.
use sooqa.Prelude.{
  ℕ, ◌+◌, ◌*◌, ◌^◌, ◌≤◌, ◌<◌, ◌≡◌, ◌↔◌, refl, arith, ltb, Bool-cases, inl, inr, String, true,
  Result, ok,
}
use sooqa.Disk.{
  DiskSpace, Statvfs, concurrent_operation_budget, admits, check, filesystem_space,
  check_disk_space,
}

-- With a reserve, a saturated budget is never admitted, so the sum is the true one.
admitted :
    (space : DiskSpace) (reserve operation n : ℕ)
    → 0 < reserve
    → space.available_bytes < 2 ^ 64
    → admits space reserve (concurrent_operation_budget operation n) ≡ true
    → reserve + operation * n ≤ space.available_bytes
unfolding admits concurrent_operation_budget
admitted space reserve operation n some_reserve fits h = ground arith

admits_all :
    (space : DiskSpace) (reserve operation n : ℕ)
    → space.available_bytes < 2 ^ 64
    → reserve + operation * n ≤ space.available_bytes
    → admits space reserve (concurrent_operation_budget operation n) ≡ true
unfolding admits concurrent_operation_budget
admits_all space reserve operation n fits h = ground arith

-- For a positive reserve and a volume whose statistics are read, the check with the budget of n concurrent
-- operations succeeds exactly when the free bytes fit a u64 and hold the reserve and n operations.
pub check_disk_space_iff :
    (statvfs : String → Result String Statvfs) (path : String) (stats : Statvfs)
    (reserve operation n : ℕ)
    → statvfs path ≡ ok stats
    → 0 < reserve
    → check_disk_space statvfs path reserve (concurrent_operation_budget operation n)
        ≡ ok (record { available_bytes = stats.blocks_available * stats.fragment_size })
      ↔ (stats.blocks_available * stats.fragment_size < 2 ^ 64)
        × (reserve + operation * n ≤ stats.blocks_available * stats.fragment_size)
unfolding check_disk_space filesystem_space check
check_disk_space_iff statvfs path stats reserve operation n read some_reserve =
    elim (Bool-cases (ltb (stats.blocks_available * stats.fragment_size) (2 ^ 64))) [
      | inl fits ↦
          let large : ltb (stats.blocks_available * stats.fragment_size) (2 ^ 128) ≡ true =
            ground arith in
          let space : DiskSpace = record {
            available_bytes = stats.blocks_available * stats.fragment_size;
          } in
          elim (Bool-cases (admits space reserve (concurrent_operation_budget operation n))) [
            | inl enough ↦
                rw (read, large, fits, enough, check_disk_space, filesystem_space, check)
                  (
                    (λ _. (
                      ground arith,
                      admitted space reserve operation n some_reserve (ground arith) enough,
                    )),
                    λ _. refl,
                  )
            | inr short ↦
                rw (read, large, fits, short, check_disk_space, filesystem_space, check)
                  (
                    (λ h. absurd (cc h)),
                    λ h. absurd (cc (short, admits_all space reserve operation n h.0 h.1)),
                  )
          ]
      | inr wide ↦
          elim (Bool-cases (ltb (stats.blocks_available * stats.fragment_size) (2 ^ 128))) [
            | inl e ↦
                rw (read, e, wide, check_disk_space, filesystem_space)
                  ((λ h. absurd (cc h)), λ h. absurd (ground arith))
            | inr e ↦
                rw (read, e, check_disk_space, filesystem_space)
                  ((λ h. absurd (cc h)), λ h. absurd (ground arith))
          ]
    ]
