-- ===== src/Boot/Check.antt =====
-- How `kmain` ends.
use torch_os.Base.{
  ℕ, zero, suc, ◌+◌, ◌^◌, ◌≤◌, ◌<◌, ◌≡◌, ◌≢◌, inl, inr, refl, arith, ltb, true, false, ◌==◌,
  bit_and, add32, Outcome, ok, panic, ◌>>=◌, ◌>>◌, Bool-cases, panic_if,
}
use torch_os.Hardware.Ram.{Ram}
use torch_os.Hardware.Bus.{flat}
use torch_os.Memory.Machine.{kernel_end}
use torch_os.Memory.Allocator.{Allocator}
use torch_os.Filesystem.Store.{Filesystem}
use torch_os.Filesystem.Nodes.{addresses}
use torch_os.Filesystem.Ramdisk.{word_at, init_filesystem}
use torch_os.Boot.{
  BootInfo, multiboot_bootloader_magic, multiboot_info_mem_map, walk_map, check_multiboot_info,
  kmain,
}

-- The map of memory is `n` entries from `p` to `end`, each with its size, which does not count the
-- word that holds it.
abbrev pub IsMap : Ram → (n p end : ℕ) → Type 0
IsMap m zero p end = end ≤ p
IsMap m (suc n) p end =
    (size : ℕ) × (word_at flat p m ≡ ok size)
    × (p < end)
    × (p + size + 4 < 2 ^ 32)
    × IsMap m n (p + size + 4) end

walk_map-ok :
    (fuel n p end : ℕ) (m : Ram) → IsMap m n p end → n < fuel → walk_map flat fuel p end m ≡ ok tt
unfolding walk_map
walk_map-ok zero n p end m map enough = absurd (omega arith)
walk_map-ok (suc fuel) zero p end m map enough =
    let test : ltb p end ≡ false = ground arith in rw test refl
walk_map-ok (suc fuel) (suc n) p end m (size, word, more, small, rest) enough =
    let test : ltb p end ≡ true = ground arith in
    let next : add32 (add32 p size) 4 ≡ p + size + 4 = omega arith in
    rw (test, word, next) (walk_map-ok fuel n (p + size + 4) end m rest (omega arith))

-- By the boot information: a failed check, or the file system's start and then `panic("stop")`.
pub data Boots (magic mods_count initrd_end : ℕ) (files : Outcome (Filesystem Ram))
    : Outcome (Filesystem Ram) → Type 0 where
  wrong_magic :
      magic ≢ multiboot_bootloader_magic
      → Boots magic mods_count initrd_end files (panic "Kernel Panic due to Incorrect Magic")
  no_ramdisk :
      magic ≡ multiboot_bootloader_magic
      → mods_count ≡ 0
      → Boots magic mods_count initrd_end files (panic "Module counter shows no ramdisk present")
  too_far :
      magic ≡ multiboot_bootloader_magic
      → mods_count ≢ 0
      → kernel_end < initrd_end
      → Boots magic mods_count initrd_end files (panic "Ramdisk is bleeding past the kernel area!")
  stops :
      magic ≡ multiboot_bootloader_magic
      → mods_count ≢ 0
      → initrd_end ≤ kernel_end
      → Boots magic mods_count initrd_end files (files >>= λ s. panic "stop")

-- The checks of the boot information.
data Checks (magic mods_count : ℕ) : Outcome (Unit {0}) → Type 0 where
  bad_magic :
      magic ≢ multiboot_bootloader_magic
      → Checks magic mods_count (panic "Kernel Panic due to Incorrect Magic")
  no_module :
      magic ≡ multiboot_bootloader_magic
      → mods_count ≡ 0
      → Checks magic mods_count (panic "Module counter shows no ramdisk present")
  passes : magic ≡ multiboot_bootloader_magic → mods_count ≢ 0 → Checks magic mods_count (ok tt)

module _ (magic n : ℕ) (mbd : BootInfo) (m : Ram) (small : mbd.mmap_addr + mbd.mmap_length < 2 ^ 32)
    (map : IsMap m n mbd.mmap_addr (mbd.mmap_addr + mbd.mmap_length)) (few : n < 2 ^ 32) where
  modules-Checks :
      magic ≡ multiboot_bootloader_magic
      → Checks magic mbd.mods_count
          (panic_if (mbd.mods_count == 0) "Module counter shows no ramdisk present")
  modules-Checks right = elim (Bool-cases (mbd.mods_count == 0)) [
    | inl none ↦ rw none (no_module right (ground arith))
    | inr some_there ↦ rw some_there (passes right (λ e. ground arith))
  ]

  check_multiboot_info-Checks : Checks magic mbd.mods_count (check_multiboot_info flat mbd magic m)
  unfolding check_multiboot_info
  check_multiboot_info-Checks = elim (Bool-cases (magic == multiboot_bootloader_magic)) [
    | inr wrong ↦ rw wrong (bad_magic (λ e. ground arith))
    | inl right ↦
        let sum : add32 mbd.mmap_addr mbd.mmap_length ≡ mbd.mmap_addr + mbd.mmap_length =
          omega arith in
        let e : magic ≡ multiboot_bootloader_magic = ground arith in
        elim (Bool-cases (bit_and mbd.flags multiboot_info_mem_map == 0)) [
          | inl no_map ↦ rw (right, no_map) (modules-Checks e)
          | inr has_map ↦
              rw
                (
                  right,
                  has_map,
                  sum,
                  walk_map-ok addresses n mbd.mmap_addr (mbd.mmap_addr + mbd.mmap_length) m map few,
                )
                (modules-Checks e)
        ]
  ]

-- The part behind the checks.
abbrev behind :
    (mods_addr : ℕ) → (ℕ → ℕ → Outcome (Filesystem Ram)) → Ram → Outcome (Filesystem Ram)
behind mods_addr files m = do
  initrd_start ← word_at flat mods_addr m
  initrd_end ← word_at flat (add32 mods_addr 4) m
  panic_if (ltb kernel_end initrd_end) "Ramdisk is bleeding past the kernel area!"
  s1 ← files initrd_start initrd_end
  panic "stop"

module _ (magic mods_count mods_addr initrd_start initrd_end : ℕ) (m : Ram)
    (start : word_at flat mods_addr m ≡ ok initrd_start)
    (end : word_at flat (add32 mods_addr 4) m ≡ ok initrd_end)
    (files : ℕ → ℕ → Outcome (Filesystem Ram)) where
  behind-Boots :
      magic ≡ multiboot_bootloader_magic
      → mods_count ≢ 0
      → Boots magic mods_count initrd_end (files initrd_start initrd_end) (behind mods_addr files m)
  behind-Boots right some_there = elim (Bool-cases (ltb kernel_end initrd_end)) [
    | inl over ↦ rw (start, end, over) (too_far right some_there (ground arith))
    | inr fits ↦ rw (start, end, fits) (stops right some_there (ground arith))
  ]

  Checks-Boots :
      {r : Outcome (Unit {0})}
      → Checks magic mods_count r
      → Boots magic mods_count initrd_end
          (files initrd_start initrd_end)
          (r >> behind mods_addr files m)
  Checks-Boots (bad_magic wrong) = wrong_magic wrong
  Checks-Boots (no_module right none) = no_ramdisk right none
  Checks-Boots (passes right some_there) = behind-Boots right some_there

-- With a map of memory whose entries end where the boot information says, `kmain` panics on a
-- wrong magic number, else on a module count of 0, else on a ramdisk that ends behind the kernel's
-- area, and otherwise starts the file system and ends as that does, or with `panic("stop")` behind
-- it.
pub kmain-Boots :
    (allocator : Allocator Ram) (test test_data test_buffer magic n initrd_start initrd_end : ℕ)
    (mbd : BootInfo) (s : Filesystem Ram)
    → mbd.mmap_addr + mbd.mmap_length < 2 ^ 32
    → IsMap s.memory n mbd.mmap_addr (mbd.mmap_addr + mbd.mmap_length)
    → n < 2 ^ 32
    → word_at flat mbd.mods_addr s.memory ≡ ok initrd_start
    → word_at flat (add32 mbd.mods_addr 4) s.memory ≡ ok initrd_end
    → Boots magic mbd.mods_count initrd_end
        (init_filesystem flat allocator test test_data test_buffer initrd_start initrd_end s)
        (kmain flat allocator test test_data test_buffer mbd magic s)
unfolding kmain
kmain-Boots allocator test test_data test_buffer magic n initrd_start initrd_end mbd s small map few
      start end =
    Checks-Boots magic mbd.mods_count mbd.mods_addr initrd_start initrd_end s.memory start end
      (λ a b. init_filesystem flat allocator test test_data test_buffer a b s)
      (check_multiboot_info-Checks magic n mbd s.memory small map few)
