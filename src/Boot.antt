-- ===== src/Boot.antt =====
-- kernel/kernel.c: the checks of the boot information, and the main function.
mod Tests
pub mod Check
use torch_os.Base.{
  ℕ, zero, suc, ◌+◌, ◌==◌, not, ltb, if◌then◌else◌, add32, bit_and, Outcome, ok, panic, out_of_fuel,
  ◌>>=◌, ◌>>◌, panic_if,
}
use torch_os.Hardware.Bus.{Bus}
use torch_os.Memory.Machine.{kernel_end}
use torch_os.Memory.Allocator.{Allocator}
use torch_os.Filesystem.Store.{Filesystem}
use torch_os.Filesystem.Nodes.{addresses}
use torch_os.Filesystem.Ramdisk.{word_at, init_filesystem}

-- The fields of `multiboot_info_t` that the kernel reads; `mem_lower` and `mem_upper` it only logs.
pub record BootInfo : Type 0 where
  pub flags : ℕ
  pub mem_lower : ℕ
  pub mem_upper : ℕ
  pub mods_count : ℕ
  pub mods_addr : ℕ
  pub mmap_length : ℕ
  pub mmap_addr : ℕ

abbrev pub multiboot_bootloader_magic : ℕ
multiboot_bootloader_magic = 0x2BADB002

abbrev pub multiboot_info_mem_map : ℕ
multiboot_info_mem_map = 0x40

module _ {S : Type 0} (bus : Bus S) where
  -- The loop over the map of memory, whose fields are logged only.
  unfoldable pub walk_map : (fuel map end : ℕ) → S → Outcome (Unit {0})
  walk_map zero map end s = out_of_fuel
  walk_map (suc fuel) map end s =
      let rest = λ (next : ℕ). walk_map fuel next end s in
      if ltb map end then (do size ← word_at bus map s; rest (add32 (add32 map size) 4)) else ok tt

  -- `mods_count` is unsigned: it is at most 0 if it is 0.
  unfoldable pub check_multiboot_info : BootInfo → (magic : ℕ) → S → Outcome (Unit {0})
  check_multiboot_info mbd magic s = do
    panic_if (not (magic == multiboot_bootloader_magic)) "Kernel Panic due to Incorrect Magic"
    (if bit_and mbd.flags multiboot_info_mem_map == 0
        then ok tt
        else walk_map addresses mbd.mmap_addr (add32 mbd.mmap_addr mbd.mmap_length) s)
    panic_if (mbd.mods_count == 0) "Module counter shows no ramdisk present"

-- `test`, `test_data` and `test_buffer` are the arrays of `init_filesystem`. What stands behind
-- `panic("stop")` is never run.
unfoldable pub kmain :
    {S : Type 0}
    → Bus S
    → Allocator S
    → (test test_data test_buffer : ℕ) → BootInfo
    → (magic : ℕ) → Filesystem S
    → Outcome (Filesystem S)
unfolding check_multiboot_info
kmain bus allocator test test_data test_buffer mbd magic s = do
  check_multiboot_info bus mbd magic s.memory
  initrd_start ← word_at bus mbd.mods_addr s.memory
  initrd_end ← word_at bus (add32 mbd.mods_addr 4) s.memory
  panic_if (ltb kernel_end initrd_end) "Ramdisk is bleeding past the kernel area!"
  s1 ← init_filesystem bus allocator test test_data test_buffer initrd_start initrd_end s
  panic "stop"
