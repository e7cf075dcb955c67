-- ===== src/Boot/Tests.antt =====
-- The main function on boot information with one module.
use torch_os.Base.{ℕ, ◌≡◌, refl, arith, none, ok}
use torch_os.Hardware.Ram.{Ram, load8}
use torch_os.Hardware.Bus.{flat}
use torch_os.Memory.Allocator.{Allocator}
use torch_os.Filesystem.Store.{Filesystem}
use torch_os.Filesystem.Ramdisk.{word_at, init_filesystem}
use torch_os.Boot.{BootInfo, kmain}
use torch_os.Boot.Check.{Boots, kmain-Boots}

abbrev info : BootInfo
info = record {
  flags = 0x40;
  mem_lower = 0;
  mem_upper = 0;
  mods_count = 1;
  mods_addr = 64;
  mmap_length = 0;
  mmap_addr = 128;
}

abbrev nothing_there : Filesystem Ram
nothing_there = record { memory = λ a. 0; nodes = λ p. none; dirents = λ p. none; root = 0 }

abbrev fixed : Allocator Ram
fixed = record { kalloc = λ size m. ok (56, m) }

zero_word : (a : ℕ) → word_at flat a nothing_there.memory ≡ ok 0
unfolding word_at load8
zero_word a = refl

kmain-Boots_example :
    Boots 0x2BADB002 1 0
      (init_filesystem flat fixed 100 200 300 0 0 nothing_there)
      (kmain flat fixed 100 200 300 info 0x2BADB002 nothing_there)
kmain-Boots_example =
    kmain-Boots fixed 100 200 300 0x2BADB002 0 0 0 info nothing_there (omega arith) (omega arith)
      (omega arith) (zero_word 64) (zero_word 68)
