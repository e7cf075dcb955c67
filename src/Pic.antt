-- ===== src/Pic.antt =====
-- kernel/pic.c: the two interrupt controllers. A write to a port is an operation of the machine
-- that the code runs on; `io_wait` is a pause.
mod Tests
pub mod Chip
use torch_os.Base.{ℕ, ◌+◌, leb, if◌then◌else◌, bit_or}

-- What the drivers use of the machine: `outb` of kernel/includes/io.h.
pub record Ports (S : Type 0) : Type 0 where
  pub outb : (port value : ℕ) → S → S

abbrev pub pic1_command : ℕ
pic1_command = 0x20

abbrev pub pic1_data : ℕ
pic1_data = pic1_command + 1

abbrev pub pic2_command : ℕ
pic2_command = 0xA0

abbrev pub pic2_data : ℕ
pic2_data = pic2_command + 1

abbrev pub pic1_offset : ℕ
pic1_offset = 0x20

abbrev pub pic2_offset : ℕ
pic2_offset = 0x28

abbrev pub pic_eoi : ℕ
pic_eoi = 0x20

abbrev pub icw1_icw4 : ℕ
icw1_icw4 = 0x01

abbrev pub icw1_init : ℕ
icw1_init = 0x10

abbrev pub icw4_8086 : ℕ
icw4_8086 = 0x01

module _ {S : Type 0} (ports : Ports S) where
  open ports use {outb}

  unfoldable pub pic_send_eoi : (irq : ℕ) → S → S
  pic_send_eoi irq s =
      outb pic1_command pic_eoi (if leb 8 irq then outb pic2_command pic_eoi s else s)

  unfoldable pub init_pic : S → S
  init_pic s =
      let s1 = outb pic1_command (bit_or icw1_init icw1_icw4) s in
      let s2 = outb pic2_command (bit_or icw1_init icw1_icw4) s1 in
      let s3 = outb pic1_data pic1_offset s2 in
      let s4 = outb pic2_data pic2_offset s3 in
      let s5 = outb pic1_data 4 s4 in
      let s6 = outb pic2_data 2 s5 in
      let s7 = outb pic1_data icw4_8086 s6 in
      let s8 = outb pic2_data icw4_8086 s7 in
      let s9 = outb pic1_data 0x00 s8 in outb pic2_data 0x00 s9
