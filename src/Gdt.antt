-- ===== src/Gdt.antt =====
-- kernel/gdt.c: the segment descriptors.
mod Tests
pub mod Fields
use torch_os.Base.{
  ℕ, ◌+◌, ◌-◌, ◌*◌, ◌/◌, ◌^◌, List, [], ◌∷◌, set, replicate, bit_and, bit_or, u8, u16,
}

abbrev pub seg_code_pl0 : ℕ
seg_code_pl0 = 0x9A

abbrev pub seg_data_pl0 : ℕ
seg_data_pl0 = 0x92

abbrev pub seg_code_pl3 : ℕ
seg_code_pl3 = 0xFA

abbrev pub seg_data_pl3 : ℕ
seg_data_pl3 = 0xF2

abbrev pub gdt_num_entries : ℕ
gdt_num_entries = 5

pub record GdtEntry : Type 0 where
  pub limit_low : ℕ
  pub base_low : ℕ
  pub base_middle : ℕ
  pub access : ℕ
  pub granularity : ℕ
  pub base_high : ℕ

pub record GdtPtr : Type 0 where
  pub size : ℕ
  pub address : ℕ

pub record Gdt : Type 0 where
  pub ptr : GdtPtr
  pub entries : List GdtEntry

-- Each field is cut to its width.
unfoldable pub gdt_entry : (base limit access granularity : ℕ) → GdtEntry
gdt_entry base limit access granularity =
    let high_limit = u8 (bit_and (limit / 2 ^ 16) 0x0F) in
    record {
      limit_low = u16 (bit_and limit 0xFFFF);
      base_low = u16 (bit_and base 0xFFFF);
      base_middle = u8 (bit_and (base / 2 ^ 16) 0xFF);
      access = u8 access;
      granularity = u8 (bit_or high_limit (bit_and granularity 0xF0));
      base_high = u8 (bit_and (base / 2 ^ 24) 0xFF);
    }

unfoldable pub gdt_set_gate :
    (num base limit access granularity : ℕ) → List GdtEntry → List GdtEntry
unfolding gdt_entry
gdt_set_gate num base limit access granularity entries =
    set entries num (gdt_entry base limit access granularity)

-- `address` is where the linker puts `gdt_entries`; an entry has 8 bytes.
unfoldable pub init_gdt : (address : ℕ) → List GdtEntry → Gdt
unfolding gdt_set_gate
init_gdt address entries =
    let e0 = gdt_set_gate 0 0 0 0 0 entries in
    let e1 = gdt_set_gate 1 0 0xFFFFFFFF seg_code_pl0 0xCF e0 in
    let e2 = gdt_set_gate 2 0 0xFFFFFFFF seg_data_pl0 0xCF e1 in
    let e3 = gdt_set_gate 3 0 0xFFFFFFFF seg_code_pl3 0xCF e2 in
    let e4 = gdt_set_gate 4 0 0xFFFFFFFF seg_data_pl3 0xCF e3 in
    record { ptr = record { size = 8 * gdt_num_entries - 1; address = address }; entries = e4 }
