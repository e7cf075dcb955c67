-- ===== src/Memory/Entry.antt =====
-- The entries of page directories and page tables.
use torch_os.Base.{
  ℕ, ◌+◌, ◌-◌, ◌*◌, ◌/◌, ◌%◌, ◌^◌, ◌<◌, ◌≡◌, ◌∙◌, Bool, not, ◌==◌, bit_and, bit_or, arith,
}
use torch_os.Base.Bits.{bit_and_low, bit_and_shift, bit_or_sum, bit_or-two_pow}
use torch_os.Hardware.Mmu.{present, page_of, table_index}

unfoldable pub new_page_directory_entry : ℕ
new_page_directory_entry = 0x00000000

unfoldable pub get_page_table_address : ℕ → ℕ
get_page_table_address entry = bit_and entry 0xFFFFF000

unfoldable pub get_page_table_index : ℕ → ℕ
get_page_table_index virtual_address = bit_and (virtual_address / 2 ^ 12) 0x03FF

-- An `int` that is not 0 is the `bool` true.
unfoldable pub is_present : ℕ → Bool
is_present entry = not (bit_and entry (1 * 2 ^ 0) == 0)

unfoldable pub set_present : ℕ → ℕ
set_present entry = bit_or entry (1 * 2 ^ 0)

-- `~(1 << 0)` on 32 bits.
unfoldable pub unset_present : ℕ → ℕ
unset_present entry = bit_and entry (2 ^ 32 - 1 - 1 * 2 ^ 0)

unfoldable pub set_read_write : ℕ → ℕ
set_read_write entry = bit_or entry (1 * 2 ^ 1)

unfoldable pub set_user_mode : ℕ → ℕ
set_user_mode entry = bit_or entry (1 * 2 ^ 2)

-- The mask of `get_page_table_address` leaves the page's address that the processor uses.
pub get_page_table_address_lem : (e : ℕ) → e < 2 ^ 32 → get_page_table_address e ≡ page_of e
unfolding get_page_table_address
get_page_table_address_lem e h =
    bit_and_shift 12 e 0xFFFFF ∙ omega (arith, bit_and_low 20 (e / 2 ^ 12))

pub get_page_table_index_lem : (va : ℕ) → get_page_table_index va ≡ table_index va
unfolding get_page_table_index
get_page_table_index_lem va = bit_and_low 10 (va / 2 ^ 12)

pub is_present_lem : (e : ℕ) → is_present e ≡ present e
unfolding is_present
is_present_lem e = ground (arith, bit_and_low 1 e)

pub unset_present_lem : (e : ℕ) → e < 2 ^ 32 → unset_present e ≡ e - e % 2
unfolding unset_present
unset_present_lem e h = bit_and_shift 1 e 0x7FFFFFFF ∙ omega (arith, bit_and_low 31 (e / 2))

-- The flags of an entry whose low bits are clear are added.
pub flags_lem : (p flags : ℕ) → p % 2 ^ 12 ≡ 0 → flags < 2 ^ 12 → bit_or p flags ≡ p + flags
flags_lem p flags h small =
    let split : p ≡ p / 2 ^ 12 * 2 ^ 12 = omega arith in
    rw split (bit_or_sum 12 (p / 2 ^ 12) flags small ∙ omega arith)

pub set_present_read_write : (p : ℕ) → p % 2 ^ 12 ≡ 0 → set_read_write (set_present p) ≡ p + 3
unfolding set_read_write set_present
set_present_read_write p h =
    rw (flags_lem p 1 h (omega arith)) (bit_or-two_pow (p + 1) 1 (omega arith) ∙ omega arith)
