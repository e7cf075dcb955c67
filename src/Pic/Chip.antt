-- ===== src/Pic/Chip.antt =====
-- The 8259A controller, as its data sheet describes it: the specification that `init_pic` and
-- `pic_send_eoi` are written for. After the first initialization word the chip takes three more
-- on its data port; then a write to the data port sets the mask.
use torch_os.Base.{
  ℕ, ◌+◌, ◌-◌, ◌/◌, ◌^◌, ◌&&◌, ap, Option, some, none, Bool-cases, inl, inr, ◌%◌, ◌<◌, ◌≤◌, ◌≡◌,
  refl, arith, ltb, leb, ◌==◌, if◌then◌else◌, Bool, false,
}
use native.Mathlib.Nat.{zero-div}
use torch_os.Pic.{Ports, pic_send_eoi, init_pic}

pub data Stage : Type 0 where
  ready want_offset want_cascade want_mode : Stage

pub record Chip : Type 0 where
  pub stage : Stage
  -- the vector of the chip's line 0
  pub offset : ℕ
  pub cascade : ℕ
  pub mode : ℕ
  pub mask : ℕ
  -- the line being served, if any
  pub busy : Bool

-- Bit 4 of a command starts the initialization; 0x20 is the end of interrupt.
abbrev pub command : ℕ → Chip → Chip
command v c =
    if v / 16 % 2 == 1
    then record c { stage = want_offset; mask = 0 }
    else if v == 0x20
    then record c { busy = false }
    else c

abbrev pub data_word : Stage → ℕ → Chip → Chip
data_word ready v c = record c { mask = v }
data_word want_offset v c = record c { stage = want_cascade; offset = v }
data_word want_cascade v c = record c { stage = want_mode; cascade = v }
data_word want_mode v c = record c { stage = ready; mode = v }

pub record Pair : Type 0 where
  pub master : Chip
  pub slave : Chip

abbrev pub write_port : (port value : ℕ) → Pair → Pair
write_port port v p =
    if port == 0x20
    then record p { master = command v p.master }
    else if port == 0x21
    then record p { master = data_word p.master.stage v p.master }
    else if port == 0xA0
    then record p { slave = command v p.slave }
    else if port == 0xA1
    then record p { slave = data_word p.slave.stage v p.slave }
    else p

abbrev pub chips : Ports Pair
chips = record { outb = write_port }

-- The interrupt vector that line `irq` of the pair raises.
abbrev pub vector : Pair → ℕ → ℕ
vector p irq = if ltb irq 8 then p.master.offset + irq else p.slave.offset + (irq - 8)

-- The chip takes interrupts for the processor's mode, bit 0 of its last word, and lets line `i`
-- through.
abbrev takes : Chip → ℕ → Bool
takes c i = c.mode % 2 == 1 && c.mask / 2 ^ i % 2 == 0

-- The interrupt that line `irq` of the pair gives the processor, if it gives one: a line of the slave
-- goes through the master's line that the slave is told, which the master is told to have a slave.
abbrev pub raised : Pair → ℕ → Option ℕ
raised p irq =
    if ltb irq 8
    then (if takes p.master irq then some (vector p irq) else none)
    else if takes p.slave (irq - 8)
        && takes p.master p.slave.cascade
        && p.master.cascade / 2 ^ p.slave.cascade % 2 == 1
    then some (vector p irq)
    else none

pub init_pic-vector :
    (p : Pair) (irq : ℕ)
    → irq < 16
    → let p' = init_pic chips p in
      (vector p' irq ≡ 32 + irq)
      × (p'.master.stage ≡ ready)
      × (p'.slave.stage ≡ ready)
      × (p'.master.mask ≡ 0)
      × (p'.slave.mask ≡ 0)
      × (raised p' irq ≡ some (32 + irq))
unfolding init_pic
init_pic-vector p irq h = (
  ground arith,
  refl,
  refl,
  refl,
  refl,
  elim (Bool-cases (ltb irq 8)) [
    | inl low ↦ rw (low, zero-div (2 ^ irq)) refl
    | inr high ↦
        let line : 8 ≤ irq = ground arith in
        rw (high, zero-div (2 ^ (irq - 8))) (ap some (omega arith))
  ],
)

-- `pic_send_eoi` ends the service of the master, and of the slave exactly for lines from 8 on.
pub pic_send_eoi-busy :
    (p : Pair) (irq : ℕ)
    → let p' = pic_send_eoi chips irq p in
      (p'.master.busy ≡ false) × (p'.slave.busy ≡ (if leb 8 irq then false else p.slave.busy))
unfolding pic_send_eoi
pic_send_eoi-busy p irq = (ground arith, ground arith)
