-- ===== src/Strings.antt =====
-- lib/string: the C string functions, over any memory that reads and writes bytes.
mod Tests
pub mod Compare
pub mod Reverse
pub mod Fill
pub mod Text
pub mod Lens
use torch_os.Base.{
  ℕ, zero, suc, ◌+◌, ◌-◌, ◌/◌, ◌^◌, not, ◌==◌, ltb, if◌then◌else◌, u8, Outcome, ok, out_of_fuel,
  ◌>>=◌,
}
use torch_os.Base.Int.{ℤ, pos, sub_ℕ}
use torch_os.Hardware.Bus.{Bus}

-- A walk to a terminator passes each of the 2 ^ 32 addresses at most once.
abbrev pub addresses : ℕ
addresses = 2 ^ 32

module _ {S : Type 0} (bus : Bus S) where
  -- `for (size_t i = 0; i < size; i++) buf[i] = (unsigned char) value;` at `i`
  unfoldable pub memset_from : (left buf value i : ℕ) → S → Outcome S
  memset_from zero buf value i s = ok s
  memset_from (suc left) buf value i s = do
    s1 ← bus.write (buf + i) (u8 value) s
    memset_from left buf value (i + 1) s1

  unfoldable pub memset : (bufptr value size : ℕ) → S → Outcome (ℕ × S)
  unfolding memset_from
  memset bufptr value size s = do s1 ← memset_from size bufptr value 0 s; ok (bufptr, s1)

  -- `while (num--) { *d++ = *s++; }`
  pub memcpy_loop : (num d src : ℕ) → S → Outcome S
  memcpy_loop zero d src s = ok s
  memcpy_loop (suc num) d src s = do
    c ← bus.read src s
    s1 ← bus.write d c s
    memcpy_loop num (d + 1) (src + 1) s1

  unfoldable pub memcpy : (destination source num : ℕ) → S → Outcome (ℕ × S)
  unfolding memcpy_loop
  memcpy destination source num s = do
    s1 ← memcpy_loop num destination source s
    ok (destination, s1)

  -- `while (str[len]) len++;`
  pub strlen_from : (fuel str len : ℕ) → S → Outcome ℕ
  strlen_from zero str len s = out_of_fuel
  strlen_from (suc fuel) str len s = do
    c ← bus.read (str + len) s
    let rest = strlen_from fuel str (len + 1) s
    if c == 0 then ok len else rest

  unfoldable pub strlen : ℕ → S → Outcome ℕ
  unfolding strlen_from
  strlen str s = strlen_from addresses str 0 s

  -- `while (*destination++ = *source++);` copies the terminator too, and then stops.
  pub strcpy_loop : (fuel destination source : ℕ) → S → Outcome S
  strcpy_loop zero destination source s = out_of_fuel
  strcpy_loop (suc fuel) destination source s = do
    c ← bus.read source s
    s1 ← bus.write destination c s
    let rest = strcpy_loop fuel (destination + 1) (source + 1) s1
    if c == 0 then ok s1 else rest

  unfoldable pub strcpy : (destination source : ℕ) → S → Outcome (ℕ × S)
  unfolding strcpy_loop
  strcpy destination source s = do
    s1 ← strcpy_loop addresses destination source s
    ok (destination, s1)

  -- The difference of the first bytes that differ, as `unsigned char`s; 0 if there are none.
  unfoldable pub strncmp : (s1 s2 n : ℕ) → S → Outcome ℤ
  strncmp s1 s2 zero s = ok (pos 0)
  strncmp s1 s2 (suc n) s = do
    c1 ← bus.read s1 s
    c2 ← bus.read s2 s
    let rest = strncmp (s1 + 1) (s2 + 1) n s
    if not (c1 == c2) then ok (sub_ℕ c1 c2) else rest

  -- `for (int i = 0; i < len/2; i++)` swaps bytes `i` and `len - 1 - i`.
  pub strrev_from : (left str len i : ℕ) → S → Outcome S
  strrev_from zero str len i s = ok s
  strrev_from (suc left) str len i s = do
    temp ← bus.read (str + i) s
    other ← bus.read (str + (len - 1 - i)) s
    s1 ← bus.write (str + i) other s
    s2 ← bus.write (str + (len - 1 - i)) temp s1
    strrev_from left str len (i + 1) s2

  unfoldable pub strrev : ℕ → S → Outcome S
  unfolding strlen strrev_from
  strrev str s = do len ← strlen str s; strrev_from (len / 2) str len 0 s
