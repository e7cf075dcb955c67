-- ===== src/Timer/Elapsed.antt =====
-- `elapsed_time` against the ticks that have passed on a 32-bit counter.
use torch_os.Base.{ℕ, ◌+◌, ◌-◌, ◌%◌, ◌^◌, ◌<◌, ◌≡◌, arith, ltb, if◌then◌else◌}
use torch_os.Timer.{elapsed_time}

-- The ticks from `start` to `end` on a counter that wraps at 2 ^ 32.
abbrev pub ticks_between : ℕ → ℕ → ℕ
ticks_between start end = (end + 2 ^ 32 - start) % 2 ^ 32

-- For 32-bit counter values `elapsed_time` gives the ticks between them, but one less if the
-- counter has wrapped.
pub elapsed_time-ticks_between :
    (start end : ℕ)
    → start < 2 ^ 32
    → end < 2 ^ 32
    → elapsed_time start end + (if ltb end start then 1 else 0) ≡ ticks_between start end
unfolding elapsed_time
elapsed_time-ticks_between start end hs he = ground arith
