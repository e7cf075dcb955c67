-- ===== src/Pic/Tests.antt =====
-- The controllers' theorems at work.
use torch_os.Base.{true}
use torch_os.Pic.Chip.{Chip, Pair, ready}

abbrev serving : Chip
serving = record { stage = ready; offset = 8; cascade = 0; mode = 0; mask = 0xFF; busy = true }

abbrev pair : Pair
pair = record { master = serving; slave = serving }
