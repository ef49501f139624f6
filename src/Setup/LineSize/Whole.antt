-- ===== src/Setup/LineSize/Whole.antt =====
-- `line_test` of src/lib_mem.c on the memory that `line_initialize` leaves.
use qnx_lmbench_mods.Clock.{Clock}
use qnx_lmbench_mods.Double.{Double}
use qnx_lmbench_mods.Mem.{line_initialize as line_chain}
