-- ===== src/Window/Sizes.antt =====
-- Arguments for which no byte count of the loops wraps around: requests have a size, and the total
-- with three windows stays below 2 ^ 63.
use ipc_bench.Prelude.{◌+◌, ◌*◌, ◌^◌, ◌<◌}
use ipc_bench.Common.Arguments.{Arguments}
use ipc_bench.Window.{req_size, max_bytes, max_outstanding_bytes}

pub record IsSmall (args : Arguments) : Type 0 where
  pub some_bytes : 0 < req_size args
  pub no_wrap : max_bytes args + 3 * max_outstanding_bytes args < 2 ^ 63
