-- ===== src/Config.antt =====
-- The memory and queue limits of a run: include/config/pipeline_config.h and
-- src/config/pipeline_config.cpp.
pub mod Validate
mod Tests
use io_uring_async_load_proc.Prelude.{
  ℕ, ◌-◌, ◌*◌, ◌/◌, ◌%◌, ◌^◌, Bool, not, ◌&&◌, ◌||◌, bit_and, ltb, ◌==◌,
}
use io_uring_async_load_proc.Exception.{
  Result, ok, throw, throw_if, ◌>>=◌, ◌>>◌, invalid_argument, overflow_error,
}

-- std::numeric_limits<std::size_t>::max() and sizeof(void*) of a 64-bit target.
abbrev pub size_max : ℕ
size_max = 2 ^ 64 - 1

abbrev pub pointer_size : ℕ
pointer_size = 8

pub record PipelineConfig : Type 0 where
  pub block_size : ℕ
  pub max_inflight_buffers : ℕ
  pub queue_depth : ℕ
  pub buffer_alignment : ℕ

-- The member initialisers of `PipelineConfig`.
abbrev pub default_config : PipelineConfig
default_config = record {
  block_size = 1024 * 1024;
  max_inflight_buffers = 8;
  queue_depth = 4;
  buffer_alignment = 4096;
}

unfoldable pub is_power_of_two : ℕ → Bool
is_power_of_two value = not (value == 0) && bit_and value (value - 1) == 0

unfoldable pub validate : PipelineConfig → Result (Unit {0})
validate c = do
  throw_if (c.block_size == 0) invalid_argument
  throw_if (c.max_inflight_buffers == 0) invalid_argument
  throw_if (c.queue_depth == 0) invalid_argument
  throw_if
      (not (is_power_of_two c.buffer_alignment) || not (c.buffer_alignment % pointer_size == 0))
      invalid_argument
  throw_if (not (c.block_size % c.buffer_alignment == 0)) invalid_argument
  throw_if (ltb (size_max / c.max_inflight_buffers) c.block_size) overflow_error

-- The product of two `size_t` wraps.
unfoldable pub buffer_pool_bytes : PipelineConfig → Result ℕ
buffer_pool_bytes c = do validate c; ok ((c.block_size * c.max_inflight_buffers) % 2 ^ 64)
