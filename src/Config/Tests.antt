-- ===== src/Config/Tests.antt =====
-- Runs of pipeline_config.cpp on concrete configurations, and instances of its theorems.
use io_uring_async_load_proc.Prelude.{◌≡◌, ◌↔◌, ◌*◌, refl}
use io_uring_async_load_proc.Config.Validate.{IsValid, validate_iff, buffer_pool_bytes_iff}
use io_uring_async_load_proc.Exception.{ok, throw, invalid_argument, overflow_error}
use io_uring_async_load_proc.Config.{default_config, is_power_of_two, validate, buffer_pool_bytes}

default_accepted : validate default_config ≡ ok tt
unfolding validate is_power_of_two
default_accepted = refl

default_bytes : buffer_pool_bytes default_config ≡ ok 8_388_608
unfolding buffer_pool_bytes validate is_power_of_two
default_bytes = refl

odd_alignment : validate (record default_config { buffer_alignment = 12 }) ≡ throw invalid_argument
unfolding validate is_power_of_two
odd_alignment = refl

too_large :
    validate (record default_config { max_inflight_buffers = 17_592_186_044_416 })
    ≡ throw overflow_error
unfolding validate is_power_of_two
too_large = refl

validate_iff_example : (validate default_config ≡ ok tt) ↔ IsValid default_config
validate_iff_example = validate_iff default_config

buffer_pool_bytes_iff_example : (buffer_pool_bytes default_config ≡ ok 8_388_608) ↔ (
    IsValid default_config
    × (8_388_608 ≡ default_config.block_size * default_config.max_inflight_buffers))
buffer_pool_bytes_iff_example = buffer_pool_bytes_iff default_config 8_388_608
