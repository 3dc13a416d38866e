-- ===== src/Metrics/Counter.antt =====
-- src/metrics/counter.cpp: an event total. `fetch_add` on a `std::uint64_t` wraps.
use io_uring_async_load_proc.Prelude.{ℕ, ◌+◌, ◌%◌, ◌^◌}

pub record Counter : Type 0 where
  pub value : ℕ

abbrev pub new_counter : Counter
new_counter = record { value = 0 }

unfoldable pub increment : Counter → ℕ → Counter
increment c amount = record { value = (c.value + amount) % 2 ^ 64 }
