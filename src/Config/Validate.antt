-- ===== src/Config/Validate.antt =====
-- What `validate` accepts.
use io_uring_async_load_proc.Prelude.{ℕ, ◌*◌, ◌/◌, ◌%◌, ◌≤◌, ◌<◌, ◌≡◌, ◌↔◌, true, arith}
use io_uring_async_load_proc.Prelude.Bits.{PowerOfTwo, and_pred_iff}
use io_uring_async_load_proc.Exception.{ok, >>=-eq-ok}
use io_uring_async_load_proc.Config.{
  PipelineConfig, size_max, pointer_size, is_power_of_two, validate, buffer_pool_bytes,
}

-- `is_power_of_two` holds of the powers of two and of nothing else.
pub is_power_of_two_iff : (v : ℕ) → (is_power_of_two v ≡ true) ↔ PowerOfTwo v
unfolding is_power_of_two
is_power_of_two_iff v =
    (λ h. (and_pred_iff v).0 (ground arith), λ p. let q = (and_pred_iff v).1 p in ground arith)

pub record IsValid (c : PipelineConfig) : Type 0 where
  pub block_size_pos : 0 < c.block_size
  pub buffers_pos : 0 < c.max_inflight_buffers
  pub depth_pos : 0 < c.queue_depth
  pub alignment_power : PowerOfTwo c.buffer_alignment
  pub alignment_pointer : c.buffer_alignment % pointer_size ≡ 0
  pub block_aligned : c.block_size % c.buffer_alignment ≡ 0
  pub total_fits : c.block_size * c.max_inflight_buffers ≤ size_max

-- The overflow test by division is the test of the product.
div_test : (b m : ℕ) → 0 < m → (b ≤ size_max / m) ↔ (b * m ≤ size_max)
div_test b m h = (λ p. grind arith, λ p. grind arith)

-- What the accepting run of the tests says, with the power-of-two test as it is computed.
record Passed (c : PipelineConfig) : Type 0 where
  bs : 0 < c.block_size
  mib : 0 < c.max_inflight_buffers
  qd : 0 < c.queue_depth
  pow : is_power_of_two c.buffer_alignment ≡ true
  ptr : c.buffer_alignment % pointer_size ≡ 0
  blk : c.block_size % c.buffer_alignment ≡ 0
  tot : c.block_size ≤ size_max / c.max_inflight_buffers

validate-Passed : (c : PipelineConfig) → (validate c ≡ ok tt) ↔ Passed c
unfolding validate
validate-Passed c = (λ h. ground arith, λ p. ground arith)

-- `validate` returns without throwing exactly for a configuration whose sizes are positive, whose
-- alignment is a power of two and a multiple of the pointer size, whose block size is a multiple
-- of the alignment, and whose buffers together fit a `size_t`.
pub validate_iff : (c : PipelineConfig) → (validate c ≡ ok tt) ↔ IsValid c
validate_iff c = (accepted, λ v. (validate-Passed c).1 (passed v))
  where
    accepted : validate c ≡ ok tt → IsValid c
    accepted h =
        let p = (validate-Passed c).0 h in
        record {
          block_size_pos = p.bs;
          buffers_pos = p.mib;
          depth_pos = p.qd;
          alignment_power = (is_power_of_two_iff c.buffer_alignment).0 p.pow;
          alignment_pointer = p.ptr;
          block_aligned = p.blk;
          total_fits = (div_test c.block_size c.max_inflight_buffers p.mib).0 p.tot;
        }

    passed : IsValid c → Passed c
    passed v = record {
      bs = v.block_size_pos;
      mib = v.buffers_pos;
      qd = v.depth_pos;
      pow = (is_power_of_two_iff c.buffer_alignment).1 v.alignment_power;
      ptr = v.alignment_pointer;
      blk = v.block_aligned;
      tot = (div_test c.block_size c.max_inflight_buffers v.buffers_pos).1 v.total_fits;
    }

-- `buffer_pool_bytes` gives a number exactly when the configuration is valid, and then its product
-- has not wrapped.
pub buffer_pool_bytes_iff :
    (c : PipelineConfig) (n : ℕ)
    → (buffer_pool_bytes c ≡ ok n) ↔ (IsValid c × (n ≡ c.block_size * c.max_inflight_buffers))
unfolding buffer_pool_bytes
buffer_pool_bytes_iff c n = (forth, back)
  where
    forth : buffer_pool_bytes c ≡ ok n → IsValid c × (n ≡ c.block_size * c.max_inflight_buffers)
    forth h =
        let (u, e, r) = >>=-eq-ok (validate c) _ h in
        let v = (validate_iff c).0 e in (v, ground (arith, v.total_fits))

    back : IsValid c × (n ≡ c.block_size * c.max_inflight_buffers) → buffer_pool_bytes c ≡ ok n
    back (v, e) = rw ((validate_iff c).1 v) (ground (arith, v.total_fits))
