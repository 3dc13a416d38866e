-- ===== src/Buffer/Aligned.antt =====
-- src/buffer/aligned_buffer.cpp. `posix_memalign` is not part of the repository: what a call of it
-- gives is an argument. Memory is known by address, and `free` adds an address to a list.
pub mod Ownership
use io_uring_async_load_proc.Prelude.{
  ℕ, ◌%◌, Bool, true, false, not, ◌||◌, Option, none, some, List, [], ◌∷◌, ◌==◌, if◌then◌else◌,
}
use io_uring_async_load_proc.Exception.{
  Result, ok, throw, throw_if, ◌>>=◌, ◌>>◌, invalid_argument, system_error,
}
use io_uring_async_load_proc.Config.{pointer_size, is_power_of_two}

pub record AlignedBuffer : Type 0 where
  pub address : Option ℕ
  pub size : ℕ
  pub alignment : ℕ

abbrev pub empty_buffer : AlignedBuffer
empty_buffer = record { address = none; size = 0; alignment = 0 }

-- What `posix_memalign` gives: memory, or an error number.
pub data Allocation : Type 0 where
  allocated refused : ℕ → Allocation

unfoldable pub validate_allocation : ℕ → ℕ → Result (Unit {0})
validate_allocation size alignment = do
  throw_if (size == 0) invalid_argument
  throw_if (not (is_power_of_two alignment) || not (alignment % pointer_size == 0)) invalid_argument
  throw_if (not (size % alignment == 0)) invalid_argument

-- The part of the constructor below the validation.
abbrev from_allocation : ℕ → ℕ → Allocation → Result AlignedBuffer
from_allocation size alignment (allocated a) =
    ok (record { address = some a; size = size; alignment = alignment })
from_allocation size alignment (refused error_number) = throw (system_error error_number)

unfoldable pub new_aligned_buffer : ℕ → ℕ → Allocation → Result AlignedBuffer
new_aligned_buffer size alignment allocation = do
  validate_allocation size alignment
  from_allocation size alignment allocation

-- `std::free(data_)`: a null pointer frees nothing.
abbrev pub free_memory : Option ℕ → List ℕ → List ℕ
free_memory none freed = freed
free_memory (some a) freed = a ∷ freed

unfoldable pub destroy : AlignedBuffer → List ℕ → List ℕ
destroy b freed = free_memory b.address freed

-- The move constructor gives the new buffer and what is left of the other one.
unfoldable pub move_construct : AlignedBuffer → AlignedBuffer × AlignedBuffer
move_construct other = (
  record { address = other.address; size = other.size; alignment = other.alignment },
  record { address = none; size = 0; alignment = 0 },
)

-- Move assignment gives this buffer, the other one and the freed memory; `self` says that the two
-- are one object.
unfoldable pub move_assign :
    Bool → AlignedBuffer → AlignedBuffer → List ℕ → AlignedBuffer × AlignedBuffer × List ℕ
move_assign self this other freed = if self then (this, other, freed) else (
  record { address = other.address; size = other.size; alignment = other.alignment },
  record { address = none; size = 0; alignment = 0 },
  free_memory this.address freed,
)
