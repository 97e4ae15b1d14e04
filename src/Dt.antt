-- ===== src/Dt.antt =====
-- src/dt.rs: the encoding of contiguous and vector data types in 64 bits, and the calls for generic
-- types and for the query.
use ucx_rs.Ffi.{
  M, pure, ◌>>=◌, call, call_status, last_out, last_member,
  dt_create_generic as ffi_dt_create_generic, dt_destroy as ffi_dt_destroy,
  dt_query as ffi_dt_query,
}
use ucx_rs.Status.{Result, map_ok, status_to_result}
use ucx_rs.Base.{ℕ, ◌+◌, ◌*◌, ◌/◌, ◌%◌, ◌^◌, ◌<◌, ◌≡◌, ◌≢◌, bit_or, bit_or-zero, arith}

abbrev pub datatype_contig : ℕ
datatype_contig = 0

abbrev pub datatype_iov : ℕ
datatype_iov = 2

abbrev pub datatype_shift : ℕ
datatype_shift = 3

-- `<<` on `u64` drops the bits that leave the word.
unfoldable pub dt_make_contig : ℕ → ℕ
dt_make_contig elem_size = bit_or ((elem_size * 2 ^ datatype_shift) % 2 ^ 64) datatype_contig

unfoldable pub dt_make_iov : ℕ
dt_make_iov = datatype_iov

unfoldable pub dt_create_generic : ℕ → ℕ → M (Result ℕ)
dt_create_generic ops context = do
  status ← call_status (ffi_dt_create_generic ops context)
  datatype ← last_out
  pure (map_ok (λ _. datatype) (status_to_result status))

pub dt_destroy : ℕ → M (Unit {0})
dt_destroy datatype = call (ffi_dt_destroy datatype)

-- The members of the struct that UCX fills in are numbered from 0.
pub record DataTypeAttr : Type 0 where
  pub packed_size : ℕ
  pub buffer : ℕ
  pub count : ℕ

pub dt_query : ℕ → ℕ → M (Result DataTypeAttr)
dt_query datatype mask = do
  status ← call_status (ffi_dt_query datatype mask)
  packed_size ← last_member 0
  buffer ← last_member 1
  count ← last_member 2
  pure (
      map_ok (λ _. record { packed_size = packed_size; buffer = buffer; count = count })
        (status_to_result status))

-- An element size below 2^61 can be read back from the code, and the class bits say "contiguous".
-- So two such sizes have different codes.
dt_make_contig_fields :
    (n : ℕ)
    → n < 2 ^ 61
    → (dt_make_contig n / 2 ^ datatype_shift ≡ n)
      × (dt_make_contig n % 2 ^ datatype_shift ≡ datatype_contig)
unfolding dt_make_contig
dt_make_contig_fields n h = omega (arith, bit_or-zero ((n * 8) % 2 ^ 64))

-- The code sees the element size modulo 2^61 only: sizes that differ by a multiple collide. It is
-- never the code of a vector.
dt_make_contig_collides :
    (n k : ℕ)
    → (dt_make_contig (n + k * 2 ^ 61) ≡ dt_make_contig n) × (dt_make_contig n ≢ dt_make_iov)
unfolding dt_make_contig dt_make_iov
dt_make_contig_collides n k = (
  omega (arith, bit_or-zero ((n * 8) % 2 ^ 64), bit_or-zero (((n + k * 2 ^ 61) * 8) % 2 ^ 64)),
  omega (arith, bit_or-zero ((n * 8) % 2 ^ 64)),
)
