-- ===== src/Builds/Buffer.antt =====
-- `limitedBuffer` of pkg/gateway/build_handlers.go: the first bytes of a build's output.
pub mod Prefix
use docker_faas.Base.{
  ℕ, ◌-◌, Bool, true, false, List, [], ◌++◌, ltb, leb, if◌then◌else◌, length, take,
}
use docker_faas.Base.Int.{ℤ, pos_part, is_nonpos}

-- A byte is a number.
pub record LimitedBuffer : Type 0 where
  pub buf : List ℕ
  pub limit : ℕ
  pub truncated : Bool

unfoldable pub new_limited_buffer : ℤ → LimitedBuffer
new_limited_buffer limit = record {
  buf = [];
  limit = if is_nonpos limit then 1024 else pos_part limit;
  truncated = false;
}

-- `l.limit - l.buf.Len()` is not positive exactly if the limit is not above the length.
unfoldable pub write : List ℕ → LimitedBuffer → ℕ × LimitedBuffer
write p l =
    if l.truncated
    then (length p, l)
    else if leb l.limit (length l.buf)
    then (length p, record l { truncated = true })
    else if ltb (l.limit - length l.buf) (length p)
    then (length p, record l { buf = l.buf ++ take (l.limit - length l.buf) p; truncated = true })
    else (length p, record l { buf = l.buf ++ p })
