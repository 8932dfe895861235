-- ===== src/Observer/Kernel.antt =====
-- `KernelEvent::from_ring_bytes` and `command` of crates/observer/src/lib.rs: the bytes of the
-- structure, which `repr(C)` lays out without padding, on a little-endian machine.
use mongodb_dam.Common.{
  ℕ, ◌+◌, ◌*◌, ◌^◌, ◌==◌, not, Option, none, some, Bytes, if◌then◌else◌, length, take, drop,
  position_nul,
}
use mongodb_dam.Common.Int.{signed}
use mongodb_dam.Common.Lossy.{from_utf8_lossy}
use mongodb_dam.Protocol.Read.{from_le}
use mongodb_dam.Observer.State.{KernelEvent, max_capture_bytes}

-- `size_of::<KernelEvent>()`: six fields of eight bytes, seven of four, four of one, and the arrays.
abbrev pub kernel_event_size : ℕ
kernel_event_size = 6 * 8 + 7 * 4 + 4 + 16 + max_capture_bytes

-- The unsigned number in `width` bytes at an offset.
abbrev pub unsigned_at : ℕ → ℕ → Bytes → ℕ
unsigned_at width offset bytes = from_le (take width (drop offset bytes))

unfoldable pub from_ring_bytes : Bytes → Option KernelEvent
unfolding from_le
from_ring_bytes bytes =
    if not (length bytes == kernel_event_size)
    then none
    else some (record {
      timestamp_ns = unsigned_at 8 0 bytes;
      connection_key = unsigned_at 8 8 bytes;
      cgroup_id = unsigned_at 8 16 bytes;
      duration_ns = unsigned_at 8 24 bytes;
      bytes = unsigned_at 8 32 bytes;
      result = signed (2 ^ 63) (unsigned_at 8 40 bytes);
      pid = unsigned_at 4 48 bytes;
      tgid = unsigned_at 4 52 bytes;
      uid = unsigned_at 4 56 bytes;
      gid = unsigned_at 4 60 bytes;
      fd = signed (2 ^ 31) (unsigned_at 4 64 bytes);
      original_len = unsigned_at 4 68 bytes;
      captured_len = unsigned_at 4 72 bytes;
      event_type = unsigned_at 1 76 bytes;
      direction = unsigned_at 1 77 bytes;
      source = unsigned_at 1 78 bytes;
      operation = unsigned_at 1 79 bytes;
      comm = take 16 (drop 80 bytes);
      data_bytes = take max_capture_bytes (drop 96 bytes);
    })

-- The name of the command, up to its first zero byte.
unfoldable pub command : KernelEvent → Bytes
unfolding from_utf8_lossy position_nul
command raw = elim (position_nul raw.comm) [
  | none ↦ from_utf8_lossy raw.comm
  | some end ↦ from_utf8_lossy (take end raw.comm)
]
