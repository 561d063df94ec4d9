-- ===== src/Common.antt =====
-- vectorguard-common/src/lib.rs: the record that the kernel hands to user space.
-- Integers of the record are numbers below 2 ^ width; `payload` is the union as its 768 bytes, laid
-- out by `repr(C)`; the padding is left out.
use vector_guard.Prelude.{
  List, Option, Text, [], codes, drop, from_utf8, get_elem?, if◌then◌else◌, length, none, some,
  take, unwrap_or, ℕ, ◌*◌, ◌++◌, ◌+◌, ◌==◌, ◌∷◌,
}

pub data EventKind : Type 0 where
  exec file_open net_connect privilege : EventKind

pub record RawEvent : Type 0 where
  pub kind : EventKind
  pub timestamp : ℕ
  pub pid : ℕ
  pub ppid : ℕ
  pub uid : ℕ
  pub gid : ℕ
  pub comm : List ℕ
  pub payload : List ℕ
  pub blocked : ℕ

-- `n` bytes of the union from an offset on.
abbrev pub bytes_at : ℕ → ℕ → List ℕ → List ℕ
bytes_at offset n payload = take n (drop offset payload)

-- The union with the bytes from an offset on overwritten.
abbrev pub write_at : ℕ → List ℕ → List ℕ → List ℕ
write_at offset bytes payload = take offset payload ++ bytes ++ drop (offset + length bytes) payload

-- One byte of an array.
abbrev pub byte_at : List ℕ → ℕ → ℕ
byte_at bytes i = unwrap_or (get_elem? bytes i) 0

-- `from_be_bytes` and `from_ne_bytes` of two bytes (the targets are little-endian).
abbrev pub be16 : ℕ → ℕ → ℕ
be16 hi lo = hi * 256 + lo

abbrev pub le16 : ℕ → ℕ → ℕ
le16 lo hi = lo + hi * 256

-- An integer of little-endian bytes.
abbrev pub le_value : List ℕ → ℕ
le_value [] = 0
le_value (b ∷ bs) = b + 256 * le_value bs

-- `bytes[..position of the first 0, or the length]`
unfoldable pub until_zero : List ℕ → List ℕ
until_zero [] = []
until_zero (b ∷ bs) = let rest = until_zero bs in if b == 0 then [] else b ∷ rest

-- `str::from_utf8(bytes).unwrap_or("<invalid>")`
abbrev pub or_invalid : Option Text → Text
or_invalid none = codes "<invalid>"
or_invalid (some s) = s

unfoldable pub str_or_invalid : List ℕ → Text
unfolding from_utf8 until_zero
str_or_invalid bytes = or_invalid (from_utf8 (until_zero bytes))

-- `RawEvent::comm_str`
abbrev pub comm_str : RawEvent → Text
comm_str raw = str_or_invalid raw.comm
