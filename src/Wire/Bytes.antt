-- ===== src/Wire/Bytes.antt =====
-- Octets of a buffer, as the crate `byteorder` (`NetworkEndian`) and Rust's slices read and write them for
-- ethox/src/wire.
pub mod Writes
use ethox.Base.{
  ℕ, ◌+◌, ◌-◌, ◌*◌, ◌/◌, ◌%◌, ◌^◌, ◌<◌, ◌≤◌, ◌≡◌, Bool, ◌&&◌, Option, none, some, Outcome, returns,
  panics, unwrap, ◌>>=◌, List, [], ◌∷◌, ◌++◌, length, get_elem?, set, take, drop, ltb, leb,
  if◌then◌else◌, arith, refl, ensure, ◌>>◌,
}

-- `buffer[i]`
abbrev pub index : List ℕ → ℕ → Outcome ℕ
index b i = unwrap (get_elem? b i)

abbrev pub read_u16 : List ℕ → ℕ → Outcome ℕ
read_u16 b i = do high ← index b i; low ← index b (i + 1); returns (high * 256 + low)

abbrev pub read_u32 : List ℕ → ℕ → Outcome ℕ
read_u32 b i = do high ← read_u16 b i; low ← read_u16 b (i + 2); returns (high * 2 ^ 16 + low)

-- `buffer[i] = value`
abbrev pub write_u8 : List ℕ → ℕ → ℕ → Outcome (List ℕ)
write_u8 b i value = if ltb i (length b) then returns (set b i value) else panics

abbrev pub write_u16 : List ℕ → ℕ → ℕ → Outcome (List ℕ)
write_u16 b i value = do b' ← write_u8 b i (value / 256 % 256); write_u8 b' (i + 1) (value % 256)

abbrev pub write_u32 : List ℕ → ℕ → ℕ → Outcome (List ℕ)
write_u32 b i value = do b' ← write_u16 b i (value / 2 ^ 16); write_u16 b' (i + 2) (value % 2 ^ 16)

-- `buffer.get(from..to)`
abbrev pub get_range : List ℕ → ℕ → ℕ → Option (List ℕ)
get_range b from to =
    if leb from to && leb to (length b) then some (take (to - from) (drop from b)) else none

-- `&buffer[from..]`
abbrev pub slice_from : List ℕ → ℕ → Outcome (List ℕ)
slice_from b from = if leb from (length b) then returns (drop from b) else panics

-- `buffer.split_at(at)`
abbrev pub split_at : List ℕ → ℕ → Outcome (List ℕ × List ℕ)
split_at b at = if leb at (length b) then returns (take at b, drop at b) else panics

-- The octets of a value.
abbrev pub u16_bytes : ℕ → List ℕ
u16_bytes value = (value / 256 % 256) ∷ (value % 256) ∷ []

abbrev pub u32_bytes : ℕ → List ℕ
u32_bytes value = u16_bytes (value / 2 ^ 16) ++ u16_bytes (value % 2 ^ 16)
