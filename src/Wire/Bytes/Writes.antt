-- ===== src/Wire/Bytes/Writes.antt =====
-- What the writers of ethox/src/wire leave in a buffer that is long enough.
use ethox.Base.{
  ℕ, ◌+◌, ◌/◌, ◌%◌, ◌^◌, ◌≤◌, ◌<◌, ◌≡◌, refl, returns, List, [], ◌∷◌, ◌++◌, length, arith,
  put_slice, length-put_slice, put_slice_twice, set-put_slice, lt→ltb, le→leb, take-append,
  drop-append, length-append,
}
use ethox.Wire.Bytes.{write_u8, write_u16, write_u32, split_at, u16_bytes, u32_bytes}

pub write_u8_lem :
    (b : List ℕ) (i v : ℕ) → i < length b → write_u8 b i v ≡ returns (put_slice b i (v ∷ []))
write_u8_lem b i v h = rw (lt→ltb i (length b) h, set-put_slice b i v h) refl

pub write_u16_lem :
    (b : List ℕ) (i v : ℕ)
    → i + 2 ≤ length b
    → write_u16 b i v ≡ returns (put_slice b i (u16_bytes v))
write_u16_lem b i v h =
    rw
      (
        write_u8_lem b i (v / 256 % 256) (omega arith),
        write_u8_lem (put_slice b i ((v / 256 % 256) ∷ [])) (i + 1) (v % 256)
            (omega (arith, length-put_slice b ((v / 256 % 256) ∷ []) i (omega arith))),
        put_slice_twice b ((v / 256 % 256) ∷ []) ((v % 256) ∷ []) i (omega arith),
      )
      refl

pub write_u32_lem :
    (b : List ℕ) (i v : ℕ)
    → i + 4 ≤ length b
    → write_u32 b i v ≡ returns (put_slice b i (u32_bytes v))
write_u32_lem b i v h =
    rw
      (
        write_u16_lem b i (v / 2 ^ 16) (omega arith),
        write_u16_lem (put_slice b i (u16_bytes (v / 2 ^ 16))) (i + 2) (v % 2 ^ 16)
            (omega (arith, length-put_slice b (u16_bytes (v / 2 ^ 16)) i (omega arith))),
        put_slice_twice b (u16_bytes (v / 2 ^ 16)) (u16_bytes (v % 2 ^ 16)) i (omega arith),
      )
      refl

pub split_at_lem :
    (b xs ys : List ℕ) (n : ℕ) → b ≡ xs ++ ys → n ≡ length xs → split_at b n ≡ returns (xs, ys)
split_at_lem b xs ys n e l =
    rw
      (
        e,
        l,
        le→leb (length xs) (length (xs ++ ys)) (omega (arith, length-append xs ys)),
        take-append xs ys,
        drop-append xs ys,
      )
      refl
