-- ===== src/Wire/Options/Emitted.antt =====
-- What `TcpOption::emit` of ethox/src/wire/tcp.rs writes are the octets that `parse` reads back.
use ethox.Base.{
  ℕ, suc, drop-all, Option, none, some, length-append, put_slice-nil, true, ◌+◌, ◌*◌, ◌%◌, ◌<◌, ◌≤◌,
  ◌≡◌, ◌≢◌, refl, ap, ◌∙◌, sym, returns, List, [], ◌∷◌, ◌++◌, length, drop, ◌==◌, arith, put_slice,
  length-put_slice, put_slice_twice,
}
use mathlib.Core.List.{append-nil}
use ethox.Wire.Repr.{SackRanges}
use ethox.Wire.Bytes.{u16_bytes, u32_bytes}
use ethox.Wire.Bytes.Writes.{write_u8_lem, write_u16_lem, write_u32_lem, split_at_lem}
use ethox.Wire.Options.{
  TcpOption, end_of_list, no_operation, max_segment_size, window_scale, sack_permitted, sack_range,
  unknown, buffer_len, ranges, present,
}
use ethox.Wire.Options.Emit.{emit, emit_body, emit_long, write_ranges}
use ethox.Wire.Options.RoundTrip.{encode, range_bytes, length-range_bytes, IsWireOption}

length-present : (o : Option (ℕ × ℕ)) → length (present o) ≤ 1
length-present none = omega arith
length-present (some _) = omega arith

write_ranges_lem :
    (rs : List (ℕ × ℕ)) (b : List ℕ) (pos : ℕ)
    → pos + length rs * 8 ≤ length b
    → write_ranges b pos rs ≡ returns (put_slice b pos (range_bytes rs))
write_ranges_lem [] b pos h = rw (put_slice-nil b pos) refl
write_ranges_lem ((first, second) ∷ rs) b pos h =
    rw
      (
        write_u32_lem b pos first (omega arith),
        write_u32_lem (put_slice b pos (u32_bytes first)) (pos + 4) second
            (omega (arith, length-put_slice b (u32_bytes first) pos (omega arith))),
        put_slice_twice b (u32_bytes first) (u32_bytes second) pos (omega arith),
      )
      (write_ranges_lem rs _ (pos + 8) (
          omega (arith, length-put_slice b (u32_bytes first ++ u32_bytes second) pos (omega arith)))
        ∙ ap returns (
            put_slice_twice b (u32_bytes first ++ u32_bytes second) (range_bytes rs) pos
              (omega (arith, length-range_bytes rs))))

-- The length and the kind, and behind them the body.
emit_long_lem :
    (o : TcpOption) (kind len : ℕ) (body buffer : List ℕ)
    → buffer_len o ≡ len
    → len ≡ suc (suc (length body))
    → length body < 254
    → len ≤ length buffer
    → ((x : ℕ) (rest : List ℕ)
        → length buffer ≡ suc (suc (length rest))
        → emit_body o (x ∷ len ∷ rest) ≡ returns (kind ∷ len ∷ (body ++ drop (length body) rest)))
    → emit_long o buffer ≡ returns (kind ∷ len ∷ body, drop len buffer)
emit_long_lem o kind len body [] l e small room run = absurd (omega arith)
emit_long_lem o kind len body (x ∷ []) l e small room run = absurd (omega arith)
emit_long_lem o kind len body (x ∷ y ∷ rest) l e small room run =
    let byte : buffer_len o % 256 ≡ len = omega arith in
    let tail : drop (length body) rest ≡ drop len (x ∷ y ∷ rest) =
      ap (λ n. drop n (x ∷ y ∷ rest)) (sym e) in
    (rw (byte, write_u8_lem (x ∷ y ∷ rest) 1 len (omega arith), run x rest refl)
      (split_at_lem _ (kind ∷ len ∷ body) _ (buffer_len o) refl (l ∙ e)))
    ∙ ap (λ ys. returns (kind ∷ len ∷ body, ys)) tail

abbrev pub IsExact : TcpOption → List ℕ → Type 0
IsExact (unknown _ items) buffer = length buffer ≡ 2 + length items
IsExact _ buffer = Unit

pub few_ranges : (s : SackRanges) → length (ranges s) ≤ 3
few_ranges s = omega (
  arith,
  length-append (present s.first) (present s.second ++ present s.third),
  length-append (present s.second) (present s.third),
  length-present s.first,
  length-present s.second,
  length-present s.third,
)

-- Emitting an option that is not the end of the list writes its octets to the front of the buffer, and returns
-- the rest as it was; an unknown option wants a buffer of its own length.
pub emit-encode :
    (o : TcpOption) (buffer : List ℕ)
    → IsWireOption o
    → o ≢ end_of_list
    → buffer_len o ≤ length buffer
    → IsExact o buffer
    → emit o buffer ≡ returns (encode o, drop (buffer_len o) buffer)
unfolding emit emit_body encode buffer_len IsWireOption
emit-encode end_of_list buffer h last room exact = absurd (last refl)
emit-encode no_operation [] h last room exact = absurd (omega arith)
emit-encode no_operation (x ∷ buffer) h last room exact =
    rw (write_u8_lem (x ∷ buffer) 0 1 (omega arith)) (split_at_lem _ (1 ∷ []) _ 1 refl refl)
emit-encode (max_segment_size value) buffer h last room exact =
    emit_long_lem (max_segment_size value) 2 4 (u16_bytes value) buffer refl refl (omega arith) room
      (λ x rest l.
        rw
          (
            write_u8_lem (x ∷ 4 ∷ rest) 0 2 (omega arith),
            write_u16_lem (2 ∷ 4 ∷ rest) 2 value (omega arith),
          )
          refl)
emit-encode (window_scale value) buffer h last room exact =
    emit_long_lem (window_scale value) 3 3 (value ∷ []) buffer refl refl (omega arith) room
      (λ x rest l.
        rw
          (
            write_u8_lem (x ∷ 3 ∷ rest) 0 3 (omega arith),
            write_u8_lem (3 ∷ 3 ∷ rest) 2 value (omega arith),
          )
          refl)
emit-encode sack_permitted buffer h last room exact =
    emit_long_lem sack_permitted 4 2 [] buffer refl refl (omega arith) room
      (λ x rest l. rw (write_u8_lem (x ∷ 2 ∷ rest) 0 4 (omega arith)) refl)
emit-encode (sack_range s) buffer h last room exact =
    let len = length (ranges s) * 8 + 2 in
    let body = range_bytes (ranges s) in
    emit_long_lem (sack_range s) 5 len body buffer refl
      (omega (arith, length-range_bytes (ranges s)))
      (omega (arith, length-range_bytes (ranges s), few_ranges s)) room
      (λ x rest l.
        rw
          (
            write_u8_lem (x ∷ len ∷ rest) 0 5 (omega arith),
            write_ranges_lem (ranges s) (5 ∷ len ∷ rest) 2 (omega arith),
          )
          (let two : 2 + length body ≡ suc (suc (length body)) = omega arith in
            ap (λ n. returns (5 ∷ len ∷ (body ++ drop n (5 ∷ len ∷ rest)))) two))
emit-encode (unknown kind items) buffer h last room exact =
    emit_long_lem (unknown kind items) kind (2 + length items) items buffer refl (omega arith)
      (omega arith) room
      (λ x rest l.
        let same : (length rest == length items) ≡ true = ground arith in
        let no_more : drop (length items) rest ≡ [] = drop-all (length items) rest (omega arith) in
        rw
          (
            write_u8_lem (x ∷ (2 + length items) ∷ rest) 0 kind (omega arith),
            same,
            no_more,
            append-nil items,
          )
          refl)
