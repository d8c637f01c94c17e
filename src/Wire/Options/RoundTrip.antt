-- ===== src/Wire/Options/RoundTrip.antt =====
-- What `TcpOption::emit` of ethox/src/wire/tcp.rs writes, `TcpOption::parse` reads back.
use ethox.Base.{
  ℕ, le→leb, suc, sym, length-append, take-append, drop-append, ◌+◌, ◌-◌, ◌*◌, ◌/◌, ◌%◌, ◌^◌, ◌<◌,
  ◌≡◌, ◌≢◌, refl, ap, ◌∙◌, Option, none, some, List, [], ◌∷◌, ◌++◌, length, ◌==◌, true, false, leb,
  ltb, arith,
}
use ethox.Wire.Repr.{SackRanges}
use ethox.Wire.Bytes.{u16_bytes, u32_bytes}
use ethox.Wire.Checked.{accept}
use ethox.Wire.Options.{
  TcpOption, end_of_list, no_operation, max_segment_size, window_scale, sack_permitted, sack_range,
  unknown, opt_end, opt_nop, opt_mss, opt_ws, opt_sackperm, opt_sackrng, buffer_len, ranges,
}
use ethox.Wire.Options.Parse.{parse, parse_body, parse_range, parse_ranges}

abbrev pub range_bytes : List (ℕ × ℕ) → List ℕ
range_bytes [] = []
range_bytes ((first, second) ∷ more) = u32_bytes first ++ (u32_bytes second ++ range_bytes more)

-- The octets of an option that is not the last one.
unfoldable pub encode : TcpOption → List ℕ
unfolding buffer_len
encode end_of_list = opt_end ∷ []
encode no_operation = opt_nop ∷ []
encode (max_segment_size value) = opt_mss ∷ 4 ∷ u16_bytes value
encode (window_scale value) = opt_ws ∷ 3 ∷ value ∷ []
encode sack_permitted = opt_sackperm ∷ 2 ∷ []
encode (sack_range s) = opt_sackrng ∷ (buffer_len (sack_range s) ∷ range_bytes (ranges s))
encode (unknown kind items) = kind ∷ ((2 + length items) ∷ items)

abbrev pub IsRange : Option (ℕ × ℕ) → Type 0
IsRange none = Unit
IsRange (some (first, second)) = (first < 2 ^ 32) × (second < 2 ^ 32)

-- The fields are in their ranges; the ranges come first in their array, and there is one.
unfoldable pub IsWireOption : TcpOption → Type 0
IsWireOption end_of_list = Unit
IsWireOption no_operation = Unit
IsWireOption (max_segment_size value) = value < 2 ^ 16
IsWireOption (window_scale value) = value < 2 ^ 8
IsWireOption sack_permitted = Unit
IsWireOption (sack_range s) =
    IsRange s.first
    × IsRange s.second
    × IsRange s.third
    × (s.first ≢ none)
    × ((s.second ≡ none) → s.third ≡ none)
IsWireOption (unknown kind items) = (5 < kind) × (kind < 2 ^ 8) × (2 + length items < 2 ^ 8)

-- An option with a length, whose body is read as the option.
parse-long :
    (kind len : ℕ) (items rest : List ℕ) (o : TcpOption)
    → 1 < kind
    → len ≡ suc (suc (length items))
    → parse_body kind len items ≡ accept o
    → parse (kind ∷ (len ∷ (items ++ rest))) ≡ accept (rest, o)
unfolding parse
parse-long kind len items rest o long e body =
    let not_end : (kind == 0) ≡ false = ground arith in
    let not_nop : (kind == 1) ≡ false = ground arith in
    let from_two : leb 2 (suc (suc (length items))) ≡ true = ground arith in
    let fits : leb (suc (suc (length items))) (suc (suc (length (items ++ rest)))) ≡ true =
      ground (arith, length-append items rest) in
    let size : suc (suc (length items)) - 2 ≡ length items = omega arith in
    let body' : parse_body kind (suc (suc (length items))) items ≡ accept o =
      ap (λ n. parse_body kind n items) (sym e) ∙ body in
    rw
      (
        not_end,
        not_nop,
        e,
        from_two,
        fits,
        size,
        take-append items rest,
        body',
        drop-append items rest,
      )
      refl

-- A number below 2^16 is made of its octets.
pub word_lem : (v : ℕ) → v < 2 ^ 16 → v / 256 % 256 * 256 + v % 256 ≡ v
word_lem v h = omega arith

pub double_lem :
    (v : ℕ)
    → v < 2 ^ 32
    → (v / 2 ^ 16 / 256 % 256 * 256 + v / 2 ^ 16 % 256) * 2 ^ 16
        + (v % 2 ^ 16 / 256 % 256 * 256 + v % 2 ^ 16 % 256)
      ≡ v
double_lem v h = omega arith

ranges_parse :
    (first second third : Option (ℕ × ℕ))
    → let s : SackRanges = record { first = first; second = second; third = third } in
      IsWireOption (sack_range s) → parse_ranges (range_bytes (ranges s)) ≡ accept s
unfolding IsWireOption parse_ranges parse_range
ranges_parse none second third (_, _, _, h, _) = absurd (h refl)
ranges_parse (some (a, b)) none none ((ha, hb), _, _, _, _) =
    rw (double_lem a ha, double_lem b hb) refl
ranges_parse (some _) none (some _) (_, _, _, _, h) = cc (h refl)
ranges_parse (some (a, b)) (some (c, d)) none ((ha, hb), (hc, hd), _, _, _) =
    rw (double_lem a ha, double_lem b hb, double_lem c hc, double_lem d hd) refl
ranges_parse (some (a, b)) (some (c, d)) (some (e, f)) ((ha, hb), (hc, hd), (he, hf), _, _) =
    rw
      (
        double_lem a ha,
        double_lem b hb,
        double_lem c hc,
        double_lem d hd,
        double_lem e he,
        double_lem f hf,
      )
      refl

pub length-range_bytes : (rs : List (ℕ × ℕ)) → length (range_bytes rs) ≡ length rs * 8
length-range_bytes [] = refl
length-range_bytes ((a, b) ∷ rs) = omega (arith, length-range_bytes rs)

some_range :
    (first second third : Option (ℕ × ℕ))
    → first ≢ none
    → 0 < length (ranges record { first = first; second = second; third = third })
some_range none second third h = absurd (h refl)
some_range (some range) second third h = omega arith

ranges_body :
    (s : SackRanges)
    → IsWireOption (sack_range s)
    → parse_body 5 (length (ranges s) * 8 + 2) (range_bytes (ranges s)) ≡ accept (sack_range s)
unfolding parse_body IsWireOption
ranges_body s h =
    let (_, _, _, one, _) = h in
    let n = length (ranges s) in
    let positive : 0 < n = some_range s.first s.second s.third one in
    let long : ltb (n * 8 + 2) 10 ≡ false = ground arith in
    let whole : ((n * 8 + 2 - 2) % 8 == 0) ≡ true =
      let e : (n * 8 + 2 - 2) % 8 ≡ 0 = omega arith in rw e refl in
    rw (long, whole, ranges_parse s.first s.second s.third h) refl

-- Reading back the octets of an option, with whatever follows them, gives that option and leaves what follows.
pub parse-encode :
    (o : TcpOption) (rest : List ℕ) → IsWireOption o → parse (encode o ++ rest) ≡ accept (rest, o)
unfolding parse parse_body parse_range parse_ranges encode IsWireOption
parse-encode end_of_list rest h = rw (le→leb 1 (suc (length rest)) (omega arith)) refl
parse-encode no_operation rest h = rw (le→leb 1 (suc (length rest)) (omega arith)) refl
parse-encode (max_segment_size value) rest h =
    parse-long 2 4 (u16_bytes value) rest _ (omega arith) refl (rw (word_lem value h) refl)
parse-encode (window_scale value) rest h =
    parse-long 3 3 (value ∷ []) rest _ (omega arith) refl refl
parse-encode sack_permitted rest h = parse-long 4 2 [] rest _ (omega arith) refl refl
parse-encode (sack_range s) rest h =
    parse-long 5 (length (ranges s) * 8 + 2) (range_bytes (ranges s)) rest _ (omega arith)
      (omega (arith, length-range_bytes (ranges s))) (ranges_body s h)
parse-encode (unknown kind items) rest (low, _, _) =
    let not_mss : (kind == 2) ≡ false = ground arith in
    let not_ws : (kind == 3) ≡ false = ground arith in
    let not_perm : (kind == 4) ≡ false = ground arith in
    let not_range : (kind == 5) ≡ false = ground arith in
    let other : parse_body kind (2 + length items) items ≡ accept (unknown kind items) =
      rw (not_mss, not_ws, not_perm, not_range) refl in
    parse-long kind (2 + length items) items rest _ (omega arith) (omega arith) other

pub length-encode : (o : TcpOption) → length (encode o) ≡ buffer_len o
unfolding encode buffer_len
length-encode end_of_list = refl
length-encode no_operation = refl
length-encode (max_segment_size value) = refl
length-encode (window_scale value) = refl
length-encode sack_permitted = refl
length-encode (sack_range s) = omega (arith, length-range_bytes (ranges s))
length-encode (unknown kind items) = omega arith
