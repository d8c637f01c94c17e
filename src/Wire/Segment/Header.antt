-- ===== src/Wire/Segment/Header.antt =====
-- The headers that the format of ethox/src/wire/tcp.rs can carry, and the room that their options take.
use ethox.Base.{
  ℕ, ◌⊎◌, ◌+◌, ◌*◌, ◌%◌, ◌^◌, ◌<◌, ◌≤◌, ◌≡◌, ◌≢◌, refl, ap, ◌∙◌, sym, true, false, ◌&&◌, Option,
  none, some, is_some, ◌++◌, length, ltb, if◌then◌else◌, arith, length-append, Bool-cases, inl, inr,
}
use ethox.Wire.Repr.{Repr, SackRanges}
use ethox.Wire.Options.{
  sack_range, window_scale, max_segment_size, ranges, no_ranges, present, buffer_len,
}
use ethox.Wire.Options.RoundTrip.{encode, length-encode, IsWireOption, IsRange}
use ethox.Wire.Segment.Parse.{Found, note, nothing_found}
use ethox.Wire.Segment.Emit.{
  scale_option, size_option, sack_option, range_len, header_len, options_len, sack_range_len,
  ack_or_zero,
}
use ethox.Wire.Segment.Scanned.{IsPlain, encode_maybe, note_maybe}

-- Fields in their ranges, ports that are given, a scale within its limit, and the ranges at the front of
-- their array.
pub record IsHeader (r : Repr) : Type 0 where
  pub src_given : 0 < r.src_port
  pub src_fits : r.src_port < 2 ^ 16
  pub dst_given : 0 < r.dst_port
  pub dst_fits : r.dst_port < 2 ^ 16
  pub flags_fit : r.flags.bits < 2 ^ 9
  pub seq_fits : r.seq_number < 2 ^ 32
  pub ack_fits : ack_or_zero r.ack_number < 2 ^ 32
  pub window_fits : r.window_len < 2 ^ 16
  pub scale_fits : (value : ℕ) → r.window_scale ≡ some value → value ≤ 14
  pub size_fits : (value : ℕ) → r.max_seg_size ≡ some value → value < 2 ^ 16
  pub first_fits : IsRange r.sack_ranges.first
  pub second_fits : IsRange r.sack_ranges.second
  pub third_fits : IsRange r.sack_ranges.third
  pub second_behind : r.sack_ranges.first ≡ none → r.sack_ranges.second ≡ none
  pub third_behind : r.sack_ranges.second ≡ none → r.sack_ranges.third ≡ none
  pub payload_fits : r.payload_len < 2 ^ 16

scale_in_limit :
    (scale : Option ℕ)
    → ((value : ℕ) → scale ≡ some value → value ≤ 14)
    → IsPlain (elim scale [ none ↦ none | some value ↦ some (window_scale value) ])
unfolding IsWireOption
scale_in_limit none h = tt
scale_in_limit (some value) h = omega (arith, h value refl)

pub scale-IsPlain : (r : Repr) → IsHeader r → IsPlain (scale_option r)
unfolding scale_option
scale-IsPlain r v = scale_in_limit r.window_scale v.scale_fits

size_in_limit :
    (size : Option ℕ)
    → ((value : ℕ) → size ≡ some value → value < 2 ^ 16)
    → IsPlain (elim size [ none ↦ none | some value ↦ some (max_segment_size value) ])
unfolding IsWireOption
size_in_limit none h = tt
size_in_limit (some value) h = h value refl

pub size-IsPlain : (r : Repr) → IsHeader r → IsPlain (size_option r)
unfolding size_option
size-IsPlain r v = size_in_limit r.max_seg_size v.size_fits

-- The ranges that are sent: with an acknowledgement, and not beside the option that permits them.
abbrev pub sent_ranges : Repr → SackRanges
sent_ranges r =
    if r.sack_permitted
    then no_ranges
    else if is_some r.ack_number
    then r.sack_ranges
    else no_ranges

-- No range is there, or there is a first one.
no_range_or_first :
    (s : SackRanges)
    → (s.first ≡ none → s.second ≡ none)
    → (s.second ≡ none → s.third ≡ none)
    → ((s ≡ no_ranges) × (ltb 0 (length (ranges s)) ≡ false))
      ⊎ ((s.first ≢ none) × (ltb 0 (length (ranges s)) ≡ true))
no_range_or_first s h k = go s.first s.second s.third h k
  where
    go :
        (first second third : Option (ℕ × ℕ))
        → (first ≡ none → second ≡ none)
        → (second ≡ none → third ≡ none)
        → let s : SackRanges = record { first = first; second = second; third = third } in
          ((s ≡ no_ranges) × (ltb 0 (length (ranges s)) ≡ false))
          ⊎ ((first ≢ none) × (ltb 0 (length (ranges s)) ≡ true))
    go none none none h k = inl (refl, refl)
    go none none (some _) h k = cc (k refl)
    go none (some _) third h k = cc (h refl)
    go (some _) second third h k = inr ((λ e. cc), ground arith)

-- The option for the ranges is one that can be written, and is read back as the ranges that are sent.
pub sack_facts :
    (r : Repr)
    → IsHeader r
    → IsPlain (sack_option r)
      × ((found : Found)
          → found.sack_permitted ≡ false
          → found.sack_ranges ≡ no_ranges
          → note_maybe (sack_option r) found
            ≡ record found { sack_permitted = r.sack_permitted; sack_ranges = sent_ranges r })
unfolding sack_option IsWireOption note
sack_facts r v = elim (Bool-cases r.sack_permitted) [
  | inl t ↦
      rw t
        (tt, (λ found e e'. ap (λ s. record found { sack_permitted = true; sack_ranges = s }) e'))
  | inr f ↦ rw f (elim (Bool-cases (is_some r.ack_number)) [
    | inr f' ↦
        rw f' (tt, (λ found e e'. λ i. record found { sack_permitted = e i; sack_ranges = e' i }))
    | inl t ↦ rw t (elim (no_range_or_first r.sack_ranges v.second_behind v.third_behind) [
      | inl (nothing, f') ↦ rw f' (
        tt,
        (λ found e e'.
            λ i. record found { sack_permitted = e i; sack_ranges = (e' ∙ sym nothing) i }),
      )
      | inr (first, t') ↦ rw t' (
        (v.first_fits, v.second_fits, v.third_fits, first, v.third_behind),
        (λ found e e'.
            ap (λ p. record found { sack_permitted = p; sack_ranges = r.sack_ranges }) e),
      )
    ])
  ])
]

scale_found :
    (scale : Option ℕ)
    → ((value : ℕ) → scale ≡ some value → value ≤ 14)
    → note_maybe (elim scale [ none ↦ none | some value ↦ some (window_scale value) ]) nothing_found
      ≡ record nothing_found { window_scale = scale }
unfolding note
scale_found none h = refl
scale_found (some value) h =
    let f : ltb 14 value ≡ false = ground (arith, h value refl) in rw f refl

size_found :
    (size : Option ℕ) (found : Found)
    → found.max_seg_size ≡ none
    → note_maybe (elim size [ none ↦ none | some value ↦ some (max_segment_size value) ]) found
      ≡ record found { max_seg_size = size }
unfolding note
size_found none found h = ap (λ s. record found { max_seg_size = s }) h
size_found (some value) found h = refl

-- The options of a header say all that its fields say.
pub found_lem :
    (r : Repr)
    → IsHeader r
    → note_maybe
        (sack_option r)
        (note_maybe (size_option r) (note_maybe (scale_option r) nothing_found))
      ≡ record {
        max_seg_size = r.max_seg_size;
        window_scale = r.window_scale;
        sack_permitted = r.sack_permitted;
        sack_ranges = sent_ranges r;
      }
unfolding scale_option size_option
found_lem r v =
    rw
      (
        scale_found r.window_scale v.scale_fits,
        size_found r.max_seg_size (record nothing_found { window_scale = r.window_scale }) refl,
      )
      ((sack_facts r v).1
        (record nothing_found { window_scale = r.window_scale; max_seg_size = r.max_seg_size }) refl
        refl)

scale_size :
    (scale : Option ℕ)
    → length (encode_maybe (elim scale [ none ↦ none | some value ↦ some (window_scale value) ]))
      ≡ (if is_some scale then 3 else 0)
unfolding encode
scale_size none = refl
scale_size (some value) = refl

size_size :
    (size : Option ℕ)
    → length (encode_maybe (elim size [ none ↦ none | some value ↦ some (max_segment_size value) ]))
      ≡ (if is_some size then 4 else 0)
unfolding encode
size_size none = refl
size_size (some value) = refl

present_size : (o : Option (ℕ × ℕ)) → range_len o ≡ length (present o) * 8
present_size none = refl
present_size (some _) = refl

present_fits : (o : Option (ℕ × ℕ)) → length (present o) ≤ 1
present_fits none = omega arith
present_fits (some _) = omega arith

sack_range_len_lem :
    (s : SackRanges) → (sack_range_len s ≡ length (ranges s) * 8) × (sack_range_len s ≤ 24)
unfolding sack_range_len
sack_range_len_lem s = omega (
  arith,
  present_size s.first,
  present_size s.second,
  present_size s.third,
  present_fits s.first,
  present_fits s.second,
  present_fits s.third,
  length-append (present s.first) (present s.second ++ present s.third),
  length-append (present s.second) (present s.third),
)

sack_size :
    (r : Repr)
    → length (encode_maybe (sack_option r))
      ≤ (if r.sack_permitted then 2 else 0)
        + (if ltb 0 (sack_range_len r.sack_ranges) then sack_range_len r.sack_ranges + 2 else 0)
unfolding sack_option encode buffer_len
sack_size r =
    let (size, _) = sack_range_len_lem r.sack_ranges in
    elim (Bool-cases r.sack_permitted) [
      | inl t ↦ rw t (omega arith)
      | inr f ↦
          rw f (elim (Bool-cases (is_some r.ack_number && ltb 0 (length (ranges r.sack_ranges)))) [
            | inl t ↦ rw t (ground (arith, length-encode (sack_range r.sack_ranges)))
            | inr f' ↦ rw f' (omega arith)
          ])
    ]

options_len_lem :
    (r : Repr)
    → (length (encode_maybe (scale_option r))
          + (length (encode_maybe (size_option r)) + length (encode_maybe (sack_option r)))
        ≤ options_len r)
      × (options_len r ≤ 35)
unfolding options_len scale_option size_option
options_len_lem r = ground (
  arith,
  scale_size r.window_scale,
  size_size r.max_seg_size,
  sack_size r,
  sack_range_len_lem r.sack_ranges,
)

-- The header has room for its options, ends at a word, and its length fits its field.
pub header_len_lem :
    (r : Repr)
    → (20
          + (length (encode_maybe (scale_option r))
              + (length (encode_maybe (size_option r)) + length (encode_maybe (sack_option r))))
        ≤ header_len r)
      × (header_len r % 4 ≡ 0)
      × (header_len r ≤ 60)
unfolding header_len
header_len_lem r = ground (arith, options_len_lem r)
