-- ===== src/Wire/Segment/Total.antt =====
-- `Repr::parse` of ethox/src/wire/tcp.rs on any octets.
use ethox.Base.{
  ℕ, zero, suc, ◌+◌, ◌*◌, ◌/◌, ◌%◌, ◌^◌, ◌<◌, ◌≤◌, ◌≡◌, refl, Bool, Outcome, returns, List, [], ◌∷◌,
  length, ltb, ◌==◌, true, false, Bool-cases, inl, inr, arith, le→leb,
}
use ethox.Wire.Flags
use ethox.Wire.Flags.{Flags}
use ethox.Wire.Bytes.{read_u16, read_u32}
use ethox.Wire.Checked.{
  Error, malformed, wrong_checksum, Result, ok, err, accept, run, fail_if, Answers, >>=-Answers,
}
use ethox.Wire.Options.{
  TcpOption, end_of_list, no_operation, max_segment_size, window_scale, sack_permitted, sack_range,
  unknown,
}
use ethox.Wire.Options.Parse
use ethox.Wire.Options.Total.{
  read_u16_total, read_u32_total, run-Answers, Shortens, parse_total as option_total,
}
use ethox.Wire.Segment.{
  src_port, dst_port, seq_number, ack_number, flags, header_len, window_len, options, payload_slice,
  verify_checksum,
}
use ethox.Wire.Segment.Parse.{
  Checksum, manual, ignored, Found, go_on, scan, acked, verify, check_len, parse, nothing_found,
}
use ethox.Wire.Checksum.{pseudo_header}

go_on_total :
    (o : TcpOption) (found : Found) (next : Found → Outcome (Result Found))
    → ((f : Found) → Answers (next f))
    → Answers (go_on o found next)
go_on_total end_of_list found next h = (_, refl)
go_on_total no_operation found next h = h _
go_on_total (max_segment_size v) found next h = h _
go_on_total (window_scale v) found next h = h _
go_on_total sack_permitted found next h = h _
go_on_total (sack_range s) found next h = h _
go_on_total (unknown kind items) found next h = h _

round_total :
    (fuel x : ℕ) (b : List ℕ) (found : Found)
    → (r : Result (List ℕ × TcpOption)) × (Parse.parse (x ∷ b) ≡ returns r) × Shortens (x ∷ b) r
    → ((rest : List ℕ) (f : Found) → length rest < length (x ∷ b) → Answers (scan fuel rest f))
    → Answers (scan (suc fuel) (x ∷ b) found)
unfolding scan
round_total fuel x b found (err e, parsed, _) h = rw parsed (_, refl)
round_total fuel x b found (ok (rest, o), parsed, shorter) h =
    rw parsed (go_on_total o found (scan fuel rest) (λ f. h rest f shorter))

-- Every octet that is left is paid for by fuel.
scan_total : (fuel : ℕ) (b : List ℕ) (found : Found) → length b ≤ fuel → Answers (scan fuel b found)
unfolding scan
scan_total fuel [] found h = (_, refl)
scan_total zero (x ∷ b) found h = absurd (omega arith)
scan_total (suc fuel) (x ∷ b) found h =
    round_total fuel x b found (option_total (x ∷ b))
      (λ rest f shorter. scan_total fuel rest f (omega arith))

pub fail_if_total : (b : Bool) (e : Error) → Answers (fail_if b e)
fail_if_total true e = (_, refl)
fail_if_total false e = (_, refl)

-- The addresses of a checksum are of one family.
abbrev pub IsMatched : Checksum → Type 0
IsMatched (manual src dst) = (len : ℕ) → Answers (pseudo_header src dst 6 len)
IsMatched ignored = Unit

verify_total : (c : Checksum) (b : List ℕ) → IsMatched c → Answers (verify c b)
unfolding verify verify_checksum
verify_total (manual src dst) b h =
    let (header, e) = h (length b % 2 ^ 32) in rw e (fail_if_total _ wrong_checksum)
verify_total ignored b h = (_, refl)

check_len_total :
    (b : List ℕ)
    → Answers (check_len b)
      × (check_len b ≡ accept tt
          → (len : ℕ) × (header_len b ≡ returns len) × (20 ≤ len) × (len ≤ length b))
unfolding check_len header_len
check_len_total b = elim (Bool-cases (ltb (length b) 20)) [
  | inl t ↦ rw t ((_, refl), (λ h. cc))
  | inr f ↦
      let (raw, e) = read_u16_total b 12 (ground arith) in
      let len = raw / 2 ^ 12 * 4 % 2 ^ 8 in
      rw (f, e)
        (elim (Bool-cases (ltb (length b) len)) [
          | inl t ↦ rw t ((_, refl), (λ h. cc))
          | inr f' ↦ rw f' (elim (Bool-cases (ltb len 20)) [
            | inl t ↦ rw t ((_, refl), (λ h. cc))
            | inr f'' ↦ rw f'' ((_, refl), (λ h. (len, refl, ground arith, ground arith)))
          ])
        ])
]

flags_total : (b : List ℕ) → 20 ≤ length b → Answers (run (flags b))
unfolding flags
flags_total b h = let (raw, e) = read_u16_total b 12 (omega arith) in rw e (_, refl)

acked_total : (f : Flags) (b : List ℕ) → 20 ≤ length b → Answers (acked f b)
unfolding ack_number
acked_total f b h = elim (Bool-cases (Flags.ack f)) [
  | inl t ↦ let (n, e) = read_u32_total b 8 (omega arith) in rw (t, e) (_, refl)
  | inr t ↦ rw t (_, refl)
]

options_total :
    (b : List ℕ) (len : ℕ)
    → header_len b ≡ returns len
    → 20 ≤ len
    → len ≤ length b
    → Answers (run (options b))
unfolding options
options_total b len l low high = rw (l, le→leb 20 len low, le→leb len (length b) high) (_, refl)

payload_total :
    (b : List ℕ) (len : ℕ)
    → header_len b ≡ returns len
    → len ≤ length b
    → Answers (run (payload_slice b))
unfolding payload_slice
payload_total b len l high = rw (l, le→leb len (length b) high) (_, refl)

-- Parsing a segment never panics, whatever the octets, if a checksum that is to be verified has addresses of one
-- family; that its loop does not run out of fuel is part of it.
pub parse_total : (b : List ℕ) (c : Checksum) → IsMatched c → Answers (parse b c)
unfolding parse src_port dst_port flags ack_number seq_number window_len
parse_total b c matched =
    let (answer, header) = check_len_total b in
    >>=-Answers (check_len b) _ answer (λ _ checked.
      let (len, l, low, high) = header checked in
      let word =
        λ (i : ℕ) (h : i + 1 < 20). run-Answers (read_u16 b i) (read_u16_total b i (omega arith)) in
      let double =
        λ (i : ℕ) (h : i + 3 < 20). run-Answers (read_u32 b i) (read_u32_total b i (omega arith)) in
      >>=-Answers (run (src_port b)) _ (word 0 (omega arith)) (λ source _.
        >>=-Answers (fail_if (source == 0) malformed) _ (fail_if_total _ malformed) (λ _ _.
          >>=-Answers (run (dst_port b)) _ (word 2 (omega arith)) (λ destination _.
            >>=-Answers (fail_if (destination == 0) malformed) _ (fail_if_total _ malformed) (λ _ _.
              >>=-Answers (verify c b) _ (verify_total c b matched) (λ _ _.
                >>=-Answers (run (flags b)) _ (flags_total b (omega arith)) (λ f _.
                  >>=-Answers (acked f b) _ (acked_total f b (omega arith)) (λ a _.
                    >>=-Answers (run (options b)) _ (options_total b len l low high) (λ o _.
                      >>=-Answers (scan (length o) o nothing_found) _
                        (scan_total (length o) o nothing_found (omega arith))
                        (λ found _.
                          >>=-Answers (run (seq_number b)) _ (double 4 (omega arith)) (λ sequence _.
                            >>=-Answers (run (window_len b)) _ (word 14 (omega arith)) (λ window _.
                              >>=-Answers (run (payload_slice b)) _ (payload_total b len l high)
                                (λ payload _. (_, refl))))))))))))))
