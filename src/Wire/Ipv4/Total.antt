-- ===== src/Wire/Ipv4/Total.antt =====
-- `Repr::parse` of ethox/src/wire/ipv4.rs on any octets.
use ethox.Base.{
  ℕ, ◌+◌, ◌-◌, ◌*◌, ◌/◌, ◌%◌, ◌^◌, ◌<◌, ◌≤◌, ◌≡◌, refl, returns, ◌>>=◌, List, length, ltb, not,
  ◌==◌, Bool-cases, inl, inr, arith, le→leb, get_elem?-some,
}
use ethox.Wire.Bytes.{index, read_u32}
use ethox.Wire.Checked.{
  truncated, wrong_checksum, malformed, unsupported, accept, run, fail_if, Answers, >>=-Answers,
}
use ethox.Wire.Options.Total.{read_u16_total, read_u32_total, run-Answers}
use ethox.Wire.Segment.Total.{fail_if_total}
use ethox.Wire.Ipv4.{
  Checksum, manual, ignored, from_number, version, header_len, total_len, more_frags, frag_offset,
  hop_limit, protocol, src_addr, dst_addr, header_sum, verify_checksum, payload_slice,
}
use ethox.Wire.Ipv4.Parse.{check_len, wrong, fragmented, parse}

-- What an accepted length means: the octets of the header and of the payload are there.
abbrev IsLong : List ℕ → Type 0
IsLong b =
    (20 ≤ length b)
    × (header : ℕ) × (total : ℕ) × (header_len b ≡ returns header)
    × (total_len b ≡ returns total)
    × (header ≤ total)
    × (total ≤ length b)

check_len_total : (b : List ℕ) → Answers (check_len b) × (check_len b ≡ accept tt → IsLong b)
unfolding check_len header_len total_len
check_len_total b = elim (Bool-cases (ltb (length b) 20)) [
  | inl t ↦ rw t ((_, refl), (λ h. cc))
  | inr f ↦
      let (raw, e) = get_elem?-some b 0 (ground arith) in
      let (total, e') = read_u16_total b 2 (ground arith) in
      let header = raw % 2 ^ 4 * 4 in
      rw (f, e, e')
        (elim (Bool-cases (ltb (length b) header)) [
          | inl t ↦ rw t ((_, refl), (λ h. cc))
          | inr g ↦ rw g (elim (Bool-cases (ltb total header)) [
            | inl t ↦ rw t ((_, refl), (λ h. cc))
            | inr g' ↦ rw g' (elim (Bool-cases (ltb (length b) total)) [
              | inl t ↦ rw t ((_, refl), (λ h. cc))
              | inr g'' ↦ rw g'' (
                (_, refl),
                (λ h. (ground arith, header, total, refl, refl, ground arith, ground arith)),
              )
            ])
          ])
        ])
]

wrong_total :
    (sums : Checksum) (b : List ℕ) (header : ℕ)
    → header_len b ≡ returns header
    → header ≤ length b
    → Answers (wrong sums b)
unfolding wrong verify_checksum header_sum
wrong_total manual b header h room = rw (h, le→leb header (length b) room) (_, refl)
wrong_total ignored b header h room = (_, refl)

fragmented_total : (b : List ℕ) → 20 ≤ length b → Answers (fragmented b)
unfolding fragmented more_frags frag_offset
fragmented_total b h =
    let (raw, e) = read_u16_total b 6 (omega arith) in
    rw e (elim (Bool-cases (not (raw / 2 ^ 13 % 2 == 0))) [
      | inl t ↦ rw t (_, refl)
      | inr t ↦ rw t (_, refl)
    ])

payload_total :
    (b : List ℕ) (header total : ℕ)
    → header_len b ≡ returns header
    → total_len b ≡ returns total
    → header ≤ total
    → total ≤ length b
    → Answers (run (payload_slice b))
unfolding payload_slice
payload_total b header total h t low high =
    rw (h, t, le→leb header total low, le→leb total (length b) high) (_, refl)

index_total : (b : List ℕ) (i : ℕ) → i < length b → Answers (index b i)
index_total b i h = let (raw, e) = get_elem?-some b i h in rw e (_, refl)

octet_total :
    {A : Type 0} (b : List ℕ) (i : ℕ) (f : ℕ → A)
    → i < length b
    → Answers (run (index b i >>= λ raw. returns (f raw)))
octet_total b i f h = let (raw, e) = get_elem?-some b i h in rw e (_, refl)

-- Parsing a packet returns a header or an error for any octets; no access is out of bounds.
pub packet_total : (b : List ℕ) (sums : Checksum) → Answers (parse b sums)
unfolding parse version src_addr dst_addr protocol hop_limit
packet_total b sums =
    let (answer, facts) = check_len_total b in
    >>=-Answers (check_len b) _ answer (λ _ checked.
      let (long, header, total, h, t, low, high) = facts checked in
      let double =
        λ (i : ℕ) (h : i + 3 < 20). run-Answers (read_u32 b i) (read_u32_total b i (omega arith)) in
      >>=-Answers (run (version b)) _ (octet_total b 0 (λ raw. raw / 2 ^ 4) (omega arith))
        (λ number _.
          >>=-Answers (fail_if (not (number == 4)) malformed) _ (fail_if_total _ malformed) (λ _ _.
            >>=-Answers (wrong sums b) _ (wrong_total sums b header h (omega arith)) (λ bad _.
              >>=-Answers (fail_if bad wrong_checksum) _ (fail_if_total _ wrong_checksum) (λ _ _.
                >>=-Answers (fragmented b) _ (fragmented_total b long) (λ part _.
                  >>=-Answers (fail_if part unsupported) _ (fail_if_total _ unsupported) (λ _ _.
                    >>=-Answers (run (total_len b)) _ (run-Answers (total_len b) (total, t))
                      (λ all _.
                        >>=-Answers (run (header_len b)) _ (run-Answers (header_len b) (header, h))
                          (λ own _.
                            >>=-Answers (run (payload_slice b)) _
                              (payload_total b header total h t low high)
                              (λ payload _.
                                >>=-Answers (fail_if (ltb (length payload) (all - own)) truncated) _
                                  (fail_if_total _ truncated)
                                  (λ _ _.
                                    >>=-Answers (run (src_addr b)) _ (double 12 (omega arith))
                                      (λ source _.
                                        >>=-Answers (run (dst_addr b)) _ (double 16 (omega arith))
                                          (λ target _.
                                            >>=-Answers (run (protocol b)) _
                                              (octet_total b 9 from_number (omega arith))
                                              (λ kind _.
                                                >>=-Answers (run (hop_limit b)) _
                                                  (run-Answers (index b 8)
                                                    (index_total b 8 (omega arith)))
                                                  (λ hops _. (_, refl))))))))))))))))
