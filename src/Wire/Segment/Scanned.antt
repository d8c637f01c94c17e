-- ===== src/Wire/Segment/Scanned.antt =====
-- The options that `Repr::emit` of ethox/src/wire/tcp.rs writes, as `Repr::parse` finds them.
use ethox.Base.{
  ℕ, zero, suc, ◌+◌, ◌-◌, ◌<◌, ◌≤◌, ◌≡◌, ◌≢◌, refl, ap, ◌∙◌, sym, true, Option, none, some, Outcome,
  returns, List, [], ◌∷◌, ◌++◌, length, drop, ltb, map, arith, length-append, length-drop,
}
use ethox.Wire.Repr.{Repr}
use ethox.Wire.Checked.{Result, accept}
use ethox.Wire.Options.{
  TcpOption, end_of_list, no_operation, max_segment_size, window_scale, sack_permitted, sack_range,
  unknown, buffer_len,
}
use ethox.Wire.Bytes.Writes.{split_at_lem}
use ethox.Wire.Options.Emit
use ethox.Wire.Options.Parse
use ethox.Wire.Options.RoundTrip.{encode, parse-encode, length-encode, IsWireOption}
use ethox.Wire.Options.Emitted.{emit-encode, IsExact}
use ethox.Wire.Segment.Parse.{Found, note, go_on, scan}
use ethox.Wire.Segment.Emit.{
  emit_maybe, emit_end, emit_options, scale_option, size_option, sack_option,
}

-- The octets of an option, if there is one.
abbrev pub encode_maybe : Option TcpOption → List ℕ
encode_maybe none = []
encode_maybe (some o) = encode o

-- What an option adds to what is found.
abbrev pub note_maybe : Option TcpOption → Found → Found
note_maybe none found = found
note_maybe (some o) found = note o found

-- An option that `Repr::emit` can write: in range, and neither the end nor an unknown one.
abbrev pub IsPlain : Option TcpOption → Type 0
IsPlain none = Unit
IsPlain (some end_of_list) = ⊥
IsPlain (some (unknown _ _)) = ⊥
IsPlain (some o) = IsWireOption o

plain_facts :
    (o : TcpOption) (buffer : List ℕ)
    → IsPlain (some o)
    → IsWireOption o × (o ≢ end_of_list) × IsExact o buffer × (0 < buffer_len o)
unfolding buffer_len IsWireOption
plain_facts end_of_list buffer h = absurd h
plain_facts no_operation buffer h = (tt, (λ e. cc), tt, omega arith)
plain_facts (max_segment_size value) buffer h = (h, (λ e. cc), tt, omega arith)
plain_facts (window_scale value) buffer h = (h, (λ e. cc), tt, omega arith)
plain_facts sack_permitted buffer h = (h, (λ e. cc), tt, omega arith)
plain_facts (sack_range s) buffer h = (h, (λ e. cc), tt, omega arith)
plain_facts (unknown kind items) buffer h = absurd h

pub emit_maybe-encode :
    (o : Option TcpOption) (buffer : List ℕ)
    → IsPlain o
    → length (encode_maybe o) ≤ length buffer
    → emit_maybe o buffer ≡ returns (encode_maybe o, drop (length (encode_maybe o)) buffer)
unfolding emit_maybe
emit_maybe-encode none buffer h room = refl
emit_maybe-encode (some o) buffer h room =
    let (wire, last, exact, _) = plain_facts o buffer h in
    let l = length-encode o in
    emit-encode o buffer wire last (omega (arith, l)) exact
    ∙ ap (λ n. returns (encode o, drop n buffer)) (sym l)

abbrev pub zeros : ℕ → List ℕ
zeros zero = []
zeros (suc n) = 0 ∷ zeros n

length-zeros : (n : ℕ) → length (zeros n) ≡ n
length-zeros zero = refl
length-zeros (suc n) = ap suc (length-zeros n)

map-zeros : (buffer : List ℕ) → map (λ _. 0) buffer ≡ zeros (length buffer)
map-zeros [] = refl
map-zeros (x ∷ buffer) = ap (λ ys. 0 ∷ ys) (map-zeros buffer)

emit_end-zeros : (buffer : List ℕ) → emit_end buffer ≡ returns (zeros (length buffer))
unfolding emit_end Emit.emit
emit_end-zeros [] = refl
emit_end-zeros (x ∷ buffer) =
    let some_room : ltb 0 (suc (length buffer)) ≡ true = ground arith in
    rw
      (
        some_room,
        split_at_lem (map (λ _. 0) (x ∷ buffer)) (0 ∷ []) (map (λ _. 0) buffer) 1 refl refl,
        map-zeros buffer,
      )
      refl

-- The end of the list, or nothing.
scan-zeros : (fuel n : ℕ) (found : Found) → n ≤ fuel → scan fuel (zeros n) found ≡ accept found
unfolding scan IsWireOption encode
scan-zeros fuel zero found h = refl
scan-zeros zero (suc n) found h = absurd (omega arith)
scan-zeros (suc fuel) (suc n) found h = rw (parse-encode end_of_list (zeros n) tt) refl

go_on-plain :
    (o : TcpOption) (found : Found) (next : Found → Outcome (Result Found))
    → o ≢ end_of_list
    → go_on o found next ≡ next (note o found)
go_on-plain end_of_list found next h = absurd (h refl)
go_on-plain no_operation found next h = refl
go_on-plain (max_segment_size v) found next h = refl
go_on-plain (window_scale v) found next h = refl
go_on-plain sack_permitted found next h = refl
go_on-plain (sack_range s) found next h = refl
go_on-plain (unknown kind items) found next h = refl

-- One round of the loop takes one option.
scan_round :
    (fuel : ℕ) (b rest : List ℕ) (o : TcpOption) (found : Found)
    → Parse.parse b ≡ accept (rest, o)
    → o ≢ end_of_list
    → length rest < length b
    → length b ≤ fuel
    → (fuel' : ℕ) × (scan fuel b found ≡ scan fuel' rest (note o found)) × (length rest ≤ fuel')
unfolding scan
scan_round fuel [] rest o found parsed last shorter h = absurd (omega arith)
scan_round zero (x ∷ b) rest o found parsed last shorter h = absurd (omega arith)
scan_round (suc fuel) (x ∷ b) rest o found parsed last shorter h =
    (fuel, (rw parsed refl) ∙ go_on-plain o found (scan fuel rest) last, omega arith)

scan_maybe :
    (fuel : ℕ) (rest : List ℕ) (o : Option TcpOption) (found : Found)
    → IsPlain o
    → length (encode_maybe o ++ rest) ≤ fuel
    → (fuel' : ℕ) × (scan fuel (encode_maybe o ++ rest) found
        ≡ scan fuel' rest (note_maybe o found))
      × (length rest ≤ fuel')
scan_maybe fuel rest none found h room = (fuel, refl, room)
scan_maybe fuel rest (some o) found h room =
    let (wire, last, _, low) = plain_facts o rest h in
    scan_round fuel (encode o ++ rest) rest o found (parse-encode o rest wire) last
      (omega (arith, length-append (encode o) rest, length-encode o)) room

-- What three options need, and their octets with padding up to a length.
abbrev pub encoded : Option TcpOption → Option TcpOption → Option TcpOption → ℕ → List ℕ
encoded o o' o'' room =
    encode_maybe o
    ++ (encode_maybe o'
        ++ (encode_maybe o''
            ++ zeros (
                room
                - length (encode_maybe o)
                - length (encode_maybe o')
                - length (encode_maybe o''))))

-- Three options and padding are scanned as what the options say, one after the other.
pub scan-encoded :
    (fuel room : ℕ) (o o' o'' : Option TcpOption) (found : Found)
    → IsPlain o
    → IsPlain o'
    → IsPlain o''
    → length (encoded o o' o'' room) ≤ fuel
    → scan fuel (encoded o o' o'' room) found
      ≡ accept (note_maybe o'' (note_maybe o' (note_maybe o found)))
scan-encoded fuel room o o' o'' found h h' h'' enough =
    let n = room - length (encode_maybe o) - length (encode_maybe o') - length (encode_maybe o'') in
    let rest_2 = encode_maybe o'' ++ zeros n in
    let rest_1 = encode_maybe o' ++ rest_2 in
    let (fuel_1, e_1, enough_1) = scan_maybe fuel rest_1 o found h enough in
    let (fuel_2, e_2, enough_2) = scan_maybe fuel_1 rest_2 o' (note_maybe o found) h' enough_1 in
    let (fuel_3, e_3, enough_3) =
      scan_maybe fuel_2 (zeros n) o'' (note_maybe o' (note_maybe o found)) h'' enough_2 in
    e_1
    ∙ e_2
    ∙ e_3
    ∙ scan-zeros fuel_3 n (note_maybe o'' (note_maybe o' (note_maybe o found)))
        (omega (arith, length-zeros n))

pub length-encoded :
    (o o' o'' : Option TcpOption) (room : ℕ)
    → length (encode_maybe o) + (length (encode_maybe o') + length (encode_maybe o'')) ≤ room
    → length (encoded o o' o'' room) ≡ room
length-encoded o o' o'' room fits =
    let n = room - length (encode_maybe o) - length (encode_maybe o') - length (encode_maybe o'') in
    omega (
      arith,
      length-append (encode_maybe o) (encode_maybe o' ++ (encode_maybe o'' ++ zeros n)),
      length-append (encode_maybe o') (encode_maybe o'' ++ zeros n),
      length-append (encode_maybe o'') (zeros n),
      length-zeros n,
    )

-- `emit_options` writes the three options of a header and pads to the end of the slice.
pub emit_options-encoded :
    (r : Repr) (buffer : List ℕ)
    → IsPlain (scale_option r)
    → IsPlain (size_option r)
    → IsPlain (sack_option r)
    → length (encode_maybe (scale_option r))
        + (length (encode_maybe (size_option r)) + length (encode_maybe (sack_option r)))
      ≤ length buffer
    → emit_options r buffer
      ≡ returns (encoded (scale_option r) (size_option r) (sack_option r) (length buffer))
unfolding emit_options
emit_options-encoded r buffer h h' h'' room =
    let b_1 = drop (length (encode_maybe (scale_option r))) buffer in
    let b_2 = drop (length (encode_maybe (size_option r))) b_1 in
    let b_3 = drop (length (encode_maybe (sack_option r))) b_2 in
    let l_1 = length-drop (length (encode_maybe (scale_option r))) buffer in
    let l_2 = length-drop (length (encode_maybe (size_option r))) b_1 in
    let l_3 = length-drop (length (encode_maybe (sack_option r))) b_2 in
    rw
      (
        emit_maybe-encode (scale_option r) buffer h (omega arith),
        emit_maybe-encode (size_option r) b_1 h' (omega (arith, l_1)),
        emit_maybe-encode (sack_option r) b_2 h'' (omega (arith, l_1, l_2)),
        emit_end-zeros b_3,
        l_3,
        l_2,
        l_1,
      )
      refl
