-- ===== src/Storage/Assembler.antt =====
-- `assembly` of ethox/src/storage/assembler.rs: holes and data, first to last, of fragments that arrive
-- out of order. `Err(())` is `none`; a call returns the contigs beside its result.
pub mod Errors
pub mod Front
pub mod Bytes
pub mod Absorbed
pub mod Placed
pub mod Joined
pub mod Returned
pub mod Reached
use ethox.Base.{
  ℕ, zero, suc, ◌+◌, ◌-◌, ◌%◌, ◌^◌, max, Bool, true, false, not, ◌&&◌, Option, none, some, Outcome,
  returns, panics, ensure, ◌>>=◌, ◌>>◌, List, [], ◌∷◌, ◌++◌, map, length, take, drop, set, ltb, leb,
  ◌==◌, if◌then◌else◌, u32_max,
}

pub record Contig : Type 0 where
  pub hole_size : ℕ
  pub data_size : ℕ

abbrev pub empty : Contig
empty = record { hole_size = 0; data_size = 0 }

abbrev pub total_size : Contig → ℕ
total_size c = (c.hole_size + c.data_size) % 2 ^ 32

abbrev pub has_hole : Contig → Bool
has_hole c = not (c.hole_size == 0)

abbrev pub has_data : Contig → Bool
has_data c = not (c.data_size == 0)

abbrev pub is_empty : Contig → Bool
is_empty c = total_size c == 0

-- `assembly::new`, with the assertion of `from_mut_slice_unchecked`.
unfoldable pub new : List Contig → Outcome (List Contig)
new contigs = do ensure (ltb 0 (length contigs)); returns (map (λ _. empty) contigs)

-- `self.contigs[self.contigs.len() - 1]`
unfoldable pub back : List Contig → Outcome Contig
back [] = panics
back (c ∷ []) = returns c
back (c ∷ d ∷ cs) = back (d ∷ cs)

abbrev pub all_empty : List Contig → Bool
all_empty [] = true
all_empty (c ∷ cs) = is_empty c && all_empty cs

-- The range from `at` on has its first `len` contigs emptied and rotated to the end.
unfoldable pub remove_contigs : List Contig → ℕ → ℕ → Outcome (List Contig)
remove_contigs cs at len = do
  ensure (leb at (length cs))
  let range = drop at cs
  ensure (leb len (length range))
  let emptied = map (λ _. empty) (take len range) ++ drop len range
  returns (take at cs ++ drop len emptied ++ take len emptied)

-- The range from `at` on is rotated to the right by one, and an empty contig put at `at`.
unfoldable pub add_contig_at : List Contig → ℕ → Outcome (List Contig)
unfolding back
add_contig_at cs at = do
  last ← back cs
  ensure (is_empty last)
  let range = drop at cs
  ensure (ltb 0 (length range))
  let rotated = drop (length range - 1) range ++ take (length range - 1) range
  returns (set (take at cs ++ rotated) at empty)

-- The fields of the local `Absorber`.
pub record Absorber : Type 0 where
  pub len : ℕ
  pub start : ℕ
  pub rel_end : ℕ
  pub absorbed : ℕ
  pub available : Bool

abbrev pub would_overflow : Absorber → Bool
would_overflow a = a.absorbed == 0 && not a.available

-- A contig that is absorbed whole.
unfoldable pub absorb_whole : Absorber → Contig → Absorber
absorb_whole a rhs =
    let rel_start = a.rel_end - a.len in
    let a' : Absorber =
      if ltb rhs.hole_size rel_start
      then record a {
        start = rhs.hole_size;
        len = (a.len + (a.start + 2 ^ 32 - rhs.hole_size) % 2 ^ 32) % 2 ^ 32;
      }
      else a in
    let new_end = max a.rel_end (total_size rhs) in
    record a' {
      len = (a'.len + (new_end - a.rel_end)) % 2 ^ 32;
      rel_end = new_end - total_size rhs;
      absorbed = suc a.absorbed;
    }

-- `Absorber::absorb`: whether the contig was absorbed whole, the absorber, and the contig.
unfoldable pub absorb : Absorber → Contig → Bool × Absorber × Contig
unfolding absorb_whole
absorb a rhs =
    if is_empty rhs
    then (false, a, rhs)
    else if ltb a.rel_end rhs.hole_size
    then (if would_overflow a then (false, a, rhs) else (
      false,
      record a { rel_end = 0 },
      record rhs { hole_size = rhs.hole_size - a.rel_end },
    ))
    else (true, absorb_whole a rhs, rhs)

-- `for contig in &mut self.contigs[idx..]`
unfoldable pub absorb_all : Absorber → List Contig → Absorber × List Contig
absorb_all a [] = (a, [])
absorb_all a (c ∷ cs) =
    let (whole, a', c') = absorb a c in
    let rest = absorb_all a' cs in if whole then (rest.0, c' ∷ rest.1) else (a', c' ∷ cs)

-- The loop that finds the contig for an offset, from the contigs from `idx` on.
unfoldable pub find : List Contig → ℕ → ℕ → Outcome (Option (ℕ × ℕ))
find [] relative idx = panics
find (c ∷ []) relative idx = returns (
    if leb relative (total_size c)
    then some (relative, idx)
    else if is_empty c
    then some (relative, idx)
    else none)
find (c ∷ d ∷ cs) relative idx =
    let rest = find (d ∷ cs) (relative - total_size c) (idx + 1) in
    if leb relative (total_size c)
    then returns (some (relative, idx))
    else if is_empty c
    then returns (some (relative, idx))
    else rest

-- The end of `add_impl`, where a contig is put for what was absorbed.
unfoldable pub store_absorbed : List Contig → ℕ → Absorber → ℕ → Outcome (Option ℕ × List Contig)
store_absorbed cs idx a removed_bytes =
    let contig : Contig = record { hole_size = a.start; data_size = a.len } in
    if a.absorbed == 0
    then (if not a.available
        then returns (none, cs)
        else (do cs' ← add_contig_at cs idx; returns (some removed_bytes, set cs' idx contig)))
    else (do
      cs' ← remove_contigs cs (idx + 1) (a.absorbed - 1)
      returns (some removed_bytes, set cs' idx contig))

-- `self.contigs[0].hole_size -= max`
abbrev pub shrink_first : List Contig → ℕ → Outcome (List Contig)
shrink_first [] max = panics
shrink_first (c ∷ cs) max =
    returns (record c { hole_size = (c.hole_size + 2 ^ 32 - max) % 2 ^ 32 } ∷ cs)

-- `add_impl` behind the loops.
unfoldable pub add_absorbed : List Contig → ℕ → ℕ → ℕ → Absorber → Outcome (Option ℕ × List Contig)
add_absorbed cs idx start max a =
    if start == 0
    then (if leb a.len max
        then (do cs' ← remove_contigs cs 0 a.absorbed; returns (some a.len, cs'))
        else if would_overflow a
        then (do cs' ← shrink_first cs max; returns (some max, cs'))
        else store_absorbed cs idx (record a { len = a.len - max }) max)
    else store_absorbed cs idx a 0

unfoldable pub add_impl : List Contig → ℕ → ℕ → ℕ → Outcome (Option ℕ × List Contig)
unfolding back
add_impl cs start size max = do
  found ← find cs start 0
  last ← back cs
  elim found [
    | none ↦ returns (none, cs)
    | some (relative, idx) ↦
        let a : Absorber = record {
          len = size;
          start = relative;
          rel_end = (relative + size) % 2 ^ 32;
          absorbed = 0;
          available = is_empty last;
        } in
        let (a', tail) = absorb_all a (drop idx cs) in
        add_absorbed (take idx cs ++ tail) idx start max a'
  ]

unfoldable pub add : List Contig → ℕ → ℕ → Outcome (Option ℕ × List Contig)
add cs start size = add_impl cs start size u32_max

unfoldable pub bounded_add : List Contig → ℕ → ℕ → ℕ → Outcome (Option ℕ × List Contig)
bounded_add cs start size max = add_impl cs start size max

-- `self.add(0, 0).unwrap()`
unfoldable pub reduce_front : List Contig → Outcome (ℕ × List Contig)
unfolding add
reduce_front cs = do
  (bytes, cs') ← add cs 0 0
  elim bytes [ none ↦ panics | some n ↦ returns (n, cs') ]
