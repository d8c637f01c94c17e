-- ===== src/Storage/Assembler/Bytes.antt =====
-- What the contigs of ethox/src/storage/assembler.rs stand for: the set of the bytes that are there.
use ethox.Base.{
  ◌<◌, ◌^◌, ℕ, ◌+◌, ◌-◌, ◌≡◌, refl, Bool, true, false, ◌&&◌, List, [], ◌∷◌, ◌++◌, map, ltb, leb,
  if◌then◌else◌, arith,
}
use ethox.Storage.Assembler.{Contig, empty}

abbrev pub extent : Contig → ℕ
extent c = c.hole_size + c.data_size

abbrev pub span : List Contig → ℕ
span [] = 0
span (c ∷ cs) = extent c + span cs

-- Whether the byte at an offset is there.
abbrev pub covers : List Contig → ℕ → Bool
covers [] x = false
covers (c ∷ cs) x =
    if ltb x c.hole_size
    then false
    else if ltb x (c.hole_size + c.data_size)
    then true
    else covers cs (x - (c.hole_size + c.data_size))

abbrev pub within : ℕ → ℕ → ℕ → Bool
within from size x = leb from x && ltb x (from + size)

-- Behind an empty contig all are empty.
abbrev pub IsPacked : List Contig → Type 0
IsPacked [] = Unit
IsPacked (c ∷ cs) = (extent c ≡ 0 → span cs ≡ 0) × IsPacked cs

-- The contigs are packed, and an offset reaches all their bytes.
abbrev pub IsAssembly : List Contig → Type 0
IsAssembly cs = (span cs < 2 ^ 32) × IsPacked cs

-- No contig is empty.
abbrev pub IsFilled : List Contig → Type 0
IsFilled [] = Unit
IsFilled (c ∷ cs) = (0 < extent c) × IsFilled cs

pub covers-nothing : (cs : List Contig) (x : ℕ) → span cs ≡ 0 → covers cs x ≡ false
covers-nothing [] x h = refl
covers-nothing (c ∷ cs) x h = ground (arith, covers-nothing cs (x - extent c))

pub covers-append :
    (xs ys : List Contig) (x : ℕ)
    → covers (xs ++ ys) x ≡ (if ltb x (span xs) then covers xs x else covers ys (x - span xs))
covers-append [] ys x = ground arith
covers-append (c ∷ xs) ys x =
    let e : x - extent c - span xs ≡ x - (extent c + span xs) = omega arith in
    ground (arith, covers-append xs ys (x - extent c), e)

pub span-append : (xs ys : List Contig) → span (xs ++ ys) ≡ span xs + span ys
span-append [] ys = omega arith
span-append (c ∷ xs) ys = omega (arith, span-append xs ys)

-- Empty contigs at the end add nothing.
pub covers-append_empty :
    (xs ys : List Contig) (x : ℕ) → span ys ≡ 0 → covers (xs ++ ys) x ≡ covers xs x
covers-append_empty [] ys x h = covers-nothing ys x h
covers-append_empty (c ∷ xs) ys x h = ground (arith, covers-append_empty xs ys (x - extent c) h)

pub IsPacked-behind : (xs cs : List Contig) → IsPacked (xs ++ cs) → IsPacked cs
IsPacked-behind [] cs h = h
IsPacked-behind (x ∷ xs) cs h = IsPacked-behind xs cs h.1

pub IsPacked-before : (xs cs : List Contig) → IsPacked (xs ++ cs) → IsPacked xs
IsPacked-before [] cs h = tt
IsPacked-before (x ∷ xs) cs h =
    ((λ e. omega (arith, h.0 e, span-append xs cs)), IsPacked-before xs cs h.1)

pub IsPacked-filled : (xs cs : List Contig) → IsFilled xs → IsPacked cs → IsPacked (xs ++ cs)
IsPacked-filled [] cs f h = h
IsPacked-filled (x ∷ xs) cs f h =
    ((λ e. absurd (omega (arith, f.0, e))), IsPacked-filled xs cs f.1 h)

pub IsPacked-emptied :
    (xs cs : List Contig) → IsPacked xs → span cs ≡ 0 → IsPacked cs → IsPacked (xs ++ cs)
IsPacked-emptied [] cs h e p = p
IsPacked-emptied (x ∷ xs) cs h e p =
    ((λ z. omega (arith, h.0 z, e, span-append xs cs)), IsPacked-emptied xs cs h.1 e p)

-- Contigs that are emptied.
abbrev pub wiped : List Contig → List Contig
wiped cs = map (λ _. empty) cs

pub span-wiped : (cs : List Contig) → span (wiped cs) ≡ 0
span-wiped [] = refl
span-wiped (c ∷ cs) = omega (arith, span-wiped cs)

pub wiped-IsPacked : (cs : List Contig) → IsPacked (wiped cs)
wiped-IsPacked [] = tt
wiped-IsPacked (c ∷ cs) = ((λ e. span-wiped cs), wiped-IsPacked cs)
