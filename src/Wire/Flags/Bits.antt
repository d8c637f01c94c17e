-- ===== src/Wire/Flags/Bits.antt =====
-- Each flag of ethox/src/wire/tcp.rs is a bit of its own. The laws are checked at each of the 512
-- values of the header's nine flag bits.
use ethox.Base.{ℕ, zero, suc, ◌<◌, ◌≡◌, refl, Bool, true, false, ◌&&◌, ◌==◌, arith, if◌then◌else◌}
use ethox.Wire.Flags.{
  Flags, fin, syn, rst, psh, ack, urg, ece, cwr, ns, set_fin, set_syn, set_rst, set_psh, set_ack,
  set_urg, set_ece, set_cwr, set_ns,
}

-- The nine flags, to speak of all readers and writers at once.
pub data FlagName : Type 0 where
  fin_name syn_name rst_name psh_name ack_name urg_name ece_name cwr_name ns_name : FlagName

pub number : FlagName → ℕ
number fin_name = 0
number syn_name = 1
number rst_name = 2
number psh_name = 3
number ack_name = 4
number urg_name = 5
number ece_name = 6
number cwr_name = 7
number ns_name = 8

pub reader : FlagName → Flags → Bool
unfolding fin syn rst psh ack urg ece cwr ns
reader fin_name = fin
reader syn_name = syn
reader rst_name = rst
reader psh_name = psh
reader ack_name = ack
reader urg_name = urg
reader ece_name = ece
reader cwr_name = cwr
reader ns_name = ns

pub writer : FlagName → Bool → Flags → Flags
unfolding set_fin set_syn set_rst set_psh set_ack set_urg set_ece set_cwr set_ns
writer fin_name = set_fin
writer syn_name = set_syn
writer rst_name = set_rst
writer psh_name = set_psh
writer ack_name = set_ack
writer urg_name = set_urg
writer ece_name = set_ece
writer cwr_name = set_cwr
writer ns_name = set_ns

-- Whether a test passes for each value of a field that has `size` of them.
unfoldable pub exhausts : (ℕ → Bool) → ℕ → Bool
exhausts test zero = true
exhausts test (suc size) = if test size then exhausts test size else false

pub exhausts_lem :
    (test : ℕ → Bool) (size value : ℕ)
    → value < size
    → exhausts test size ≡ true
    → test value ≡ true
unfolding exhausts
exhausts_lem test zero value fits passed = absurd (omega arith)
exhausts_lem test (suc size) value fits passed = ground (arith, exhausts_lem test size value)

same : Bool → Bool → Bool
same true b = b
same false true = false
same false false = true

same-eq : (a b : Bool) → same a b ≡ true → a ≡ b
unfolding same
same-eq a b h = ground arith

-- What `m` reads after `n` is written with `v`.
pub expected : FlagName → FlagName → Bool → Flags → Bool
unfolding number reader
expected n m v f = if number n == number m then v else reader m f

agrees : FlagName → FlagName → ℕ → Bool
unfolding same reader writer expected
agrees n m x =
    let f : Flags = record { bits = x } in
    same (reader m (writer n true f)) (expected n m true f)
    && same (reader m (writer n false f)) (expected n m false f)

table : (n m : FlagName) → exhausts (agrees n m) 512 ≡ true
unfolding exhausts agrees
table fin_name fin_name = refl
table fin_name _ = refl
table _ fin_name = refl
table _ _ = refl

-- Writing one flag makes its reader return what was written, and changes what no other reader
-- returns; for all nine flags, and flag bits below 512.
pub reader-writer :
    (n m : FlagName) (v : Bool) (f : Flags)
    → f.bits < 512
    → reader m (writer n v f) ≡ (if number n == number m then v else reader m f)
unfolding agrees expected
reader-writer n m v f h = same-eq _ _ (split v (exhausts_lem (agrees n m) 512 f.bits h (table n m)))
  where
    split :
        (v : Bool)
        → agrees n m f.bits ≡ true
        → same (reader m (writer n v f)) (expected n m v f) ≡ true
    split true e = ground arith
    split false e = ground arith
