-- ===== src/Wire/Flags.antt =====
-- `Flags` of ethox/src/wire/tcp.rs: a `u16` whose low nine bits are the control flags.
pub mod Bits
use Prim.Native.Nat.{bit_and, bit_or, bit_xor}
use ethox.Base.{ℕ, ◌+◌, Bool, not, ◌==◌, if◌then◌else◌, u16_max}

pub record Flags : Type 0 where
  pub bits : ℕ

abbrev pub none_set : Flags
none_set = record { bits = 0 }

abbrev pub fin_flag : Flags
fin_flag = record { bits = 0x001 }

abbrev pub syn_flag : Flags
syn_flag = record { bits = 0x002 }

abbrev pub rst_flag : Flags
rst_flag = record { bits = 0x004 }

abbrev pub psh_flag : Flags
psh_flag = record { bits = 0x008 }

abbrev pub ack_flag : Flags
ack_flag = record { bits = 0x010 }

abbrev pub urg_flag : Flags
urg_flag = record { bits = 0x020 }

abbrev pub ece_flag : Flags
ece_flag = record { bits = 0x040 }

abbrev pub cwr_flag : Flags
cwr_flag = record { bits = 0x080 }

abbrev pub ns_flag : Flags
ns_flag = record { bits = 0x100 }

-- `self.0 & FLAG.0 != 0`, the body of each reader.
abbrev pub has : Flags → Flags → Bool
has flag f = not (bit_and f.bits flag.bits == 0)

unfoldable pub fin : Flags → Bool
fin = has fin_flag

unfoldable pub syn : Flags → Bool
syn = has syn_flag

unfoldable pub rst : Flags → Bool
rst = has rst_flag

unfoldable pub psh : Flags → Bool
psh = has psh_flag

unfoldable pub ack : Flags → Bool
ack = has ack_flag

unfoldable pub urg : Flags → Bool
urg = has urg_flag

unfoldable pub ece : Flags → Bool
ece = has ece_flag

unfoldable pub cwr : Flags → Bool
cwr = has cwr_flag

unfoldable pub ns : Flags → Bool
ns = has ns_flag

-- `!x` of a `u16`.
abbrev pub complement : ℕ → ℕ
complement x = bit_xor x u16_max

-- `(self.0 & !FLAG.0) | (if value { FLAG.0 } else { 0 })`, the body of each writer.
abbrev pub put : Flags → Bool → Flags → Flags
put flag value f = record {
  bits = bit_or (bit_and f.bits (complement flag.bits)) (if value then flag.bits else 0);
}

unfoldable pub set_fin : Bool → Flags → Flags
set_fin = put fin_flag

unfoldable pub set_syn : Bool → Flags → Flags
set_syn = put syn_flag

unfoldable pub set_rst : Bool → Flags → Flags
set_rst = put rst_flag

unfoldable pub set_psh : Bool → Flags → Flags
set_psh = put psh_flag

unfoldable pub set_ack : Bool → Flags → Flags
set_ack = put ack_flag

unfoldable pub set_urg : Bool → Flags → Flags
set_urg = put urg_flag

unfoldable pub set_ece : Bool → Flags → Flags
set_ece = put ece_flag

unfoldable pub set_cwr : Bool → Flags → Flags
set_cwr = put cwr_flag

unfoldable pub set_ns : Bool → Flags → Flags
set_ns = put ns_flag

-- `usize::from(bool)`
abbrev pub from_bool : Bool → ℕ
from_bool b = if b then 1 else 0

unfoldable pub sequence_len : Flags → ℕ
unfolding syn fin
sequence_len f = from_bool (syn f) + from_bool (fin f)

-- `BitOr`, and `const_or` with the same body.
unfoldable pub bitor : Flags → Flags → Flags
bitor f g = record { bits = bit_or f.bits g.bits }
