-- ===== src/Discovery/Hello/Message.antt =====
-- What a hello message says (hello.c), and which addresses are bad (bad_addr of util.c). The address classes
-- are those of netinet/in.h and netinet6/in6.h.
use openbsd_ldpd.Base.{
  ℕ, ◌/◌, ◌%◌, Bool, not, Option, none, some, List, ◌==◌, ◌&&◌, ◌||◌, if◌then◌else◌,
}
use mathlib.Core.List.{reverse}
use openbsd_ldpd.Lde.{Af, v4_of, of_v4}
use openbsd_ldpd.Wire.Bytes.{of_bytes}
use openbsd_ldpd.Wire.Hello.{HelloOpts, is_targeted}

-- bad_addr_v4, in host order: the networks 0 and 127, class D and class E.
unfoldable pub bad_addr_v4 : ℕ → Bool
bad_addr_v4 a =
    a / 16777216 == 0 || a / 16777216 == 127 || a / 268435456 == 14 || a / 268435456 == 15

abbrev bits_96 : ℕ → ℕ
bits_96 a = a / 4294967296

-- bad_addr_v6: unspecified, loopback, multicast, site-local, IPv4-mapped and IPv4-compatible.
unfoldable pub bad_addr_v6 : ℕ → Bool
bad_addr_v6 a =
    a == 0
    || a == 1
    || a / 1329227995784915872903807060280344576 == 255
    || a / 332306998946228968225951765070086144 == 1019
    || bits_96 a == 65535
    || (bits_96 a == 0 && not (a % 4294967296 == 0) && not (a % 4294967296 == 1))

unfoldable pub bad_addr : Af → ℕ → Bool
unfolding bad_addr_v4 bad_addr_v6
bad_addr Af.inet a = bad_addr_v4 (v4_of a)
bad_addr Af.inet6 a = bad_addr_v6 a

-- IN6_IS_SCOPE_EMBED: link-local, and multicast of the scopes 1 and 2.
unfoldable pub is_scope_embed : ℕ → Bool
is_scope_embed a =
    a / 332306998946228968225951765070086144 == 1018
    || (a / 1329227995784915872903807060280344576 == 255
        && (a / 5192296858534827628530496329220096 % 16 == 1
            || a / 5192296858534827628530496329220096 % 16 == 2))

abbrev pub s_trans_mismtch : ℕ
s_trans_mismtch = 0x80000032

abbrev pub s_ds_noncmplnce : ℕ
s_ds_noncmplnce = 0x80000033

-- What a hello message says.
pub record Heard : Type 0 where
  pub holdtime : ℕ
  pub targeted : Bool
  pub req_targ : Bool
  pub gtsm : Bool
  pub addr : Option ℕ
  pub seqnum : Option ℕ
  pub pref : Option ℕ

abbrev pub addr_of : Af → List ℕ → ℕ
addr_of Af.inet bs = of_v4 (of_bytes bs)
addr_of Af.inet6 bs = of_bytes bs

-- A uint32_t in memory.
abbrev pub word_of : Bool → List ℕ → ℕ
word_of big_endian bs = if big_endian then of_bytes bs else of_bytes (reverse bs)

abbrev pub flag : ℕ → ℕ → Bool
flag bit flags = flags / bit % 2 == 1

unfoldable pub heard : Bool → Af → ℕ → ℕ → HelloOpts → Heard
heard big_endian af holdtime flags s = record {
  holdtime = holdtime;
  targeted = is_targeted flags;
  req_targ = flag 16384 flags;
  gtsm = flag 8192 flags;
  addr = if s.rcvd_addr then some (addr_of af s.addr) else none;
  seqnum = if s.rcvd_conf then some (word_of big_endian s.conf_number) else none;
  pref = if s.rcvd_ds then some s.trans_pref else none;
}
