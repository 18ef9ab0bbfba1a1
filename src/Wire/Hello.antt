-- ===== src/Wire/Hello.antt =====
-- hello.c: the hello message, as send_hello writes it and as recv_hello reads it, up to the source and
-- the adjacency. A configuration has of leconf and global what the message depends on; addresses are
-- their bytes. memcpy without ntohl leaves conf_number in network order: it is the four bytes.
pub mod RoundTrip
use openbsd_ldpd.Base.{
  ℕ, zero, suc, ◌+◌, ◌-◌, ◌*◌, ◌/◌, ◌%◌, ◌&&◌, ◌||◌, not, Bool, true, false, List, [], ◌∷◌, ◌++◌,
  ltb, leb, ◌==◌, if◌then◌else◌, drop, take, length,
}
use openbsd_ldpd.Lde.{Af}
use openbsd_ldpd.Wire.{be16, be32, of16, of32}
use openbsd_ldpd.Wire.Label.Send.{gen_ldp_hdr, next_msg_id}

pub record HelloConf : Type 0 where
  pub rtr_id : ℕ
  pub enabled4 : Bool
  pub enabled6 : Bool
  pub trans_addr4 : List ℕ
  pub trans_addr6 : List ℕ
  pub trans_pref : ℕ
  pub no_gtsm : Bool
  pub cisco_interop : Bool
  pub conf_seqnum : ℕ

unfoldable pub ldp_is_dual_stack : HelloConf → Bool
ldp_is_dual_stack c = c.enabled4 && c.enabled6

-- What send_hello takes of the interface or of the targeted neighbor.
pub data HelloType : Type 0 where
  link : ℕ → HelloType
  targeted : ℕ → Bool → ℕ → HelloType

abbrev pub hello_holdtime : HelloType → ℕ
hello_holdtime (HelloType.link holdtime) = holdtime
hello_holdtime (HelloType.targeted holdtime configured pw_count) = holdtime

-- The switch over the type in send_hello: F_HELLO_TARGETED, F_HELLO_REQ_TARG and F_HELLO_GTSM.
unfoldable pub hello_flags : HelloConf → Af → HelloType → ℕ
hello_flags c Af.inet (HelloType.link holdtime) = if c.no_gtsm then 0 else 0x2000
hello_flags c Af.inet6 (HelloType.link holdtime) = 0
hello_flags c af (HelloType.targeted holdtime configured pw_count) =
    if configured || not (pw_count == 0) then 0xc000 else 0x8000

abbrev pub gen_hello_prms_tlv : ℕ → ℕ → List ℕ
gen_hello_prms_tlv holdtime flags = be16 0x0400 ++ be16 4 ++ be16 holdtime ++ be16 flags

-- gen_opt4_hello_prms_tlv and gen_opt16_hello_prms_tlv.
abbrev pub gen_opt_hello_prms_tlv : ℕ → ℕ → List ℕ → List ℕ
gen_opt_hello_prms_tlv type size value = be16 type ++ be16 size ++ value

unfoldable pub ds_value : HelloConf → List ℕ
ds_value c =
    if c.cisco_interop then be32 c.trans_pref else be32 (c.trans_pref * 268435456 % 4294967296)

abbrev pub gen_ds_hello_prms_tlv : HelloConf → List ℕ
gen_ds_hello_prms_tlv c = gen_opt_hello_prms_tlv 0x8701 4 (ds_value c)

abbrev pub gen_trans_addr : HelloConf → Af → List ℕ
gen_trans_addr c Af.inet = gen_opt_hello_prms_tlv 0x0401 4 c.trans_addr4
gen_trans_addr c Af.inet6 = gen_opt_hello_prms_tlv 0x0403 16 c.trans_addr6

abbrev trans_addr_size : Af → ℕ
trans_addr_size Af.inet = 8
trans_addr_size Af.inet6 = 20

-- "calculate message size"
abbrev pub hello_size : HelloConf → Af → ℕ
hello_size c af = 10 + 8 + 8 + trans_addr_size af + 8 + (if ldp_is_dual_stack c then 8 else 0)

-- The parameters of the message.
unfoldable pub hello_prms : HelloConf → Af → HelloType → List ℕ
unfolding hello_flags ds_value
hello_prms c af type =
    gen_hello_prms_tlv (hello_holdtime type) (hello_flags c af type)
    ++ (gen_trans_addr c af
        ++ (gen_opt_hello_prms_tlv 0x0402 4 (be32 c.conf_seqnum)
            ++ (if ldp_is_dual_stack c then gen_ds_hello_prms_tlv c else [])))

-- The packet of send_hello, with the counter of gen_msg_hdr.
unfoldable pub send_hello : HelloConf → Af → HelloType → ℕ → List ℕ
unfolding hello_prms
send_hello c af type cnt =
    let size = hello_size c af in
    gen_ldp_hdr c.rtr_id size
    ++ (be16 0x0100 ++ be16 (size - 10 - 4) ++ be32 (next_msg_id cnt))
    ++ hello_prms c af type

-- What tlv_decode_opt_hello_prms returns through its pointers, with the flags of tlvs_rcvd.
pub record HelloOpts : Type 0 where
  pub rcvd_addr : Bool
  pub rcvd_conf : Bool
  pub rcvd_ds : Bool
  pub addr : List ℕ
  pub conf_number : List ℕ
  pub trans_pref : ℕ

-- The address before any TLV is read stands for the zeroed union, which recv_hello does not use.
abbrev pub no_opts : HelloOpts
no_opts = record {
  rcvd_addr = false;
  rcvd_conf = false;
  rcvd_ds = false;
  addr = [];
  conf_number = 0 ∷ 0 ∷ 0 ∷ 0 ∷ [];
  trans_pref = 0;
}

-- -1, a read past the end of the packet, a loop that did not end on its fuel, or the values with the
-- length that is left.
pub data Decoded : Type 0 where
  bad : Decoded
  overrun : Decoded
  hang : Decoded
  opts : ℕ → HelloOpts → Decoded

-- The transport address TLVs: `mine` says whether the family is that of the packet.
unfoldable pub hello_addr : Bool → ℕ → ℕ → List ℕ → HelloOpts → Decoded
hello_addr mine size l v s =
    if not (l == size)
    then Decoded.bad
    else if not mine
    then Decoded.bad
    else if s.rcvd_addr
    then Decoded.opts 0 s
    else if ltb (length v) size
    then Decoded.overrun
    else Decoded.opts 0 (record s { addr = take size v; rcvd_addr = true })

unfoldable pub hello_conf : ℕ → List ℕ → HelloOpts → Decoded
hello_conf l v s =
    if not (l == 4)
    then Decoded.bad
    else if ltb (length v) 4
    then Decoded.overrun
    else Decoded.opts 0 (record s { conf_number = take 4 v; rcvd_conf = true })

unfoldable pub hello_ds : HelloConf → ℕ → List ℕ → HelloOpts → Decoded
hello_ds c l (b3 ∷ b2 ∷ b1 ∷ b0 ∷ v) s =
    if not (l == 4)
    then Decoded.bad
    else if not (ldp_is_dual_stack c)
    then Decoded.opts 0 s
    else let pref = if c.cisco_interop then of16 b1 b0 else of16 b3 b2 / 4096 in
      Decoded.opts 0 (record s { trans_pref = pref; rcvd_ds = true })
hello_ds c l v s =
    if not (l == 4)
    then Decoded.bad
    else if not (ldp_is_dual_stack c)
    then Decoded.opts 0 s
    else Decoded.overrun

abbrev pub is_inet : Af → Bool
is_inet Af.inet = true
is_inet Af.inet6 = false

-- The switch over the type of a TLV.
unfoldable pub hello_tlv : HelloConf → Af → ℕ → ℕ → List ℕ → HelloOpts → Decoded
unfolding hello_addr hello_conf hello_ds
hello_tlv c af t l v s =
    if t == 0x0401
    then hello_addr (is_inet af) 4 l v s
    else if t == 0x0403
    then hello_addr (not (is_inet af)) 16 l v s
    else if t == 0x0402
    then hello_conf l v s
    else if t == 0x8701
    then hello_ds c l v s
    else if leb 32768 t
    then Decoded.opts 0 s
    else Decoded.bad

abbrev pub go_on : Decoded → (HelloOpts → Decoded) → Decoded
go_on Decoded.bad k = Decoded.bad
go_on Decoded.overrun k = Decoded.overrun
go_on Decoded.hang k = Decoded.hang
go_on (Decoded.opts n s) k = k s

-- while (len >= sizeof(tlv)), on fuel.
unfoldable pub tlv_decode_opt_hello_prms : HelloConf → Af → ℕ → ℕ → List ℕ → HelloOpts → Decoded
unfolding hello_tlv
tlv_decode_opt_hello_prms c af zero len buf s = Decoded.hang
tlv_decode_opt_hello_prms c af (suc f) len (t1 ∷ t0 ∷ l1 ∷ l0 ∷ v) s =
    let l = of16 l1 l0 in
    let next = tlv_decode_opt_hello_prms c af f (len - 4 - l) (drop l v) in
    if ltb len 4
    then Decoded.opts len s
    else if ltb len (l + 4)
    then Decoded.bad
    else go_on (hello_tlv c af (of16 t1 t0) l v s) next
tlv_decode_opt_hello_prms c af (suc f) len buf s =
    if ltb len 4 then Decoded.opts len s else Decoded.overrun

-- The first checks of recv_hello, before the transport address is judged: the holdtime, the flags and the
-- optional parameters of a message that is not discarded.
pub data Hello : Type 0 where
  discarded : Hello
  overrun : Hello
  hang : Hello
  read : ℕ → ℕ → HelloOpts → Hello

abbrev pub whole : ℕ → ℕ → Decoded → Hello
whole holdtime flags Decoded.bad = Hello.discarded
whole holdtime flags Decoded.overrun = Hello.overrun
whole holdtime flags Decoded.hang = Hello.hang
whole holdtime flags (Decoded.opts left s) =
    if left == 0 then Hello.read holdtime flags s else Hello.discarded

abbrev pub is_targeted : ℕ → Bool
is_targeted flags = flags / 32768 % 2 == 1

unfoldable pub read_hello : HelloConf → Af → Bool → ℕ → List ℕ → Hello
unfolding tlv_decode_opt_hello_prms
read_hello c af multicast len (t1 ∷ t0 ∷ l1 ∷ l0 ∷ h1 ∷ h0 ∷ f1 ∷ f0 ∷ rest) =
    let holdtime = of16 h1 h0 in
    let flags = of16 f1 f0 in
    if ltb len 8 || not (of16 t1 t0 == 0x0400) || not (of16 l1 l0 == 4)
    then Hello.discarded
    else if not (holdtime == 0) && ltb holdtime 3
    then Hello.discarded
    else if multicast && is_targeted flags
    then Hello.discarded
    else if not multicast && not (is_targeted flags)
    then Hello.discarded
    else whole holdtime flags
        (tlv_decode_opt_hello_prms c af (suc (len - 8)) (len - 8) rest no_opts)
read_hello c af multicast len buf = if ltb len 8 then Hello.discarded else Hello.overrun
