-- ===== src/Wire/Address.antt =====
-- address.c: the address messages. An address is the number of its 16 bytes, of which the IPv4 view is the
-- first four. `maximum` stands for nbr->max_pdu_len, which recv_init keeps at 256 or more; addr_count is the
-- length of the list, as the callers of send_address count it.
pub mod RoundTrip
pub mod Delivery
use openbsd_ldpd.Base.{
  ℕ, zero, suc, ◌+◌, ◌-◌, ◌*◌, ◌/◌, ◌%◌, Bool, true, false, not, Option, none, some, List, [], ◌∷◌,
  ◌++◌, ltb, leb, ◌==◌, if◌then◌else◌, take, drop, length, replicate,
}
use openbsd_ldpd.Lde.{Af, LdeAddr}
use openbsd_ldpd.Wire.{
  Parsed, Refusal, be16, be32, of16, s_bad_tlv_len, s_bad_msg_len, s_unknown_tlv, s_unsup_addr,
}
use openbsd_ldpd.Wire.Bytes.{to_bytes, of_bytes}
use openbsd_ldpd.Wire.Fec.{family_code, family_of}
use openbsd_ldpd.Wire.Label.Send.{Sender, gen_ldp_hdr, next_msg_id}

-- sizeof(struct in_addr) and sizeof(struct in6_addr)
abbrev pub addr_size : Af → ℕ
addr_size Af.inet = 4
addr_size Af.inet6 = 16

-- MSG_TYPE_ADDR and MSG_TYPE_ADDRWITHDRAW
abbrev pub addr_msg_code : Bool → ℕ
addr_msg_code withdraw = if withdraw then 0x0301 else 0x0300

-- The addresses of gen_address_list_tlv.
unfoldable pub addr_bytes : Af → List ℕ → List ℕ
addr_bytes af [] = []
addr_bytes af (a ∷ as') = take (addr_size af) (to_bytes 16 a) ++ addr_bytes af as'

-- gen_address_list_tlv: `size` counts the header of the TLV. Its type is written without htons, which
-- makes no difference for 0x0101.
unfoldable pub gen_address_list_tlv : ℕ → Af → List ℕ → List ℕ
gen_address_list_tlv size af as' =
    be16 0x0101 ++ be16 ((size + 65536 - 4) % 65536) ++ be16 (family_code af) ++ addr_bytes af as'

-- How many addresses the next message takes.
unfoldable pub tlv_addr_count : ℕ → Af → ℕ → ℕ
tlv_addr_count maximum af count =
    if leb (24 + count * addr_size af) maximum then count else (maximum - 24) / addr_size af

-- One PDU of send_address, with its headers.
unfoldable pub address_pdu : Sender → Af → Bool → ℕ → List ℕ → List ℕ
address_pdu nbr af withdraw id as' =
    let size = 24 + length as' * addr_size af in
    gen_ldp_hdr nbr.rtr_id size
    ++ (be16 (addr_msg_code withdraw) ++ be16 ((size - 10 + 65536 - 4) % 65536) ++ be32 id)
    ++ gen_address_list_tlv (size - 18) af as'

-- send_address on fuel, with the counter of gen_msg_hdr: the PDUs, `none` when the fuel runs out.
unfoldable pub send_address : ℕ → Sender → Af → Bool → ℕ → List ℕ → Option (List (List ℕ))
send_address f nbr af withdraw cnt [] = some []
send_address zero nbr af withdraw cnt (a ∷ as') = none
send_address (suc f) nbr af withdraw cnt (a ∷ as') =
    let k = tlv_addr_count nbr.max_pdu_len af (length (a ∷ as')) in
    let id = next_msg_id cnt in
    let rest : Option (List (List ℕ)) = send_address f nbr af withdraw id (drop k (a ∷ as')) in
    elim rest [
      | none ↦ none
      | some ps ↦ some (address_pdu nbr af withdraw id (take k (a ∷ as')) ∷ ps)
    ]

-- while (len > 0), on fuel: the addresses that are handed to the label decision engine, and how the
-- loop ends.
unfoldable pub read_addrs : ℕ → Af → ℕ → List ℕ → List LdeAddr × Parsed (Unit {0})
read_addrs zero af len buf = ([], Parsed.hang)
read_addrs (suc f) af zero buf = ([], Parsed.ok tt)
read_addrs (suc f) af (suc n) buf =
    let k = addr_size af in
    let rest = read_addrs f af (suc n - k) (drop k buf) in
    if ltb (suc n) k
    then ([], Parsed.refused (Refusal.shutdown s_bad_tlv_len))
    else if ltb (length buf) k
    then ([], Parsed.overrun)
    else (record { af = af; addr = of_bytes (take k buf ++ replicate (16 - k) 0) } ∷ rest.0, rest.1)

abbrev list_refused : Refusal → List LdeAddr × Parsed (Unit {0})
list_refused r = ([], Parsed.refused r)

abbrev pub enabled : Af → Bool → Bool → Bool
enabled Af.inet v4 v6 = v4
enabled Af.inet6 v4 v6 = v6

-- The address list TLV; `len` is the length of the message from there.
unfoldable pub read_list : Bool → Bool → ℕ → List ℕ → List LdeAddr × Parsed (Unit {0})
unfolding read_addrs
read_list v4 v6 len (t1 ∷ t0 ∷ l1 ∷ l0 ∷ f1 ∷ f0 ∷ buf) =
    if ltb len 6
    then list_refused (Refusal.shutdown s_bad_msg_len)
    else if not (of16 l1 l0 == len - 4)
    then list_refused (Refusal.shutdown s_bad_tlv_len)
    else if not (of16 t1 t0 == 0x0101)
    then list_refused (Refusal.shutdown s_unknown_tlv)
    else elim (family_of (of16 f1 f0)) [
      | none ↦ list_refused (Refusal.notify s_unsup_addr)
      | some af ↦
          if enabled af v4 v6
          then read_addrs (suc (len - 6)) af (len - 6) buf
          else ([], Parsed.ok tt)
    ]
read_list v4 v6 len buf =
    if ltb len 6 then list_refused (Refusal.shutdown s_bad_msg_len) else ([], Parsed.overrun)

-- recv_address: the caller has read the header, so there are 8 bytes at least; whether the addresses are
-- added or withdrawn is told by the type of the message.
unfoldable pub recv_address : Bool → Bool → ℕ → List ℕ → List LdeAddr × Parsed (Unit {0})
unfolding read_list
recv_address v4 v6 len buf = read_list v4 v6 (len - 8) (drop 8 buf)
