-- ===== src/Wire/Address/Delivery.antt =====
-- send_address and recv_address of address.c, one after the other.
use openbsd_ldpd.Base.{
  ℕ, zero, suc, ◌+◌, ◌-◌, ◌*◌, ◌≤◌, ◌<◌, ◌≡◌, refl, ap, Bool, true, some, List, [], ◌∷◌, ◌++◌, take,
  drop, length, arith,
}
use openbsd_ldpd.Lde.{Af, LdeAddr}
use openbsd_ldpd.Wire.{Parsed}
use openbsd_ldpd.Wire.Label.Send.{Sender, next_msg_id}
use openbsd_ldpd.Wire.Address.{
  addr_size, tlv_addr_count, address_pdu, send_address, enabled, recv_address,
}
use openbsd_ldpd.Wire.Address.RoundTrip.{AllAddrs, lde_addrs, length-address_pdu, pdu_back}
use openbsd_ldpd.Wire.Fec.Bounds.{length-drop}

-- PDUs of at most the given length that a receiver reads without complaint, and the addresses that it
-- hands on, one PDU after the other.
abbrev pub Delivers : Bool → Bool → ℕ → List (List ℕ) → List LdeAddr → Type 0
Delivers v4 v6 maximum [] xs = xs ≡ []
Delivers v4 v6 maximum (p ∷ ps) xs =
    (ys : List LdeAddr) × (zs : List LdeAddr) × (xs ≡ ys ++ zs)
    × (recv_address v4 v6 (length p - 10) (drop 10 p) ≡ (ys, Parsed.ok tt))
    × (length p ≤ maximum)
    × Delivers v4 v6 maximum ps zs

addrs_take : (af : Af) (k : ℕ) (as' : List ℕ) → AllAddrs af as' → AllAddrs af (take k as')
addrs_take af zero as' h = tt
addrs_take af (suc k) [] h = tt
addrs_take af (suc k) (a ∷ as') h = (h.0, addrs_take af k as' h.1)

addrs_drop : (af : Af) (k : ℕ) (as' : List ℕ) → AllAddrs af as' → AllAddrs af (drop k as')
addrs_drop af zero as' h = h
addrs_drop af (suc k) [] h = tt
addrs_drop af (suc k) (a ∷ as') h = addrs_drop af k as' h.1

addrs_split :
    (af : Af) (k : ℕ) (as' : List ℕ)
    → lde_addrs af as' ≡ lde_addrs af (take k as') ++ lde_addrs af (drop k as')
addrs_split af zero as' = refl
addrs_split af (suc k) [] = refl
addrs_split af (suc k) (a ∷ as') = ap (λ x. record { af = af; addr = a } ∷ x) (addrs_split af k as')

length-take_le {ℓ} : {A : Type ℓ} (k : ℕ) (xs : List A) → length (take k xs) ≤ k
length-take_le zero xs = omega arith
length-take_le (suc k) [] = omega arith
length-take_le (suc k) (x ∷ xs) = omega (arith, length-take_le k xs)

-- The next message takes one address at least, and no more than fit.
count_bounds :
    (maximum : ℕ) (af : Af) (c n : ℕ)
    → 256 ≤ maximum
    → n ≤ tlv_addr_count maximum af (suc c)
    → (1 ≤ tlv_addr_count maximum af (suc c)) × (24 + n * addr_size af ≤ maximum)
unfolding tlv_addr_count
count_bounds maximum Af.inet c n h l = ground arith
count_bounds maximum Af.inet6 c n h l = ground arith

send_step :
    (f : ℕ) (nbr : Sender) (af : Af) (w : Bool) (cnt a : ℕ) (as' : List ℕ) (ps : List (List ℕ))
    → send_address f nbr af w
        (next_msg_id cnt)
        (drop (tlv_addr_count nbr.max_pdu_len af (length (a ∷ as'))) (a ∷ as'))
      ≡ some ps
    → send_address (suc f) nbr af w cnt (a ∷ as')
      ≡ some (
          address_pdu nbr af w
            (next_msg_id cnt)
            (take (tlv_addr_count nbr.max_pdu_len af (length (a ∷ as'))) (a ∷ as'))
          ∷ ps)
unfolding send_address
send_step f nbr af w cnt a as' ps e = ground (arith, e)

-- Every address of the list is delivered, once and in order: send_address ends, no PDU of it is longer
-- than the neighbor accepts, and a receiver with the family enabled reads each without complaint.
pub send_address-Delivers :
    (v4 v6 : Bool) (f : ℕ) (nbr : Sender) (af : Af) (w : Bool) (cnt : ℕ) (as' : List ℕ)
    → length as' ≤ f
    → 256 ≤ nbr.max_pdu_len
    → nbr.max_pdu_len < 65536
    → enabled af v4 v6 ≡ true
    → AllAddrs af as'
    → (ps : List (List ℕ)) × (send_address f nbr af w cnt as' ≡ some ps)
      × Delivers v4 v6 nbr.max_pdu_len ps (lde_addrs af as')
unfolding send_address
send_address-Delivers v4 v6 zero nbr af w cnt [] hf hm hx he h = ([], refl, refl)
send_address-Delivers v4 v6 (suc f) nbr af w cnt [] hf hm hx he h = ([], refl, refl)
send_address-Delivers v4 v6 zero nbr af w cnt (a ∷ as') hf hm hx he h = absurd (omega arith)
send_address-Delivers v4 v6 (suc f) nbr af w cnt (a ∷ as') hf hm hx he h =
    let xs = a ∷ as' in
    let k = tlv_addr_count nbr.max_pdu_len af (length xs) in
    let b =
      count_bounds nbr.max_pdu_len af (length as') (length (take k xs)) hm (length-take_le k xs) in
    let p = address_pdu nbr af w (next_msg_id cnt) (take k xs) in
    let l = length-address_pdu nbr af w (next_msg_id cnt) (take k xs) in
    let (ps, e, d) =
      send_address-Delivers v4 v6 f nbr af w (next_msg_id cnt) (drop k xs)
        (omega (arith, length-drop k xs, b.0)) hm hx he (addrs_drop af k xs h) in
    let size : length p - 10 ≡ 14 + length (take k xs) * addr_size af = omega (arith, l) in
    (
      p ∷ ps,
      send_step f nbr af w cnt a as' ps e,
      (
        lde_addrs af (take k xs),
        lde_addrs af (drop k xs),
        addrs_split af k xs,
        rw size (
            pdu_back v4 v6 nbr af w (next_msg_id cnt) (take k xs) he (addrs_take af k xs h)
              (omega (arith, b.1))),
        omega (arith, l, b.1),
        d,
      ),
    )
