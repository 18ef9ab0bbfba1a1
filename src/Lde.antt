-- ===== src/Lde.antt =====
-- lde.h, and the parts of lde.c, ldpd.h and l2vpn.c that say what the label decision engine holds.
--
-- The engine's heap is a store: the tree `ft` of forwarding classes, the tree of neighbors by peer
-- id, and the configured pseudowires. A pointer to a fec_node is its class, a pointer to an lde_nbr
-- its peer id, a pointer to an l2vpn_pw its index. An lde_map is in two places of the C heap, in a
-- tree of its neighbor and in a list of its fec_node: here the tree holds the contents, and the
-- list the peer id of the neighbor whose mapping it is. A use of a NULL pointer or of an object
-- that is not in the store sets `fault`, and so does fatalx.
--
-- union ldpd_addr is the number of its 16 bytes, the most significant first; its IPv4 view is the
-- first four.
pub mod Kernel
pub mod Send
pub mod Check
pub mod Routes
pub mod Peers
pub mod Dispatch
pub mod Links
pub mod Convert
pub mod Steps
pub mod Safety
pub mod Tests
use openbsd_ldpd.Base.{
  ℕ, zero, suc, ◌+◌, ◌*◌, ◌/◌, ◌^◌, ◌%◌, ◌≡◌, ◌↔◌, ◌&&◌, ◌||◌, not, Bool, true, false, Option, none,
  some, List, [], ◌∷◌, ◌++◌, Ordering, compare, leb, ◌==◌, arith,
}
use openbsd_ldpd.Base.Branch.{if◌then◌else◌, on}
use openbsd_ldpd.RbTree.{KeyOrder, flip, find, insert, remove, update}
use openbsd_ldpd.Fec.{Fec}
use openbsd_ldpd.Fec.Order.{fec_order}

pub data Af : Type 0 where
  inet inet6 : Af

abbrev pub af_eq : Af → Af → Bool
af_eq Af.inet Af.inet = true
af_eq Af.inet6 Af.inet6 = true
af_eq _ _ = false

-- The IPv4 view of an address, and the address that a zeroed union has with that view.
abbrev pub v4_shift : ℕ
v4_shift = 79228162514264337593543950336

abbrev pub v4_of : ℕ → ℕ
v4_of a = a / v4_shift

abbrev pub of_v4 : ℕ → ℕ
of_v4 a = a * v4_shift

-- ldp_addrcmp of util.c: by the IPv4 view, or by memcmp of all 16 bytes.
abbrev pub ldp_addrcmp : Af → ℕ → ℕ → Ordering
ldp_addrcmp Af.inet a b = compare (v4_of a) (v4_of b)
ldp_addrcmp Af.inet6 a b = compare a b

abbrev pub addr_eq : Af → ℕ → ℕ → Bool
addr_eq af a b = elim (ldp_addrcmp af a b) [ Ordering.eq ↦ true | _ ↦ false ]

-- struct map: the union `fec` with the tag `type`, and the F_MAP_* flags.
pub data MapFec : Type 0 where
  wildcard : MapFec
  prefix : (af : Af) (addr : ℕ) (prefixlen : ℕ) → MapFec
  pwid : (type : ℕ) (pwid : ℕ) (group_id : ℕ) (ifmtu : ℕ) → MapFec

pub record MapFlags : Type 0 where
  pub req_id : Bool
  pub status : Bool
  pub pw_cword : Bool
  pub pw_id : Bool
  pub pw_ifmtu : Bool
  pub pw_status : Bool

abbrev pub no_flags : MapFlags
no_flags = record {
  req_id = false;
  status = false;
  pw_cword = false;
  pw_id = false;
  pw_ifmtu = false;
  pw_status = false;
}

pub record LabelMap : Type 0 where
  pub fec : MapFec
  pub msg_id : ℕ
  pub st_code : ℕ
  pub st_msg_id : ℕ
  pub st_msg_type : ℕ
  pub label : ℕ
  pub requestid : ℕ
  pub pw_status : ℕ
  pub flags : MapFlags

-- memset(map, 0, sizeof(*map)) with the type set.
abbrev pub zero_map : MapFec → LabelMap
zero_map f = record {
  fec = f;
  msg_id = 0;
  st_code = 0;
  st_msg_id = 0;
  st_msg_type = 0;
  label = 0;
  requestid = 0;
  pw_status = 0;
  flags = no_flags;
}

abbrev pub no_label : ℕ
no_label = 4294967295

-- struct fec_nh and struct fec_node
pub record FecNh : Type 0 where
  pub af : Af
  pub nexthop : ℕ
  pub remote_label : ℕ
  pub priority : ℕ

pub record FecNode : Type 0 where
  pub nexthops : List FecNh
  pub downstream : List ℕ
  pub upstream : List ℕ
  pub local_label : ℕ
  pub pw : Option ℕ  -- data

pub record LdeAddr : Type 0 where
  pub af : Af
  pub addr : ℕ

-- struct lde_nbr; its peer id is its key.
pub record LdeNbr : Type 0 where
  pub id : ℕ
  pub v4_enabled : Bool
  pub v6_enabled : Bool
  pub recv_req : List (Fec × ℕ)
  pub sent_req : List (Fec × ℕ)
  pub recv_map : List (Fec × LabelMap)
  pub sent_map : List (Fec × LabelMap)
  pub sent_wdraw : List (Fec × ℕ)
  pub addr_list : List LdeAddr

-- struct l2vpn_pw, with the mtu and the type of its struct l2vpn, and its F_PW_* flags.
pub record Pw : Type 0 where
  pub lsr_id : ℕ
  pub af : Af
  pub addr : ℕ
  pub pwid : ℕ
  pub mtu : ℕ
  pub pw_type : ℕ
  pub remote_group : ℕ
  pub remote_mtu : ℕ
  pub remote_status : ℕ
  pub statustlv_conf : Bool
  pub statustlv : Bool
  pub cword_conf : Bool
  pub cword : Bool
  pub status_up : Bool

-- What the engine sends: to the parent process, and to the LDP engine for a peer.
pub data Imsg : Type 0 where
  klabel_change klabel_delete : (fec : Fec) (nexthop local remote priority : ℕ) → Imsg
  kpwlabel_change kpwlabel_delete : (fec : Fec) (pw local remote : ℕ) → Imsg
  mapping_add withdraw_add release_add : (peerid : ℕ) → LabelMap → Imsg
  mapping_add_end withdraw_add_end release_add_end : (peerid : ℕ) → Imsg
  notification_send : (peerid status msg_id msg_type : ℕ) → Imsg

pub record Lde : Type 0 where
  pub ft : List (Fec × FecNode)
  pub nbrs : List (ℕ × LdeNbr)
  pub pws : ℕ → Pw
  pub pw_list : List ℕ
  pub exp_null_v4 : Bool
  pub exp_null_v6 : Bool
  pub last_label : ℕ
  pub out : List Imsg
  pub fault : Bool

-- lde_nbr_compare: the sign of the 32-bit difference, for peer ids below 2^31.
pub nat_cmp_eq : (a b : ℕ) → (compare a b ≡ Ordering.eq) ↔ (a ≡ b)
nat_cmp_eq a b = ground arith

pub nat_cmp_flips : (a b : ℕ) → compare b a ≡ flip (compare a b)
nat_cmp_flips a b = ground arith

pub nat_cmp_trans :
    (a b c : ℕ) → compare a b ≡ Ordering.lt → compare b c ≡ Ordering.lt → compare a c ≡ Ordering.lt
nat_cmp_trans a b c h k = ground arith

abbrev pub peer_order : KeyOrder ℕ
peer_order = record {
  cmp = λ a b. compare a b;
  eq_iff = nat_cmp_eq;
  flips = nat_cmp_flips;
  trans = nat_cmp_trans;
}

abbrev pub get_fn : Lde → Fec → Option FecNode
get_fn s f = find fec_order s.ft f

abbrev pub set_fn : Lde → Fec → (FecNode → FecNode) → Lde
set_fn s f h = record s { ft = update fec_order s.ft f h }

abbrev pub get_ln : Lde → ℕ → Option LdeNbr
get_ln s p = find peer_order s.nbrs p

abbrev pub set_ln : Lde → ℕ → (LdeNbr → LdeNbr) → Lde
set_ln s p h = record s { nbrs = update peer_order s.nbrs p h }

abbrev pub emit : Lde → Imsg → Lde
emit s m = record s { out = s.out ++ m ∷ [] }

abbrev pub fail : Lde → Lde
fail s = record s { fault = true }

-- A use of a pointer to a fec_node or to a neighbor.
abbrev pub with_fn : Lde → Fec → (FecNode → Lde) → Lde
with_fn s f k = on (get_fn s f) (fail s) (λ n. k n)

abbrev pub with_ln : Lde → ℕ → (LdeNbr → Lde) → Lde
with_ln s p k = on (get_ln s p) (fail s) (λ n. k n)

abbrev pub set_pw : Lde → ℕ → (Pw → Pw) → Lde
set_pw s i h = record s { pws = λ j. if j == i then h (s.pws i) else s.pws j }

-- lde_address_find
pub lde_address_find : List LdeAddr → Af → ℕ → Bool
lde_address_find [] af addr = false
lde_address_find (a ∷ as') af addr =
    (af_eq a.af af && addr_eq af a.addr addr) || lde_address_find as' af addr

-- The key of a next hop, by which fec_nh_find tells it from the others, and fec_nh_find.
abbrev pub nh_is : Af → ℕ → ℕ → FecNh → Bool
nh_is af nexthop priority h =
    af_eq h.af af && addr_eq af h.nexthop nexthop && (h.priority == priority)

pub fec_nh_find : List FecNh → Af → ℕ → ℕ → Option FecNh
fec_nh_find [] af nexthop priority = none
fec_nh_find (h ∷ hs) af nexthop priority =
    if nh_is af nexthop priority h then some h else fec_nh_find hs af nexthop priority

-- fnh->remote_label = label
pub nh_set_label : FecNh → ℕ → List FecNh → List FecNh
nh_set_label k label [] = []
nh_set_label k label (h ∷ hs) =
    if nh_is k.af k.nexthop k.priority h
    then record h { remote_label = label } ∷ hs
    else h ∷ nh_set_label k label hs

-- LIST_REMOVE of the next hop with that key (fec_nh_del), and of a mapping of a peer.
pub fec_nh_del : FecNh → List FecNh → List FecNh
fec_nh_del k [] = []
fec_nh_del k (h ∷ hs) = if nh_is k.af k.nexthop k.priority h then hs else h ∷ fec_nh_del k hs

pub erase : ℕ → List ℕ → List ℕ
erase p [] = []
erase p (q ∷ qs) = if p == q then qs else q ∷ erase p qs

pub set_remote : Lde → Fec → FecNh → ℕ → Lde
set_remote s f h label = set_fn s f (λ n. record n { nexthops = nh_set_label h label n.nexthops })

abbrev pub is_nil {ℓ} : {A : Type ℓ} → List A → Bool
is_nil [] = true
is_nil (x ∷ xs) = false

-- LIST_FOREACH over the keys of a tree.
abbrev pub keys {ℓ κ} : {K : Type ℓ} {V : Type κ} → List (K × V) → List K
keys [] = []
keys ((k, v) ∷ t) = k ∷ keys t
