-- ===== src/Discovery/Interface.antt =====
-- interface.c: the interfaces of the LDP engine, with a state for each address family, and the list of the
-- machine's addresses, which is announced to the neighbors (send_address_single of address.c).
-- `join` is what setsockopt says when an interface joins the multicast group of a family.
pub mod States
use openbsd_ldpd.Base.{
  ℕ, zero, suc, ◌+◌, ◌-◌, ◌/◌, ◌%◌, Bool, true, false, not, Option, none, some, List, [], ◌∷◌, ◌++◌,
  ◌==◌, ◌&&◌, ◌||◌, map, if◌then◌else◌, length,
}
use openbsd_ldpd.Lde.{Af, af_eq, addr_eq}
use openbsd_ldpd.Nbr.{is_oper}
use openbsd_ldpd.Nbr.Events.{s_shutdown}
use openbsd_ldpd.Discovery.{
  HelloSource, Adj, Neighbor, DiscOut, Disc, LeConf, AfConf, ldp_af_conf_get, crash,
}
use openbsd_ldpd.Discovery.Lists.{filter}
use openbsd_ldpd.Discovery.Adjacency.{adj_del, of_family}

-- struct if_addr of ldpd.h, and struct kaddr without the interface.
pub record IfAddr : Type 0 where
  pub af : Af
  pub addr : ℕ
  pub prefixlen : ℕ
  pub dstbrd : ℕ

-- struct iface_af; `active` is IF_STA_ACTIVE.
pub record IfaceAf : Type 0 where
  pub enabled : Bool
  pub active : Bool
  pub uptime : ℕ
  pub hello_timer : Option ℕ
  pub hello_holdtime : ℕ
  pub hello_interval : ℕ

-- struct iface; of the flags IFF_UP, and of linkstate LINK_STATE_IS_UP.
pub record Iface : Type 0 where
  pub ifindex : ℕ
  pub addr_list : List IfAddr
  pub linklocal : ℕ
  pub up : Bool
  pub link_up : Bool
  pub ipv4 : IfaceAf
  pub ipv6 : IfaceAf

-- An announcement of an address to a neighbor, or its withdrawal.
pub record Announced : Type 0 where
  pub id : ℕ
  pub addr : IfAddr
  pub withdraw : Bool

-- The engine: leconf->iface_list and global.addr_list.
pub record Le : Type 0 where
  pub disc : Disc
  pub iface_list : List Iface
  pub addr_list : List IfAddr
  pub announced : List Announced

-- if_new; the rest is zeroed.
abbrev pub no_af : IfaceAf
no_af = record {
  enabled = false;
  active = false;
  uptime = 0;
  hello_timer = none;
  hello_holdtime = 0;
  hello_interval = 0;
}

abbrev pub if_new : ℕ → Bool → Bool → Iface
if_new ifindex up link_up = record {
  ifindex = ifindex;
  addr_list = [];
  linklocal = 0;
  up = up;
  link_up = link_up;
  ipv4 = no_af;
  ipv6 = no_af;
}

-- `ifindex` is an unsigned short there.
unfoldable pub if_lookup : List Iface → ℕ → Option Iface
if_lookup [] i = none
if_lookup (x ∷ xs) i = if x.ifindex == i % 65536 then some x else if_lookup xs i

abbrev pub iface_af_get : Iface → Af → IfaceAf
iface_af_get x Af.inet = x.ipv4
iface_af_get x Af.inet6 = x.ipv6

abbrev pub iface_af_set : Iface → Af → IfaceAf → Iface
iface_af_set x Af.inet ia = record x { ipv4 = ia }
iface_af_set x Af.inet6 ia = record x { ipv6 = ia }

-- if_addr_lookup.
abbrev pub same_if_addr : IfAddr → IfAddr → Bool
same_if_addr ka x =
    addr_eq ka.af x.addr ka.addr && x.prefixlen == ka.prefixlen && addr_eq ka.af x.dstbrd ka.dstbrd

unfoldable pub if_addr_lookup : List IfAddr → IfAddr → Option IfAddr
if_addr_lookup [] ka = none
if_addr_lookup (x ∷ xs) ka = if same_if_addr ka x then some x else if_addr_lookup xs ka

-- LIST_REMOVE of the address that if_addr_lookup finds.
unfoldable pub if_addr_remove : List IfAddr → IfAddr → List IfAddr
if_addr_remove [] ka = []
if_addr_remove (x ∷ xs) ka = if same_if_addr ka x then xs else x ∷ if_addr_remove xs ka

-- The first adjacency of an interface and family, ia->adj_list.
abbrev pub on_link : ℕ → Af → Adj → Bool
on_link i af a = elim a.source [
  | HelloSource.link j bf s ↦ (j == i) && af_eq bf af
  | HelloSource.targeted bf t ↦ false
]

unfoldable pub first_adj : ℕ → Af → List Adj → Option Adj
first_adj i af [] = none
first_adj i af (a ∷ as') = if on_link i af a then some a else first_adj i af as'

-- while ((adj = LIST_FIRST(&ia->adj_list)) != NULL), on fuel.
unfoldable pub del_adjs : ℕ → ℕ → Af → Disc → Disc
unfolding first_adj adj_del
del_adjs zero i af d = d
del_adjs (suc f) i af d = elim (first_adj i af d.adj_list) [
  | none ↦ d
  | some a ↦ del_adjs f i af (adj_del d a s_shutdown)
]

-- if_start: -1 before the hello when the group cannot be joined.
unfoldable pub if_start : (ℕ → Af → Bool) → Disc → ℕ → Af → IfaceAf → Disc × IfaceAf
if_start join d i af ia =
    let started = record ia { uptime = d.now } in
    if join i af
    then (
      record d { out = d.out ++ DiscOut.link_hello i af ∷ [] },
      record started { hello_timer = some ia.hello_interval },
    )
    else (d, started)

-- if_reset, with as much fuel as there are adjacencies.
unfoldable pub if_reset : Disc → ℕ → Af → IfaceAf → Disc × IfaceAf
unfolding del_adjs
if_reset d i af ia = (del_adjs (length d.adj_list) i af d, record ia { hello_timer = none })

abbrev has_inet : List IfAddr → Bool
has_inet [] = false
has_inet (x ∷ xs) = af_eq x.af Af.inet || has_inet xs

-- IN6_IS_ADDR_LINKLOCAL
abbrev pub is_linklocal : ℕ → Bool
is_linklocal a = a / 332306998946228968225951765070086144 == 1018

abbrev pub addr_ok : Iface → Af → Bool
addr_ok x Af.inet = has_inet x.addr_list
addr_ok x Af.inet6 = is_linklocal x.linklocal

-- The conditions of if_update_af.
abbrev pub may_run : LeConf → Iface → Af → Bool
may_run c x af =
    (iface_af_get x af).enabled
    && (x.up && x.link_up)
    && addr_ok x af
    && (ldp_af_conf_get c af).disc_socket
    && not (c.rtr_id == 0)

unfoldable pub if_update_af : LeConf → (ℕ → Af → Bool) → Disc → Iface → Af → Disc × Iface
unfolding if_start if_reset
if_update_af c join d x af =
    let ia = iface_af_get x af in
    if not ia.active
    then (if may_run c x af
        then (let (e, ib) = if_start join d x.ifindex af (record ia { active = true }) in
            (e, iface_af_set x af ib))
        else (d, x))
    else (if may_run c x af
        then (d, x)
        else (let (e, ib) = if_reset d x.ifindex af (record ia { active = false }) in
            (e, iface_af_set x af ib)))

-- if_update, for one family or both.
unfoldable pub if_update : LeConf → (ℕ → Af → Bool) → Option Af → Disc → Iface → Disc × Iface
unfolding if_update_af
if_update c join family d x =
    let (e, y) = if of_family family Af.inet then if_update_af c join d x Af.inet else (d, x) in
    if of_family family Af.inet6 then if_update_af c join e y Af.inet6 else (e, y)

unfoldable pub if_update_all :
    LeConf → (ℕ → Af → Bool) → Option Af → Disc → List Iface → Disc × List Iface
unfolding if_update
if_update_all c join family d [] = (d, [])
if_update_all c join family d (x ∷ xs) =
    let (e, y) = if_update c join family d x in
    let (f, ys) = if_update_all c join family e xs in (f, y ∷ ys)

-- if_exit.
unfoldable pub if_exit : Disc → Iface → Disc × Iface
unfolding if_reset
if_exit d x =
    let (e, y) : Disc × Iface =
      if x.ipv4.active
      then (let r = if_reset d x.ifindex Af.inet x.ipv4 in (r.0, record x { ipv4 = r.1 }))
      else (d, x) in
    let (f, z) : Disc × Iface =
      if y.ipv6.active
      then (let r = if_reset e y.ifindex Af.inet6 y.ipv6 in (r.0, record y { ipv6 = r.1 }))
      else (e, y) in
    (f, record z { addr_list = [] })

-- The loop over the neighbors: those that are operational and take the family.
abbrev pub takes : Af → Neighbor → Bool
takes Af.inet n = is_oper n.session.state && n.session.v4_enabled
takes Af.inet6 n = is_oper n.session.state && n.session.v6_enabled

abbrev pub announced_to : IfAddr → Bool → Neighbor → Announced
announced_to ka withdraw n = record { id = n.id; addr = ka; withdraw = withdraw }

abbrev pub announce_all : Le → IfAddr → Bool → Le
announce_all s ka withdraw = record s {
  announced = s.announced ++ map (announced_to ka withdraw) (filter (takes ka.af) s.disc.nbrs);
}

abbrev set_iface : Iface → Iface → Iface
set_iface y x = if x.ifindex == y.ifindex then y else x

abbrev put_iface : Le → Disc × Iface → Le
put_iface s (d, y) = record s { disc = d; iface_list = map (set_iface y) s.iface_list }

-- The first part of if_addr_add and the last of if_addr_del.
unfoldable pub global_add : Le → IfAddr → Le
unfolding if_addr_lookup
global_add s ka = elim (if_addr_lookup s.addr_list ka) [
  | some _ ↦ s
  | none ↦ announce_all (record s { addr_list = ka ∷ s.addr_list }) ka false
]

unfoldable pub global_del : Le → IfAddr → Le
unfolding if_addr_lookup if_addr_remove
global_del s ka = elim (if_addr_lookup s.addr_list ka) [
  | none ↦ s
  | some x ↦ record (announce_all s x true) { addr_list = if_addr_remove s.addr_list ka }
]

unfoldable pub iface_add : LeConf → (ℕ → Af → Bool) → Disc → Iface → IfAddr → Disc × Iface
unfolding if_addr_lookup if_update
iface_add c join d x ka =
    let y =
      if af_eq ka.af Af.inet6 && is_linklocal ka.addr
      then record x { linklocal = ka.addr }
      else x in
    elim (if_addr_lookup y.addr_list ka) [
      | some _ ↦ (d, y)
      | none ↦ if_update c join (some ka.af) d (record y { addr_list = ka ∷ y.addr_list })
    ]

unfoldable pub iface_del : LeConf → (ℕ → Af → Bool) → Disc → Iface → IfAddr → Disc × Iface
unfolding if_addr_lookup if_addr_remove if_update
iface_del c join d x ka =
    let y =
      if af_eq ka.af Af.inet6 && (x.linklocal == ka.addr) then record x { linklocal = 0 } else x in
    elim (if_addr_lookup y.addr_list ka) [
      | none ↦ (d, y)
      | some z ↦
          if_update c join (some z.af) d (record y { addr_list = if_addr_remove y.addr_list ka })
    ]

unfoldable pub if_addr_add : LeConf → (ℕ → Af → Bool) → Le → ℕ → IfAddr → Le
unfolding global_add iface_add if_lookup
if_addr_add c join s i ka =
    let t = global_add s ka in
    elim (if_lookup t.iface_list i) [
      | none ↦ t
      | some x ↦ put_iface t (iface_add c join t.disc x ka)
    ]

unfoldable pub if_addr_del : LeConf → (ℕ → Af → Bool) → Le → ℕ → IfAddr → Le
unfolding global_del iface_del if_lookup
if_addr_del c join s i ka =
    let t : Le = elim (if_lookup s.iface_list i) [
      | none ↦ s
      | some x ↦ put_iface s (iface_del c join s.disc x ka)
    ] in
    global_del t ka

-- if_hello_timer.
unfoldable pub if_hello_timer : Disc → ℕ → Af → IfaceAf → Disc × IfaceAf
if_hello_timer d i af ia = (
  record d { out = d.out ++ DiscOut.link_hello i af ∷ [] },
  record ia { hello_timer = some ia.hello_interval },
)
