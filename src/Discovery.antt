-- ===== src/Discovery.antt =====
-- The discovery state of the LDP engine: hello adjacencies (struct adj of ldpe.h), neighbors (struct nbr),
-- targeted neighbors (struct tnbr of ldpd.h) and pending connections (struct pending_conn).
-- Pointers are keys: an adjacency and a targeted neighbor have the number that calloc gave them, and a
-- pointer to a neighbor is its LSR id, which is unique. The adj_list of a neighbor is what of the
-- global list points to it, and so for an interface. The trees nbrs_by_id and nbrs_by_addr are one list.
-- A use of a stale pointer, and fatalx, set `fault`.
pub mod Lists
pub mod Adjacency
pub mod View
pub mod Hello
pub mod Interface
pub mod Tree
pub mod Safety
pub mod Orphans
pub mod Tests
use openbsd_ldpd.Base.{
  ℕ, suc, ◌+◌, Bool, true, false, Option, none, some, List, [], ◌∷◌, ◌++◌, ◌==◌, ◌&&◌, map,
  if◌then◌else◌,
}
use openbsd_ldpd.Lde.{Af, af_eq, addr_eq}
use openbsd_ldpd.Nbr.{Nbr, Out, Engine}

-- A hello's source: an interface and the address on it, or a targeted neighbor. The address family is
-- that of the interface's side or of the targeted neighbor, which does not change.
pub data HelloSource : Type 0 where
  link : (ifindex : ℕ) (af : Af) (src_addr : ℕ) → HelloSource
  targeted : (af : Af) (target : ℕ) → HelloSource

pub record Adj : Type 0 where
  pub ptr : ℕ
  pub lsr_id : ℕ
  pub nbr : Option ℕ
  pub source : HelloSource
  pub holdtime : ℕ
  pub inactivity_timer : Option ℕ
  pub trans_addr : ℕ

-- The part of struct nbr that discovery reads, with the session.
pub record Neighbor : Type 0 where
  pub id : ℕ
  pub af : Af
  pub ds_tlv : Bool
  pub laddr : ℕ
  pub raddr : ℕ
  pub raddr_scope : ℕ
  pub conf_seqnum : ℕ
  pub gtsm_negotiated : Bool
  pub session : Nbr

pub record Tnbr : Type 0 where
  pub ptr : ℕ
  pub af : Af
  pub addr : ℕ
  pub adj : Option ℕ
  pub active : Bool
  pub configured : Bool
  pub dynamic : Bool
  pub pw_count : ℕ
  pub hello_holdtime : ℕ
  pub hello_interval : ℕ
  pub hello_timer : Option ℕ

-- `checked` is what the GTSM and MD5 checks of session_accept_nbr say of the socket.
pub record PendingConn : Type 0 where
  pub af : Af
  pub addr : ℕ
  pub checked : Bool

pub data DiscOut : Type 0 where
  session : ℕ → Out → DiscOut
  link_hello : (ifindex : ℕ) (af : Af) → DiscOut
  targeted_hello : (target : ℕ) → DiscOut

pub record Disc : Type 0 where
  pub adj_list : List Adj
  pub nbrs : List Neighbor
  pub tnbrs : List Tnbr
  pub pending_conns : List PendingConn
  pub next : ℕ  -- the next pointer of calloc
  pub pids : List ℕ
  pub peercnt : ℕ
  pub now : ℕ
  pub out : List DiscOut
  pub fault : Bool

-- What discovery reads of struct ldpd_af_conf and, by family, of struct ldpd_global.
pub record AfConf : Type 0 where
  pub thello_accept : Bool
  pub thello_holdtime : ℕ
  pub thello_interval : ℕ
  pub trans_addr : ℕ
  pub disc_socket : Bool  -- ldp_disc_socket != -1
  pub edisc_socket : Bool

pub record LeConf : Type 0 where
  pub rtr_id : ℕ
  pub ipv4 : AfConf
  pub ipv6 : AfConf
  pub trans_pref : ℕ

abbrev pub ldp_af_conf_get : LeConf → Af → AfConf
ldp_af_conf_get c Af.inet = c.ipv4
ldp_af_conf_get c Af.inet6 = c.ipv6

abbrev pub crash : Disc → Disc
crash d = record d { fault = true }

-- An operation on a neighbor's session; the neighbor may send, and take a peer id.
abbrev pub set_session : ℕ → Nbr → Neighbor → Neighbor
set_session id s m = if m.id == id then record m { session = s } else m

unfoldable pub on_nbr : Disc → Neighbor → (Engine → Engine) → Disc
on_nbr d n f =
    let w =
      f (record { nbr = n.session; pids = d.pids; peercnt = d.peercnt; now = d.now; out = [] }) in
    record d {
      nbrs = map (set_session n.id w.nbr) d.nbrs;
      pids = w.pids;
      peercnt = w.peercnt;
      out = d.out ++ map (DiscOut.session n.id) w.out;
    }

-- nbr_find_ldpid and nbr_find_addr of neighbor.c, with nbr_addr_compare. nbr_find_ldpid is RB_FIND where
-- nbr_id_compare orders the id and those of the neighbors as numbers; elsewhere RB_FIND can miss the id.
unfoldable pub nbr_find_ldpid : List Neighbor → ℕ → Option Neighbor
nbr_find_ldpid [] id = none
nbr_find_ldpid (n ∷ ns) id = if n.id == id then some n else nbr_find_ldpid ns id

abbrev pub same_addr : Af → ℕ → Af → ℕ → Bool
same_addr af a bf b = af_eq af bf && addr_eq af a b

unfoldable pub nbr_find_addr : List Neighbor → Af → ℕ → Option Neighbor
nbr_find_addr [] af addr = none
nbr_find_addr (n ∷ ns) af addr =
    if same_addr af addr n.af n.raddr then some n else nbr_find_addr ns af addr

-- adj_get_af of adjacency.c.
abbrev pub source_af : HelloSource → Af
source_af (HelloSource.link i af a) = af
source_af (HelloSource.targeted af t) = af

abbrev pub adj_get_af : Adj → Af
adj_get_af a = source_af a.source

abbrev pub points_to : ℕ → Option ℕ → Bool
points_to id none = false
points_to id (some x) = x == id

-- nbr_adj_count of neighbor.c.
unfoldable pub nbr_adj_count : List Adj → ℕ → Af → ℕ
nbr_adj_count [] id af = 0
nbr_adj_count (a ∷ as') id af =
    (if points_to id a.nbr && af_eq (adj_get_af a) af then 1 else 0) + nbr_adj_count as' id af
