-- ===== src/Discovery/Hello.antt =====
-- recv_hello of hello.c, from the message to the adjacency and the neighbor, with
-- nbr_establish_connection and nbr_session_active_role of neighbor.c.
mod Message
mod Target
unfoldable pub use Message.*
unfoldable pub use Target.*
use openbsd_ldpd.Base.{
  ℕ, ◌/◌, ◌%◌, Bool, true, false, not, Option, none, some, List, [], ◌∷◌, ◌++◌, ◌==◌, ◌&&◌, ◌||◌,
  map, if◌then◌else◌, ltb, Ordering,
}
use mathlib.Core.List.{reverse}
use openbsd_ldpd.Lde.{Af, af_eq, addr_eq, ldp_addrcmp, v4_of, of_v4}
use openbsd_ldpd.Nbr.{NbrState, NbrEvent, set_nbr, nbr_fsm, nbr_stop_idtimer}
use openbsd_ldpd.Nbr.Events.{session_shutdown, s_shutdown}
use openbsd_ldpd.Wire.Bytes.{of_bytes}
use openbsd_ldpd.Wire.Hello.{HelloConf, HelloOpts, Hello, read_hello, is_targeted}
use openbsd_ldpd.Discovery.{
  HelloSource, Adj, Neighbor, Tnbr, DiscOut, Disc, LeConf, ldp_af_conf_get, crash, on_nbr,
  nbr_find_ldpid, nbr_find_addr, nbr_adj_count,
}
use openbsd_ldpd.Discovery.Adjacency.{
  adj_new, adj_del, adj_find, adj_get, tnbr_get, tnbr_new, tnbr_find, tnbr_check, tnbr_update,
  nbr_create, put_adj, adj_start_itimer, adj_stop_itimer, nbr_adjs,
}

-- if (adj) adj_del(adj, S_SHUTDOWN)
unfoldable pub drop_adj : Disc → Option Adj → Disc
unfolding adj_del
drop_adj d none = d
drop_adj d (some a) = adj_del d a s_shutdown

abbrev pub shut_down_nbr : Disc → Option Neighbor → ℕ → Disc
shut_down_nbr d none status = d
shut_down_nbr d (some n) status = on_nbr d n (λ w. session_shutdown w status)

-- The switch for a neighbor that does not send the dual-stack TLV: it has adjacencies of the other family.
abbrev pub other_af : Af → Af
other_af Af.inet = Af.inet6
other_af Af.inet6 = Af.inet

abbrev pub is_noncompliant : Disc → Option Neighbor → Af → Bool → Bool
is_noncompliant d none af ds = false
is_noncompliant d (some n) af ds = not ds && not (nbr_adj_count d.adj_list n.id (other_af af) == 0)

-- The neighbor advertises another transport address.
abbrev pub is_moved : Option Neighbor → Af → ℕ → ℕ → Bool
is_moved none af addr scope = false
is_moved (some n) af addr scope =
    af_eq n.af af && (not (addr_eq af n.raddr addr) || not (n.raddr_scope == scope))

-- The transport address is in use by another LSR id.
abbrev pub is_used : Disc → Option Neighbor → Af → ℕ → Bool
is_used d (some n) af addr = false
is_used d none af addr = elim (nbr_find_addr d.nbrs af addr) [ none ↦ false | some _ ↦ true ]

abbrev pub is_mismatch : LeConf → Option ℕ → Bool
is_mismatch c none = false
is_mismatch c (some p) = not (p == c.trans_pref)

-- An adjacency's family is the preferred one.
abbrev pub starts_session : Af → Option ℕ → Bool
starts_session af none = true
starts_session Af.inet (some p) = p == 4
starts_session Af.inet6 (some p) = p == 6

abbrev pub has_value : Option ℕ → Bool
has_value none = false
has_value (some x) = true

-- adj_new, and the neighbor that is known already.
unfoldable pub find_adj : Disc → Option Adj → Option Neighbor → ℕ → HelloSource → ℕ → Disc × Adj
unfolding adj_new
find_adj d (some a) nbr lsr_id source addr = (d, a)
find_adj d none none lsr_id source addr = adj_new d lsr_id source addr
find_adj d none (some n) lsr_id source addr =
    let (e, a) = adj_new d lsr_id source addr in
    let b = record a { nbr = some n.id } in (put_adj e b, b)

unfoldable pub find_nbr : LeConf → Disc → Option Neighbor → ℕ → Af → Option ℕ → ℕ → ℕ → Disc
unfolding nbr_create
find_nbr c d (some n) lsr_id af pref addr scope = d
find_nbr c d none lsr_id af pref addr scope =
    if starts_session af pref then nbr_create c d lsr_id af (has_value pref) addr scope else d

-- The updates of a neighbor: GTSM, and the configuration sequence number.
abbrev pub set_gtsm : ℕ → Bool → Neighbor → Neighbor
set_gtsm id g m = if m.id == id then record m { gtsm_negotiated = g } else m

abbrev pub renew : ℕ → Neighbor → Neighbor
renew seqnum m =
    if ltb m.conf_seqnum seqnum
    then record m { conf_seqnum = seqnum; session = nbr_stop_idtimer m.session }
    else record m { conf_seqnum = seqnum }

abbrev pub set_seqnum : ℕ → Option ℕ → Neighbor → Neighbor
set_seqnum id none m = m
set_seqnum id (some s) m = if m.id == id then renew s m else m

abbrev pub update_nbr : Disc → ℕ → Heard → Disc
update_nbr d id h = record d {
  nbrs = map (set_seqnum id h.seqnum) (map (set_gtsm id h.gtsm) d.nbrs);
}

-- The holdtime of an adjacency, with its timer.
abbrev pub dflt_holdtime : HelloSource → ℕ
dflt_holdtime (HelloSource.link i af s) = 15
dflt_holdtime (HelloSource.targeted af t) = 45

unfoldable pub adj_holdtime : HelloSource → ℕ → ℕ → ℕ
adj_holdtime source own holdtime =
    let h = if holdtime == 0 then dflt_holdtime source else holdtime in if ltb own h then own else h

abbrev pub set_holdtime : Adj → ℕ → Adj
set_holdtime a h =
    let b = record a { holdtime = h } in
    if h == 65535 then adj_stop_itimer b else adj_start_itimer b

-- The adjacency may have been adopted by a new neighbor since it was found.
abbrev pub refresh : Disc → Adj → ℕ → Disc
refresh d a h = elim (adj_get d.adj_list a.ptr) [
  | none ↦ crash d
  | some b ↦ put_adj d (set_holdtime b h)
]

-- How nbr_establish_connection ends: before the extra hellos, with a connect that fails, is in progress,
-- or succeeds at once.
pub data Connect : Type 0 where
  unable refused in_progress at_once : Connect

unfoldable pub nbr_session_active_role : Neighbor → Bool
nbr_session_active_role n = elim (ldp_addrcmp n.af n.laddr n.raddr) [
  | Ordering.gt ↦ true
  | _ ↦ false
]

abbrev pub hello_out : Adj → DiscOut
hello_out a = elim a.source [
  | HelloSource.link i af s ↦ DiscOut.link_hello i af
  | HelloSource.targeted af t ↦ DiscOut.targeted_hello t
]

abbrev pub extra_hellos : Disc → Neighbor → Disc
extra_hellos d n = record d { out = d.out ++ map hello_out (nbr_adjs n.id d.adj_list) }

unfoldable pub nbr_establish_connection : Disc → Neighbor → Connect → Disc
unfolding on_nbr
nbr_establish_connection d n Connect.unable = d
nbr_establish_connection d n Connect.refused = extra_hellos d n
nbr_establish_connection d n Connect.in_progress =
    on_nbr (extra_hellos d n) n (λ w. set_nbr w (record (w.nbr) { ev_connect = true }))
nbr_establish_connection d n Connect.at_once =
    on_nbr (extra_hellos d n) n (λ w. nbr_fsm w NbrEvent.connect_up)

abbrev pub is_present : NbrState → Bool
is_present NbrState.present = true
is_present _ = false

abbrev pub is_idle : Neighbor → Bool
is_idle n =
    is_present n.session.state
    && elim n.session.initdelay_timer [ none ↦ true | some _ ↦ false ]
    && not n.session.ev_connect

unfoldable pub start_session : Disc → Option Neighbor → Connect → Disc
unfolding nbr_session_active_role nbr_establish_connection
start_session d none conn = d
start_session d (some n) conn =
    if is_idle n && nbr_session_active_role n then nbr_establish_connection d n conn else d

-- The end of recv_hello, when the adjacency and the neighbor are there.
unfoldable pub finish_hello : Disc → Adj → ℕ → HelloSource → ℕ → Heard → Connect → Disc
unfolding start_session adj_get adj_holdtime nbr_find_ldpid
finish_hello d a lsr_id source own h conn =
    let e = refresh (update_nbr d lsr_id h) a (adj_holdtime source own h.holdtime) in
    start_session e (nbr_find_ldpid e.nbrs lsr_id) conn

-- From the adjacency on, for a message that passed its checks. `own` is the holdtime of the source.
unfoldable pub accept_hello :
    LeConf
    → Disc
    → Option Adj
    → Option Neighbor
    → ℕ
    → Af
    → HelloSource
    → ℕ
    → ℕ
    → ℕ
    → Heard
    → Connect
    → Disc
unfolding find_adj find_nbr finish_hello
accept_hello c d adj nbr lsr_id af source addr scope own h conn =
    let (e, a) = find_adj d adj nbr lsr_id source addr in
    finish_hello (find_nbr c e nbr lsr_id af h.pref addr scope) a lsr_id source own h conn

-- The checks of recv_hello, by the adjacency and the neighbor that are found.
unfoldable pub judge_found :
    LeConf
    → Disc
    → Option Adj
    → Option Neighbor
    → ℕ
    → Af
    → HelloSource
    → ℕ
    → ℕ
    → ℕ
    → Heard
    → Connect
    → Disc
unfolding accept_hello drop_adj nbr_find_addr nbr_adj_count on_nbr
judge_found c d adj nbr lsr_id af source addr scope own h conn =
    if is_mismatch c h.pref
    then drop_adj (shut_down_nbr d nbr s_trans_mismtch) adj
    else if is_noncompliant d nbr af (has_value h.pref)
    then shut_down_nbr d nbr s_ds_noncmplnce
    else if is_moved nbr af addr scope || is_used d nbr af addr
    then drop_adj d adj
    else accept_hello c d adj nbr lsr_id af source addr scope own h conn

abbrev pub target_holdtime : Disc → HelloSource → ℕ → ℕ
target_holdtime d (HelloSource.link i af s) own = own
target_holdtime d (HelloSource.targeted af p) own = elim (tnbr_get d.tnbrs p) [
  | none ↦ 0
  | some t ↦ t.hello_holdtime
]

-- recv_hello from adj_find on, when there is a source.
unfoldable pub judge_hello :
    LeConf → Disc → Option HelloSource → ℕ → Af → ℕ → ℕ → ℕ → Heard → Connect → Disc
unfolding judge_found adj_find nbr_find_ldpid tnbr_get
judge_hello c d none lsr_id af addr scope own h conn = d
judge_hello c d (some source) lsr_id af addr scope own h conn =
    judge_found c d (adj_find d.adj_list source) (nbr_find_ldpid d.nbrs lsr_id) lsr_id af source
      addr scope (target_holdtime d source own) h conn

-- The source of a hello, which may be a new targeted neighbor.
unfoldable pub hello_source : LeConf → Disc → Af → ℕ → ℕ → Heard → Disc × Option HelloSource
unfolding hello_target
hello_source c d af src ifindex h =
    if h.targeted then hello_target c d af src h else (d, some (HelloSource.link ifindex af src))

abbrev pub scoped : Af → ℕ → Bool
scoped Af.inet a = false
scoped Af.inet6 a = is_scope_embed a

-- recv_hello from the transport address on; `ifindex` and `own` are of the interface that it came on.
unfoldable pub process_hello : LeConf → Disc → ℕ → Af → ℕ → ℕ → ℕ → Heard → Connect → Disc
unfolding judge_hello hello_source bad_addr is_scope_embed
process_hello c d lsr_id af src ifindex own h conn =
    let addr : ℕ = elim h.addr [ none ↦ src | some a ↦ a ] in
    let scope = if scoped af addr then ifindex else 0 in
    let (e, source) = hello_source c d af src ifindex h in
    if bad_addr af addr
    then d
    else if h.targeted && (scoped af addr || scoped af src)
    then d
    else judge_hello c e source lsr_id af addr scope own h conn

unfoldable pub recv_hello :
    HelloConf → LeConf → Bool → Disc → ℕ → Af → ℕ → ℕ → ℕ → Bool → ℕ → List ℕ → Connect → Disc
unfolding read_hello heard process_hello
recv_hello hc c big_endian d lsr_id af src ifindex own multicast len buf conn =
    elim (read_hello hc af multicast len buf) [
      | Hello.discarded ↦ d
      | Hello.overrun ↦ crash d
      | Hello.hang ↦ crash d
      | Hello.read holdtime flags s ↦
          process_hello c d lsr_id af src ifindex own (heard big_endian af holdtime flags s) conn
    ]
