-- ===== src/Discovery/Adjacency.antt =====
-- adjacency.c, with nbr_new, nbr_del and nbr_adj_count of neighbor.c and the pending connections of packet.c.
-- The `hello_holdtime` and `pw_count` of a targeted neighbor are its configuration.
use openbsd_ldpd.Base.{
  ℕ, suc, Bool, true, false, not, Option, none, some, List, [], ◌∷◌, ◌++◌, ◌==◌, ◌&&◌, ◌||◌, map,
  if◌then◌else◌, for_each,
}
use openbsd_ldpd.Lde.{Af, af_eq, addr_eq}
use openbsd_ldpd.Nbr.{
  NbrEvent, Out, Engine, emit, set_nbr, nbr_fsm, nbr_new, remove_pid, nbr_stop_ktimer,
  nbr_stop_ktimeout, nbr_stop_itimeout, nbr_stop_idtimer,
}
use openbsd_ldpd.Nbr.Events.{session_shutdown, s_shutdown}
use openbsd_ldpd.Discovery.{
  HelloSource, Adj, Neighbor, Tnbr, PendingConn, DiscOut, Disc, LeConf, ldp_af_conf_get, crash,
  on_nbr, nbr_find_ldpid, nbr_find_addr, same_addr, points_to, nbr_adj_count,
}
use openbsd_ldpd.Discovery.Lists.{filter}

abbrev pub s_holdtime_exp : ℕ
s_holdtime_exp = 0x80000009

-- Assignments to target->adj.
abbrev pub set_target : ℕ → Option ℕ → Tnbr → Tnbr
set_target t a x = if x.ptr == t then record x { adj = a } else x

abbrev pub link_target : HelloSource → Option ℕ → List Tnbr → List Tnbr
link_target (HelloSource.link i af s) a ts = ts
link_target (HelloSource.targeted af t) a ts = map (set_target t a) ts

unfoldable pub adj_new : Disc → ℕ → HelloSource → ℕ → Disc × Adj
adj_new d lsr_id source addr =
    let a : Adj = record {
      ptr = d.next;
      lsr_id = lsr_id;
      nbr = none;
      source = source;
      holdtime = 0;
      inactivity_timer = none;
      trans_addr = addr;
    } in
    (
      record d {
        adj_list = a ∷ d.adj_list;
        tnbrs = link_target source (some d.next) d.tnbrs;
        next = suc d.next;
      },
      a,
    )

-- A pointer comparison.
abbrev pub other : ℕ → Adj → Bool
other p a = not (a.ptr == p)

unfoldable pub adj_del_single : Disc → Adj → Disc
adj_del_single d a = record d {
  adj_list = filter (other a.ptr) d.adj_list;
  tnbrs = link_target a.source none d.tnbrs;
}

-- The adj_list of a neighbor.
abbrev pub nbr_adjs : ℕ → List Adj → List Adj
nbr_adjs id as' = filter (λ a. points_to id a.nbr) as'

abbrev pub stop_timers : Engine → Engine
stop_timers w = set_nbr w (
    nbr_stop_idtimer (
      nbr_stop_itimeout
        (nbr_stop_ktimeout (nbr_stop_ktimer (record (w.nbr) { ev_connect = false })))))

abbrev pub drop_pid : Engine → Engine
drop_pid w = if w.nbr.peerid == 0 then w else record w { pids = remove_pid w.nbr.peerid w.pids }

-- nbr_del of neighbor.c: the session is closed, and the neighbor leaves the three trees.
unfoldable pub nbr_del : Disc → Neighbor → Disc
unfolding on_nbr
nbr_del d n =
    let e = on_nbr d n (λ w. drop_pid (stop_timers (nbr_fsm w NbrEvent.close_session))) in
    record e { nbrs = filter (λ (m : Neighbor). not (m.id == n.id)) e.nbrs }

-- The neighbor after another operation on it, which may be gone.
abbrev pub with_nbr : Disc → ℕ → (Neighbor → Disc) → Disc
with_nbr d id f = elim (nbr_find_ldpid d.nbrs id) [ none ↦ crash d | some n ↦ f n ]

-- A neighbor without adjacencies of its address family goes, with its other adjacencies.
unfoldable pub nbr_purge : Disc → ℕ → ℕ → Disc
unfolding adj_del_single nbr_del nbr_find_ldpid on_nbr
nbr_purge d id status =
    let e = for_each (nbr_adjs id d.adj_list) adj_del_single d in
    let f = with_nbr e id (λ n. on_nbr e n (λ w. session_shutdown w status)) in
    with_nbr f id (λ n. nbr_del f n)

-- The end of adj_del, by adj->nbr.
unfoldable pub nbr_check : Disc → Option ℕ → ℕ → Disc
unfolding nbr_purge nbr_find_ldpid nbr_adj_count
nbr_check d none status = d
nbr_check d (some id) status =
    with_nbr d id λ n. if nbr_adj_count d.adj_list id n.af == 0 then nbr_purge d id status else d

unfoldable pub adj_del : Disc → Adj → ℕ → Disc
unfolding adj_del_single nbr_check
adj_del d a status = nbr_check (adj_del_single d a) a.nbr status

-- adj_find: by the source address alone for a link, by the pointer for a targeted neighbor.
abbrev pub same_source : HelloSource → HelloSource → Bool
same_source (HelloSource.link i af s) (HelloSource.link j bf t) = addr_eq af t s
same_source (HelloSource.targeted af s) (HelloSource.targeted bf t) = s == t
same_source _ _ = false

unfoldable pub adj_find : List Adj → HelloSource → Option Adj
adj_find [] source = none
adj_find (a ∷ as') source = if same_source source a.source then some a else adj_find as' source

unfoldable pub adj_get : List Adj → ℕ → Option Adj
adj_get [] p = none
adj_get (a ∷ as') p = if a.ptr == p then some a else adj_get as' p

unfoldable pub tnbr_get : List Tnbr → ℕ → Option Tnbr
tnbr_get [] p = none
tnbr_get (t ∷ ts) p = if t.ptr == p then some t else tnbr_get ts p

-- adj_start_itimer and adj_stop_itimer, after the assignment of the holdtime.
abbrev pub set_adj : Adj → Adj → Adj
set_adj b a = if a.ptr == b.ptr then b else a

abbrev pub put_adj : Disc → Adj → Disc
put_adj d b = record d { adj_list = map (set_adj b) d.adj_list }

abbrev pub adj_start_itimer : Adj → Adj
adj_start_itimer a = record a { inactivity_timer = some a.holdtime }

abbrev pub adj_stop_itimer : Adj → Adj
adj_stop_itimer a = record a { inactivity_timer = none }

-- Targeted neighbors.
unfoldable pub tnbr_new : LeConf → Disc → Af → ℕ → Disc × Tnbr
tnbr_new c d af addr =
    let t : Tnbr = record {
      ptr = d.next;
      af = af;
      addr = addr;
      adj = none;
      active = false;
      configured = false;
      dynamic = false;
      pw_count = 0;
      hello_holdtime = (ldp_af_conf_get c af).thello_holdtime;
      hello_interval = (ldp_af_conf_get c af).thello_interval;
      hello_timer = none;
    } in
    (record d { next = suc d.next }, t)

unfoldable pub tnbr_find : List Tnbr → Af → ℕ → Option Tnbr
tnbr_find [] af addr = none
tnbr_find (t ∷ ts) af addr = if same_addr af addr t.af t.addr then some t else tnbr_find ts af addr

-- The adjacency of target->adj is deleted; a stale pointer is a fault.
unfoldable pub release : Disc → Option ℕ → Disc
unfolding adj_del adj_get
release d none = d
release d (some p) = elim (adj_get d.adj_list p) [
  | none ↦ crash d
  | some a ↦ adj_del d a s_shutdown
]

unfoldable pub tnbr_del : Disc → Tnbr → Disc
unfolding release
tnbr_del d t =
    let e = release d t.adj in
    record e { tnbrs = filter (λ (x : Tnbr). not (x.ptr == t.ptr)) e.tnbrs }

-- tnbr_check: true when the targeted neighbor stays.
unfoldable pub tnbr_check : Disc → Tnbr → Disc × Bool
unfolding tnbr_del
tnbr_check d t =
    if not (t.configured || t.dynamic) && t.pw_count == 0 then (tnbr_del d t, false) else (d, true)

-- tnbr_update.
unfoldable pub tnbr_update : LeConf → Tnbr → Tnbr × Bool
tnbr_update c t =
    let ok = (ldp_af_conf_get c t.af).edisc_socket && not (c.rtr_id == 0) in
    if not t.active
    then (if ok
        then (record t { active = true; hello_timer = some t.hello_interval }, true)
        else (t, false))
    else (if ok then (t, false) else (record t { active = false; hello_timer = none }, false))

-- tnbr_update_all, of one family or of both.
abbrev pub of_family : Option Af → Af → Bool
of_family none af = true
of_family (some bf) af = af_eq af bf

unfoldable pub tnbr_update_all : LeConf → Option Af → List Tnbr → List Tnbr × List DiscOut
unfolding tnbr_update
tnbr_update_all c family [] = ([], [])
tnbr_update_all c family (t ∷ ts) =
    let rest = tnbr_update_all c family ts in
    let u : Tnbr × Bool = if of_family family t.af then tnbr_update c t else (t, false) in
    (u.0 ∷ rest.0, (if u.1 then DiscOut.targeted_hello t.ptr ∷ [] else []) ++ rest.1)

-- adj_itimer: the adjacency is the one whose timer fires.
unfoldable pub expire : Disc → Adj → HelloSource → Disc
unfolding adj_del tnbr_del tnbr_get
expire d a (HelloSource.link i af s) = adj_del d a s_holdtime_exp
expire d a (HelloSource.targeted af p) = elim (tnbr_get d.tnbrs p) [
  | none ↦ crash d
  | some t ↦
      if not t.configured && t.pw_count == 0
      then tnbr_del d t
      else adj_del (record d { tnbrs = map (set_target p none) d.tnbrs }) a s_holdtime_exp
]

abbrev pub adj_itimer : Disc → Adj → Disc
adj_itimer d a = expire d a a.source

-- pending_conn_find and pending_conn_del of packet.c.
unfoldable pub pending_conn_find : List PendingConn → Af → ℕ → Option PendingConn
pending_conn_find [] af addr = none
pending_conn_find (p ∷ ps) af addr =
    if same_addr af addr p.af p.addr then some p else pending_conn_find ps af addr

unfoldable pub pending_conn_del : List PendingConn → Af → ℕ → List PendingConn
pending_conn_del [] af addr = []
pending_conn_del (p ∷ ps) af addr =
    if same_addr af addr p.af p.addr then ps else p ∷ pending_conn_del ps af addr

-- session_accept_nbr of packet.c.
abbrev pub session_accept_nbr : Bool → Engine → Engine
session_accept_nbr checked w =
    if checked
    then nbr_fsm (emit (set_nbr w (record (w.nbr) { tcp = true })) Out.tcp_new) NbrEvent.match_adj
    else w

-- nbr_new: the neighbor adopts the adjacencies with its LSR id.
abbrev pub adopt : ℕ → Adj → Adj
adopt id a = if a.lsr_id == id then record a { nbr = some id } else a

abbrev pub is_v4 : Af → Bool
is_v4 Af.inet = true
is_v4 Af.inet6 = false

abbrev pub fresh_nbr : LeConf → ℕ → Af → Bool → ℕ → ℕ → Neighbor
fresh_nbr c id af ds_tlv addr scope_id = record {
  id = id;
  af = af;
  ds_tlv = ds_tlv;
  laddr = (ldp_af_conf_get c af).trans_addr;
  raddr = addr;
  raddr_scope = scope_id;
  conf_seqnum = 0;
  gtsm_negotiated = false;
  session = nbr_new (is_v4 af || ds_tlv) (not (is_v4 af) || ds_tlv);
}

-- fatalx when the LSR id or the address is in the trees.
abbrev pub is_taken : List Neighbor → Neighbor → Bool
is_taken ns n =
    elim (nbr_find_ldpid ns n.id) [ none ↦ false | some _ ↦ true ]
    || elim (nbr_find_addr ns n.af n.raddr) [ none ↦ false | some _ ↦ true ]

-- A connection that waits for the neighbor is accepted.
unfoldable pub greet : Disc → Neighbor → Option PendingConn → Disc
unfolding on_nbr pending_conn_del
greet d n none = d
greet d n (some p) =
    let e = on_nbr d n (session_accept_nbr p.checked) in
    record e { pending_conns = pending_conn_del e.pending_conns n.af n.raddr }

unfoldable pub nbr_create : LeConf → Disc → ℕ → Af → Bool → ℕ → ℕ → Disc
unfolding pending_conn_find greet nbr_find_ldpid nbr_find_addr
nbr_create c d id af ds_tlv addr scope_id =
    let n = fresh_nbr c id af ds_tlv addr scope_id in
    if is_taken d.nbrs n
    then crash d
    else greet (record d { adj_list = map (adopt id) d.adj_list; nbrs = n ∷ d.nbrs }) n
        (pending_conn_find d.pending_conns af addr)
