-- ===== src/Lde/Check.antt =====
-- The handlers of received label messages: the functions lde_check_* of lde_lib.c, and
-- l2vpn_pw_negotiate of l2vpn.c.
use openbsd_ldpd.Base.{
  ℕ, ◌&&◌, ◌||◌, not, Bool, true, false, none, some, List, [], ◌∷◌, ◌==◌, for_each, is_some,
}
use openbsd_ldpd.Base.Branch.{if◌then◌else◌, on}
use openbsd_ldpd.RbTree.{find, insert}
use openbsd_ldpd.Fec.{Fec}
use openbsd_ldpd.Fec.Order.{fec_order}
use openbsd_ldpd.Lde.{
  MapFec, LabelMap, no_label, FecNh, FecNode, LdeNbr, Pw, Imsg, Lde, peer_order, get_fn, with_fn,
  with_ln, emit, fail, set_pw, set_remote, lde_address_find, keys, is_nil,
}
use openbsd_ldpd.Lde.Convert.{lde_map2fec}
use openbsd_ldpd.Lde.Kernel.{lde_send_change_klabel, lde_send_delete_klabel, l2vpn_pw_ok}
use openbsd_ldpd.Lde.Send.{
  lde_map_add, lde_map_del, set_recv, lde_req_add, lde_req_del, lde_wdraw_del,
  lde_send_labelmapping, lde_send_labelwithdraw, lde_send_labelrelease, release_wildcard,
}

abbrev pub new_node : FecNode
new_node = record {
  nexthops = [];
  downstream = [];
  upstream = [];
  local_label = no_label;
  pw = none;
}

-- fec_find, and fec_add when there is no node yet.
unfoldable pub ensure_fec : Lde → Fec → Lde
ensure_fec s f =
    if is_some (get_fn s f) then s else record s { ft = insert fec_order s.ft f new_node }

-- Whether the neighbor has announced the address of the next hop.
unfoldable pub nh_of : LdeNbr → FecNh → Bool
nh_of l h = lde_address_find l.addr_list h.af h.nexthop

-- The kernel forgets the label of a next hop, and so does the node.
unfoldable pub drop_label : Fec → Lde → FecNh → Lde
drop_label f s h = set_remote (lde_send_delete_klabel s f h) f h no_label

-- The node learns the label of a next hop, and so does the kernel.
unfoldable pub learn_label : Fec → ℕ → Lde → FecNh → Lde
learn_label f label s h =
    lde_send_change_klabel (set_remote s f h label) f (record h { remote_label = label })

-- The loop over fn->nexthops.
abbrev pub each_nexthop : Lde → Fec → (Lde → FecNh → Lde) → Lde
each_nexthop s f body = with_fn s f (λ n. for_each n.nexthops body s)

-- l2vpn_pw_negotiate: the state, and whether the mapping is ignored.
unfoldable pub negotiate_cword : Lde → ℕ → Fec → LabelMap → ℕ → Lde × Bool
negotiate_cword s p f m i =
    let w = s.pws i in
    let sent : Bool =
      on (find peer_order s.nbrs p) false (λ l. is_some (find fec_order l.sent_map f)) in
    if sent
    then (if m.flags.pw_cword && not w.cword_conf
        then (s, true)
        else if not m.flags.pw_cword && w.cword_conf
        then (
          let s1 =
                lde_send_labelwithdraw s p f
                  (some (record { status_code = 0x25; msg_id = m.msg_id; msg_type = 0x0400 })) in
              lde_send_labelmapping (set_pw s1 i (λ v. record v { cword = false })) p f true,
          false,
        )
        else (s, false))
    else if m.flags.pw_cword
    then (if w.cword_conf then (set_pw s i (λ v. record v { cword = true }), false) else (s, true))
    else (set_pw s i (λ v. record v { cword = false }), false)

unfoldable pub negotiate_status : Lde → ℕ → Fec → LabelMap → ℕ → Lde
negotiate_status s p f m i = with_ln s p λ l.
    if not (is_some (find fec_order l.recv_map f)) && not m.flags.pw_status
    then set_pw s i (λ v. record v { statustlv = false })
    else s

unfoldable pub l2vpn_pw_negotiate : Lde → ℕ → Fec → LabelMap → Lde × Bool
l2vpn_pw_negotiate s p f m =
    on (get_fn s f) (fail s, true)
      (λ n.
        on n.pw (s, false)
          (λ i.
            let (s1, ignored) = negotiate_cword s p f m i in
            if ignored then (s1, true) else (negotiate_status s1 p f m i, false)))

-- LMp.10: the label of an earlier mapping is released if it differs and no request is pending.
unfoldable pub replace_label : Lde → ℕ → Fec → LabelMap → Bool → Lde
replace_label s p f m pending = with_ln s p λ l. on (find fec_order l.recv_map f) s (λ me.
    if not (me.label == m.label) && not pending
    then each_nexthop (lde_send_labelrelease s p f me.label) f
        (λ t h. if nh_of l h then drop_label f t h else t)
    else s)

-- pw->remote_group and what follows, from the mapping of a pseudowire.
abbrev pub learn_pw : LabelMap → Pw → Pw
learn_pw m w = elim m.fec [
  | MapFec.pwid t a g mtu ↦ record w {
    remote_group = g;
    remote_mtu = if m.flags.pw_ifmtu then mtu else w.remote_mtu;
    remote_status = if m.flags.pw_status then m.pw_status else w.remote_status;
  }
  | _ ↦ w
]

unfoldable pub learn_pw_label : Fec → LabelMap → Lde → FecNh → Lde
learn_pw_label f m s h = with_fn s f λ n. on n.pw s (λ i.
    let s1 = set_remote (set_pw s i (learn_pw m)) f h m.label in
    let h1 = record h { remote_label = m.label } in
    if l2vpn_pw_ok s1 (s1.pws i) h1 then lde_send_change_klabel s1 f h1 else s1)

-- LMp.11 to LMp.15: the label goes to every next hop that is the neighbor's.
unfoldable pub install_label : Lde → ℕ → Fec → LabelMap → Lde
install_label s p (Fec.pwid t a r) m =
    each_nexthop s (Fec.pwid t a r) (learn_pw_label (Fec.pwid t a r) m)
install_label s p f m =
    with_ln s p λ l. each_nexthop s f (λ t h. if nh_of l h then learn_label f m.label t h else t)

-- LMp.13 and LMp.16: the mapping is recorded, also when no next hop is the neighbor's.
unfoldable pub record_mapping : Lde → ℕ → Fec → LabelMap → Lde
record_mapping s p f m = with_ln s p λ l.
    set_recv (if is_some (find fec_order l.recv_map f) then s else lde_map_add s p f false) p f m

abbrev pub is_pwid : MapFec → Bool
is_pwid (MapFec.pwid t a g m) = true
is_pwid _ = false

-- LMp.1 and LMp.2: a pending request is over.
unfoldable pub settle_request : Lde → ℕ → Fec → Lde × Bool
settle_request s p f =
    on (find peer_order s.nbrs p) (fail s, false)
      (λ l.
        if is_some (find fec_order l.sent_req f)
        then (lde_req_del s p f true, true)
        else (s, false))

unfoldable pub lde_check_mapping : Lde → LabelMap → ℕ → Lde
lde_check_mapping s m p = with_ln s p λ l.
    let f = lde_map2fec m.fec l.id in
    let (s1, pending) = settle_request (ensure_fec s f) p f in
    let (s2, ignored) = if is_pwid m.fec then l2vpn_pw_negotiate s1 p f m else (s1, false) in
    if ignored
    then s2
    else record_mapping (install_label (replace_label s2 p f m pending) p f m) p f m

abbrev pub s_loop_detected : ℕ
s_loop_detected = 0x0000000B

abbrev pub s_no_route : ℕ
s_no_route = 0x0000000D

abbrev pub any_of : LdeNbr → List FecNh → Bool
any_of l [] = false
any_of l (h ∷ hs) = nh_of l h || any_of l hs

abbrev pub is_pw_fec : Fec → Bool
is_pw_fec (Fec.pwid t a r) = true
is_pw_fec _ = false

unfoldable pub lde_check_request : Lde → LabelMap → ℕ → Lde
lde_check_request s m p = with_ln s p λ l.
    let f = lde_map2fec m.fec l.id in
    on (get_fn s f) (emit s (Imsg.notification_send p s_no_route m.msg_id 0x0401)) (λ n.
      if is_nil n.nexthops
      then emit s (Imsg.notification_send p s_no_route m.msg_id 0x0401)
      else if not (is_pw_fec f) && any_of l n.nexthops
      then emit s (Imsg.notification_send p s_loop_detected m.msg_id 0x0401)
      else if is_some (find fec_order l.recv_req f)
      then s
      else lde_send_labelmapping (lde_req_add s p f m.msg_id) p f true)

-- LRl.3 to LRl.6, for one class.
abbrev withdraw_done : LabelMap → ℕ → Bool
withdraw_done m label = (m.label == no_label) || (not (label == no_label) && (m.label == label))

unfoldable pub release_one : LabelMap → ℕ → Lde → Fec → Lde
release_one m p s f = with_ln s p λ l.
    let s1 : Lde =
      on (find fec_order l.sent_wdraw f) s
        (λ w. if withdraw_done m w then lde_wdraw_del s p f else s) in
    on (find fec_order l.sent_map f) s1
      (λ me. if (m.label == no_label) || (m.label == me.label) then lde_map_del s1 p f true else s1)

unfoldable pub lde_check_release : Lde → LabelMap → ℕ → Lde
lde_check_release s m p =
    if is_pwid m.fec && not m.flags.pw_id
    then s
    else with_ln s p λ l.
      let f = lde_map2fec m.fec l.id in if is_some (get_fn s f) then release_one m p s f else s

unfoldable pub lde_check_release_wcard : Lde → LabelMap → ℕ → Lde
lde_check_release_wcard s m p = for_each (keys s.ft) (release_one m p) s

-- LWd.3 and LWd.4
unfoldable pub forget_mapping : LabelMap → ℕ → Lde → Fec → Lde
forget_mapping m p s f = with_ln s p λ l.
    on (find fec_order l.recv_map f) s
      (λ me. if (m.label == no_label) || (m.label == me.label) then lde_map_del s p f false else s)

-- LWd.1 in lde_check_withdraw: which next hops lose their label.
unfoldable pub withdraw_nexthops : ℕ → Lde → Fec → Lde
withdraw_nexthops p s (Fec.pwid t a r) =
    each_nexthop s (Fec.pwid t a r)
      λ u h. with_fn u (Fec.pwid t a r) λ n. on n.pw u (λ i. drop_label (Fec.pwid t a r) u h)
withdraw_nexthops p s f =
    with_ln s p λ l. each_nexthop s f (λ u h. if nh_of l h then drop_label f u h else u)

unfoldable pub lde_check_withdraw : Lde → LabelMap → ℕ → Lde
lde_check_withdraw s m p =
    if is_pwid m.fec && not m.flags.pw_id
    then s
    else with_ln s p λ l.
      let f = lde_map2fec m.fec l.id in
      forget_mapping m p
        (lde_send_labelrelease (withdraw_nexthops p (ensure_fec s f) f) p f m.label) f

-- LWd.1 in lde_check_withdraw_wcard and in lde_nbr_del, which look at the end of the pseudowire.
abbrev pub concerns : LdeNbr → Fec → FecNh → Bool
concerns l (Fec.pwid t a r) h = r == l.id
concerns l f h = nh_of l h

unfoldable pub withdraw_one : LabelMap → ℕ → Lde → Fec → Lde
withdraw_one m p s f = with_ln s p λ l.
    forget_mapping m p (each_nexthop s f (λ u h. if concerns l f h then drop_label f u h else u)) f

unfoldable pub lde_check_withdraw_wcard : Lde → LabelMap → ℕ → Lde
lde_check_withdraw_wcard s m p =
    for_each (keys s.ft) (withdraw_one m p) (release_wildcard s p m.label)
