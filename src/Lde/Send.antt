-- ===== src/Lde/Send.antt =====
-- The label messages that the engine sends to a neighbor, and the records that it keeps of mappings,
-- requests and withdraws: the functions lde_send_label*, lde_map_*, lde_req_* and lde_wdraw_* of
-- lde.c, and the assignment of labels.
use openbsd_ldpd.Base.{
  ℕ, ◌+◌, ◌%◌, Bool, true, false, Option, none, some, ◌∷◌, ◌==◌, for_each, is_some,
}
use openbsd_ldpd.Base.Branch.{if◌then◌else◌, on}
use openbsd_ldpd.RbTree.{find, insert, remove, update}
use openbsd_ldpd.Fec.{Fec}
use openbsd_ldpd.Fec.Order.{fec_order}
use openbsd_ldpd.Lde.{
  MapFec, LabelMap, zero_map, no_flags, FecNode, LdeNbr, Imsg, Lde, set_fn, set_ln, with_fn,
  with_ln, emit, erase, keys,
}
use openbsd_ldpd.Lde.Convert.{lde_fec2map}

-- lde_map_add and lde_map_del: `sent` picks the tree sent_map with the list upstream, or recv_map
-- with downstream.
unfoldable pub lde_map_add : Lde → ℕ → Fec → Bool → Lde
lde_map_add s p f true =
    set_ln (set_fn s f (λ n. record n { upstream = p ∷ n.upstream })) p
      (λ l. record l { sent_map = insert fec_order l.sent_map f (zero_map MapFec.wildcard) })
lde_map_add s p f false =
    set_ln (set_fn s f (λ n. record n { downstream = p ∷ n.downstream })) p
      (λ l. record l { recv_map = insert fec_order l.recv_map f (zero_map MapFec.wildcard) })

unfoldable pub lde_map_del : Lde → ℕ → Fec → Bool → Lde
lde_map_del s p f true =
    set_fn (set_ln s p (λ l. record l { sent_map = remove fec_order l.sent_map f })) f
      (λ n. record n { upstream = erase p n.upstream })
lde_map_del s p f false =
    set_fn (set_ln s p (λ l. record l { recv_map = remove fec_order l.recv_map f })) f
      (λ n. record n { downstream = erase p n.downstream })

-- me->map = map
abbrev pub set_sent : Lde → ℕ → Fec → LabelMap → Lde
set_sent s p f m = set_ln s p (λ l. record l { sent_map = update fec_order l.sent_map f (λ _. m) })

abbrev pub set_recv : Lde → ℕ → Fec → LabelMap → Lde
set_recv s p f m = set_ln s p (λ l. record l { recv_map = update fec_order l.recv_map f (λ _. m) })

-- lde_req_add, with the message id that its caller sets, and lde_req_del.
unfoldable pub lde_req_add : Lde → ℕ → Fec → ℕ → Lde
lde_req_add s p f id = set_ln s p (λ l. record l { recv_req = insert fec_order l.recv_req f id })

unfoldable pub lde_req_del : Lde → ℕ → Fec → Bool → Lde
lde_req_del s p f true = set_ln s p (λ l. record l { sent_req = remove fec_order l.sent_req f })
lde_req_del s p f false = set_ln s p (λ l. record l { recv_req = remove fec_order l.recv_req f })

-- The find, add and assignment of the label that record a withdraw; lde_wdraw_del.
unfoldable pub record_wdraw : ℕ → ℕ → Lde → Fec → Lde
record_wdraw p label s f = set_ln s p (λ l. record l {
  sent_wdraw =
      update fec_order
        (if is_some (find fec_order l.sent_wdraw f)
          then l.sent_wdraw
          else insert fec_order l.sent_wdraw f 0)
        f (λ _. label);
})

unfoldable pub lde_wdraw_del : Lde → ℕ → Fec → Lde
lde_wdraw_del s p f = set_ln s p (λ l. record l { sent_wdraw = remove fec_order l.sent_wdraw f })

unfoldable pub lde_assign_label : Lde → Lde × ℕ
lde_assign_label s = let l = (s.last_label + 1) % 4294967296 in (record s { last_label = l }, l)

-- Whether messages about the class go to the neighbor at all: its address family is enabled, or it
-- is the end of the configured pseudowire.
unfoldable pub addressed : Lde → LdeNbr → Fec → FecNode → Bool
addressed s l (Fec.ipv4 a b) n = l.v4_enabled
addressed s l (Fec.ipv6 a b) n = l.v6_enabled
addressed s l (Fec.pwid t a r) n = on n.pw false (λ i. (s.pws i).lsr_id == l.id)

abbrev set_mtu : MapFec → ℕ → MapFec
set_mtu (MapFec.pwid t a g m) mtu = MapFec.pwid t a g mtu
set_mtu f mtu = f

-- The mapping for a class, with the parameters of its pseudowire.
unfoldable pub mapping_of : Lde → Fec → FecNode → LabelMap
mapping_of s (Fec.pwid t a r) n =
    on n.pw (record (lde_fec2map (Fec.pwid t a r)) { label = n.local_label })
      (λ i.
        let m = lde_fec2map (Fec.pwid t a r) in
        let w = s.pws i in
        record m {
          fec = set_mtu m.fec w.mtu;
          label = n.local_label;
          flags = record (m.flags) { pw_ifmtu = true; pw_cword = w.cword; pw_status = w.statustlv };
        })
mapping_of s f n = record (lde_fec2map f) { label = n.local_label }

-- The answer to a request: the assignment to `flags` drops every other flag.
abbrev pub answer : LabelMap → ℕ → LabelMap
answer m id = record m { requestid = id; flags = record no_flags { req_id = true } }

-- SL.4: the message.
unfoldable pub announce : Lde → ℕ → LabelMap → Bool → Lde
announce s p m single =
    let s1 = emit s (Imsg.mapping_add p m) in
    if single then emit s1 (Imsg.mapping_add_end p) else s1

-- SL.5: the record of the mapping that is sent.
unfoldable pub record_sent : Lde → ℕ → Fec → LabelMap → Lde
record_sent s p f m = with_ln s p λ l.
    set_sent (if is_some (find fec_order l.sent_map f) then s else lde_map_add s p f true) p f m

unfoldable pub post_mapping : Lde → ℕ → Fec → LabelMap → Bool → Lde
post_mapping s p f m single = record_sent (announce s p m single) p f m

unfoldable pub lde_send_labelmapping : Lde → ℕ → Fec → Bool → Lde
lde_send_labelmapping s p f single = with_ln s p λ l. with_fn s f λ n.
    if addressed s l f n
    then on (find fec_order l.recv_req f) (post_mapping s p f (mapping_of s f n) single)
        (λ id. post_mapping (lde_req_del s p f false) p f (answer (mapping_of s f n) id) single)
    else s

-- The map of a withdraw or a release of one class.
unfoldable pub control_map : Lde → Fec → FecNode → LabelMap
control_map s (Fec.pwid t a r) n =
    let m = lde_fec2map (Fec.pwid t a r) in
    on n.pw m (λ i. record m { flags = record (m.flags) { pw_cword = (s.pws i).cword } })
control_map s f n = lde_fec2map f

pub record StatusTlv : Type 0 where
  pub status_code : ℕ
  pub msg_id : ℕ
  pub msg_type : ℕ

abbrev pub add_status : LabelMap → Option StatusTlv → LabelMap
add_status m none = m
add_status m (some st) = record m {
  st_code = st.status_code;
  st_msg_id = st.msg_id;
  st_msg_type = st.msg_type;
  flags = record (m.flags) { status = true };
}

abbrev post_withdraw : Lde → ℕ → LabelMap → Lde
post_withdraw s p m = emit (emit s (Imsg.withdraw_add p m)) (Imsg.withdraw_add_end p)

-- lde_send_labelwithdraw of one class, and of all of them by the wildcard.
unfoldable pub lde_send_labelwithdraw : Lde → ℕ → Fec → Option StatusTlv → Lde
lde_send_labelwithdraw s p f st = with_ln s p λ l. with_fn s f λ n.
    if addressed s l f n
    then record_wdraw p n.local_label
        (post_withdraw s p (add_status (record (control_map s f n) { label = n.local_label }) st)) f
    else s

unfoldable pub withdraw_wildcard : Lde → ℕ → ℕ → Lde
withdraw_wildcard s p label =
    for_each (keys s.ft) (record_wdraw p label)
      (post_withdraw s p (record (zero_map MapFec.wildcard) { label = label }))

unfoldable pub lde_send_labelwithdraw_all : Lde → Fec → Lde
lde_send_labelwithdraw_all s f = for_each (keys s.nbrs) (λ t p. lde_send_labelwithdraw t p f none) s

abbrev post_release : Lde → ℕ → LabelMap → Lde
post_release s p m = emit (emit s (Imsg.release_add p m)) (Imsg.release_add_end p)

-- lde_send_labelrelease of one class, and by the wildcard.
unfoldable pub lde_send_labelrelease : Lde → ℕ → Fec → ℕ → Lde
lde_send_labelrelease s p f label = with_ln s p λ l. with_fn s f λ n.
    if addressed s l f n then post_release s p (record (control_map s f n) { label = label }) else s

unfoldable pub release_wildcard : Lde → ℕ → ℕ → Lde
release_wildcard s p label = post_release s p (record (zero_map MapFec.wildcard) { label = label })
