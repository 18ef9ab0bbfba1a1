-- ===== src/Lde/Kernel.antt =====
-- The messages that install and remove labels in the kernel (lde_send_change_klabel and
-- lde_send_delete_klabel of lde.c), and the pseudowires that depend on them (l2vpn.c).
use openbsd_ldpd.Base.{ℕ, ◌&&◌, ◌||◌, not, Bool, true, false, List, [], ◌∷◌, ◌==◌, for_each}
use openbsd_ldpd.Base.Branch.{if◌then◌else◌, on}
use openbsd_ldpd.Fec.{Fec}
use openbsd_ldpd.Lde.{
  Af, af_eq, v4_of, of_v4, addr_eq, no_label, FecNh, Pw, Imsg, Lde, get_fn, with_fn, emit, fail,
  set_pw, fec_nh_find,
}

-- The FEC_TYPE_PWID cases of the two functions.
unfoldable pub change_kpw : Lde → Fec → FecNh → Lde
change_kpw s f h = with_fn s f λ n.
    if (n.local_label == no_label) || (h.remote_label == no_label)
    then s
    else on n.pw (fail s) (λ i.
      emit (set_pw s i (λ w. record w { status_up = true }))
        (Imsg.kpwlabel_change f i n.local_label h.remote_label))

unfoldable pub delete_kpw : Lde → Fec → FecNh → Lde
delete_kpw s f h = with_fn s f λ n. on n.pw (fail s) (λ i.
    if not (s.pws i).status_up
    then s
    else emit (set_pw s i (λ w. record w { status_up = false }))
        (Imsg.kpwlabel_delete f i n.local_label h.remote_label))

-- l2vpn_pw_fec
unfoldable pub l2vpn_pw_fec : Pw → Fec
l2vpn_pw_fec w = Fec.pwid w.pw_type w.pwid w.lsr_id

unfoldable pub all_labelled : List FecNh → Bool
all_labelled [] = true
all_labelled (h ∷ hs) = not (h.remote_label == no_label) && all_labelled hs

-- The label switched path to the end of a pseudowire.
abbrev pub pw_lsp : Pw → Fec
pw_lsp w = elim w.af [ Af.inet ↦ Fec.ipv4 (v4_of w.addr) 32 | Af.inet6 ↦ Fec.ipv6 w.addr 128 ]

unfoldable pub l2vpn_pw_ok : Lde → Pw → FecNh → Bool
l2vpn_pw_ok s w h =
    not (h.remote_label == no_label)
    && (w.mtu == w.remote_mtu)
    && not (w.statustlv && not (w.remote_status == 0))
    && on (get_fn s (pw_lsp w)) false
        (λ n. not (n.local_label == no_label) && all_labelled n.nexthops)

-- The body of the loops of l2vpn_sync_pws: one configured pseudowire.
unfoldable pub sync_pw : Af → ℕ → Lde → ℕ → Lde
sync_pw af addr s i =
    let w = s.pws i in
    let f = l2vpn_pw_fec w in
    if af_eq af w.af && addr_eq af w.addr addr
    then on (get_fn s f) s (λ n.
      on (fec_nh_find n.nexthops Af.inet (of_v4 w.lsr_id) 0) s
        (λ h. if l2vpn_pw_ok s w h then change_kpw s f h else delete_kpw s f h))
    else s

unfoldable pub l2vpn_sync_pws : Lde → Af → ℕ → Lde
l2vpn_sync_pws s af addr = for_each s.pw_list (sync_pw af addr) s

unfoldable pub lde_send_change_klabel : Lde → Fec → FecNh → Lde
lde_send_change_klabel s (Fec.ipv4 p l) h = with_fn s (Fec.ipv4 p l) λ n.
    let s1 = emit s (
      Imsg.klabel_change (Fec.ipv4 p l) (of_v4 (v4_of h.nexthop)) n.local_label h.remote_label
        h.priority) in
    if l == 32 then l2vpn_sync_pws s1 Af.inet (of_v4 p) else s1
lde_send_change_klabel s (Fec.ipv6 p l) h = with_fn s (Fec.ipv6 p l) λ n.
    let s1 =
      emit s
        (Imsg.klabel_change (Fec.ipv6 p l) h.nexthop n.local_label h.remote_label h.priority) in
    if l == 128 then l2vpn_sync_pws s1 Af.inet6 p else s1
lde_send_change_klabel s (Fec.pwid t p r) h = change_kpw s (Fec.pwid t p r) h

unfoldable pub lde_send_delete_klabel : Lde → Fec → FecNh → Lde
lde_send_delete_klabel s (Fec.ipv4 p l) h = with_fn s (Fec.ipv4 p l) λ n.
    let s1 = emit s (
      Imsg.klabel_delete (Fec.ipv4 p l) (of_v4 (v4_of h.nexthop)) n.local_label h.remote_label
        h.priority) in
    if l == 32 then l2vpn_sync_pws s1 Af.inet (of_v4 p) else s1
lde_send_delete_klabel s (Fec.ipv6 p l) h = with_fn s (Fec.ipv6 p l) λ n.
    let s1 =
      emit s
        (Imsg.klabel_delete (Fec.ipv6 p l) h.nexthop n.local_label h.remote_label h.priority) in
    if l == 128 then l2vpn_sync_pws s1 Af.inet6 p else s1
lde_send_delete_klabel s (Fec.pwid t p r) h = delete_kpw s (Fec.pwid t p r) h
