-- ===== src/Discovery/Safety.antt =====
-- The states that discovery can reach, one message, timer or change of the configuration at a time, and
-- what holds in all of them.
use openbsd_ldpd.Base.{
  ℕ, ◌≡◌, inl, inr, refl, sym, ap, Bool, true, false, List, [], ◌∷◌, ◌==◌, map, if◌then◌else◌,
  Bool-cases, Option, ◌&&◌, not, length, compare,
}
use mathlib.Core.Path.{subst}
use openbsd_ldpd.Lde.{Af}
use openbsd_ldpd.Nbr.Order.{nbr_id_compare}
use openbsd_ldpd.Nbr.Events.{Input, handle}
use openbsd_ldpd.Discovery.{Adj, Neighbor, Tnbr, PendingConn, Disc, LeConf, on_nbr, ldp_af_conf_get}
use openbsd_ldpd.Discovery.Adjacency.{
  adj_itimer, tnbr_check, tnbr_new, tnbr_update, tnbr_update_all, of_family,
}
use openbsd_ldpd.Discovery.Hello.{Heard, Connect, process_hello, hello_source}
use openbsd_ldpd.Discovery.Interface.{
  Iface, IfaceAf, iface_af_get, may_run, if_reset, if_start, if_update_af, if_exit,
}
use openbsd_ldpd.Discovery.Lists.{Has, Has-map}
use openbsd_ldpd.Discovery.View.{Mark, View, view, mark_of}
use openbsd_ldpd.Discovery.View.Delete.{view-on_nbr}
use openbsd_ldpd.Discovery.View.Purge.{IsWell}
use openbsd_ldpd.Discovery.View.Target.{adj_itimer-IsWell, tnbr_check-IsWell}
use openbsd_ldpd.Discovery.View.Accept.{same_view-IsWell}
use openbsd_ldpd.Discovery.Interface.States.{del_adjs-IsWell}
use openbsd_ldpd.Discovery.View.Process.{IsOwn, process_hello-IsWell, add_mark-IsWell}

abbrev pub disc_start : Disc
disc_start = record {
  adj_list = [];
  nbrs = [];
  tnbrs = [];
  pending_conns = [];
  next = 1;
  pids = [];
  peercnt = 1;
  now = 0;
  out = [];
  fault = false;
}

-- A targeted neighbor is configured, or no longer, and pseudowires use it.
abbrev pub use_target : ℕ → Bool → ℕ → Tnbr → Tnbr
use_target p configured pw_count t =
    if t.ptr == p then record t { configured = configured; pw_count = pw_count } else t

abbrev pub used : Disc → Tnbr → Bool → ℕ → Disc
used d t configured pw_count = record d {
  tnbrs = map (use_target t.ptr configured pw_count) d.tnbrs;
}

abbrev pub add_target : LeConf → Disc → Af → ℕ → Disc
add_target c d af addr =
    let (e, t) = tnbr_new c d af addr in
    record e { tnbrs = record t { configured = true } ∷ e.tnbrs }

-- nbr_id_compare orders the id and those of the known neighbors as numbers, so that RB_FIND finds it.
abbrev pub IsComparable : Disc → ℕ → Type 0
IsComparable d id = (n : Neighbor) → Has n d.nbrs → nbr_id_compare id n.id ≡ compare id n.id

pub data Reachable : Disc → Type 0 where
  start : Reachable disc_start
  hello :
      (c : LeConf) (d : Disc) (lsr : ℕ) (af : Af) (src ifindex own : ℕ) (h : Heard) (k : Connect)
      → Reachable d
      → IsOwn (hello_source c d af src ifindex h).0 (hello_source c d af src ifindex h).1 lsr af
      → IsComparable d lsr
      → Reachable (process_hello c d lsr af src ifindex own h k)
  timer : (d : Disc) (a : Adj) → Reachable d → Has a d.adj_list → Reachable (adj_itimer d a)
  session :
      (d : Disc) (n : Neighbor) (i : Input) → Reachable d → Reachable (on_nbr d n (λ w. handle w i))
  interface :
      (c : LeConf) (join : ℕ → Af → Bool) (d : Disc) (x : Iface) (af : Af)
      → Reachable d
      → Reachable (if_update_af c join d x af).0
  interface_gone : (d : Disc) (x : Iface) → Reachable d → Reachable (if_exit d x).0
  targets_updated :
      (c : LeConf) (d : Disc) (family : Option Af)
      → Reachable d
      → Reachable (record d { tnbrs = (tnbr_update_all c family d.tnbrs).0 })
  target_changes :
      (d : Disc) (t : Tnbr) (configured : Bool) (pw_count : ℕ)
      → Reachable d
      → Has t d.tnbrs
      → Reachable
          (tnbr_check
            (used d t configured pw_count)
            (record t { configured = configured; pw_count = pw_count })).0
  target_added :
      (c : LeConf) (d : Disc) (af : Af) (addr : ℕ)
      → Reachable d
      → Reachable (add_target c d af addr)
  meanwhile :
      (d : Disc) (ps : List PendingConn) (now : ℕ)
      → Reachable d
      → Reachable (record d { pending_conns = ps; now = now })

used_marks :
    (p : ℕ) (b : Bool) (n : ℕ) (ts : List Tnbr)
    → map mark_of (map (use_target p b n) ts) ≡ map mark_of ts
used_marks p b n [] = refl
used_marks p b n (t ∷ ts) = elim (Bool-cases (t.ptr == p)) [
  | inl e ↦ rw (e, used_marks p b n ts) refl
  | inr e ↦ rw (e, used_marks p b n ts) refl
]

update_mark : (c : LeConf) (t : Tnbr) → mark_of (tnbr_update c t).0 ≡ mark_of t
unfolding tnbr_update
update_mark c t = elim (Bool-cases ((ldp_af_conf_get c t.af).edisc_socket && not (c.rtr_id == 0))) [
  | inl e ↦ elim (Bool-cases t.active) [ inl a ↦ rw (e, a) refl | inr a ↦ rw (e, a) refl ]
  | inr e ↦ elim (Bool-cases t.active) [ inl a ↦ rw (e, a) refl | inr a ↦ rw (e, a) refl ]
]

updated_marks :
    (c : LeConf) (family : Option Af) (ts : List Tnbr)
    → map mark_of (tnbr_update_all c family ts).0 ≡ map mark_of ts
unfolding tnbr_update_all
updated_marks c family [] = refl
updated_marks c family (t ∷ ts) = elim (Bool-cases (of_family family t.af)) [
  | inl e ↦ rw (e, update_mark c t, updated_marks c family ts) refl
  | inr e ↦ rw (e, updated_marks c family ts) refl
]

reset-IsWell :
    (d : Disc) (i : ℕ) (af : Af) (ia : IfaceAf) → IsWell d → IsWell (if_reset d i af ia).0
unfolding if_reset
reset-IsWell d i af ia w = del_adjs-IsWell (length d.adj_list) i af d w

start-IsWell :
    (join : ℕ → Af → Bool) (d : Disc) (i : ℕ) (af : Af) (ia : IfaceAf)
    → IsWell d
    → IsWell (if_start join d i af ia).0
unfolding if_start
start-IsWell join d i af ia w = elim (Bool-cases (join i af)) [ inl e ↦ rw e w | inr e ↦ rw e w ]

if_update_af-IsWell :
    (c : LeConf) (join : ℕ → Af → Bool) (d : Disc) (x : Iface) (af : Af)
    → IsWell d
    → IsWell (if_update_af c join d x af).0
unfolding if_update_af
if_update_af-IsWell c join d x af w = elim (Bool-cases (iface_af_get x af).active) [
  | inl a ↦ elim (Bool-cases (may_run c x af)) [
    | inl m ↦ rw (a, m) w
    | inr m ↦
        rw (a, m) (reset-IsWell d x.ifindex af (record (iface_af_get x af) { active = false }) w)
  ]
  | inr a ↦ elim (Bool-cases (may_run c x af)) [
    | inl m ↦
        rw (a, m)
          (start-IsWell join d x.ifindex af (record (iface_af_get x af) { active = true }) w)
    | inr m ↦ rw (a, m) w
  ]
]

if_exit-IsWell : (d : Disc) (x : Iface) → IsWell d → IsWell (if_exit d x).0
unfolding if_exit
if_exit-IsWell d x w =
    let v = reset-IsWell d x.ifindex Af.inet x.ipv4 w in
    elim (Bool-cases x.ipv4.active) [
      | inl a ↦ elim (Bool-cases x.ipv6.active) [
        | inl b ↦
            rw (a, b)
              (reset-IsWell (if_reset d x.ifindex Af.inet x.ipv4).0 x.ifindex Af.inet6 x.ipv6 v)
        | inr b ↦ rw (a, b) v
      ]
      | inr a ↦ elim (Bool-cases x.ipv6.active) [
        | inl b ↦ rw (a, b) (reset-IsWell d x.ifindex Af.inet6 x.ipv6 w)
        | inr b ↦ rw (a, b) w
      ]
    ]

added-IsWell :
    (c : LeConf) (d : Disc) (af : Af) (addr : ℕ) → IsWell d → IsWell (add_target c d af addr)
unfolding tnbr_new
added-IsWell c d af addr w = add_mark-IsWell (view d) w

empty-IsWell : IsWell disc_start
empty-IsWell = (
  record {
    sound = refl;
    fresh = λ a h. absurd h;
    apart = tt;
    uniq = λ a b h. absurd h;
    named = λ a id h. absurd h;
    owned = λ a id h. absurd h;
    adopted = λ a k h. absurd h;
    id_uniq = λ k l h. absurd h;
    addr_uniq = λ k l h. absurd h;
    held = λ m p h. absurd h;
    holder = λ a t h. absurd h;
    mark_fresh = λ m h. absurd h;
    mark_uniq = λ m n h. absurd h;
  },
  λ k h. absurd h,
)

pub Reachable-IsWell : {d : Disc} → Reachable d → IsWell d
Reachable-IsWell Reachable.start = empty-IsWell
Reachable-IsWell (Reachable.hello c d lsr af src ifindex own h k r f o) =
    process_hello-IsWell c d lsr af src ifindex own h k (Reachable-IsWell r) f
Reachable-IsWell (Reachable.timer d a r h) = adj_itimer-IsWell d a (Reachable-IsWell r) h
Reachable-IsWell (Reachable.session d n i r) =
    same_view-IsWell d (on_nbr d n (λ w. handle w i)) (view-on_nbr d n (λ w. handle w i))
      (Reachable-IsWell r)
Reachable-IsWell (Reachable.interface c j d x af r) =
    if_update_af-IsWell c j d x af (Reachable-IsWell r)
Reachable-IsWell (Reachable.interface_gone d x r) = if_exit-IsWell d x (Reachable-IsWell r)
Reachable-IsWell (Reachable.targets_updated c d family r) =
    let e : Disc = record d { tnbrs = (tnbr_update_all c family d.tnbrs).0 } in
    same_view-IsWell d e
      (ap (λ (ms : List Mark). record (view d) { marks = ms }) (updated_marks c family d.tnbrs))
      (Reachable-IsWell r)
Reachable-IsWell (Reachable.target_changes d t b n r h) =
    let v : view (used d t b n) ≡ view d =
      ap (λ (ms : List Mark). record (view d) { marks = ms }) (used_marks t.ptr b n d.tnbrs) in
    let m : Has (mark_of t) (view (used d t b n)).marks =
      subst (λ (x : View). Has (mark_of t) x.marks) (sym v) (Has-map mark_of t d.tnbrs h) in
    tnbr_check-IsWell (used d t b n) (record t { configured = b; pw_count = n })
      (same_view-IsWell d (used d t b n) v (Reachable-IsWell r)) m
Reachable-IsWell (Reachable.target_added c d af addr r) =
    added-IsWell c d af addr (Reachable-IsWell r)
Reachable-IsWell (Reachable.meanwhile d ps now r) = Reachable-IsWell r
