-- ===== src/Discovery/View/Process.antt =====
-- recv_hello from the transport address on keeps the invariant: the source, and what is done with it.
use openbsd_ldpd.Base.{
  ℕ, suc, ◌≡◌, ◌≢◌, ◌∙◌, inl, inr, refl, sym, ap, true, false, not, Option, none, some, List, [],
  ◌∷◌, ◌==◌, map, if◌then◌else◌, Bool-cases, arith, ◌&&◌, ◌||◌,
}
use mathlib.Core.Path.{subst}
use openbsd_ldpd.Lde.{Af}
use openbsd_ldpd.Discovery.{
  HelloSource, Adj, Neighbor, Tnbr, Disc, LeConf, nbr_find_ldpid, same_addr, source_af, adj_get_af,
  ldp_af_conf_get,
}
use openbsd_ldpd.Discovery.Adjacency.{
  adj_find, same_source, tnbr_find, tnbr_new, tnbr_update, tnbr_check, tnbr_del,
}
use openbsd_ldpd.Discovery.Hello.{
  Heard, Connect, make_target, new_target, retire_target, known_target, hello_target, hello_source,
  judge_hello, process_hello, clear_dynamic, target_holdtime, bad_addr, scoped,
}
use openbsd_ldpd.Discovery.Lists.{Has, Has-map, Has-of_map}
use openbsd_ldpd.Discovery.View.{Link, Mark, View, view, link_of, mark_of, target_of}
use openbsd_ldpd.Discovery.View.Purge.{IsWell, IsWellView}
use openbsd_ldpd.Discovery.View.Target.{tnbr_del-IsWell}
use openbsd_ldpd.Discovery.View.Accept.{same_view-IsWell}
use openbsd_ldpd.Discovery.View.Judge.{judge-IsWell}

-- A targeted neighbor that is made.
abbrev pub add_mark : View → View
add_mark v = record v { marks = record { ptr = v.next; adj = none } ∷ v.marks; next = suc v.next }

pub add_mark-IsWell : (v : View) → IsWellView v → IsWellView (add_mark v)
add_mark-IsWell v (i, w) = (
  record {
    sound = i.sound;
    fresh = λ a h. let l = i.fresh a h in omega arith;
    apart = i.apart;
    uniq = i.uniq;
    named = i.named;
    owned = i.owned;
    adopted = i.adopted;
    id_uniq = i.id_uniq;
    addr_uniq = i.addr_uniq;
    held = λ m p h e. elim h [
      | inl q ↦ let z : some p ≡ none = sym e ∙ ap (λ (x : Mark). x.adj) q in absurd (cc)
      | inr k ↦ i.held m p k e
    ];
    holder = λ a t h e. let r = i.holder a t h e in (r.0, inr r.1, r.2, r.3);
    mark_fresh = λ m h. elim h [
      | inl q ↦ let z : m.ptr ≡ v.next = ap (λ (x : Mark). x.ptr) q in omega arith
      | inr k ↦ let l = i.mark_fresh m k in omega arith
    ];
    mark_uniq = add_uniq;
  },
  w,
)
  where
    below : (m : Mark) → Has m v.marks → m.ptr ≢ v.next
    below m h = λ e. let l = i.mark_fresh m h in absurd (omega arith)

    add_uniq :
        (m n : Mark) → Has m (add_mark v).marks → Has n (add_mark v).marks → m.ptr ≡ n.ptr → m ≡ n
    add_uniq m n (inl p) (inl q) e = p ∙ sym q
    add_uniq m n (inl p) (inr k) e = absurd (below n k (sym e ∙ ap (λ (x : Mark). x.ptr) p))
    add_uniq m n (inr h) (inl q) e = absurd (below m h (e ∙ ap (λ (x : Mark). x.ptr) q))
    add_uniq m n (inr h) (inr k) e = i.mark_uniq m n h k e

update_mark : (c : LeConf) (t : Tnbr) → mark_of (tnbr_update c t).0 ≡ mark_of t
unfolding tnbr_update
update_mark c t = ground arith

-- What a source is: that of a targeted neighbor that is there, of the family of the hello.
abbrev IsSource : Disc → Af → HelloSource → Type 0
IsSource d af s =
    (source_af s ≡ af)
    × ((t : ℕ) → target_of s ≡ some t → (m : Mark) × Has m (view d).marks × (m.ptr ≡ t))

abbrev HasSource : Af → Disc × Option HelloSource → Type 0
HasSource af (d, o) = IsWell d × ((s : HelloSource) → o ≡ some s → IsSource d af s)

targeted-IsSource :
    (d : Disc) (af : Af) (m : Mark) (s : HelloSource)
    → Has m (view d).marks
    → some (HelloSource.targeted af m.ptr) ≡ some s
    → IsSource d af s
targeted-IsSource d af m s h e =
    let q : HelloSource.targeted af m.ptr ≡ s = cc in
    subst (IsSource d af) q (refl, λ t z. (m, h, cc))

view-make_target :
    (c : LeConf) (d : Disc) (af : Af) (src : ℕ) → view (make_target c d af src) ≡ add_mark (view d)
unfolding make_target tnbr_new
view-make_target c d af src =
    ap (λ (m : Mark). record (view d) { marks = m ∷ (view d).marks; next = suc d.next })
      (update_mark c (record ((tnbr_new c d af src).1) { dynamic = true }))

new_target-HasSource :
    (c : LeConf) (d : Disc) (af : Af) (src : ℕ) (h : Heard)
    → IsWell d
    → HasSource af (new_target c d af src h)
unfolding new_target
new_target-HasSource c d af src h w =
    elim (Bool-cases (not (h.req_targ && (ldp_af_conf_get c af).thello_accept))) [
      | inl e ↦ rw e (w, λ s q. absurd (cc))
      | inr e ↦ rw e (
          let v = view-make_target c d af src in
          let m : Mark = record { ptr = d.next; adj = none } in
          (
            subst IsWellView (sym v) (add_mark-IsWell (view d) w),
            λ s q.
                targeted-IsSource (make_target c d af src) af m s
                  (subst (λ (x : View). Has m x.marks) (sym v) (inl refl)) q,
          ))
    ]

same_marks : (p : ℕ) (ts : List Tnbr) → map mark_of (map (clear_dynamic p) ts) ≡ map mark_of ts
same_marks p [] = refl
same_marks p (t ∷ ts) = elim (Bool-cases (t.ptr == p)) [
  | inl e ↦ rw (e, same_marks p ts) refl
  | inr e ↦ rw (e, same_marks p ts) refl
]

retire-HasSource :
    (c : LeConf) (d : Disc) (af : Af) (src : ℕ) (h : Heard) (t : Tnbr)
    → IsWell d
    → Has t d.tnbrs
    → HasSource af (retire_target c d af src h t)
unfolding retire_target tnbr_check
retire-HasSource c d af src h t w m =
    let e = record d { tnbrs = map (clear_dynamic t.ptr) d.tnbrs } in
    let t' = record t { dynamic = false } in
    let v : view e ≡ view d =
      ap (λ (ms : List Mark). record (view d) { marks = ms }) (same_marks t.ptr d.tnbrs) in
    let we = same_view-IsWell d e v w in
    let me : Has (mark_of t) (view e).marks =
      subst (λ (x : View). Has (mark_of t) x.marks) (sym v) (Has-map mark_of t d.tnbrs m) in
    elim (Bool-cases (not (t.configured || false) && t.pw_count == 0)) [
      | inl b ↦ rw b (new_target-HasSource c (tnbr_del e t') af src h (tnbr_del-IsWell e t' we me))
      | inr b ↦ rw b (we, λ s q. targeted-IsSource e af (mark_of t) s me q)
    ]

known-HasSource :
    (c : LeConf) (d : Disc) (af : Af) (src : ℕ) (h : Heard) (o : Option Tnbr)
    → IsWell d
    → ((t : Tnbr) → o ≡ some t → Has t d.tnbrs)
    → HasSource af (known_target c d af src h o)
unfolding known_target
known-HasSource c d af src h none w m = new_target-HasSource c d af src h w
known-HasSource c d af src h (some t) w m = elim (Bool-cases (t.dynamic && not h.req_targ)) [
  | inl b ↦ rw b (retire-HasSource c d af src h t w (m t refl))
  | inr b ↦
      rw b (w, λ s q. targeted-IsSource d af (mark_of t) s (Has-map mark_of t d.tnbrs (m t refl)) q)
]

found_target :
    (ts : List Tnbr) (af : Af) (addr : ℕ) (t : Tnbr) → tnbr_find ts af addr ≡ some t → Has t ts
unfolding tnbr_find
found_target [] af addr t h = cc
found_target (x ∷ xs) af addr t h = elim (Bool-cases (same_addr af addr x.af x.addr)) [
  | inl e ↦ let g : some x ≡ some t = rw e at h in inl (cc)
  | inr e ↦ let g : tnbr_find xs af addr ≡ some t = rw e at h in inr (found_target xs af addr t g)
]

source-HasSource :
    (c : LeConf) (d : Disc) (af : Af) (src ifindex : ℕ) (h : Heard)
    → IsWell d
    → HasSource af (hello_source c d af src ifindex h)
unfolding hello_source hello_target
source-HasSource c d af src ifindex h w = elim (Bool-cases h.targeted) [
  | inl e ↦
      simp e
        (known-HasSource c d af src h (tnbr_find d.tnbrs af src) w (found_target d.tnbrs af src))
  | inr e ↦ simp e (
    w,
    λ s q.
        let k : HelloSource.link ifindex af src ≡ s = cc in
        subst (IsSource d af) k (refl, λ t z. absurd (cc)),
  )
]

pub found_adjacency :
    (xs : List Adj) (s : HelloSource) (a : Adj) → adj_find xs s ≡ some a → Has a xs
unfolding adj_find
found_adjacency [] s a h = cc
found_adjacency (x ∷ xs) s a h = elim (Bool-cases (same_source s x.source)) [
  | inl e ↦ let g : some x ≡ some a = rw e at h in inl (cc)
  | inr e ↦ let g : adj_find xs s ≡ some a = rw e at h in inr (found_adjacency xs s a g)
]

no_adjacency :
    (xs : List Adj) (s : HelloSource) (a : Adj)
    → adj_find xs s ≡ none
    → Has a xs
    → same_source s a.source ≡ false
unfolding adj_find
no_adjacency [] s a h m = elim m [ ]
no_adjacency (x ∷ xs) s a h m = elim (Bool-cases (same_source s x.source)) [
  | inl e ↦ let g : some x ≡ none = rw e at h in absurd (cc)
  | inr e ↦ elim m [
    | inl q ↦ subst (λ (y : Adj). same_source s y.source ≡ false) (sym q) e
    | inr k ↦ let g : adj_find xs s ≡ none = rw e at h in no_adjacency xs s a g k
  ]
]

same_target :
    (s r : HelloSource) (t : ℕ)
    → target_of s ≡ some t
    → target_of r ≡ some t
    → same_source s r ≡ true
same_target (HelloSource.link i af a) r t h k = cc
same_target (HelloSource.targeted af x) (HelloSource.link i bf a) t h k = cc
same_target (HelloSource.targeted af x) (HelloSource.targeted bf y) t h k =
    let e : x ≡ y = cc in ground arith

found_neighbor :
    (ns : List Neighbor) (id : ℕ) (n : Neighbor)
    → nbr_find_ldpid ns id ≡ some n
    → Has n ns × (n.id ≡ id)
unfolding nbr_find_ldpid
found_neighbor [] id n h = cc
found_neighbor (x ∷ xs) id n h = elim (Bool-cases (x.id == id)) [
  | inl e ↦
      let g : some x ≡ some n = rw e at h in let k : n ≡ x = cc in (inl k, rw k (ground arith))
  | inr e ↦
      let g : nbr_find_ldpid xs id ≡ some n = rw e at h in
      let r = found_neighbor xs id n g in (inr r.0, r.1)
]

-- The adjacency that a hello finds by its source is of the LSR id and the family of the hello.
abbrev pub IsOwn : Disc → Option HelloSource → ℕ → Af → Type 0
IsOwn d o lsr af =
    (s : HelloSource) (a : Adj)
    → o ≡ some s
    → adj_find d.adj_list s ≡ some a
    → (a.lsr_id ≡ lsr) × (adj_get_af a ≡ af)

judge_hello-IsWell :
    (c : LeConf) (d : Disc) (o : Option HelloSource) (lsr : ℕ) (af : Af) (addr scope own : ℕ)
    (h : Heard) (k : Connect)
    → HasSource af (d, o)
    → IsOwn d o lsr af
    → IsWell (judge_hello c d o lsr af addr scope own h k)
unfolding judge_hello
judge_hello-IsWell c d none lsr af addr scope own h k w f = w.0
judge_hello-IsWell c d (some s) lsr af addr scope own h k w f =
    let r = w.1 s refl in
    judge-IsWell c d (adj_find d.adj_list s) (nbr_find_ldpid d.nbrs lsr) lsr af s addr scope
      (target_holdtime d s own) h k w.0
      (record {
        adj_in = λ a e. found_adjacency d.adj_list s a e;
        own = λ a e. f s a refl e;
        new = λ e b t m g q.
            let z = Has-of_map link_of b d.adj_list m in
            let p = no_adjacency d.adj_list s z.0 e z.1 in
            let y =
              same_target s z.0.source t g (ap (λ (x : Link). target_of x.source) (sym z.2) ∙ q) in
            absurd (cc);
        known = r.1;
        found = refl;
        nbr_in = λ n e. found_neighbor d.nbrs lsr n e;
        family = r.0;
      })

-- What recv_hello does with a message keeps the invariant.
pub process_hello-IsWell :
    (c : LeConf) (d : Disc) (lsr : ℕ) (af : Af) (src ifindex own : ℕ) (h : Heard) (k : Connect)
    → IsWell d
    → IsOwn (hello_source c d af src ifindex h).0 (hello_source c d af src ifindex h).1 lsr af
    → IsWell (process_hello c d lsr af src ifindex own h k)
unfolding process_hello
process_hello-IsWell c d lsr af src ifindex own h k w f =
    let addr : ℕ = elim h.addr [ none ↦ src | some a ↦ a ] in
    let e = hello_source c d af src ifindex h in
    elim (Bool-cases (bad_addr af addr)) [
      | inl b ↦ rw b w
      | inr b ↦ rw b (elim (Bool-cases (h.targeted && (scoped af addr || scoped af src))) [
        | inl x ↦ rw x w
        | inr x ↦ rw x (
            judge_hello-IsWell c e.0 e.1 lsr af addr (if scoped af addr then ifindex else 0) own h k
              (source-HasSource c d af src ifindex h w) f)
      ])
    ]
