-- ===== src/Discovery/Orphans.antt =====
-- A router that changes its LSR id and its transport address while its adjacency is alive.
use openbsd_ldpd.Base.{
  ℕ, ◌≡◌, ◌≢◌, ◌∙◌, inl, refl, sym, ap, true, false, Option, none, some, if◌then◌else◌,
}
use mathlib.Core.Path.{subst}
use openbsd_ldpd.Lde.{Af}
use openbsd_ldpd.Discovery.{HelloSource, Adj, Neighbor, Disc, LeConf, nbr_find_ldpid, nbr_find_addr}
use openbsd_ldpd.Discovery.Adjacency.{adj_find, is_taken, fresh_nbr, nbr_create}
use openbsd_ldpd.Discovery.Hello.{
  Heard, Connect, process_hello, judge_hello, judge_found, accept_hello, find_adj, find_nbr,
  hello_source, bad_addr, has_value, starts_session, is_mismatch, is_used, target_holdtime, scoped,
}
use openbsd_ldpd.Discovery.Lists.{Has, Has-map, Has-of_map}
use openbsd_ldpd.Discovery.View.{Link, Key, View, IsLinked, view, link_of}
use openbsd_ldpd.Discovery.View.Purge.{IsWell}
use openbsd_ldpd.Discovery.View.Adopt.{adopt_link, join, join-IsLinked, adopt_ptr, adopt_no}
use openbsd_ldpd.Discovery.View.Accept.{view-nbr_create, view_finish}
use openbsd_ldpd.Discovery.View.Judge.{no_key, no_clash}
use openbsd_ldpd.Discovery.View.Process.{found_adjacency}

-- A neighbor that no adjacency points to.
abbrev pub IsOrphan : View → ℕ → Type 0
IsOrphan v id =
    ((k : Key) × Has k v.keys × (k.id ≡ id)) × ((b : Link) → Has b v.links → b.nbr ≢ some id)

join-IsOrphan :
    (v : View) (k : Key)
    → ((b : Link) → Has b v.links → (b.lsr_id ≢ k.id) × (b.nbr ≢ some k.id))
    → IsOrphan (join v k) k.id
join-IsOrphan v k h = (
  (k, inl refl, refl),
  λ b m e.
      let r = Has-of_map (adopt_link k.id) b v.links m in
      let x = h r.0 r.1 in x.1 (sym (ap (λ (y : Link). y.nbr) (r.2 ∙ adopt_no k.id r.0 x.0)) ∙ e),
)

accept-IsOrphan :
    (c : LeConf) (d : Disc) (a : Adj) (lsr : ℕ) (af : Af) (s : HelloSource) (addr scope own : ℕ)
    (h : Heard) (k : Connect)
    → IsWell d
    → Has a d.adj_list
    → nbr_find_ldpid d.nbrs lsr ≡ none
    → nbr_find_addr d.nbrs af addr ≡ none
    → ((b : Adj) → Has b d.adj_list → b.lsr_id ≢ lsr)
    → starts_session af h.pref ≡ true
    → IsOrphan (view (accept_hello c d (some a) none lsr af s addr scope own h k)) lsr
unfolding accept_hello find_adj find_nbr
accept-IsOrphan c d a lsr af s addr scope own h k w ha hi hr far st =
    let key : Key = record { id = lsr; af = af; raddr = addr } in
    let e = nbr_create c d lsr af (has_value h.pref) addr scope in
    let free : is_taken d.nbrs (fresh_nbr c lsr af (has_value h.pref) addr scope) ≡ false =
      rw (hi, hr) refl in
    let v = view-nbr_create c d lsr af (has_value h.pref) addr scope free in
    let i : IsLinked (view e) =
      subst IsLinked (sym v)
        (join-IsLinked (view d) key w.0 (no_key d.nbrs lsr hi) (no_clash d.nbrs af addr hr)) in
    let m : Has (adopt_link lsr (link_of a)) (view e).links =
      subst (λ (x : View). Has (adopt_link lsr (link_of a)) x.links) (sym v)
        (Has-map (adopt_link lsr) (link_of a) (view d).links (Has-map link_of a d.adj_list ha)) in
    let f =
      view_finish e a lsr s own h k (adopt_link lsr (link_of a)) i m (adopt_ptr lsr (link_of a)) in
    let o = join-IsOrphan (view d) key λ b hb.
      let z = Has-of_map link_of b d.adj_list hb in
      let n : b.lsr_id ≢ lsr = λ q. far z.0 z.1 (ap (λ (x : Link). x.lsr_id) (sym z.2) ∙ q) in
      (n, λ q. n (w.0.named b lsr hb q)) in
    rw st (subst (λ (x : View). IsOrphan x lsr) (sym (f ∙ v)) o)

no_pref : (af : Af) → starts_session af none ≡ true
no_pref Af.inet = refl
no_pref Af.inet6 = refl

judge_accepts :
    (c : LeConf) (d : Disc) (a : Adj) (lsr : ℕ) (af : Af) (s : HelloSource) (addr scope own : ℕ)
    (h : Heard) (k : Connect)
    → h.pref ≡ none
    → nbr_find_addr d.nbrs af addr ≡ none
    → judge_found c d (some a) none lsr af s addr scope own h k
      ≡ accept_hello c d (some a) none lsr af s addr scope own h k
unfolding judge_found
judge_accepts c d a lsr af s addr scope own h k p hr =
    let m : is_mismatch c h.pref ≡ false = ap (is_mismatch c) p in
    let u : is_used d none af addr ≡ false = rw (hr, is_used) refl in rw (m, u) refl

judge_hello_found :
    (c : LeConf) (d : Disc) (a : Adj) (s : HelloSource) (lsr : ℕ) (af : Af) (addr scope own : ℕ)
    (h : Heard) (k : Connect)
    → adj_find d.adj_list s ≡ some a
    → nbr_find_ldpid d.nbrs lsr ≡ none
    → judge_hello c d (some s) lsr af addr scope own h k
      ≡ judge_found c d (some a) none lsr af s addr scope (target_holdtime d s own) h k
unfolding judge_hello
judge_hello_found c d a s lsr af addr scope own h k hf hi =
    ap
      (λ (o : Option Adj).
        judge_found c d o (nbr_find_ldpid d.nbrs lsr) lsr af s addr scope (target_holdtime d s own)
          h k)
      hf
    ∙ ap
        (λ (o : Option Neighbor).
          judge_found c d (some a) o lsr af s addr scope (target_holdtime d s own) h k)
        hi

process_link :
    (c : LeConf) (d : Disc) (lsr : ℕ) (af : Af) (src ifindex own addr : ℕ) (h : Heard) (k : Connect)
    → h.targeted ≡ false
    → h.addr ≡ some addr
    → bad_addr af addr ≡ false
    → process_hello c d lsr af src ifindex own h k
      ≡ judge_hello c d
          (some (HelloSource.link ifindex af src))
          lsr
          af
          addr
          (if scoped af addr then ifindex else 0)
          own
          h
          k
unfolding process_hello
process_link c d lsr af src ifindex own addr h k ht hd hb = simp (hd, ht, hb, hello_source)

-- A hello from the source of an adjacency, but with another LSR id and a transport address that are
-- both new, makes a neighbor that no adjacency points to: the old adjacency stays with the old LSR id.
-- The hello is a link hello without the dual-stack TLV that passes the checks of its address.
pub new_id_orphans :
    (c : LeConf) (d : Disc) (a : Adj) (lsr : ℕ) (af : Af) (src ifindex own addr : ℕ) (h : Heard)
    (k : Connect)
    → IsWell d
    → h.targeted ≡ false
    → h.addr ≡ some addr
    → h.pref ≡ none
    → bad_addr af addr ≡ false
    → adj_find d.adj_list (HelloSource.link ifindex af src) ≡ some a
    → nbr_find_ldpid d.nbrs lsr ≡ none
    → nbr_find_addr d.nbrs af addr ≡ none
    → ((b : Adj) → Has b d.adj_list → b.lsr_id ≢ lsr)
    → IsOrphan (view (process_hello c d lsr af src ifindex own h k)) lsr
new_id_orphans c d a lsr af src ifindex own addr h k w ht hd hp hb hf hi hr far =
    let s = HelloSource.link ifindex af src in
    let scope = if scoped af addr then ifindex else 0 in
    let e =
      process_link c d lsr af src ifindex own addr h k ht hd hb
      ∙ judge_hello_found c d a s lsr af addr scope own h k hf hi
      ∙ judge_accepts c d a lsr af s addr scope own h k hp hr in
    subst (λ (x : Disc). IsOrphan (view x) lsr) (sym e)
      (accept-IsOrphan c d a lsr af s addr scope own h k w (found_adjacency d.adj_list s a hf) hi hr
        far (ap (starts_session af) hp ∙ no_pref af))
