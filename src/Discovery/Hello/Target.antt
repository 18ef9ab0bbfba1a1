-- ===== src/Discovery/Hello/Target.antt =====
-- The targeted neighbor that a targeted hello belongs to, in recv_hello of hello.c.
use openbsd_ldpd.Base.{
  ℕ, true, false, not, Option, none, some, [], ◌∷◌, ◌++◌, ◌==◌, ◌&&◌, map, if◌then◌else◌,
}
use openbsd_ldpd.Lde.{Af}
use openbsd_ldpd.Discovery.{HelloSource, Tnbr, DiscOut, Disc, LeConf, ldp_af_conf_get}
use openbsd_ldpd.Discovery.Adjacency.{tnbr_new, tnbr_find, tnbr_check, tnbr_update}
use openbsd_ldpd.Discovery.Hello.Message.{Heard}

-- A dynamic targeted neighbor is made.
unfoldable pub make_target : LeConf → Disc → Af → ℕ → Disc
unfolding tnbr_new tnbr_update
make_target c d af src =
    let (e, t) = tnbr_new c d af src in
    let (u, sent) = tnbr_update c (record t { dynamic = true }) in
    record e {
      tnbrs = u ∷ e.tnbrs;
      out = e.out ++ (if sent then DiscOut.targeted_hello t.ptr ∷ [] else []);
    }

-- The source of a targeted hello; `none` when recv_hello returns.
unfoldable pub new_target : LeConf → Disc → Af → ℕ → Heard → Disc × Option HelloSource
unfolding make_target
new_target c d af src h =
    if not (h.req_targ && (ldp_af_conf_get c af).thello_accept)
    then (d, none)
    else (make_target c d af src, some (HelloSource.targeted af d.next))

abbrev pub clear_dynamic : ℕ → Tnbr → Tnbr
clear_dynamic p x = if x.ptr == p then record x { dynamic = false } else x

-- A dynamic targeted neighbor whose peer asks for no more targeted hellos.
unfoldable pub retire_target : LeConf → Disc → Af → ℕ → Heard → Tnbr → Disc × Option HelloSource
unfolding new_target tnbr_check
retire_target c d af src h t =
    let e = record d { tnbrs = map (clear_dynamic t.ptr) d.tnbrs } in
    let (f, stays) = tnbr_check e (record t { dynamic = false }) in
    if stays then (f, some (HelloSource.targeted af t.ptr)) else new_target c f af src h

unfoldable pub known_target :
    LeConf → Disc → Af → ℕ → Heard → Option Tnbr → Disc × Option HelloSource
unfolding new_target retire_target
known_target c d af src h none = new_target c d af src h
known_target c d af src h (some t) =
    if t.dynamic && not h.req_targ
    then retire_target c d af src h t
    else (d, some (HelloSource.targeted af t.ptr))

unfoldable pub hello_target : LeConf → Disc → Af → ℕ → Heard → Disc × Option HelloSource
unfolding known_target tnbr_find
hello_target c d af src h = known_target c d af src h (tnbr_find d.tnbrs af src)
