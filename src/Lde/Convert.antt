-- ===== src/Lde/Convert.antt =====
-- lde_fec2map and lde_map2fec of lde.c.
use openbsd_ldpd.Base.{ℕ, ◌≡◌, refl, true, arith, ap}
use openbsd_ldpd.Fec.{Fec}
use openbsd_ldpd.Lde.{Af, MapFec, LabelMap, zero_map, no_flags, v4_of, of_v4}

unfoldable pub lde_fec2map : Fec → LabelMap
lde_fec2map (Fec.ipv4 p l) = zero_map (MapFec.prefix Af.inet (of_v4 p) l)
lde_fec2map (Fec.ipv6 p l) = zero_map (MapFec.prefix Af.inet6 p l)
lde_fec2map (Fec.pwid t p r) = record (zero_map (MapFec.pwid t p 0 0)) {
  flags = record no_flags { pw_id = true };
}

-- A wildcard leaves the zeroed class.
unfoldable pub lde_map2fec : MapFec → ℕ → Fec
lde_map2fec (MapFec.prefix Af.inet a l) lsr_id = Fec.ipv4 (v4_of a) l
lde_map2fec (MapFec.prefix Af.inet6 a l) lsr_id = Fec.ipv6 a l
lde_map2fec (MapFec.pwid t p g m) lsr_id = Fec.pwid t p lsr_id
lde_map2fec MapFec.wildcard lsr_id = Fec.ipv4 0 0

-- The neighbor that a class names: the end of a pseudowire.
abbrev pub lsr_of : Fec → ℕ → ℕ
lsr_of (Fec.pwid t p r) other = r
lsr_of f other = other

div_shift : (p : ℕ) → v4_of (of_v4 p) ≡ p
div_shift p = omega arith

-- A class that is written to a mapping is read back from it: always for a prefix, and for a
-- pseudowire at the neighbor that is its end.
pub map2fec-fec2map : (f : Fec) (lsr_id : ℕ) → lde_map2fec (lde_fec2map f).fec (lsr_of f lsr_id) ≡ f
unfolding lde_fec2map lde_map2fec
map2fec-fec2map (Fec.ipv4 p l) r = ap (λ x. Fec.ipv4 x l) (div_shift p)
map2fec-fec2map (Fec.ipv6 p l) r = refl
map2fec-fec2map (Fec.pwid t p q) r = refl
