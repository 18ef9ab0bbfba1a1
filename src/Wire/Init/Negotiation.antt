-- ===== src/Wire/Init/Negotiation.antt =====
-- What two neighbors agree on.
use mathlib.Core.Path.{subst}
use openbsd_ldpd.Base.{
  append-nil, ℕ, ◌≤◌, ◌<◌, ◌≡◌, refl, true, false, List, [], ◌++◌, ltb, leb, ◌==◌, if◌then◌else◌,
  drop, arith,
}
use openbsd_ldpd.Nbr.{Engine}
use openbsd_ldpd.Nbr.Events.{init_accepted}
use openbsd_ldpd.Nbr.Negotiation.{init_accepted_settles, negotiated_pdu_len_bounds}
use openbsd_ldpd.Wire.Bytes.{of16_lem, of32_lem}
use openbsd_ldpd.Wire.Tlv.{and_then, opt_tlvs}
use openbsd_ldpd.Wire.Init.{send_init, read_prms, recv_init, conclude, send_notes}

-- An initialization message that send_init writes for a neighbor is accepted by it, whatever follows in
-- the stream, and the session starts with its keepalive time and the default PDU length.
pub recv_init-send_init :
    (w : Engine) (sender receiver there here cnt : ℕ) (rest : List ℕ)
    → 3 ≤ there
    → there < 65536
    → receiver < 4294967296
    → recv_init receiver here w 26 (drop 10 (send_init sender there receiver cnt) ++ rest)
      ≡ (init_accepted w here there 0, true)
unfolding recv_init send_init read_prms conclude opt_tlvs and_then send_notes
recv_init-send_init w sender receiver there here cnt rest h l r =
    let a = of16_lem there l in
    let b = of32_lem receiver r in
    let c : ltb there 3 ≡ false = ground arith in
    let d : (receiver == receiver) ≡ true = ground arith in rw (a, b, c, d) refl

-- The message that a neighbor gets from send_init, without the header of the PDU.
abbrev pub init_from : ℕ → ℕ → ℕ → ℕ → List ℕ
init_from sender keepalive receiver cnt = drop 10 (send_init sender keepalive receiver cnt)

accepted :
    (w : Engine) (sender receiver there here cnt : ℕ)
    → 3 ≤ there
    → there < 65536
    → receiver < 4294967296
    → recv_init receiver here w 26 (init_from sender there receiver cnt)
      ≡ (init_accepted w here there 0, true)
accepted w sender receiver there here cnt h l r =
    subst (λ x. recv_init receiver here w 26 x ≡ (init_accepted w here there 0, true))
      (append-nil (init_from sender there receiver cnt))
      (recv_init-send_init w sender receiver there here cnt [] h l r)

min_comm : (a b : ℕ) → (if leb a b then a else b) ≡ (if leb b a then b else a)
min_comm a b = ground arith

min_bound : (a b : ℕ) → 3 ≤ a → 3 ≤ b → 3 ≤ (if leb a b then a else b)
min_bound a b h k = ground arith

-- When each of two neighbors handles the initialization message of the other, both have the same
-- keepalive time, of 3 seconds at least, and the same PDU length, of 256 at least, whatever the states of
-- the sessions, when both times are configured in their range.
pub negotiation_agrees :
    (a b : Engine) (id_a id_b keep_a keep_b cnt_a cnt_b : ℕ)
    → (3 ≤ keep_a) × (keep_a < 65536)
    → (3 ≤ keep_b) × (keep_b < 65536)
    → id_a < 4294967296
    → id_b < 4294967296
    → ((recv_init id_a keep_a a 26 (init_from id_b keep_b id_a cnt_b)).0.nbr.keepalive
        ≡ (recv_init id_b keep_b b 26 (init_from id_a keep_a id_b cnt_a)).0.nbr.keepalive)
      × (3 ≤ (recv_init id_a keep_a a 26 (init_from id_b keep_b id_a cnt_b)).0.nbr.keepalive)
      × ((recv_init id_a keep_a a 26 (init_from id_b keep_b id_a cnt_b)).0.nbr.max_pdu_len
          ≡ (recv_init id_b keep_b b 26 (init_from id_a keep_a id_b cnt_a)).0.nbr.max_pdu_len)
      × (256 ≤ (recv_init id_a keep_a a 26 (init_from id_b keep_b id_a cnt_b)).0.nbr.max_pdu_len)
negotiation_agrees a b id_a id_b keep_a keep_b cnt_a cnt_b ka kb ia ib =
    let ea = accepted a id_b id_a keep_b keep_a cnt_b kb.0 kb.1 ia in
    let eb = accepted b id_a id_b keep_a keep_b cnt_a ka.0 ka.1 ib in
    let sa = init_accepted_settles a keep_a keep_b 0 in
    let sb = init_accepted_settles b keep_b keep_a 0 in
    rw (ea, eb, sa.0, sb.0, sa.1, sb.1)
      (
        min_comm keep_a keep_b,
        min_bound keep_a keep_b ka.0 kb.0,
        refl,
        (negotiated_pdu_len_bounds 0).0,
      )
