-- ===== src/Wire/Label/Recv/RoundTrip.antt =====
-- A label mapping of send_labelmessage as recv_labelmessage reads it.
use mathlib.Core.Path.{subst}
use openbsd_ldpd.Base.{
  ℕ, suc, ◌+◌, ◌-◌, ◌≤◌, ◌<◌, ◌≡◌, ◌≢◌, ◌∙◌, refl, Bool, true, false, List, [], ◌∷◌, ◌++◌, ltb,
  ◌==◌, if◌then◌else◌, append_assoc, drop, drop-append, arith,
}
use openbsd_ldpd.Lde.{Af, MapFec, LabelMap, no_label}
use openbsd_ldpd.Wire.{Parsed}
use openbsd_ldpd.Wire.Bytes.{of16_lem, of32_lem}
use openbsd_ldpd.Wire.Fec.{opt_bytes, gen_fec_tlv, gen_fec_elm, fec_tlv_len}
use openbsd_ldpd.Wire.Fec.RoundTrip.{
  IsWireFec, elm_flags, carried, length-gen_fec_elm, tlv_decode_fec_elm-gen_fec_elm,
}
use openbsd_ldpd.Wire.Tlv.{and_then, opt_tlvs}
use openbsd_ldpd.Wire.Label.{
  MsgType, bad_label, tlv_decode_label, msg_tlvs, gen_label_tlv, gen_reqid_tlv, gen_pw_status_tlv,
  gen_status_tlv,
}
use openbsd_ldpd.Wire.Label.Send.{add_if, msg_size, label_msg}
use openbsd_ldpd.Wire.Label.Send.Sizes.{HasStatus, IsWireMap, msg_size_lem, msg_size_bound}
use openbsd_ldpd.Wire.Label.Recv.{
  Params, no_params, check_elm, fec_elms, opt_param, mandatory_label, read_body, judge, hand_over,
  recv_labelmessage, read_fec_tlv,
}

-- A mapping whose label the receiver accepts for its class: a family that is enabled and not the
-- explicit null label of the other one, or a pseudowire with a PW ID and a label that is not reserved.
abbrev pub IsWelcomeFec : Bool → Bool → ℕ → Bool → MapFec → Type 0
IsWelcomeFec v4 v6 label pw_id MapFec.wildcard = ⊥
IsWelcomeFec v4 v6 label pw_id (MapFec.prefix Af.inet a n) = (v4 ≡ true) × (label ≢ 2)
IsWelcomeFec v4 v6 label pw_id (MapFec.prefix Af.inet6 a n) = (v6 ≡ true) × (label ≢ 0)
IsWelcomeFec v4 v6 label pw_id (MapFec.pwid t p g mtu) = (pw_id ≡ true) × (15 < label)

abbrev pub IsWelcome : Bool → Bool → LabelMap → Type 0
IsWelcome v4 v6 m = (bad_label m.label ≡ false) × IsWelcomeFec v4 v6 m.label m.flags.pw_id m.fec

elm_welcome :
    (v4 v6 : Bool) (i k : ℕ) (m : LabelMap)
    → IsWelcome v4 v6 m
    → check_elm MsgType.mapping k k (carried i m) ≡ Parsed.ok (carried i m)
unfolding check_elm
elm_welcome v4 v6 i k m h = at_fec m.fec h.1
  where
    at_fec :
        (f : MapFec)
        → IsWelcomeFec v4 v6 m.label m.flags.pw_id f
        → check_elm MsgType.mapping k k (carried i (record m { fec = f }))
          ≡ Parsed.ok (carried i (record m { fec = f }))
    at_fec MapFec.wildcard h = absurd h
    at_fec (MapFec.prefix af a n) h = refl
    at_fec (MapFec.pwid t p g mtu) h = rw (h.0) refl

-- The loop over the FEC elements reads the one that was written.
elm_back :
    (v4 v6 : Bool) (i f : ℕ) (m : LabelMap) (rest : List ℕ)
    → IsWireFec m.fec m.flags
    → IsWelcome v4 v6 m
    → fec_elms (suc f) MsgType.mapping i (fec_tlv_len m) (gen_fec_elm m ++ rest) []
      ≡ Parsed.ok (carried i m ∷ [], rest)
unfolding fec_elms
elm_back v4 v6 i f m rest hw h =
    let z : fec_tlv_len m - fec_tlv_len m ≡ 0 = omega arith in
    let d : drop (fec_tlv_len m) (gen_fec_elm m ++ rest) ≡ rest =
      subst (λ k. drop k (gen_fec_elm m ++ rest) ≡ rest) (length-gen_fec_elm m hw)
        (drop-append (gen_fec_elm m) rest) in
    rw
      (
        tlv_decode_fec_elm-gen_fec_elm i (fec_tlv_len m) m rest hw refl,
        elm_welcome v4 v6 i (fec_tlv_len m) m h,
        z,
        d,
      )
      refl

label_back :
    (len l : ℕ) (rest : List ℕ)
    → 8 ≤ len
    → bad_label l ≡ false
    → mandatory_label MsgType.mapping len (gen_label_tlv l ++ rest) ≡ Parsed.ok (l, len - 8, rest)
unfolding mandatory_label tlv_decode_label
label_back len l rest h b =
    let c : ltb len 8 ≡ false = ground arith in rw (c, of32_lem l (ground arith), b) refl

-- The optional TLVs of a mapping.
opts_back :
    (a b c : Bool) (r p x y z : ℕ) (rest : List ℕ) (s : Params)
    → r < 4294967296
    → p < 4294967296
    → opt_tlvs
        (opt_param MsgType.mapping)
        (suc (add_if a 8 + add_if b 8 + add_if c 14))
        (add_if a 8 + add_if b 8 + add_if c 14)
        (opt_bytes a (gen_reqid_tlv r)
          ++ (opt_bytes b (gen_pw_status_tlv p) ++ (opt_bytes c (gen_status_tlv x y z) ++ rest)))
        s
      ≡ (
        [],
        Parsed.ok (record s {
          reqid = if a then r else s.reqid;
          req_id_flag = if a then true else s.req_id_flag;
          pw_status = if b then p else s.pw_status;
          pw_status_flag = if b then true else s.pw_status_flag;
        }),
      )
unfolding opt_tlvs opt_param and_then
opts_back false false false r p x y z rest s hr hp = refl
opts_back false false true r p x y z rest s hr hp = refl
opts_back false true false r p x y z rest s hr hp = rw (of32_lem p hp) refl
opts_back false true true r p x y z rest s hr hp = rw (of32_lem p hp) refl
opts_back true false false r p x y z rest s hr hp = rw (of32_lem r hr) refl
opts_back true false true r p x y z rest s hr hp = rw (of32_lem r hr) refl
opts_back true true false r p x y z rest s hr hp = rw (of32_lem r hr, of32_lem p hp) refl
opts_back true true true r p x y z rest s hr hp = rw (of32_lem r hr, of32_lem p hp) refl

-- The map that arrives: the class and the flags that the message can carry, with its label, request id
-- and pseudowire status. The status TLV is not read.
abbrev pub arrived : ℕ → LabelMap → LabelMap
arrived i m = record (carried i m) {
  flags = record (elm_flags m.fec m.flags) {
    req_id = m.flags.req_id;
    pw_status = m.flags.pw_status;
  };
  label = m.label;
  requestid = if m.flags.req_id then m.requestid else 0;
  pw_status = if m.flags.pw_status then m.pw_status else 0;
}

-- What the TLVs after the class set.
abbrev params_of : LabelMap → Params
params_of m = record {
  label = m.label;
  reqid = if m.flags.req_id then m.requestid else 0;
  pw_status = if m.flags.pw_status then m.pw_status else 0;
  req_id_flag = if m.flags.req_id then true else false;
  pw_status_flag = if m.flags.pw_status then true else false;
}

hand_back :
    (v4 v6 : Bool) (i : ℕ) (m : LabelMap)
    → HasStatus m.fec m.flags.pw_status
    → IsWelcome v4 v6 m
    → hand_over v4 v6 (params_of m) (carried i m ∷ []) ≡ (arrived i m ∷ [], Parsed.ok tt)
unfolding hand_over judge
hand_back v4 v6 i m hs h = at_fec m.fec m.flags.req_id m.flags.pw_status hs h.1
  where
    at_fec :
        (f : MapFec) (a b : Bool)
        → HasStatus f b
        → IsWelcomeFec v4 v6 m.label m.flags.pw_id f
        → hand_over v4 v6
            (params_of
              (record m { fec = f; flags = record (m.flags) { req_id = a; pw_status = b } }))
            (carried i
                (record m { fec = f; flags = record (m.flags) { req_id = a; pw_status = b } })
              ∷ [])
          ≡ (
            arrived i (record m { fec = f; flags = record (m.flags) { req_id = a; pw_status = b } })
                ∷ [],
            Parsed.ok tt,
          )
    at_fec MapFec.wildcard a b hs h = absurd h
    at_fec (MapFec.prefix af x n) a true hs h = absurd (ground (arith, hs))
    at_fec (MapFec.prefix Af.inet x n) true false hs h = ground (arith, h)
    at_fec (MapFec.prefix Af.inet6 x n) true false hs h = ground (arith, h)
    at_fec (MapFec.pwid t p g mtu) true true hs h = ground (arith, h)
    at_fec (MapFec.pwid t p g mtu) true false hs h = ground (arith, h)
    at_fec (MapFec.prefix Af.inet x n) false false hs h = ground (arith, h)
    at_fec (MapFec.prefix Af.inet6 x n) false false hs h = ground (arith, h)
    at_fec (MapFec.pwid t p g mtu) false true hs h = ground (arith, h)
    at_fec (MapFec.pwid t p g mtu) false false hs h = ground (arith, h)

-- From the first FEC element on.
body_back :
    (v4 v6 : Bool) (i len : ℕ) (m : LabelMap) (rest : List ℕ)
    → IsWireFec m.fec m.flags
    → IsWelcome v4 v6 m
    → m.requestid < 4294967296
    → m.pw_status < 4294967296
    → len
      ≡ fec_tlv_len m
        + 8
        + (add_if m.flags.req_id 8 + add_if m.flags.pw_status 8 + add_if m.flags.status 14)
    → read_body MsgType.mapping i len (fec_tlv_len m) (
        gen_fec_elm m
        ++ (gen_label_tlv m.label
            ++ (opt_bytes m.flags.req_id (gen_reqid_tlv m.requestid)
                ++ (opt_bytes m.flags.pw_status (gen_pw_status_tlv m.pw_status)
                    ++ (opt_bytes m.flags.status
                          (gen_status_tlv m.st_code m.st_msg_id m.st_msg_type)
                        ++ rest)))))
      ≡ ([], Parsed.ok (params_of m, carried i m ∷ []))
unfolding read_body and_then
body_back v4 v6 i len m rest hw h hr hp e =
    let n = add_if m.flags.req_id 8 + add_if m.flags.pw_status 8 + add_if m.flags.status 14 in
    let e1 : len - fec_tlv_len m ≡ 8 + n = omega arith in
    let e2 : 8 + n - 8 ≡ n = omega arith in
    rw
      (
        elm_back v4 v6 i (fec_tlv_len m) m _ hw h,
        e1,
        label_back (8 + n) m.label _ (omega arith) h.0,
        e2,
        opts_back m.flags.req_id m.flags.pw_status m.flags.status m.requestid m.pw_status m.st_code
            m.st_msg_id m.st_msg_type rest (record no_params { label = m.label }) hr hp,
      )
      refl

six_assoc :
    (a b c d e r : List ℕ) → (a ++ b ++ c ++ d ++ e) ++ r ≡ a ++ (b ++ (c ++ (d ++ (e ++ r))))
six_assoc a b c d e r =
    append_assoc (a ++ b ++ c ++ d) e r
    ∙ append_assoc (a ++ b ++ c) d (e ++ r)
    ∙ append_assoc (a ++ b) c (d ++ (e ++ r))
    ∙ append_assoc a b (c ++ (d ++ (e ++ r)))

-- A label mapping that is written as send_labelmessage writes it, whatever follows it in the PDU, is
-- read by recv_labelmessage without a notification, and one map is handed to the label decision engine,
-- with the class, the label and the optional parameters of the one that was written, when the receiver
-- accepts the label for the class.
pub recv_labelmessage-label_msg :
    (v4 v6 : Bool) (id : ℕ) (m : LabelMap) (rest : List ℕ)
    → id < 4294967296
    → IsWireMap m
    → IsWelcome v4 v6 m
    → m.requestid < 4294967296
    → m.pw_status < 4294967296
    → recv_labelmessage MsgType.mapping v4 v6 (msg_size m) (label_msg MsgType.mapping id m ++ rest)
      ≡ record { maps = arrived id m ∷ []; notes = []; result = Parsed.ok tt }
unfolding recv_labelmessage read_fec_tlv label_msg msg_tlvs gen_fec_tlv
recv_labelmessage-label_msg v4 v6 id m rest hi hw h hr hp =
    let c : (m.label == no_label) ≡ false = ground (arith, h.0) in
    let size = msg_size_lem m hw c in
    let bound = msg_size_bound m hw in
    let c1 : ltb (msg_size m - 8) 4 ≡ false = ground (arith, size) in
    let c2 : ltb (msg_size m - 8 - 4) (fec_tlv_len m) ≡ false = ground (arith, size) in
    rw
      (
        c1,
        of16_lem (fec_tlv_len m) (omega (arith, size, bound)),
        c2,
        of32_lem id hi,
        c,
        six_assoc (gen_fec_elm m) (gen_label_tlv m.label)
            (opt_bytes m.flags.req_id (gen_reqid_tlv m.requestid))
            (opt_bytes m.flags.pw_status (gen_pw_status_tlv m.pw_status))
            (opt_bytes m.flags.status (gen_status_tlv m.st_code m.st_msg_id m.st_msg_type)) rest,
        body_back v4 v6 id (msg_size m - 8 - 4) m rest hw.0 h hr hp (omega (arith, size)),
        hand_back v4 v6 id m hw.1 h,
      )
      refl
