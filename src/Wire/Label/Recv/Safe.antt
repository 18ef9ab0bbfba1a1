-- ===== src/Wire/Label/Recv/Safe.antt =====
-- What recv_labelmessage hands to the label decision engine, whatever the bytes of the message.
use openbsd_ldpd.Base.{
  ℕ, suc, ◌-◌, ◌≡◌, Bool, true, false, not, List, [], ◌∷◌, ltb, leb, ◌==◌, arith,
}
use openbsd_ldpd.Lde.{Af, MapFec, LabelMap}
use openbsd_ldpd.Wire.{Refusal, s_bad_tlv_val, Parsed, of16, of32}
use openbsd_ldpd.Wire.Tlv.{Noted}
use openbsd_ldpd.Wire.Label.{MsgType, bad_label}
use openbsd_ldpd.Wire.Label.Recv.{
  Params, Received, no_params, is_mapping, opt_param, read_body, judge, hand_over, finish_message,
  read_fec_tlv, recv_labelmessage, Verdict,
}
use openbsd_ldpd.Wire.Tlv.Holds.{Holds, then-Holds, if_holds, opt_tlvs-Holds}
use openbsd_ldpd.Wire.Label.Recv.Elements.{
  AllMaps, IsProperFec, IsProper, ProperFec, HasLabel, fec_elms_proper, opt_param_label,
  mandatory_label_valid,
}

abbrev HandHolds : (LabelMap → Type 0) → Verdict → Type 0
HandHolds P (Verdict.hand m) = P m
HandHolds P _ = Unit

judge-IsProper :
    (type : MsgType) (v4 v6 : Bool) (s : Params) (m : LabelMap)
    → HasLabel type s
    → ProperFec type m
    → HandHolds (IsProper type v4 v6) (judge v4 v6 s m)
unfolding judge
judge-IsProper type v4 v6 s m hl hf = at_fec m.fec hf
  where
    at_fec :
        (f : MapFec)
        → IsProperFec type m.flags.pw_id f
        → HandHolds (IsProper type v4 v6) (judge v4 v6 s (record m { fec = f }))
    at_fec MapFec.wildcard hf = (hf, tt, hl)
    at_fec (MapFec.prefix Af.inet a l) hf =
        if_holds (HandHolds (IsProper type v4 v6)) (s.label == 2) _ _ (λ _. tt)
          λ e.
            if_holds (HandHolds (IsProper type v4 v6)) v4 _ _
              (λ k. (tt, (k, λ z. ground arith), hl)) (λ _. tt)
    at_fec (MapFec.prefix Af.inet6 a l) hf =
        if_holds (HandHolds (IsProper type v4 v6)) (s.label == 0) _ _ (λ _. tt)
          λ e.
            if_holds (HandHolds (IsProper type v4 v6)) v6 _ _
              (λ k. (tt, (k, λ z. ground arith), hl)) (λ _. tt)
    at_fec (MapFec.pwid t p g mtu) hf =
        if_holds (HandHolds (IsProper type v4 v6)) (leb s.label 15) _ _ (λ _. tt)
          λ e. (hf, ground arith, hl)

hand_over-IsProper :
    (type : MsgType) (v4 v6 : Bool) (s : Params) (mh : List LabelMap)
    → HasLabel type s
    → AllMaps (ProperFec type) mh
    → AllMaps (IsProper type v4 v6) (hand_over v4 v6 s mh).0
unfolding hand_over
hand_over-IsProper type v4 v6 s [] hl h = tt
hand_over-IsProper type v4 v6 s (m ∷ mh) hl h =
    at_verdict (judge v4 v6 s m) (judge-IsProper type v4 v6 s m hl h.0)
      (hand_over-IsProper type v4 v6 s mh hl h.1)
  where
    the_elim : Verdict → List LabelMap × Parsed (Unit {0})
    the_elim v = elim v [
      | Verdict.hand n ↦ (n ∷ (hand_over v4 v6 s mh).0, (hand_over v4 v6 s mh).1)
      | Verdict.skip ↦ hand_over v4 v6 s mh
      | Verdict.refuse ↦ ([], Parsed.refused (Refusal.shutdown s_bad_tlv_val))
    ]

    at_verdict :
        (v : Verdict)
        → HandHolds (IsProper type v4 v6) v
        → AllMaps (IsProper type v4 v6) (hand_over v4 v6 s mh).0
        → AllMaps (IsProper type v4 v6) (the_elim v).0
    at_verdict (Verdict.hand n) k r = (k, r)
    at_verdict Verdict.skip k r = r
    at_verdict Verdict.refuse k r = tt

abbrev ProperBody : MsgType → Params × List LabelMap → Type 0
ProperBody type x = HasLabel type x.0 × AllMaps (ProperFec type) x.1

read_body_proper :
    (type : MsgType) (id len feclen : ℕ) (buf : List ℕ)
    → Holds (ProperBody type) (read_body type id len feclen buf).1
unfolding read_body
read_body_proper type id len feclen buf =
    then-Holds (λ (x : List LabelMap × List ℕ). AllMaps (ProperFec type) x.0) (ProperBody type) _ _
      (fec_elms_proper (suc feclen) type id feclen buf [] tt)
      λ (mh, rest) hm.
        then-Holds (λ (x : ℕ × ℕ × List ℕ). is_mapping type ≡ true → bad_label x.0 ≡ false)
          (ProperBody type) _ _ (mandatory_label_valid type (len - feclen) rest)
          λ (label, n, more) hl.
            then-Holds (HasLabel type) (ProperBody type) _ _
              (opt_tlvs-Holds (HasLabel type) (opt_param type) (suc n) n more
                (record no_params { label = label }) (λ s t l v. opt_param_label type s t l v) hl)
              λ s hs. (hs, hm)

finish-IsProper :
    (type : MsgType) (v4 v6 : Bool) (x : Noted (Params × List LabelMap))
    → Holds (ProperBody type) x.1
    → AllMaps (IsProper type v4 v6) (finish_message v4 v6 x).maps
finish-IsProper type v4 v6 (notes, Parsed.ok (s, mh)) h = hand_over-IsProper type v4 v6 s mh h.0 h.1
finish-IsProper type v4 v6 (notes, Parsed.refused r) h = tt
finish-IsProper type v4 v6 (notes, Parsed.overrun) h = tt
finish-IsProper type v4 v6 (notes, Parsed.hang) h = tt

abbrev ProperMaps : MsgType → Bool → Bool → Received → Type 0
ProperMaps type v4 v6 r = AllMaps (IsProper type v4 v6) r.maps

fec_tlv-IsProper :
    (type : MsgType) (v4 v6 : Bool) (id len : ℕ) (buf : List ℕ)
    → AllMaps (IsProper type v4 v6) (read_fec_tlv type v4 v6 id len buf).maps
unfolding read_fec_tlv
fec_tlv-IsProper type v4 v6 id len [] =
    if_holds (ProperMaps type v4 v6) (ltb len 4) _ _ (λ _. tt) (λ _. tt)
fec_tlv-IsProper type v4 v6 id len (a ∷ []) =
    if_holds (ProperMaps type v4 v6) (ltb len 4) _ _ (λ _. tt) (λ _. tt)
fec_tlv-IsProper type v4 v6 id len (a ∷ b ∷ []) =
    if_holds (ProperMaps type v4 v6) (ltb len 4) _ _ (λ _. tt) (λ _. tt)
fec_tlv-IsProper type v4 v6 id len (a ∷ b ∷ c ∷ []) =
    if_holds (ProperMaps type v4 v6) (ltb len 4) _ _ (λ _. tt) (λ _. tt)
fec_tlv-IsProper type v4 v6 id len (t1 ∷ t0 ∷ l1 ∷ l0 ∷ buf) =
    if_holds (ProperMaps type v4 v6) (ltb len 4) _ _ (λ _. tt)
      λ _.
        if_holds (ProperMaps type v4 v6) (not (of16 t1 t0 == 0x0100)) _ _ (λ _. tt)
          λ _.
            if_holds (ProperMaps type v4 v6) (ltb (len - 4) (of16 l1 l0)) _ _ (λ _. tt)
              λ _.
                finish-IsProper type v4 v6 (read_body type id (len - 4) (of16 l1 l0) buf)
                  (read_body_proper type id (len - 4) (of16 l1 l0) buf)

-- Whatever bytes a label message holds, every map that recv_labelmessage hands to the label decision
-- engine is one that the session and the type of message allow: a wildcard comes only with a withdraw or
-- a release, a pseudowire without a PW ID too, a prefix is of a family that is enabled, its label is not
-- the explicit null of the other family and a pseudowire's label is not reserved, and a mapping has
-- a label below 2^20 that is an explicit or implicit null or not reserved.
pub recv_labelmessage-IsProper :
    (type : MsgType) (v4 v6 : Bool) (len : ℕ) (buf : List ℕ)
    → AllMaps (IsProper type v4 v6) (recv_labelmessage type v4 v6 len buf).maps
unfolding recv_labelmessage
recv_labelmessage-IsProper type v4 v6 len (_ ∷ _ ∷ _ ∷ _ ∷ i3 ∷ i2 ∷ i1 ∷ i0 ∷ buf) =
    fec_tlv-IsProper type v4 v6 (of32 i3 i2 i1 i0) (len - 8) buf
recv_labelmessage-IsProper type v4 v6 len [] = tt
recv_labelmessage-IsProper type v4 v6 len (a ∷ []) = tt
recv_labelmessage-IsProper type v4 v6 len (a ∷ b ∷ []) = tt
recv_labelmessage-IsProper type v4 v6 len (a ∷ b ∷ c ∷ []) = tt
recv_labelmessage-IsProper type v4 v6 len (a ∷ b ∷ c ∷ d ∷ []) = tt
recv_labelmessage-IsProper type v4 v6 len (a ∷ b ∷ c ∷ d ∷ e ∷ []) = tt
recv_labelmessage-IsProper type v4 v6 len (a ∷ b ∷ c ∷ d ∷ e ∷ f ∷ []) = tt
recv_labelmessage-IsProper type v4 v6 len (a ∷ b ∷ c ∷ d ∷ e ∷ f ∷ g ∷ []) = tt
