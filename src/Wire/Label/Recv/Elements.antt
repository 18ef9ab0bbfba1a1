-- ===== src/Wire/Label/Recv/Elements.antt =====
-- The elements and the labels that recv_labelmessage reads: what each part of the parser checks.
use openbsd_ldpd.Base.{
  ℕ, zero, suc, ◌-◌, ◌<◌, ◌≡◌, ◌≢◌, refl, Bool, true, false, ◌&&◌, ◌||◌, not, List, [], ◌∷◌, ◌++◌,
  ltb, ◌==◌, arith, drop,
}
use openbsd_ldpd.Lde.{Af, MapFec, LabelMap}
use openbsd_ldpd.Wire.{of16, of32}
use openbsd_ldpd.Wire.Fec.{blank, tlv_decode_fec_elm}
use openbsd_ldpd.Wire.Tlv.{Noted}
use openbsd_ldpd.Wire.Label.{MsgType, bad_label, not_label, tlv_decode_label}
use openbsd_ldpd.Wire.Label.Recv.{
  with_u32, Params, is_mapping, is_withdraw_or_release, check_elm, fec_elms, opt_param,
  mandatory_label,
}
use openbsd_ldpd.Wire.Tlv.Holds.{Holds, bind-Holds, if_holds, all_hold}

-- Every element of a list of maps.
abbrev pub AllMaps : (LabelMap → Type 0) → List LabelMap → Type 0
AllMaps P [] = Unit
AllMaps P (m ∷ mh) = P m × AllMaps P mh

-- A class that a message of the type may carry.
abbrev pub IsProperFec : MsgType → Bool → MapFec → Type 0
IsProperFec type pw_id MapFec.wildcard = is_withdraw_or_release type ≡ true
IsProperFec type pw_id (MapFec.prefix af a n) = Unit
IsProperFec type pw_id (MapFec.pwid t p g mtu) = (pw_id || is_withdraw_or_release type) ≡ true

-- A label that a class may have.
abbrev pub IsProperLabel : Bool → Bool → ℕ → MapFec → Type 0
IsProperLabel v4 v6 label MapFec.wildcard = Unit
IsProperLabel v4 v6 label (MapFec.prefix Af.inet a n) = (v4 ≡ true) × (label ≢ 2)
IsProperLabel v4 v6 label (MapFec.prefix Af.inet6 a n) = (v6 ≡ true) × (label ≢ 0)
IsProperLabel v4 v6 label (MapFec.pwid t p g mtu) = 15 < label

abbrev pub IsProper : MsgType → Bool → Bool → LabelMap → Type 0
IsProper type v4 v6 m =
    IsProperFec type m.flags.pw_id m.fec
    × IsProperLabel v4 v6 m.label m.fec
    × (is_mapping type ≡ true → bad_label m.label ≡ false)

abbrev pub ProperFec : MsgType → LabelMap → Type 0
ProperFec type m = IsProperFec type m.flags.pw_id m.fec

pw_or : (a b : Bool) → not a && not b ≡ false → (a || b) ≡ true
pw_or true b e = refl
pw_or false true e = refl
pw_or false false e = cc

check_elm_proper :
    (type : MsgType) (k l : ℕ) (m : LabelMap) → Holds (ProperFec type) (check_elm type k l m)
unfolding check_elm
check_elm_proper type k l m = at_fec m.fec
  where
    at_fec : (f : MapFec) → Holds (ProperFec type) (check_elm type k l (record m { fec = f }))
    at_fec MapFec.wildcard =
        if_holds (Holds (ProperFec type)) (is_withdraw_or_release type) _ _
          (λ e. if_holds (Holds (ProperFec type)) (l == k) _ _ (λ _. e) (λ _. tt)) (λ _. tt)
    at_fec (MapFec.prefix af a n) =
        if_holds (Holds (ProperFec type)) (not (is_mapping type) && not (l == k)) _ _ (λ _. tt)
          (λ _. tt)
    at_fec (MapFec.pwid t p g mtu) =
        if_holds (Holds (ProperFec type)) (not m.flags.pw_id && not (is_withdraw_or_release type)) _
          _ (λ _. tt)
          λ e.
            if_holds (Holds (ProperFec type)) (not (is_mapping type) && not (l == k)) _ _ (λ _. tt)
              (λ _. pw_or m.flags.pw_id (is_withdraw_or_release type) e)

snoc_proper :
    (P : LabelMap → Type 0) (mh : List LabelMap) (m : LabelMap)
    → AllMaps P mh
    → P m
    → AllMaps P (mh ++ m ∷ [])
snoc_proper P [] m h k = (k, tt)
snoc_proper P (n ∷ mh) m h k = (h.0, snoc_proper P mh m h.1 k)

pub fec_elms_proper :
    (f : ℕ) (type : MsgType) (id feclen : ℕ) (buf : List ℕ) (mh : List LabelMap)
    → AllMaps (ProperFec type) mh
    → Holds
        (λ (x : List LabelMap × List ℕ). AllMaps (ProperFec type) x.0)
        (fec_elms f type id feclen buf mh)
unfolding fec_elms
fec_elms_proper zero type id feclen buf mh h = tt
fec_elms_proper (suc f) type id feclen buf mh h =
    let Q : List LabelMap × List ℕ → Type 0 = λ x. AllMaps (ProperFec type) x.0 in
    bind-Holds (λ _. Unit {0}) Q (tlv_decode_fec_elm (blank id) feclen buf) _
      (all_hold _ (λ _. tt) _)
      λ (m, tlen) _.
        bind-Holds (ProperFec type) Q (check_elm type feclen tlen m) _
          (check_elm_proper type feclen tlen m)
          λ n hn.
            if_holds (Holds Q) (feclen - tlen == 0) _ _
              (λ _. snoc_proper (ProperFec type) mh n h hn)
              λ _.
                fec_elms_proper f type id (feclen - tlen) (drop tlen buf) (mh ++ n ∷ [])
                  (snoc_proper (ProperFec type) mh n h hn)

abbrev pub ValidLabel : ℕ × ℕ → Type 0
ValidLabel x = bad_label x.0 ≡ false

decode_label_valid : (len : ℕ) (buf : List ℕ) → Holds ValidLabel (tlv_decode_label len buf)
unfolding tlv_decode_label
decode_label_valid len [] = if_holds (Holds ValidLabel) (ltb len 8) _ _ (λ _. tt) (λ _. tt)
decode_label_valid len (a ∷ []) = if_holds (Holds ValidLabel) (ltb len 8) _ _ (λ _. tt) (λ _. tt)
decode_label_valid len (a ∷ b ∷ []) =
    if_holds (Holds ValidLabel) (ltb len 8) _ _ (λ _. tt) (λ _. tt)
decode_label_valid len (a ∷ b ∷ c ∷ []) =
    if_holds (Holds ValidLabel) (ltb len 8) _ _ (λ _. tt) (λ _. tt)
decode_label_valid len (a ∷ b ∷ c ∷ d ∷ []) =
    if_holds (Holds ValidLabel) (ltb len 8) _ _ (λ _. tt) (λ _. tt)
decode_label_valid len (a ∷ b ∷ c ∷ d ∷ e ∷ []) =
    if_holds (Holds ValidLabel) (ltb len 8) _ _ (λ _. tt) (λ _. tt)
decode_label_valid len (a ∷ b ∷ c ∷ d ∷ e ∷ f ∷ []) =
    if_holds (Holds ValidLabel) (ltb len 8) _ _ (λ _. tt) (λ _. tt)
decode_label_valid len (a ∷ b ∷ c ∷ d ∷ e ∷ f ∷ g ∷ []) =
    if_holds (Holds ValidLabel) (ltb len 8) _ _ (λ _. tt) (λ _. tt)
decode_label_valid len (t1 ∷ t0 ∷ l1 ∷ l0 ∷ v3 ∷ v2 ∷ v1 ∷ v0 ∷ rest) =
    if_holds (Holds ValidLabel) (ltb len 8) _ _ (λ _. tt)
      λ _.
        if_holds (Holds ValidLabel) (not_label (of16 t1 t0)) _ _ (λ _. tt)
          λ _.
            if_holds (Holds ValidLabel) (of16 t1 t0 == 0x0200) _ _
              (λ _.
                if_holds (Holds ValidLabel) (of16 l1 l0 == 4) _ _
                  (λ _.
                    if_holds (Holds ValidLabel) (bad_label (of32 v3 v2 v1 v0)) _ _ (λ _. tt)
                      (λ e. e))
                  (λ _. tt))
              (λ _. tt)

-- For a mapping the loop over the optional TLVs does not touch the label.
abbrev pub HasLabel : MsgType → Params → Type 0
HasLabel type s = is_mapping type ≡ true → bad_label s.label ≡ false

with_u32_label :
    (s : Params) (v : List ℕ) (k : ℕ → Params)
    → ((n : ℕ) → HasLabel MsgType.mapping (k n))
    → Holds (HasLabel MsgType.mapping) (with_u32 v k).1
with_u32_label s [] k h = tt
with_u32_label s (a ∷ []) k h = tt
with_u32_label s (a ∷ b ∷ []) k h = tt
with_u32_label s (a ∷ b ∷ c ∷ []) k h = tt
with_u32_label s (a ∷ b ∷ c ∷ d ∷ v) k h = h (of32 a b c d)

pub opt_param_label :
    (type : MsgType) (s : Params) (t l : ℕ) (v : List ℕ)
    → HasLabel type s
    → Holds (HasLabel type) (opt_param type s t l v).1
unfolding opt_param
opt_param_label MsgType.mapping s t l v h =
    let Q : Noted Params → Type 0 = λ x. Holds (HasLabel MsgType.mapping) x.1 in
    if_holds Q (t == 0x0600) _ _
      (λ _. if_holds Q (l == 4) _ _ (λ _. with_u32_label s v _ (λ n. h)) (λ _. tt))
      λ _.
        if_holds Q (t == 0x0103 || t == 0x0104) _ _ (λ _. h)
          λ _.
            if_holds Q (t == 0x0200) _ _ (λ _. h)
              λ _.
                if_holds Q (t == 0x0201 || t == 0x0202) _ _ (λ _. h)
                  λ _.
                    if_holds Q (t == 0x0300) _ _ (λ _. if_holds Q (l == 10) _ _ (λ _. h) (λ _. tt))
                      λ _.
                        if_holds Q (t == 0x096A) _ _
                          (λ _.
                            if_holds Q (l == 4) _ _ (λ _. with_u32_label s v _ (λ n. h)) (λ _. tt))
                          (λ _. h)
opt_param_label MsgType.request s t l v h = all_hold (HasLabel MsgType.request) (λ a e. cc) _
opt_param_label MsgType.withdraw s t l v h = all_hold (HasLabel MsgType.withdraw) (λ a e. cc) _
opt_param_label MsgType.release s t l v h = all_hold (HasLabel MsgType.release) (λ a e. cc) _
opt_param_label MsgType.abort s t l v h = all_hold (HasLabel MsgType.abort) (λ a e. cc) _

pub mandatory_label_valid :
    (type : MsgType) (len : ℕ) (buf : List ℕ)
    → Holds
        (λ (x : ℕ × ℕ × List ℕ). is_mapping type ≡ true → bad_label x.0 ≡ false)
        (mandatory_label type len buf)
unfolding mandatory_label
mandatory_label_valid type len buf =
    let Q : ℕ × ℕ × List ℕ → Type 0 = λ x. is_mapping type ≡ true → bad_label x.0 ≡ false in
    if_holds (Holds Q) (is_mapping type) _ _
      (λ _.
        bind-Holds ValidLabel Q (tlv_decode_label len buf) _ (decode_label_valid len buf)
          λ x h _. h)
      (λ e k. absurd (ground (arith, e, k)))
