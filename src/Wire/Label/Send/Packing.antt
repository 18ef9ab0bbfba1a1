-- ===== src/Wire/Label/Send/Packing.antt =====
-- The PDUs of send_labelmessage, as a receiver takes them.
use openbsd_ldpd.Base.{
  ℕ, zero, suc, ◌+◌, ◌-◌, ◌*◌, ◌≤◌, ◌<◌, ◌≡◌, ◌∙◌, refl, ap, sym, true, false, Option, none, some,
  List, [], ◌∷◌, ◌++◌, ltb, length, length-append, append_assoc, append-nil, drop, arith,
  Bool-cases, inl, inr,
}
use mathlib.Core.Path.{subst}
use openbsd_ldpd.Lde.{LabelMap}
use openbsd_ldpd.Wire.{be16, be32}
use openbsd_ldpd.Wire.Label.{MsgType}
use openbsd_ldpd.Wire.Label.Send.{
  Sender, Sent, gen_ldp_hdr, next_msg_id, enqueue_pdu, msg_size, label_msg, send_loop,
  send_labelmessage,
}
use openbsd_ldpd.Wire.Label.Send.Sizes.{IsWireMap, AllWire, length-label_msg, msg_size_bound}

-- The messages of a list, one after the other, with the ids that they get.
unfoldable pub messages : MsgType → ℕ → List LabelMap → List ℕ
messages type cnt [] = []
messages type cnt (m ∷ mh) =
    label_msg type (next_msg_id cnt) m ++ messages type (next_msg_id cnt) mh

-- A PDU with its header, whose length field counts what follows it, and that the neighbor accepts.
abbrev pub IsFramed : Sender → List ℕ → Type 0
IsFramed nbr p =
    (p ≡ be16 1 ++ be16 (length p - 4) ++ be32 nbr.rtr_id ++ be16 0 ++ drop 10 p)
    × (length p ≤ nbr.max_pdu_len + 4)

abbrev pub AllFramed : Sender → List (List ℕ) → Type 0
AllFramed nbr [] = Unit
AllFramed nbr (p ∷ ps) = IsFramed nbr p × AllFramed nbr ps

-- The counter after a list of messages.
abbrev pub count : ℕ → List LabelMap → ℕ
count cnt [] = cnt
count cnt (m ∷ mh) = count (next_msg_id cnt) mh

-- What the PDUs carry after their headers: each one the next messages of the list, whole, and one at
-- least, until none is left.
abbrev pub Carries : MsgType → ℕ → List LabelMap → List (List ℕ) → Type 0
Carries type cnt mh [] = mh ≡ []
Carries type cnt mh (p ∷ ps) =
    (m : LabelMap) × (now : List LabelMap) × (later : List LabelMap) × (mh ≡ (m ∷ now) ++ later)
    × (drop 10 p ≡ messages type cnt (m ∷ now))
    × Carries type (count cnt (m ∷ now)) later ps

-- What send_labelmessage owes: it ends, every message of the list has been sent, whole in one PDU and in
-- order, with the id that the counter gives it, and every PDU is one that the neighbor accepts.
abbrev pub IsSent : Sender → MsgType → ℕ → List LabelMap → Option Sent → Type 0
IsSent nbr type cnt mh r =
    (s : Sent) × (r ≡ some s)
    × (s.pdu_sent ≡ true)
    × (s.msgcnt ≡ count cnt mh)
    × Carries type cnt mh s.pdus
    × AllFramed nbr s.pdus

count-append : (cnt : ℕ) (xs ys : List LabelMap) → count cnt (xs ++ ys) ≡ count (count cnt xs) ys
count-append cnt [] ys = refl
count-append cnt (x ∷ xs) ys = count-append (next_msg_id cnt) xs ys

messages_snoc :
    (type : MsgType) (cnt : ℕ) (xs : List LabelMap) (m : LabelMap)
    → messages type cnt (xs ++ m ∷ [])
      ≡ messages type cnt xs ++ label_msg type (next_msg_id (count cnt xs)) m
unfolding messages
messages_snoc type cnt [] m = append-nil (label_msg type (next_msg_id cnt) m)
messages_snoc type cnt (x ∷ xs) m =
    let id = next_msg_id cnt in
    ap (λ y. label_msg type id x ++ y) (messages_snoc type id xs m)
    ∙ sym (
        append_assoc (label_msg type id x) (messages type id xs)
          (label_msg type (next_msg_id (count id xs)) m))

-- One PDU more, with messages of its own.
Carries-snoc :
    (type : MsgType) (cnt : ℕ) (done : List LabelMap) (m : LabelMap) (now : List LabelMap)
    (out : List (List ℕ)) (p : List ℕ)
    → Carries type cnt done out
    → drop 10 p ≡ messages type (count cnt done) (m ∷ now)
    → Carries type cnt (done ++ m ∷ now) (out ++ p ∷ [])
Carries-snoc type cnt done m now [] p h e =
    let f : drop 10 p ≡ messages type cnt (m ∷ now) =
      e ∙ ap (λ x. messages type (count cnt x) (m ∷ now)) h in
    (m, now, [], ap (λ x. x ++ m ∷ now) h ∙ sym (append-nil (m ∷ now)), f, refl)
Carries-snoc type cnt done m now (q ∷ out) p (x, first, later, split, body, rest) e = (
  x,
  first,
  later ++ m ∷ now,
  ap (λ y. y ++ m ∷ now) split ∙ append_assoc (x ∷ first) later (m ∷ now),
  body,
  Carries-snoc type (count cnt (x ∷ first)) later m now out p rest (
      e
      ∙ ap (λ n. messages type n (m ∷ now))
          (ap (count cnt) split ∙ count-append cnt (x ∷ first) later)),
)

framed_snoc :
    (nbr : Sender) (ps : List (List ℕ)) (p : List ℕ)
    → AllFramed nbr ps
    → IsFramed nbr p
    → AllFramed nbr (ps ++ p ∷ [])
framed_snoc nbr [] p h k = (k, tt)
framed_snoc nbr (q ∷ ps) p h k = (h.0, framed_snoc nbr ps p h.1 k)

-- An open PDU: the header, and the messages so far.
abbrev opened : Sender → List ℕ → List ℕ
opened nbr body = gen_ldp_hdr nbr.rtr_id 0 ++ body

close-IsFramed :
    (nbr : Sender) (body : List ℕ)
    → 6 + length body ≤ nbr.max_pdu_len
    → IsFramed nbr (enqueue_pdu (opened nbr body) (6 + length body))
close-IsFramed nbr body h =
    let e : length (enqueue_pdu (opened nbr body) (6 + length body)) - 4 ≡ 6 + length body =
      omega arith in
    (rw e refl, omega arith)

-- One round that closes the PDU, and one that adds a message to it.
new_pdu :
    (nbr : Sender) (type : MsgType) (m : LabelMap) (mh : List LabelMap) (f cnt : ℕ) (body : List ℕ)
    (out : List (List ℕ))
    → nbr.max_pdu_len < 6 + length body + msg_size m
    → send_loop (suc f) nbr type cnt (some (opened nbr body, 6 + length body)) (m ∷ mh) out
      ≡ send_loop f nbr type cnt none
          (m ∷ mh)
          (out ++ enqueue_pdu (opened nbr body) (6 + length body) ∷ [])
unfolding send_loop
new_pdu nbr type m mh f cnt body out h =
    let c : ltb nbr.max_pdu_len (6 + length body + msg_size m) ≡ true = ground arith in rw c refl

add_msg :
    (nbr : Sender) (type : MsgType) (m : LabelMap) (mh : List LabelMap) (f cnt : ℕ) (body : List ℕ)
    (out : List (List ℕ))
    → IsWireMap m
    → 6 + length body + msg_size m ≤ nbr.max_pdu_len
    → send_loop (suc f) nbr type cnt (some (opened nbr body, 6 + length body)) (m ∷ mh) out
      ≡ send_loop f nbr type
          (next_msg_id cnt)
          (some (
            opened nbr (body ++ label_msg type (next_msg_id cnt) m),
            6 + length (body ++ label_msg type (next_msg_id cnt) m),
          ))
          mh
          out
unfolding send_loop
add_msg nbr type m mh f cnt body out hw h =
    let l = length-label_msg type (next_msg_id cnt) m hw in
    let a = length-append body (label_msg type (next_msg_id cnt) m) in
    let c : ltb nbr.max_pdu_len (6 + length body + msg_size m) ≡ false = ground arith in
    let d : ltb (nbr.max_pdu_len + 4)
          (length (opened nbr body ++ label_msg type (next_msg_id cnt) m))
        ≡ false =
      ground (arith, l, a) in
    let e : 6 + length body + msg_size m ≡ 6 + length (body ++ label_msg type (next_msg_id cnt) m) =
      omega (arith, l, a) in
    rw (c, d, e) refl

-- The same with a PDU that is opened for the message.
first_msg :
    (nbr : Sender) (type : MsgType) (m : LabelMap) (mh : List LabelMap) (f cnt : ℕ)
    (out : List (List ℕ))
    → IsWireMap m
    → 6 + msg_size m ≤ nbr.max_pdu_len
    → send_loop (suc f) nbr type cnt none (m ∷ mh) out
      ≡ send_loop f nbr type
          (next_msg_id cnt)
          (some (
            opened nbr (label_msg type (next_msg_id cnt) m),
            6 + length (label_msg type (next_msg_id cnt) m),
          ))
          mh
          out
unfolding send_loop
first_msg nbr type m mh f cnt out hw h = add_msg nbr type m mh f cnt [] out hw h

-- The last PDU, with the messages `m ∷ now`.
last_pdu :
    (nbr : Sender) (type : MsgType) (f cnt : ℕ) (done : List LabelMap) (m : LabelMap)
    (now : List LabelMap) (out : List (List ℕ))
    → 6 + length (messages type (count cnt done) (m ∷ now)) ≤ nbr.max_pdu_len
    → Carries type cnt done out
    → AllFramed nbr out
    → let body = messages type (count cnt done) (m ∷ now) in
      IsSent nbr type cnt (done ++ m ∷ now) (
        send_loop
          (suc f)
          nbr
          type
          (count cnt (done ++ m ∷ now))
          (some (opened nbr body, 6 + length body))
          []
          out)
unfolding send_loop
last_pdu nbr type f cnt done m now out hb hc ho =
    let body = messages type (count cnt done) (m ∷ now) in
    (
      _,
      refl,
      refl,
      refl,
      Carries-snoc type cnt done m now out (enqueue_pdu (opened nbr body) (6 + length body)) hc
          refl,
      framed_snoc nbr out _ ho (close-IsFramed nbr body hb),
    )

sent_by :
    (nbr : Sender) (type : MsgType) (cnt : ℕ) {xs ys : List LabelMap} {r t : Option Sent}
    → r ≡ t
    → xs ≡ ys
    → IsSent nbr type cnt ys t
    → IsSent nbr type cnt xs r
sent_by nbr type cnt {xs} {ys} {r} {t} e b h =
    subst (λ x. IsSent nbr type cnt x r) (sym b) (h.0, e ∙ h.1, h.2, h.3, h.4, h.5)

-- The loop with an open PDU, which holds the messages `m0 ∷ now`; those of `done` are in PDUs before it.
send_open :
    (nbr : Sender) (type : MsgType) (mh : List LabelMap) (f cnt : ℕ) (done : List LabelMap)
    (m0 : LabelMap) (now : List LabelMap) (cur : ℕ) (body : List ℕ) (out : List (List ℕ))
    → 256 ≤ nbr.max_pdu_len
    → AllWire mh
    → 1 + 2 * length mh ≤ f
    → 6 + length body ≤ nbr.max_pdu_len
    → cur ≡ count cnt (done ++ m0 ∷ now)
    → body ≡ messages type (count cnt done) (m0 ∷ now)
    → Carries type cnt done out
    → AllFramed nbr out
    → IsSent nbr type cnt
        ((done ++ m0 ∷ now) ++ mh)
        (send_loop f nbr type cur (some (opened nbr body, 6 + length body)) mh out)
unfolding messages
send_open nbr type mh zero cnt done m0 now cur body out hm hw hf hb ec eb hc ho =
    absurd (omega arith)
send_open nbr type [] (suc f) cnt done m0 now cur body out hm hw hf hb ec eb hc ho =
    let at : ℕ → List ℕ → Option Sent =
      λ c b. send_loop (suc f) nbr type c (some (opened nbr b, 6 + length b)) [] out in
    sent_by nbr type cnt (ap (λ c. at c body) ec ∙ ap (λ b. at (count cnt (done ++ m0 ∷ now)) b) eb)
      (append-nil (done ++ m0 ∷ now))
      (last_pdu nbr type f cnt done m0 now out (omega (arith, hb, ap length eb)) hc ho)
send_open nbr type (m ∷ mh) (suc zero) cnt done m0 now cur body out hm hw hf hb ec eb hc ho =
    absurd (omega arith)
send_open nbr type (m ∷ mh) (suc (suc f)) cnt done m0 now cur body out hm hw hf hb ec eb hc ho =
    let before = done ++ m0 ∷ now in
    let id = next_msg_id cur in
    let msg = label_msg type id m in
    let bound = msg_size_bound m hw.0 in
    let l = length-label_msg type id m hw.0 in
    let a = length-append body msg in
    let next : id ≡ count cnt (before ++ m ∷ []) =
      ap next_msg_id ec ∙ sym (count-append cnt before (m ∷ [])) in
    let q : before ++ m ∷ [] ≡ done ++ m0 ∷ (now ++ m ∷ []) =
      append_assoc done (m0 ∷ now) (m ∷ []) in
    elim (Bool-cases (ltb nbr.max_pdu_len (6 + length body + msg_size m))) [
      | inl b ↦
          let p = enqueue_pdu (opened nbr body) (6 + length body) in
          sent_by nbr type cnt
            (new_pdu nbr type m mh (suc f) cur body out (ground arith)
              ∙ first_msg nbr type m mh f cur (out ++ p ∷ []) hw.0 (omega arith))
            (sym (append_assoc before (m ∷ []) mh))
            (send_open nbr type mh f cnt before m [] id msg (out ++ p ∷ []) hm hw.1 (omega arith)
              (omega arith) next
              (ap (λ c. label_msg type (next_msg_id c) m) ec ∙ sym (append-nil _))
              (Carries-snoc type cnt done m0 now out p hc eb)
              (framed_snoc nbr out p ho (close-IsFramed nbr body hb)))
      | inr b ↦
          sent_by nbr type cnt (add_msg nbr type m mh (suc f) cur body out hw.0 (ground arith))
            (sym (append_assoc before (m ∷ []) mh) ∙ ap (λ x. x ++ mh) q)
            (send_open nbr type mh (suc f) cnt done m0 (now ++ m ∷ []) id (body ++ msg) out hm hw.1
              (omega arith) (ground arith) (next ∙ ap (count cnt) q)
              (ap (λ x. x ++ msg) eb
                ∙ ap
                    (λ c.
                      messages type (count cnt done) (m0 ∷ now) ++ label_msg type (next_msg_id c) m)
                    (ec ∙ count-append cnt done (m0 ∷ now))
                ∙ sym (messages_snoc type (count cnt done) (m0 ∷ now) m))
              hc ho)
    ]

-- send_labelmessage ends, for a neighbor with a PDU length of at least 256 and maps that can be written:
-- every message of the list is sent, whole in one PDU and in order, with the ids of the counter; every
-- PDU carries one message at least, its length field is the number of bytes that follow it, and at most
-- the PDU length of the neighbor; and no buffer overflows on the way.
pub send_labelmessage_packs :
    (nbr : Sender) (type : MsgType) (cnt : ℕ) (m : LabelMap) (mh : List LabelMap)
    → 256 ≤ nbr.max_pdu_len
    → AllWire (m ∷ mh)
    → IsSent nbr type cnt (m ∷ mh) (send_labelmessage nbr type cnt (m ∷ mh))
unfolding send_labelmessage messages
send_labelmessage_packs nbr type cnt m mh hm hw =
    let bound = msg_size_bound m hw.0 in
    let msg = label_msg type (next_msg_id cnt) m in
    let l = length-label_msg type (next_msg_id cnt) m hw.0 in
    sent_by nbr type cnt (first_msg nbr type m mh (2 * length (m ∷ mh)) cnt [] hw.0 (omega arith))
      refl
      (send_open nbr type mh (2 * length (m ∷ mh)) cnt [] m [] (next_msg_id cnt) msg [] hm hw.1
        (omega arith) (omega arith) refl (sym (append-nil msg)) refl tt)
