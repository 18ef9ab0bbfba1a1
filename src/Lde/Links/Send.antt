-- ===== src/Lde/Links/Send.antt =====
-- Sending labels and keeping records of requests and withdraws: all but the record of a mapping leave
-- the structure alone.
use openbsd_ldpd.Base.{
  ℕ, ◌≡◌, ◌∙◌, refl, List, Bool, true, false, Option, none, some, is_some, if◌then◌else◌, lost,
  none_of,
}
use mathlib.Core.Option
use openbsd_ldpd.Base.Branch.{at_if, at_on}
use openbsd_ldpd.RbTree.{find, update, same}
use openbsd_ldpd.RbTree.Laws.{find-update, update-IsSorted}
use openbsd_ldpd.Fec.{Fec}
use openbsd_ldpd.Fec.Order.{fec_order}
use openbsd_ldpd.Lde.{LabelMap, Lde, get_fn, get_ln, emit, keys, Imsg}
use openbsd_ldpd.Lde.Send.{
  StatusTlv, set_sent, set_recv, lde_req_add, lde_req_del, record_wdraw, lde_wdraw_del, announce,
  record_sent, post_mapping, lde_send_labelmapping, lde_send_labelwithdraw, withdraw_wildcard,
  lde_send_labelrelease, release_wildcard,
}
use openbsd_ldpd.Lde.Links.{
  Inv, Keeps, Keeps-refl, Keeps-trans, Keeps-same, Safe, Keeps-Safe, Safe-refl, Safe-trans,
}
use openbsd_ldpd.Lde.Links.Store.{set_ln-Keeps}
use openbsd_ldpd.Lde.Links.Loops.{for_each-Keeps}
use openbsd_ldpd.Lde.Links.Sent.{sent_add-Safe}

update-has {ℓ} :
    {V : Type ℓ} (t : List (Fec × V)) (f g : Fec) (h : V → V)
    → is_some (find fec_order (update fec_order t f h) g) ≡ is_some (find fec_order t g)
update-has t f g h =
    rw (find-update fec_order t f h g) (cases (same fec_order f g) (find fec_order t g))
  where
    cases : (b : Bool) (o : Option _) → is_some (if b then Option.map h o else o) ≡ is_some o
    cases true none = refl
    cases true (some v) = refl
    cases false o = refl

pub set_sent-Keeps : (s : Lde) (p : ℕ) (f : Fec) (m : LabelMap) → Keeps s (set_sent s p f m)
set_sent-Keeps s p f m = set_ln-Keeps s p _ λ l. record {
  present = refl;
  recvs = λ g. refl;
  sents = λ g. update-has l.sent_map f g _;
  tidy = λ t. (t.0, update-IsSorted fec_order l.sent_map f _ t.1);
}

pub set_recv-Keeps : (s : Lde) (p : ℕ) (f : Fec) (m : LabelMap) → Keeps s (set_recv s p f m)
set_recv-Keeps s p f m = set_ln-Keeps s p _ λ l. record {
  present = refl;
  recvs = λ g. update-has l.recv_map f g _;
  sents = λ g. refl;
  tidy = λ t. (update-IsSorted fec_order l.recv_map f _ t.0, t.1);
}

pub req_add-Keeps : (s : Lde) (p : ℕ) (f : Fec) (id : ℕ) → Keeps s (lde_req_add s p f id)
unfolding lde_req_add
req_add-Keeps s p f id =
    set_ln-Keeps s p _
      λ l. record { present = refl; recvs = λ g. refl; sents = λ g. refl; tidy = λ t. t }

pub req_del-Keeps : (s : Lde) (p : ℕ) (f : Fec) (b : Bool) → Keeps s (lde_req_del s p f b)
unfolding lde_req_del
req_del-Keeps s p f true =
    set_ln-Keeps s p _
      λ l. record { present = refl; recvs = λ g. refl; sents = λ g. refl; tidy = λ t. t }
req_del-Keeps s p f false =
    set_ln-Keeps s p _
      λ l. record { present = refl; recvs = λ g. refl; sents = λ g. refl; tidy = λ t. t }

pub record_wdraw-Keeps : (p label : ℕ) (s : Lde) (f : Fec) → Keeps s (record_wdraw p label s f)
unfolding record_wdraw
record_wdraw-Keeps p label s f =
    set_ln-Keeps s p _
      λ l. record { present = refl; recvs = λ g. refl; sents = λ g. refl; tidy = λ t. t }

pub wdraw_del-Keeps : (s : Lde) (p : ℕ) (f : Fec) → Keeps s (lde_wdraw_del s p f)
unfolding lde_wdraw_del
wdraw_del-Keeps s p f =
    set_ln-Keeps s p _
      λ l. record { present = refl; recvs = λ g. refl; sents = λ g. refl; tidy = λ t. t }

emit-Keeps : (s : Lde) (m : Imsg) → Keeps s (emit s m)
emit-Keeps s m = Keeps-same refl refl refl

-- The pointer that is_some finds.
pub the {ℓ} : {A : Type ℓ} (o : Option A) → is_some o ≡ true → (a : A) × (o ≡ some a)
the none h = cc
the (some a) h = (a, refl)

announce-Keeps : (s : Lde) (p : ℕ) (m : LabelMap) (single : Bool) → Keeps s (announce s p m single)
unfolding announce
announce-Keeps s p m single =
    at_if (Keeps s) (λ _. Keeps-same refl refl refl) (λ _. Keeps-same refl refl refl)

record_sent-Safe :
    (s : Lde) (p : ℕ) (f : Fec) (m : LabelMap)
    → Inv s
    → is_some (get_ln s p) ≡ true
    → is_some (get_fn s f) ≡ true
    → Safe s (record_sent s p f m)
unfolding record_sent
record_sent-Safe s p f m v hp hf =
    at_on (Safe s) (λ e. absurd (lost e hp))
      λ l hl.
        let (n, hn) = the (get_fn s f) hf in
        at_if (λ t. Safe s (set_sent t p f m)) (λ _. Keeps-Safe v (set_sent-Keeps s p f m))
          λ fresh.
            let added = sent_add-Safe s p f l n v hl hn (none_of _ fresh) in
            Safe-trans added (Keeps-Safe added.inv (set_sent-Keeps _ p f m))

pub post_mapping-Safe :
    (s : Lde) (p : ℕ) (f : Fec) (m : LabelMap) (single : Bool)
    → Inv s
    → is_some (get_ln s p) ≡ true
    → is_some (get_fn s f) ≡ true
    → Safe s (post_mapping s p f m single)
unfolding post_mapping
post_mapping-Safe s p f m single v hp hf =
    let k = announce-Keeps s p m single in
    Safe-trans (Keeps-Safe v k)
      (record_sent-Safe _ p f m (Keeps-Safe v k).inv (k.present p ∙ hp) (k.has f hf))

-- lde_send_labelmapping keeps the invariant.
pub send_labelmapping-Safe :
    (s : Lde) (p : ℕ) (f : Fec) (single : Bool)
    → Inv s
    → is_some (get_ln s p) ≡ true
    → is_some (get_fn s f) ≡ true
    → Safe s (lde_send_labelmapping s p f single)
unfolding lde_send_labelmapping
send_labelmapping-Safe s p f single v hp hf =
    at_on (Safe s) (λ e. absurd (lost e hp))
      λ l hl.
        at_on (Safe s) (λ e. absurd (lost e hf))
          λ n hn.
            at_if (Safe s)
              (λ _.
                at_on (Safe s) (λ _. post_mapping-Safe s p f _ single v hp hf)
                  λ id hid.
                    let k = req_del-Keeps s p f false in
                    Safe-trans (Keeps-Safe v k) (
                      post_mapping-Safe _ p f _ single (Keeps-Safe v k).inv (k.present p ∙ hp)
                        (k.has f hf)))
              (λ _. Safe-refl v)

-- lde_send_labelwithdraw, of a class and by the wildcard, and lde_send_labelrelease.
pub send_labelwithdraw-Keeps :
    (s : Lde) (p : ℕ) (f : Fec) (st : Option StatusTlv)
    → is_some (get_ln s p) ≡ true
    → is_some (get_fn s f) ≡ true
    → Keeps s (lde_send_labelwithdraw s p f st)
unfolding lde_send_labelwithdraw
send_labelwithdraw-Keeps s p f st hp hf =
    at_on (Keeps s) (λ e. absurd (lost e hp))
      λ l hl.
        at_on (Keeps s) (λ e. absurd (lost e hf))
          λ n hn.
            at_if (Keeps s)
              (λ _.
                Keeps-trans (Keeps-same refl refl refl) (record_wdraw-Keeps p n.local_label _ f))
              (λ _. Keeps-refl s)

pub withdraw_wildcard-Keeps : (s : Lde) (p label : ℕ) → Keeps s (withdraw_wildcard s p label)
unfolding withdraw_wildcard
withdraw_wildcard-Keeps s p label =
    Keeps-trans (Keeps-same refl refl refl)
      (for_each-Keeps (λ _. Unit {0}) (keys s.ft) (record_wdraw p label)
        (λ t f _. (record_wdraw-Keeps p label t f, tt)) _ tt).0

pub send_labelrelease-Keeps :
    (s : Lde) (p : ℕ) (f : Fec) (label : ℕ)
    → is_some (get_ln s p) ≡ true
    → is_some (get_fn s f) ≡ true
    → Keeps s (lde_send_labelrelease s p f label)
unfolding lde_send_labelrelease
send_labelrelease-Keeps s p f label hp hf =
    at_on (Keeps s) (λ e. absurd (lost e hp))
      λ l hl.
        at_on (Keeps s) (λ e. absurd (lost e hf))
          λ n hn. at_if (Keeps s) (λ _. Keeps-same refl refl refl) (λ _. Keeps-refl s)

pub release_wildcard-Keeps : (s : Lde) (p label : ℕ) → Keeps s (release_wildcard s p label)
unfolding release_wildcard
release_wildcard-Keeps s p label = Keeps-same refl refl refl
