-- ===== src/Wire/Tests.antt =====
-- Messages, PDUs and sessions at concrete inputs.
use openbsd_ldpd.Base.{
  ℕ, ◌≤◌, ◌≡◌, ◌≢◌, refl, inr, drop, ◌-◌, Bool, true, false, some, List, [], ◌∷◌, ◌++◌, arith, leb,
  le→leb, if◌then◌else◌,
}
use openbsd_ldpd.Lde.{Af}
use openbsd_ldpd.Nbr.{NbrState, Engine, nbr_new}
use openbsd_ldpd.Wire.{Parsed}
use openbsd_ldpd.Wire.Bytes.{to_bytes}
use openbsd_ldpd.Wire.Fec.Tests.{net, wire_map, net-IsWireFec, wire_map-IsWireFec}
use openbsd_ldpd.Wire.Tlv.{opt_tlvs}
use openbsd_ldpd.Wire.Tlv.Inside.{IsInside, opt_tlvs-IsInside}
use openbsd_ldpd.Wire.Label.{MsgType}
use openbsd_ldpd.Wire.Label.Send.{Sender, msg_size, label_msg, send_labelmessage}
use openbsd_ldpd.Wire.Label.Send.Sizes.{AllWire}
use openbsd_ldpd.Wire.Label.Send.Packing.{IsSent, send_labelmessage_packs}
use openbsd_ldpd.Wire.Label.Recv.{opt_param, no_params, recv_labelmessage}
use openbsd_ldpd.Wire.Label.Recv.RoundTrip.{arrived, recv_labelmessage-label_msg}
use openbsd_ldpd.Wire.Label.Recv.Elements.{AllMaps, IsProper}
use openbsd_ldpd.Wire.Label.Recv.Safe.{recv_labelmessage-IsProper}
use openbsd_ldpd.Wire.Address.{send_address}
use openbsd_ldpd.Wire.Address.RoundTrip.{AllAddrs, lde_addrs}
use openbsd_ldpd.Wire.Address.Delivery.{Delivers, send_address-Delivers}
use openbsd_ldpd.Wire.Framing.{session_get_pdu}
use openbsd_ldpd.Wire.Session.Chunks.{session_read-append}
use openbsd_ldpd.Wire.Notification.{notice}
use openbsd_ldpd.Wire.Notification.Backoff.{refused_attempts, waits_for, counts, idtimer_backoff}
use openbsd_ldpd.Wire.Hello.{
  HelloConf, HelloType, Hello, hello_flags, hello_size, send_hello, read_hello,
}
use openbsd_ldpd.Wire.Hello.RoundTrip.{told, read_hello-send_hello}
use openbsd_ldpd.Wire.Init.{init_opt, recv_init}
use openbsd_ldpd.Wire.Init.Negotiation.{init_from, negotiation_agrees}
use openbsd_ldpd.Wire.Session.{
  Session, Loop, Readable, read_bytes, read_pdus, session_read, out_of_place, recv_msg,
  read_messages,
}
use openbsd_ldpd.Wire.Session.Handshake.{IsQuiet, recv_msg_before_oper}
use openbsd_ldpd.Wire.Session.Whole.{AgreeOnWhole, read_messages_whole, read_messages_end}

abbrev peer : Sender
peer = record { max_pdu_len = 4096; rtr_id = 167772161 }

both-AllWire : AllWire (net ∷ wire_map ∷ [])
both-AllWire = ((net-IsWireFec, refl), ((wire_map-IsWireFec, tt), tt))

send_labelmessage_packs_example :
    IsSent peer MsgType.mapping 0
      (net ∷ wire_map ∷ [])
      (send_labelmessage peer MsgType.mapping 0 (net ∷ wire_map ∷ []))
send_labelmessage_packs_example =
    send_labelmessage_packs peer MsgType.mapping 0 net (wire_map ∷ []) (omega arith) both-AllWire

recv_labelmessage-label_msg_example :
    recv_labelmessage MsgType.mapping true false
      (msg_size net)
      (label_msg MsgType.mapping 5 net ++ 4 ∷ 0 ∷ [])
    ≡ record { maps = arrived 5 net ∷ []; notes = []; result = Parsed.ok tt }
recv_labelmessage-label_msg_example =
    recv_labelmessage-label_msg true false 5 net (4 ∷ 0 ∷ []) (omega arith) (net-IsWireFec, refl)
      (refl, (refl, λ e. ground arith)) (omega arith) (omega arith)

-- A withdraw of everything: the wildcard element.
abbrev withdraw_all : List ℕ
withdraw_all = 4 ∷ 2 ∷ 0 ∷ 9 ∷ 0 ∷ 0 ∷ 0 ∷ 7 ∷ 1 ∷ 0 ∷ 0 ∷ 1 ∷ 1 ∷ []

recv_labelmessage-IsProper_example :
    AllMaps
      (IsProper MsgType.withdraw true false)
      (recv_labelmessage MsgType.withdraw true false 13 withdraw_all).maps
recv_labelmessage-IsProper_example =
    recv_labelmessage-IsProper MsgType.withdraw true false 13 withdraw_all

-- 10.0.0.1 and 10.0.0.2.
abbrev ifaces : List ℕ
ifaces = 13292280037077321243302408196347396096 ∷ 13292280116305483757566745789891346432 ∷ []

ifaces-AllAddrs : AllAddrs Af.inet ifaces
ifaces-AllAddrs =
    ((omega arith, unfold to_bytes in refl), ((omega arith, unfold to_bytes in refl), tt))

send_address-Delivers_example :
    (ps : List (List ℕ)) × (send_address 2 peer Af.inet false 0 ifaces ≡ some ps)
    × Delivers true false 4096 ps (lde_addrs Af.inet ifaces)
send_address-Delivers_example =
    send_address-Delivers true false 2 peer Af.inet false 0 ifaces (omega arith) (omega arith)
      (omega arith) refl ifaces-AllAddrs

abbrev waiting : Engine
waiting = record {
  nbr = record (nbr_new true false) { state = NbrState.opensent; tcp = true };
  pids = [];
  peercnt = 0;
  now = 0;
  out = [];
}

negotiation_agrees_example :
    ((recv_init 1 180 waiting 26 (init_from 2 60 1 0)).0.nbr.keepalive
      ≡ (recv_init 2 60 waiting 26 (init_from 1 180 2 0)).0.nbr.keepalive)
    × (3 ≤ (recv_init 1 180 waiting 26 (init_from 2 60 1 0)).0.nbr.keepalive)
    × ((recv_init 1 180 waiting 26 (init_from 2 60 1 0)).0.nbr.max_pdu_len
        ≡ (recv_init 2 60 waiting 26 (init_from 1 180 2 0)).0.nbr.max_pdu_len)
    × (256 ≤ (recv_init 1 180 waiting 26 (init_from 2 60 1 0)).0.nbr.max_pdu_len)
negotiation_agrees_example =
    negotiation_agrees waiting waiting 1 2 180 60 0 0 (omega arith, omega arith)
      (omega arith, omega arith) (omega arith) (omega arith)

abbrev session : Session
session = record { engine = waiting; to_lde = []; rtr_id = 1; nbr_id = 2; local = 180 }

-- A keepalive message.
abbrev keepalive : List ℕ
keepalive = 2 ∷ 1 ∷ 0 ∷ 4 ∷ 0 ∷ 0 ∷ 0 ∷ 1 ∷ []

-- A handler that gives up on messages of less than 8 bytes.
abbrev strict : Session → ℕ → ℕ → List ℕ → Session × Bool
strict s t n buf = if leb 8 n then recv_msg s t n buf else (s, false)

strict-AgreeOnWhole : AgreeOnWhole recv_msg strict
strict-AgreeOnWhole s t n buf h l = rw (le→leb 8 n h) refl

read_messages_whole_example :
    read_messages recv_msg 9 8 8 keepalive session ≡ read_messages strict 9 8 8 keepalive session
read_messages_whole_example =
    read_messages_whole recv_msg strict 9 8 keepalive session strict-AgreeOnWhole refl

read_messages_end_example : read_messages recv_msg 9 8 8 keepalive session ≢ Loop.hung
read_messages_end_example = read_messages_end recv_msg 9 8 keepalive session (omega arith)

-- A TLV of seven bytes that has one.
opt_tlvs-IsInside_example :
    IsInside (opt_tlvs (opt_param MsgType.mapping) 6 5 (128 ∷ 0 ∷ 0 ∷ 1 ∷ 7 ∷ []) no_params)
    × IsInside (opt_tlvs init_opt 6 5 (128 ∷ 0 ∷ 0 ∷ 1 ∷ 7 ∷ []) tt)
opt_tlvs-IsInside_example =
    opt_tlvs-IsInside MsgType.mapping no_params 5 (128 ∷ 0 ∷ 0 ∷ 1 ∷ 7 ∷ []) (omega arith)

-- The half of a PDU with a keepalive message, and the rest.
session_read-append_example :
    session_read 65535 session []
      (Readable.arrived ((0 ∷ 1 ∷ 0 ∷ []) ++ (14 ∷ 0 ∷ 0 ∷ 0 ∷ 2 ∷ 0 ∷ 0 ∷ [] ++ keepalive)))
    ≡ session_read 65535
        (session_read 65535 session [] (Readable.arrived (0 ∷ 1 ∷ 0 ∷ []))).0
        (session_read 65535 session [] (Readable.arrived (0 ∷ 1 ∷ 0 ∷ []))).1
        (Readable.arrived (14 ∷ 0 ∷ 0 ∷ 0 ∷ 2 ∷ 0 ∷ 0 ∷ [] ++ keepalive))
unfolding read_bytes read_pdus session_get_pdu
session_read-append_example =
    session_read-append 65535 session [] (0 ∷ 1 ∷ 0 ∷ [])
      (14 ∷ 0 ∷ 0 ∷ 0 ∷ 2 ∷ 0 ∷ 0 ∷ [] ++ keepalive) (omega arith) (omega arith) refl

-- A neighbor that refuses the parameters, five times.
abbrev idle : Engine
idle = record waiting { nbr = nbr_new true false }

idtimer_backoff_example :
    let v = refused_attempts (notice 0x80000001) 5 idle in
    (v.nbr.state ≡ NbrState.present)
    × (v.nbr.initdelay_timer ≡ some (waits_for 4))
    × (v.nbr.idtimer_cnt ≡ counts 5)
idtimer_backoff_example = idtimer_backoff (notice 0x80000001) idle 4 refl refl refl

-- A session that waits for the keepalive message.
abbrev halfway : Session
halfway = record session {
  engine = record waiting { nbr = record (waiting.nbr) { state = NbrState.openrec } };
}

recv_msg_before_oper_example : IsQuiet halfway 0x0201 8 (recv_msg halfway 0x0201 8 keepalive).0
unfolding out_of_place
recv_msg_before_oper_example = recv_msg_before_oper halfway 0x0201 8 keepalive refl refl

-- A speaker of both families.
abbrev speaker : HelloConf
speaker = record {
  rtr_id = 1;
  enabled4 = true;
  enabled6 = true;
  trans_addr4 = 10 ∷ 0 ∷ 0 ∷ 1 ∷ [];
  trans_addr6 = to_bytes 16 7;
  trans_pref = 6;
  no_gtsm = false;
  cisco_interop = false;
  conf_seqnum = 3;
}

read_hello-send_hello_example :
    read_hello speaker Af.inet true
      (hello_size speaker Af.inet - 18)
      (drop 18 (send_hello speaker Af.inet (HelloType.link 15) 0))
    ≡ Hello.read 15 (hello_flags speaker Af.inet (HelloType.link 15)) (told speaker speaker Af.inet)
read_hello-send_hello_example =
    read_hello-send_hello speaker speaker Af.inet (HelloType.link 15) 0 (inr (omega arith))
      (omega arith) refl (omega arith) refl
