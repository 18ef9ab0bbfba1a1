-- ===== src/Kroute/Tests.antt =====
-- The routing table at concrete inputs.
use openbsd_ldpd.Base.{ℕ, ◌≡◌, ◌+◌, refl, true, false, List, [], ◌∷◌, length, for_each}
use mathlib.Core.Option
use openbsd_ldpd.Lde.{Af, of_v4}
use openbsd_ldpd.Kroute.{Kroute, KrOut, kr_redist_eval}
use openbsd_ldpd.Kroute.Change.{Written, RtmType, rtmsg_process_route, kr_change}
use openbsd_ldpd.Kroute.Announced.{IsFineTable}
use openbsd_ldpd.Kroute.Runs.{KrOp, kr_step, kr_start, run-IsFineTable}

-- 10.0.0.0/8 by way of 10.1.0.priority.
abbrev route : ℕ → Kroute
route priority = record {
  af = Af.inet;
  prefix = of_v4 167772160;
  prefixlen = 8;
  nexthop = of_v4 (167837696 + priority);
  local_label = 0;
  remote_label = 0;
  ifindex = 1;
  priority = priority;
  inserted = false;
  connected = false;
  dynamic = false;
  reject = false;
  blackhole = false;
  redistributed = false;
}

abbrev writes : KrOut → Written
writes m = Written.written

-- A route, a better one, a label for it, and the end of it.
abbrev messages : List ((KrOut → Written) × KrOp)
messages =
    (writes, KrOp.message RtmType.rtm_other (route 32))
    ∷ (writes, KrOp.message RtmType.rtm_other (route 8))
    ∷ (writes, KrOp.change (record (route 8) { local_label = 20; remote_label = 30 }))
    ∷ []

run-IsFineTable_example : IsFineTable (for_each messages kr_step (kr_start true)).krt
run-IsFineTable_example = run-IsFineTable true messages

-- What is written: an announcement, its withdrawal, the better route, and two messages to the kernel.
messages_out : length (for_each messages kr_step (kr_start true)).out ≡ 5
unfolding rtmsg_process_route kr_change Option.bind kr_redist_eval
messages_out = refl
