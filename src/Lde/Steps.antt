-- ===== src/Lde/Steps.antt =====
-- The states that the label decision engine can reach from its start (lde of lde.c, with empty
-- trees), one message or timer at a time.
use openbsd_ldpd.Base.{ℕ, ◌≡◌, Bool, false, List, [], is_some}
use openbsd_ldpd.Lde.{Pw, Lde, get_ln}
use openbsd_ldpd.Lde.Dispatch.{Event, dispatch}

-- The engine at its start, with its configuration; MPLS_LABEL_RESERVED_MAX is the last label that
-- it has given out.
abbrev pub lde_start : (ℕ → Pw) → List ℕ → Bool → Bool → Lde
lde_start pws pw_list v4 v6 = record {
  ft = [];
  nbrs = [];
  pws = pws;
  pw_list = pw_list;
  exp_null_v4 = v4;
  exp_null_v6 = v6;
  last_label = 15;
  out = [];
  fault = false;
}

-- The LDP engine numbers its neighbors apart: a neighbor that comes up has a peer id that is free.
abbrev pub Fits : Lde → Event → Type 0
Fits s (Event.neighbor_up p id v4 v6) = is_some (get_ln s p) ≡ false
Fits s e = Unit

pub data Reachable : Lde → Type 0 where
  start : (pws : ℕ → Pw) (pw_list : List ℕ) (v4 v6 : Bool) → Reachable (lde_start pws pw_list v4 v6)
  step : (s : Lde) (e : Event) → Reachable s → Fits s e → Reachable (dispatch s e)
