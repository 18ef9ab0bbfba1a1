-- ===== src/Nbr/PeerId.antt =====
-- The peer id of nbr_update_peerid is new: the search ends, and finds an id that is not in use.
use openbsd_ldpd.Base.{ℕ, ◌+◌, ◌-◌, ◌%◌, List, [], ◌∷◌, leb, ◌==◌, if◌then◌else◌}
use openbsd_ldpd.Nbr.{Engine, u32_mod, remove_pid}

-- How far an id lies ahead of the first candidate `a`, and how many ids lie at least `j` ahead.
abbrev ahead : ℕ → ℕ → ℕ
ahead a x = (x + u32_mod - a) % u32_mod

count_ahead : ℕ → ℕ → List ℕ → ℕ
count_ahead a j [] = 0
count_ahead a j (x ∷ xs) = (if leb j (ahead a x) then 1 else 0) + count_ahead a j xs

-- The ids of the other neighbors.
abbrev pub others : Engine → List ℕ
others w = if w.nbr.peerid == 0 then w.pids else remove_pid w.nbr.peerid w.pids
