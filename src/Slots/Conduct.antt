-- ===== src/Slots/Conduct.antt =====
-- What holds of each run by itself, whatever the others do.
use mcp_switchboard.Prelude.{
  ℕ, zero, suc, ◌≤◌, ◌≡◌, refl, Bool, true, false, not, ◌&&◌, ◌||◌, List, [], ◌∷◌, arith, all,
  modify, ◌==◌,
}
use mcp_switchboard.Slots.{Seat, queued, refused, Run, grant, is_away}

abbrev waits : Seat → ℕ
waits queued = 1
waits _ = 0

-- Whether a run blocks on its waiter.
abbrev pub waits_in : Run → ℕ
waits_in r = waits r.seat

abbrev pub waits_at : ℕ → List Run → ℕ
waits_at i [] = 0
waits_at zero (r ∷ runs) = waits_in r
waits_at (suc i) (r ∷ runs) = waits_at i runs

abbrev is_refused : Seat → Bool
is_refused refused = true
is_refused _ = false

abbrev implies : Bool → Bool → Bool
implies a b = not a || b

-- A run with a slot neither waits nor has finished, and has no `acquire` in progress.
abbrev pub works : Run → Bool
works r =
    implies r.holds_slot
      (r.waiters == 0 && not r.finished && is_away r.seat && r.started && not r.acquiring)

-- A run that has started, has neither finished nor been cancelled and waits for nothing has its slot, or
-- is getting it.
abbrev pub served : Run → Bool
served r =
    implies (r.started && not r.finished && not r.cancelled && r.waiters == 0)
      (r.holds_slot || r.acquiring)

-- `acquire` is in progress once at most: at the start, or for the flag `acquiring`.
abbrev pub single : Run → Bool
single r =
    implies r.acquiring (not (is_away r.seat) && r.started)
    && implies (not (is_away r.seat)) (r.acquiring || not r.started && not r.finished)
    && implies (not r.started) (r.waiters == 0)
    && implies (is_refused r.seat) r.cancelled

unfoldable pub sane : Run → Bool
sane r = works r && served r && single r

sane-grant_one : (r : Run) → waits_in r ≡ 1 → sane r ≡ true → sane (grant r) ≡ true
unfolding sane
sane-grant_one r w s = ground arith

pub sane-grant :
    (i : ℕ) (runs : List Run)
    → 1 ≤ waits_at i runs
    → all sane runs ≡ true
    → all sane (modify i grant runs) ≡ true
sane-grant i [] h a = refl
sane-grant zero (x ∷ runs) h a = ground (arith, sane-grant_one x)
sane-grant (suc i) (x ∷ runs) h a = ground (arith, sane-grant i runs h)
