-- ===== src/Vterm/Laws/Tabs.antt =====
-- Where `tabForward` stops.
use termulaa.Prelude.{
  ℕ, zero, suc, ◌+◌, ◌-◌, ◌≤◌, ◌<◌, Bool, true, false, List, ◌≡◌, ◌⊎◌, inl, inr, arith, get_or,
  Bool-cases,
}
use termulaa.Vterm.State.{Screen, Terminal}
use termulaa.Vterm.Cursor.{next_stop, tab_forward_once}

-- `x'` is the first stop from `x` on, or `end` when there is none before it.
pub record FirstStop (stops : List Bool) (x end x' : ℕ) : Type 0 where
  pub behind : x ≤ x'
  pub inside : x' ≤ end
  pub stops_here : (x' ≡ end) ⊎ (get_or stops x' false ≡ true)
  pub none_between : (k : ℕ) → x ≤ k → k < x' → get_or stops k false ≡ false

next_stop-FirstStop :
    (stops : List Bool) (x n : ℕ) → FirstStop stops x (x + n) (next_stop stops x n)
unfolding next_stop
next_stop-FirstStop stops x zero = record {
  behind = omega arith;
  inside = omega arith;
  stops_here = inl (omega arith);
  none_between = λ k a b. absurd (omega arith);
}
next_stop-FirstStop stops x (suc n) = elim (Bool-cases (get_or stops x false)) [
  | inl stop ↦ rw stop (record {
    behind = omega arith;
    inside = omega arith;
    stops_here = inr stop;
    none_between = λ k a b. absurd (omega arith);
  })
  | inr free ↦
      let f = next_stop-FirstStop stops (x + 1) n in
      rw free (record {
        behind = omega (arith, f.behind);
        inside = omega (arith, f.inside);
        stops_here = ground (arith, f.stops_here);
        none_between = λ k a b. ground (arith, f.none_between k, free);
      })
]

-- With the cursor before the last column, a tab forward moves it to the first stop behind it, or to the last
-- column when no column before that is one.
pub tab_forward_once-FirstStop :
    (t : Terminal) (s : Screen)
    → s.cur.x + 1 < t.w
    → FirstStop t.tab_stops (s.cur.x + 1) (t.w - 1) (tab_forward_once t s).cur.x
unfolding tab_forward_once
tab_forward_once-FirstStop t s h =
    let f = next_stop-FirstStop t.tab_stops (s.cur.x + 1) (t.w - (s.cur.x + 1)) in
    record {
      behind = ground (arith, f.behind);
      inside = ground (arith, f.inside);
      stops_here = ground (arith, f.stops_here, f.inside);
      none_between = λ k a b. ground (arith, f.none_between k a);
    }
