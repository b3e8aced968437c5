-- ===== src/Vterm/Inv/Cursors.antt =====
-- The cursor operations keep the cursor on the screen.
use termulaa.Prelude.{ℕ, zero, suc, ◌-◌, ◌≤◌, Bool, List, arith}
use termulaa.Vterm.State.{Screen, Terminal, unpend}
use termulaa.Vterm.Cursor.{
  iterate, prev_stop, tab_forward_once, tab_forward, tab_backward_once, tab_backward, move_cursor,
  cursor_up, cursor_down, save_cursor, recall,
}
use termulaa.Vterm.Inv.{FitsIn}

pub prev_stop-le : (stops : List Bool) (x : ℕ) → prev_stop stops x ≤ x
unfolding prev_stop
prev_stop-le stops zero = omega arith
prev_stop-le stops (suc x) = ground (arith, prev_stop-le stops x)

pub iterate_inv {ℓ κ} :
    {A : Type ℓ} (P : A → Type κ) (n : ℕ) (f : A → A) (a : A)
    → ((x : A) → P x → P (f x))
    → P a
    → P (iterate n f a)
unfolding iterate
iterate_inv P zero f a k h = h
iterate_inv P (suc n) f a k h = iterate_inv P n f (f a) k (k a h)

module _ (t : Terminal) where
  tab_forward_once-Fits : (s : Screen) → FitsIn t s → FitsIn t (tab_forward_once t s)
  unfolding tab_forward_once
  tab_forward_once-Fits s v = ground arith

  tab_backward_once-Fits : (s : Screen) → FitsIn t s → FitsIn t (tab_backward_once t s)
  unfolding tab_backward_once
  tab_backward_once-Fits s v = ground (arith, prev_stop-le t.tab_stops (s.cur.x - 1))

  pub tab_forward-Fits : (n : ℕ) {s : Screen} → FitsIn t s → FitsIn t (tab_forward n t s)
  unfolding tab_forward
  tab_forward-Fits n {s} v =
      let v' : FitsIn t (unpend s) = ground arith in
      iterate_inv (FitsIn t) n (tab_forward_once t) (unpend s) tab_forward_once-Fits v'

  pub tab_backward-Fits : (n : ℕ) {s : Screen} → FitsIn t s → FitsIn t (tab_backward n t s)
  unfolding tab_backward
  tab_backward-Fits n {s} v =
      let v' : FitsIn t (unpend s) = ground arith in
      iterate_inv (FitsIn t) n (tab_backward_once t) (unpend s) tab_backward_once-Fits v'

  pub move_cursor-Fits : (x y : ℕ) {s : Screen} → FitsIn t s → FitsIn t (move_cursor x y t s)
  unfolding move_cursor
  move_cursor-Fits x y v = ground arith

  pub cursor_up-Fits : (n : ℕ) {s : Screen} → FitsIn t s → FitsIn t (cursor_up n t s)
  unfolding cursor_up
  cursor_up-Fits n v = ground arith

  pub cursor_down-Fits : (n : ℕ) {s : Screen} → FitsIn t s → FitsIn t (cursor_down n t s)
  unfolding cursor_down
  cursor_down-Fits n v = ground arith

  pub save_cursor-Fits : {s : Screen} → FitsIn t s → FitsIn t (save_cursor t s)
  unfolding save_cursor
  save_cursor-Fits v = ground arith

  pub recall-Fits : {s : Screen} → FitsIn t s → FitsIn t (recall t s)
  unfolding recall
  recall-Fits v = ground arith
