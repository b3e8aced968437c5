-- ===== src/Vterm/Inv/Active.antt =====
-- The active screen: reading it, and writing it back.
use termulaa.Prelude.{arith}
use termulaa.Vterm.State.{Screen, Terminal, active, put, on_active}
use termulaa.Vterm.Inv.{FitsIn, IsValid}

pub active-Fits : {t : Terminal} → IsValid t → FitsIn t (active t)
unfolding active
active-Fits v = ground arith

pub put-IsValid : {t : Terminal} (s : Screen) → IsValid t → FitsIn t s → IsValid (put t s)
unfolding put
put-IsValid s v f = ground arith

-- An operation that keeps the shape of the active screen keeps the terminal valid.
pub on_active-IsValid :
    {t : Terminal} (op : Terminal → Screen → Screen)
    → IsValid t
    → ((s : Screen) → FitsIn t s → FitsIn t (op t s))
    → IsValid (on_active op t)
unfolding on_active
on_active-IsValid {t} op v k = put-IsValid (op t (active t)) v (k (active t) (active-Fits v))
