-- ===== src/Tunnel/Pool.antt =====
-- The tunnels of a pool, which connect and are lost in any order, and the count that they share.
use termulaa.Prelude.{
  ℕ, zero, suc, ◌+◌, ◌≤◌, Bool, true, false, List, [], ◌∷◌, ◌++◌, ◌≡◌, refl, sym, arith, length,
  length-append, replicate, length-replicate,
}
use termulaa.Tunnel.{PoolStatus, up, down}

-- Which tunnels are up, and the status.
pub record Pool : Type 0 where
  pub tunnels : List Bool
  pub status : PoolStatus

-- One tunnel connects, or one that is up is lost.
pub data Step : Pool → Pool → Type 0 where
  connects :
      (front back : List Bool) (p : PoolStatus)
      → Step
          (record { tunnels = front ++ false ∷ back; status = p })
          (record { tunnels = front ++ true ∷ back; status = up p })
  is_lost :
      (front back : List Bool) (p : PoolStatus)
      → Step
          (record { tunnels = front ++ true ∷ back; status = p })
          (record { tunnels = front ++ false ∷ back; status = down p })

-- A new pool of `n` tunnels, and what it comes to in any order of steps.
pub data Reachable (n : ℕ) : Pool → Type 0 where
  start :
      Reachable n (record { tunnels = replicate n false; status = record { live = 0; total = n } })
  then_step : {p q : Pool} → Reachable n p → Step p q → Reachable n q

abbrev pub count_up : List Bool → ℕ
count_up [] = 0
count_up (true ∷ ts) = count_up ts + 1
count_up (false ∷ ts) = count_up ts

count_up-append : (xs ys : List Bool) → count_up (xs ++ ys) ≡ count_up xs + count_up ys
count_up-append [] ys = omega arith
count_up-append (true ∷ xs) ys = omega (arith, count_up-append xs ys)
count_up-append (false ∷ xs) ys = omega (arith, count_up-append xs ys)

count_up-replicate : (n : ℕ) → count_up (replicate n false) ≡ 0
count_up-replicate zero = refl
count_up-replicate (suc n) = count_up-replicate n

count_up_le : (ts : List Bool) → count_up ts ≤ length ts
count_up_le [] = omega arith
count_up_le (true ∷ ts) = omega (arith, count_up_le ts)
count_up_le (false ∷ ts) = omega (arith, count_up_le ts)

record IsCounted (n : ℕ) (p : Pool) : Type 0 where
  counted : p.status.live ≡ count_up p.tunnels
  all_of_them : length p.tunnels ≡ n
  same_total : p.status.total ≡ n

Step-IsCounted : {n : ℕ} {p q : Pool} → Step p q → IsCounted n p → IsCounted n q
unfolding up down
Step-IsCounted (connects front back p) v = record {
  counted =
      omega (
        arith,
        v.counted,
        count_up-append front (false ∷ back),
        count_up-append front (true ∷ back),
      );
  all_of_them =
      omega (
        arith,
        v.all_of_them,
        length-append front (false ∷ back),
        length-append front (true ∷ back),
      );
  same_total = v.same_total;
}
Step-IsCounted (is_lost front back p) v = record {
  counted =
      omega (
        arith,
        v.counted,
        count_up-append front (false ∷ back),
        count_up-append front (true ∷ back),
      );
  all_of_them =
      omega (
        arith,
        v.all_of_them,
        length-append front (false ∷ back),
        length-append front (true ∷ back),
      );
  same_total = v.same_total;
}

Reachable-IsCounted : {n : ℕ} {p : Pool} → Reachable n p → IsCounted n p
Reachable-IsCounted {n} start = record {
  counted = sym (count_up-replicate n);
  all_of_them = length-replicate n false;
  same_total = refl;
}
Reachable-IsCounted (then_step r s) = Step-IsCounted s (Reachable-IsCounted r)

-- In whatever order the tunnels of a pool connect and are lost, the count of live tunnels is the
-- number of those that are up, and never more than the pool has.
pub Reachable-live :
    {n : ℕ} {p : Pool}
    → Reachable n p
    → (p.status.live ≡ count_up p.tunnels) × (p.status.live ≤ p.status.total)
Reachable-live {n} {p} r =
    let v = Reachable-IsCounted r in
    (v.counted, omega (arith, v.counted, v.all_of_them, v.same_total, count_up_le p.tunnels))
