-- ===== src/Vectors/Tests.antt =====
-- The table of exec.library at 100, installed below 10000; the function of vector `n` is at 40000 + 4 * n.
use mathlib.Core.Option
use poweros_raspi.Base.{ℕ, ◌+◌, ◌-◌, ◌*◌, ◌/◌, ◌≡◌, some, map, arith, get_elem?, inr}
use poweros_raspi.ExecList.{Mem}
use poweros_raspi.Vectors.{get_vec_addr, int_make_functions, end_mark}
use poweros_raspi.Vectors.Install.{IsTable, Fits}
use poweros_raspi.Vectors.Exec.{ExecFunc, func_tab, vector, callee, entry, exec-callee}

abbrev address : ExecFunc → ℕ
address f = 40000 + 4 * vector f

abbrev memory : Mem
memory c = Option.get_or (get_elem? (map (entry address) func_tab) ((c - 100) / 4)) end_mark

memory-IsTable : IsTable memory 100 (map (entry address) func_tab)
unfolding func_tab vector
memory-IsTable = omega arith

fits : Fits 10000 1 91 100
fits = record { below = omega arith; small = omega arith; apart = inr (omega arith) }

exec-callee_example :
    (r : Mem) × (int_make_functions 92 10000 100 memory ≡ some r)
    × ((f : ExecFunc) → get_vec_addr 10000 (vector f) r ≡ entry address (callee f))
exec-callee_example = exec-callee address 92 10000 100 memory (omega arith) fits memory-IsTable
