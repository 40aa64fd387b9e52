-- ===== src/Libraries/Patched.antt =====
-- lib_SetFunction of src/kickstart/lib.exec/setfunction.c: the vector that is changed.
use poweros_raspi.Base.{
  ℕ, ◌+◌, ◌-◌, ◌*◌, ◌≤◌, ◌<◌, ◌^◌, ◌≡◌, ◌≢◌, refl, true, false, ◌==◌, u32, sub32, arith,
}
use poweros_raspi.Vectors.{get_vec_addr, get_jump_vec}
use poweros_raspi.Libraries.{Kernel, set_function, forbidden, permitted}

-- SetFunction at the offset of vector `n` puts the function at that vector and leaves every other vector alone; what it
-- returns is not the old function but what Permit happens to leave.
pub set_function-vector :
    (l n f left : ℕ) (s : Kernel)
    → 0 < n
    → 4 * n ≤ l
    → l < 2 ^ 32
    → let (t, ret) = set_function l (2 ^ 32 - 4 * n) f left s in
      (get_vec_addr l n t.memory ≡ f)
      × ((i : ℕ) → 4 * i ≤ l → i ≢ n → get_vec_addr l i t.memory ≡ get_vec_addr l i s.memory)
      × (ret ≡ left)
unfolding set_function get_vec_addr get_jump_vec forbidden permitted
set_function-vector l n f left s pos le small =
    let at : (sub32 l (u32 (n * 4)) == u32 (l + (2 ^ 32 - 4 * n))) ≡ true = ground arith in
    (
      rw at refl,
      λ i below ne.
          let other : (sub32 l (u32 (i * 4)) == u32 (l + (2 ^ 32 - 4 * n))) ≡ false =
            ground arith in
          rw other refl,
      refl,
    )
