-- ===== src/Expansion/Names.antt =====
-- exp_MakeDosNode of src/kickstart/lib.expansion/makedosnode.c: the names of the node, and the blocks they are in.
use mathlib.Core.Option
use poweros_raspi.Base.{
  ℕ, ◌+◌, ◌<◌, ◌^◌, ◌≡◌, ◌≢◌, ◌⊎◌, refl, false, some, List, [], ◌∷◌, ◌==◌, length, arith,
}
use poweros_raspi.ExecList.{Ptr, null}
use poweros_raspi.Util.Strings.{IsString}
use poweros_raspi.Util.Strings.Compare.{strlen-length}
use poweros_raspi.Util.Strings.Copy.{strcpy-IsString, IsString-same, IsString-end}
use poweros_raspi.Expansion.{
  ExpDosNode, Store, filled_in, make_dos_node, copymemfast, sizeof_device_node, sizeof_hsm,
  sizeof_dos_envec,
}

-- `m` chars at `p` and their terminator are apart from the `n` chars at `q` and theirs.
abbrev pub Apart : Ptr → ℕ → Ptr → ℕ → Type 0
Apart p m q n = (p + m < q) ⊎ (q + n < p)

-- The names are strings that end in memory and that the fuel is enough for, and the blocks are apart.
pub record Ready (k : ℕ) (dn a b : Ptr) (q : ExpDosNode) (xs ys : List ℕ) (st : Store)
    : Type 0 where
  pub dos : IsString st.chars q.dos_name xs
  pub exec : IsString st.chars q.exec_name ys
  pub ends : q.dos_name + length xs < 2 ^ 32
  pub ends_too : q.exec_name + length ys < 2 ^ 32
  pub fuel : length xs < k
  pub fuel_too : length ys < k
  pub some_node : dn ≢ null
  pub some_name : a ≢ null
  pub some_exec : b ≢ null
  pub dos_apart : Apart a (length xs) q.dos_name (length xs)
  pub exec_apart : Apart a (length xs) q.exec_name (length ys)
  pub new_apart : Apart b (length ys) a (length xs)
  pub last_apart : Apart b (length ys) q.exec_name (length ys)

-- With its three blocks MakeDosNode ends, and both names are copied behind the blocks' starts; each block was asked for
-- as long as the chars of its name, and the terminator is the char behind it.
pub make_dos_node-names :
    (k : ℕ) (dn a b : Ptr) (q : ExpDosNode) (xs ys : List ℕ) (st : Store)
    → Ready k dn a b q xs ys st
    → (t : Store) × (make_dos_node k dn a b (some q) st ≡ some (some (filled_in dn a b q), t))
      × IsString t.chars a xs
      × IsString t.chars b ys
      × (t.asked
          ≡ (sizeof_device_node + sizeof_hsm + sizeof_dos_envec) ∷ length xs ∷ length ys ∷ [])
      × (t.chars (a + length xs) ≡ 0)
unfolding make_dos_node Option.bind
make_dos_node-names k dn a b q xs ys st r =
    let n0 : (dn == null) ≡ false = ground (arith, r.some_node) in
    let n1 : (a == null) ≡ false = ground (arith, r.some_name) in
    let n2 : (b == null) ≡ false = ground (arith, r.some_exec) in
    let len1 = strlen-length k st.chars q.dos_name xs r.fuel r.ends r.dos in
    let len2 = strlen-length k st.chars q.exec_name ys r.fuel_too r.ends_too r.exec in
    let (c1, copied1, name1, same1) =
      strcpy-IsString k st.chars a q.dos_name xs r.fuel (ground (arith, r.dos_apart)) r.dos in
    let exec1 =
      IsString-same st.chars c1 q.exec_name ys (λ p lo hi. same1 p (ground (arith, r.exec_apart)))
        r.exec in
    let (c2, copied2, name2, same2) =
      strcpy-IsString k c1 b q.exec_name ys r.fuel_too (ground (arith, r.last_apart)) exec1 in
    let kept = IsString-same c1 c2 a xs (λ p lo hi. same2 p (ground (arith, r.new_apart))) name1 in
    (
      record st {
        chars = c2;
        words =
            copymemfast (dn + sizeof_device_node + sizeof_hsm) q.dos_env sizeof_dos_envec st.words;
        asked = (sizeof_device_node + sizeof_hsm + sizeof_dos_envec) ∷ length xs ∷ length ys ∷ [];
      },
      rw (len1, len2, n0, n1, n2, copied1, copied2) refl,
      kept,
      name2,
      refl,
      IsString-end c2 a xs kept,
    )
