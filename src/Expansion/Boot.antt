-- ===== src/Expansion/Boot.antt =====
-- exp_AddDosNode of src/kickstart/lib.expansion/adddosnode.c: what is in MountList.
use poweros_raspi.Base.{
  ℕ, ◌%◌, ◌≡◌, refl, ap, Bool, true, false, some, List, [], ◌∷◌, ◌==◌, if◌then◌else◌, arith, Off,
}
use poweros_raspi.ExecList.{Ptr, null, strcmp_eq}
use poweros_raspi.ExecList.Queue.{find_by}
use poweros_raspi.ExecList.Walk.{strcmp_eq_iff}
use poweros_raspi.Tasks.{or_null, forbid, permit}
use poweros_raspi.Semaphores.{SignalSemaphore, owns, obtain, release}
use poweros_raspi.Libraries.{Kernel, LibFuncs, open_library, named, forbidden, permitted}
use poweros_raspi.Libraries.Listed.{NonePass, find-enqueue}
use poweros_raspi.Expansion.{
  ExpansionBase, MountNode, ends, mounted, mount, add_dos_node, dos_library,
}

-- There is no dos.library, and the lock is taken at once.
pub record NoDos (e : ExpansionBase) (l : SignalSemaphore) : Type 0 where
  pub closed : e.dos_base ≡ null
  pub missing : named e.kernel.lib_list dos_library e.kernel ≡ null
  pub free : obtain e.kernel.base.this_task e.mount_list_lock ≡ owns l

no_dos :
    (vec : Ptr → LibFuncs) (s : Kernel)
    → named s.lib_list dos_library s ≡ null
    → open_library vec (some dos_library) 0 s ≡ (permitted (forbidden s), null)
unfolding open_library forbidden permitted
no_dos vec s missing = rw missing refl

named_still :
    (dn : Ptr) (a : MountNode) (node : Ptr → MountNode) (name : List ℕ) (xs : List Ptr)
    → Off dn xs
    → NonePass (λ q. strcmp_eq (node q).ln_name name) xs
    → NonePass (λ q. strcmp_eq (if q == dn then a else node q).ln_name name) xs
named_still dn a node name [] off h = tt
named_still dn a node name (x ∷ xs) (ne, off) (e, h) =
    let other : (x == dn) ≡ false = ground arith in
    (rw other e, named_still dn a node name xs off h)

find-none : (is : Ptr → Bool) (xs : List Ptr) → NonePass is xs → or_null (find_by is xs) null ≡ null
find-none is [] h = refl
find-none is (x ∷ xs) (e, h) = rw e (find-none is xs h)

-- Without dos.library and with the lock free AddDosNode of a node with a new name returns TRUE and releases the lock;
-- FindName on MountList then finds the node, with the last byte of the boot priority.
pub add_dos_node-mounted :
    (vec : Ptr → LibFuncs) (pri : ℕ) (dn : Ptr) (e : ExpansionBase) (l : SignalSemaphore)
    → NoDos e l
    → Off dn e.mount_list
    → NonePass (λ q. strcmp_eq (e.node q).ln_name (e.node dn).ln_name) e.mount_list
    → (t : ExpansionBase) × (add_dos_node vec pri dn e ≡ ends true t)
      × (mounted (e.node dn).ln_name t ≡ dn)
      × ((t.node dn).ln_pri ≡ pri % 256)
      × (t.mount_list_lock ≡ (release l).1)
unfolding add_dos_node forbidden permitted forbid permit
add_dos_node-mounted vec pri dn e l dos off others =
    let name = (e.node dn).ln_name in
    let here : (dn == dn) ≡ true = ground arith in
    let s = permitted (forbidden e.kernel) in
    let a = record (e.node dn) { ln_pri = pri % 256 } in
    let node : Ptr → MountNode = λ p. if p == dn then a else e.node p in
    let e2 = record e { dos_base = null; kernel = s; node = node; mount_list_lock = l } in
    let closed : (e.dos_base == null) ≡ true = ground (arith, dos.closed) in
    let not_there : (mounted name e == null) ≡ true =
      let gone = find-none (λ q. strcmp_eq (e.node q).ln_name name) e.mount_list others in
      rw gone refl in
    (
      mount dn e2,
      rw (no_dos vec e.kernel dos.missing, closed, not_there, dos.free) refl,
      ap (λ o. or_null o null)
          (find-enqueue (λ q. strcmp_eq (node q).ln_name name) (λ q. (node q).ln_pri) dn
            e.mount_list (rw here ((strcmp_eq_iff name name).1 refl))
            (named_still dn a e.node name e.mount_list off others)),
      rw here refl,
      refl,
    )
