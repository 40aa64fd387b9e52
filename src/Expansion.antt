-- ===== src/Expansion.antt =====
-- src/kickstart/lib.expansion: the boot nodes of adddosnode.c and makedosnode.c, over the libraries of Libraries and the
-- semaphores of Semaphores. Strings are chars in memory, as in Util.Strings; AllocVec is an argument. A loop over a
-- string takes fuel, of which one more than its length is enough.
pub mod Names
pub mod Boot
mod Tests
use mathlib.Core.Option
use poweros_raspi.Base.{
  ℕ, zero, suc, ◌+◌, ◌/◌, ◌%◌, Bool, true, false, Option, none, some, List, [], ◌∷◌, ◌==◌,
  if◌then◌else◌,
}
use poweros_raspi.ExecList.{Ptr, null, Mem, write, strcmp_eq}
use poweros_raspi.ExecList.Queue.{enqueue_by, find_by}
use poweros_raspi.Tasks.{or_null}
use poweros_raspi.Semaphores.{SignalSemaphore, Obtained, owns, waits, obtain, release}
use poweros_raspi.Libraries.{Kernel, LibFuncs, open_library}
use poweros_raspi.Util.Strings.{Bytes, strlen, strcpy}

-- The name and priority of a struct DeviceNode in MountList.
pub record MountNode : Type 0 where
  pub ln_name : List ℕ
  pub ln_pri : ℕ

-- struct ExpansionBase, the nodes at their addresses, and the kernel that it calls.
pub record ExpansionBase : Type 0 where
  pub dos_base : Ptr
  pub mount_list : List Ptr
  pub mount_list_lock : SignalSemaphore
  pub node : Ptr → MountNode
  pub kernel : Kernel

-- "dos.library"
abbrev pub dos_library : List ℕ
dos_library = b'd' ∷ b'o' ∷ b's' ∷ b'.' ∷ b'l' ∷ b'i' ∷ b'b' ∷ b'r' ∷ b'a' ∷ b'r' ∷ b'y' ∷ []

-- The call ends with a BOOL, or its task has to wait for MountListLock.
pub data Added : Type 0 where
  ends : (result : Bool) (base : ExpansionBase) → Added
  sleeps : (base : ExpansionBase) → Added

-- FindName on MountList.
abbrev pub mounted : List ℕ → ExpansionBase → Ptr
mounted name e = or_null (find_by (λ p. strcmp_eq (e.node p).ln_name name) e.mount_list) null

abbrev pub mount : Ptr → ExpansionBase → ExpansionBase
mount dn e = record e {
  mount_list = enqueue_by (λ p. (e.node p).ln_pri) dn e.mount_list;
  mount_list_lock = (release e.mount_list_lock).1;
}

-- What exp_AddDosNode does once ObtainSemaphore has been called.
abbrev pub when_owned : Obtained → Ptr → ExpansionBase → Added
when_owned (owns l) dn e = ends true (mount dn (record e { mount_list_lock = l }))
when_owned (waits l) dn e = sleeps (record e { mount_list_lock = l })

-- exp_AddDosNode. ln_Pri is an INT8, so that it takes the last byte of the UINT32 of bootPri.
unfoldable pub add_dos_node : (Ptr → LibFuncs) → ℕ → Ptr → ExpansionBase → Added
add_dos_node vec boot_pri dn e =
    let (s, dos) = open_library vec (some dos_library) 0 e.kernel in
    let e1 = record e { dos_base = dos; kernel = s } in
    let a = record (e1.node dn) { ln_pri = boot_pri % 256 } in
    let e2 = record e1 { node = λ p. if p == dn then a else e1.node p } in
    if e.dos_base == null
    then if dos == null
      then if mounted (e1.node dn).ln_name e1 == null
        then when_owned (obtain s.base.this_task e2.mount_list_lock) dn e2
        else ends false e1
      else ends false e1
    else ends false e

-- struct ExpDosNode
pub record ExpDosNode : Type 0 where
  pub dos_name : Ptr
  pub exec_name : Ptr
  pub unit_num : ℕ
  pub unit_flags : ℕ
  pub dos_env : Ptr

-- struct DeviceNode and the HandlerStartupMsg behind it, as exp_MakeDosNode fills them in.
pub record DeviceNode : Type 0 where
  pub ln_name : Ptr
  pub ln_type : ℕ
  pub dn_lock : Ptr
  pub dn_handler_stack : ℕ
  pub dn_handler_prio : ℕ
  pub dn_handler_startup_msg : Ptr
  pub hsm_unit : ℕ
  pub hsm_device : Ptr
  pub hsm_environ : Ptr
  pub hsm_flags : ℕ

-- The chars and words of memory, what was asked of AllocVec, the first one first, and what FreeVec got.
pub record Store : Type 0 where
  pub chars : Bytes
  pub words : Mem
  pub asked : List ℕ
  pub freed : List Ptr

-- The sizes of struct DeviceNode, HandlerStartupMsg and DosEnvec.
abbrev pub sizeof_device_node : ℕ
sizeof_device_node = 44

abbrev pub sizeof_hsm : ℕ
sizeof_hsm = 16

abbrev pub sizeof_dos_envec : ℕ
sizeof_dos_envec = 68

-- The loop of copymemfast.
pub copy_words : ℕ → Ptr → Ptr → Mem → Mem
copy_words zero t f m = m
copy_words (suc n) t f m = copy_words n (t + 4) (f + 4) (write m t (m f))

-- copymemfast
pub copymemfast : Ptr → Ptr → ℕ → Mem → Mem
copymemfast dest src n m = copy_words (n / 4) dest src m

-- The fields that exp_MakeDosNode writes, for the blocks of the node and of the two names; DLT_DEVICE is 0.
abbrev pub filled_in : Ptr → Ptr → Ptr → ExpDosNode → DeviceNode
filled_in dn dos_name exec_name q = record {
  ln_name = dos_name;
  ln_type = 0;
  dn_lock = null;
  dn_handler_stack = 4096;
  dn_handler_prio = 10;
  dn_handler_startup_msg = dn + sizeof_device_node;
  hsm_unit = q.unit_num;
  hsm_device = exec_name;
  hsm_environ = dn + sizeof_device_node + sizeof_hsm;
  hsm_flags = q.unit_flags;
}

-- exp_MakeDosNode behind its three calls of AllocVec, which gave `dn`, `a` and `b`.
abbrev pub fill_node : ℕ → Ptr → Ptr → Ptr → ExpDosNode → Store → Option (Option DeviceNode × Store)
fill_node k dn a b q st =
    if dn == null
    then some (none, st)
    else if a == null
    then some (none, record st { freed = dn ∷ st.freed })
    else if b == null
    then some (none, record st { freed = a ∷ dn ∷ st.freed })
    else Option.bind (strcpy k st.chars a q.dos_name) (λ chars1.
      Option.map
        (λ chars2. (
          some (filled_in dn a b q),
          record st {
            chars = chars2;
            words =
                copymemfast (dn + sizeof_device_node + sizeof_hsm) q.dos_env sizeof_dos_envec
                  st.words;
          },
        ))
        (strcpy k chars1 b q.exec_name))

-- What was asked of AllocVec, up to the first call that gave NULL.
abbrev pub asked_for : Ptr → Ptr → ℕ → ℕ → List ℕ
asked_for dn a len1 len2 =
    let node = sizeof_device_node + sizeof_hsm + sizeof_dos_envec in
    if dn == null
    then node ∷ []
    else if a == null
    then node ∷ len1 ∷ []
    else node ∷ len1 ∷ len2 ∷ []

-- exp_MakeDosNode; the parameter is `none` for NULL.
unfoldable pub make_dos_node :
    ℕ → Ptr → Ptr → Ptr → Option ExpDosNode → Store → Option (Option DeviceNode × Store)
make_dos_node k dn a b none st = some (none, st)
make_dos_node k dn a b (some q) st = Option.bind (strlen k st.chars q.dos_name) (λ len1.
    Option.bind (strlen k st.chars q.exec_name)
      (λ len2. fill_node k dn a b q (record st { asked = asked_for dn a len1 len2 })))
