-- ===== src/Expansion/Tests.antt =====
-- A disk "DF0" of "disk.device": the names at 100 and 200, the blocks at 1000, 300 and 400; the node at 600 is mounted.
use mathlib.Core.Option
use poweros_raspi.Base.{
  ℕ, ◌+◌, ◌-◌, ◌≡◌, refl, true, false, some, List, [], ◌∷◌, ◌==◌, if◌then◌else◌, ltb, length,
  get_elem?, arith, mask_none, inr,
}
use poweros_raspi.ExecList.{null, strcmp_eq}
use poweros_raspi.Tasks.{ready}
use poweros_raspi.Semaphores.{SignalSemaphore, untyped, simple, obtain, release}
use poweros_raspi.Libraries.{Kernel}
use poweros_raspi.Libraries.Drivers.{lib_funcs}
use poweros_raspi.Util.Strings.{Bytes, IsString}
use poweros_raspi.Expansion.{
  ExpDosNode, Store, ExpansionBase, make_dos_node, add_dos_node, mounted, ends, filled_in,
  sizeof_device_node, sizeof_hsm, sizeof_dos_envec,
}
use poweros_raspi.Expansion.Names.{Ready, make_dos_node-names}
use poweros_raspi.Expansion.Boot.{NoDos, add_dos_node-mounted}

abbrev dos_name : List ℕ
dos_name = b'D' ∷ b'F' ∷ b'0' ∷ []

abbrev exec_name : List ℕ
exec_name = b'd' ∷ b'i' ∷ b's' ∷ b'k' ∷ []

abbrev chars : Bytes
chars p =
    if ltb p 200
    then Option.get_or (get_elem? dos_name (p - 100)) 0
    else Option.get_or (get_elem? exec_name (p - 200)) 0

abbrev store : Store
store = record { chars = chars; words = λ p. p; asked = []; freed = [] }

abbrev disk : ExpDosNode
disk = record { dos_name = 100; exec_name = 200; unit_num = 0; unit_flags = 0; dos_env = 2000 }

disk-Ready : Ready 5 1000 300 400 disk dos_name exec_name store
disk-Ready = record {
  dos = omega arith;
  exec = omega arith;
  ends = omega arith;
  ends_too = omega arith;
  fuel = omega arith;
  fuel_too = omega arith;
  some_node = omega arith;
  some_name = omega arith;
  some_exec = omega arith;
  dos_apart = inr (omega arith);
  exec_apart = inr (omega arith);
  new_apart = inr (omega arith);
  last_apart = inr (omega arith);
}

make_dos_node-names_example :
    (t : Store) × (make_dos_node 5 1000 300 400 (some disk) store
      ≡ some (some (filled_in 1000 300 400 disk), t))
    × IsString t.chars 300 dos_name
    × IsString t.chars 400 exec_name
    × (t.asked
        ≡ (sizeof_device_node + sizeof_hsm + sizeof_dos_envec)
          ∷ length dos_name
          ∷ length exec_name
          ∷ [])
    × (t.chars (300 + length dos_name) ≡ 0)
make_dos_node-names_example =
    make_dos_node-names 5 1000 300 400 disk dos_name exec_name store disk-Ready

abbrev lock : SignalSemaphore
lock = record {
  ss_owner = null;
  ss_nest_count = 0;
  ss_queue_count = 4294967295;
  ss_type = untyped;
  ss_wait_queue = [];
}

abbrev kernel : Kernel
kernel = record {
  base = record {
    this_task = 100;
    td_nest_cnt = 255;
    id_nest_cnt = 255;
    task_ready = [];
    task_wait = [];
    task = λ p. record {
      ln_name = [];
      ln_pri = 0;
      id_nest_cnt = 255;
      td_nest_cnt = 255;
      state = ready;
      cpu_usage = 0;
      sig_alloc = mask_none;
      sig_wait = mask_none;
      sig_recvd = mask_none;
      sig_except = mask_none;
    };
    freed = [];
  };
  lib_list = [];
  dev_list = [];
  library = λ p. record {
    ln_type = 3;
    ln_pri = 0;
    ln_name = [];
    lib_open_cnt = 0;
    lib_flags = 0;
    lib_neg_size = 0;
    lib_pos_size = 0;
    lib_version = 0;
    lib_revision = 0;
    lib_sum = 0;
    lib_id_string = null;
  };
  request = λ p. record { ln_type = 0; io_device = null; io_unit = null; io_error = 0 };
  memory = λ p. p;
}

abbrev expansion : ExpansionBase
expansion = record {
  dos_base = null;
  mount_list = 600 ∷ [];
  mount_list_lock = lock;
  node = λ p. record { ln_name = if p == 600 then exec_name else dos_name; ln_pri = 0 };
  kernel = kernel;
}

abbrev owned : SignalSemaphore
owned = record lock { ss_owner = 100; ss_nest_count = 1; ss_queue_count = 0; ss_type = simple }

expansion-NoDos : NoDos expansion owned
unfolding obtain
expansion-NoDos = record { closed = refl; missing = refl; free = refl }

other_name : strcmp_eq exec_name dos_name ≡ false
unfolding strcmp_eq
other_name = refl

add_dos_node-mounted_example :
    (t : ExpansionBase) × (add_dos_node (λ l. lib_funcs) 300 700 expansion ≡ ends true t)
    × (mounted dos_name t ≡ 700)
    × ((t.node 700).ln_pri ≡ 44)
    × (t.mount_list_lock ≡ (release owned).1)
add_dos_node-mounted_example =
    add_dos_node-mounted (λ l. lib_funcs) 300 700 expansion owned expansion-NoDos (omega arith, tt)
      (other_name, tt)
