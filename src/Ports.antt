-- ===== src/Ports.antt =====
-- src/kickstart/lib.exec: message ports (ports.c, include/ports.h), the messages that are sent to them
-- (messages.c), and the requests to devices (io.c). Ports and messages are the addresses of their structures;
-- mp_MsgList and PortList are sequences. A request is a message whose first part is its struct Message. The
-- loops around Wait take fuel, of which 2 is enough until the task sleeps.
pub mod Messages
pub mod Waiting
mod Tests
use mathlib.Core.Option
use poweros_raspi.Base.{
  ℕ, zero, suc, ◌+◌, ◌%◌, Bool, true, false, ◌&&◌, ◌||◌, not, Option, none, some, List, [], ◌∷◌,
  ◌++◌, ◌==◌, if◌then◌else◌, leb, bit_and, mask_bit,
}
use poweros_raspi.ExecList.{Ptr, null, strcmp_eq}
use poweros_raspi.ExecList.Queue.{enqueue_by, remove_by, find_by}
use poweros_raspi.Tasks.{
  SysBase, Waited, returned, sleeps, comes_back, wakeup_task, wait_signals, alloc_signal,
  free_signal, or_null, is_empty,
}

abbrev pub nt_msgport : ℕ
nt_msgport = 7

abbrev pub nt_message : ℕ
nt_message = 8

abbrev pub nt_freemsg : ℕ
nt_freemsg = 9

abbrev pub nt_replymsg : ℕ
nt_replymsg = 10

abbrev pub pa_signal : ℕ
pa_signal = 0

abbrev pub pa_softint : ℕ
pa_softint = 1

-- struct MsgPort
pub record MsgPort : Type 0 where
  pub ln_type : ℕ
  pub ln_pri : ℕ
  pub ln_name : List ℕ
  pub mp_sig_task : Ptr
  pub mp_msg_list : List Ptr
  pub mp_flags : ℕ
  pub mp_sig_bit : ℕ

-- struct Message, and what struct IORequest adds to it.
pub record Message : Type 0 where
  pub ln_type : ℕ
  pub mn_reply_port : Ptr
  pub mn_length : ℕ
  pub io_device : Ptr
  pub io_flags : ℕ
  pub io_error : ℕ

-- The tasks, PortList, and what is at the addresses of ports and messages.
pub record System : Type 0 where
  pub base : SysBase
  pub port_list : List Ptr
  pub port : Ptr → MsgPort
  pub message : Ptr → Message

abbrev pub put_port : Ptr → MsgPort → System → System
put_port p a s = record s { port = λ q. if q == p then a else s.port q }

abbrev pub put_message : Ptr → Message → System → System
put_message x a s = record s { message = λ q. if q == x then a else s.message q }

abbrev pub set_type : Ptr → ℕ → System → System
set_type x t s = put_message x (record (s.message x) { ln_type = t }) s

-- AddTail to mp_MsgList of a message that is in no list.
abbrev pub add_msg : Ptr → Ptr → System → System
add_msg p x s = put_port p (record (s.port p) { mp_msg_list = (s.port p).mp_msg_list ++ x ∷ [] }) s

abbrev pub tell : Ptr → System → System
tell p s =
    let a = s.port p in record s { base = wakeup_task a.mp_sig_task (mask_bit a.mp_sig_bit) s.base }

-- The end of PutMsg and ReplyMsg: the port's task is told.
unfoldable pub signal_port : Ptr → System → System
signal_port p s =
    let a = s.port p in
    let told = tell p s in
    let kind = a.mp_flags % 4 in
    if a.mp_sig_task == null
    then s
    else if kind == pa_signal
    then told
    else if kind == pa_softint
    then told
    else s

-- lib_PutMsg
unfoldable pub put_msg : Ptr → Ptr → System → System
put_msg p x s = signal_port p (add_msg p x (set_type x nt_message s))

-- lib_ReplyMsg
unfoldable pub reply_msg : Ptr → System → System
reply_msg x s =
    let p = (s.message x).mn_reply_port in
    if p == null
    then set_type x nt_freemsg s
    else signal_port p (add_msg p x (set_type x nt_replymsg s))

-- RemHead of mp_MsgList; NULL if it is empty.
abbrev pub take_msg : Ptr → List Ptr → System → Ptr × System
take_msg p [] s = (null, s)
take_msg p (x ∷ xs) s = (x, put_port p (record (s.port p) { mp_msg_list = xs }) s)

-- lib_GetMsg
unfoldable pub get_msg : Ptr → System → Ptr × System
get_msg p s = take_msg p (s.port p).mp_msg_list s

-- lib_AddPort
unfoldable pub add_port : Ptr → System → System
add_port p s =
    record (put_port p (record (s.port p) { ln_type = nt_msgport; mp_msg_list = [] }) s) {
      port_list = enqueue_by (λ q. (s.port q).ln_pri) p s.port_list;
    }

-- lib_FindPort
unfoldable pub find_port : List ℕ → System → Ptr
find_port name s = or_null (find_by (λ p. strcmp_eq (s.port p).ln_name name) s.port_list) null

-- lib_RemPort
unfoldable pub rem_port : Ptr → System → System
rem_port p s = record s { port_list = remove_by (λ q. q == p) s.port_list }

-- A loop around Wait is left with a result, or its task sleeps in Wait, or stays in the loop of Wait.
pub data Outcome : Type 0 where
  left_with : Ptr → System → Outcome
  sleeps_in : System → Outcome
  comes_back_in : System → Outcome

-- What follows a Wait of such a loop.
abbrev pub after_wait : Option Waited → System → (System → Option Outcome) → Option Outcome
after_wait none s again = none
after_wait (some (returned m b)) s again = again (record s { base = b })
after_wait (some (sleeps b)) s again = some (sleeps_in (record s { base = b }))
after_wait (some (comes_back b)) s again = some (comes_back_in (record s { base = b }))

abbrev pub head_or_null : List Ptr → Ptr
head_or_null [] = null
head_or_null (x ∷ xs) = x

-- lib_WaitPort
unfoldable pub wait_port : ℕ → Ptr → System → Option Outcome
wait_port zero p s = none
wait_port (suc n) p s =
    let a = s.port p in
    if is_empty a.mp_msg_list
    then after_wait (wait_signals (mask_bit a.mp_sig_bit) s.base) s (wait_port n p)
    else some (left_with (head_or_null a.mp_msg_list) s)

-- The port that CreateMsgPort sets up, with its signal.
abbrev pub set_up : Ptr → ℕ → SysBase → System → System
set_up ret sb b s =
    put_port ret
      (record {
        ln_type = nt_msgport;
        ln_pri = 0;
        ln_name = [];
        mp_sig_task = b.this_task;
        mp_msg_list = [];
        mp_flags = pa_signal;
        mp_sig_bit = sb;
      })
      (record s { base = b })

abbrev pub give_back : Ptr → SysBase → SysBase
give_back p b = record b { freed = p ∷ b.freed }

-- lib_CreateMsgPort, where AllocVec has given `ret`, which is NULL or the address of a structure of zeros.
unfoldable pub create_msg_port : Ptr → System → Ptr × System
create_msg_port ret s =
    let r = alloc_signal 4294967295 s.base in
    if ret == null
    then (null, s)
    else if r.0 == 255
    then (null, record s { base = give_back ret r.1 })
    else (ret, set_up ret r.0 r.1 s)

-- lib_DeleteMsgPort
unfoldable pub delete_msg_port : Ptr → System → System
delete_msg_port p s =
    let b = free_signal (s.port p).mp_sig_bit s.base in
    if p == null then s else record s { base = give_back p b }

-- lib_CheckIO
unfoldable pub check_io : Ptr → System → Ptr
check_io r s = if (s.message r).ln_type == nt_message then r else null

-- `io_Flags & IOF_QUICK`
abbrev pub is_quick : Message → Bool
is_quick a = not (bit_and a.io_flags 1 == 0)

-- Remove of a request from the list of its reply port.
abbrev pub unlink : Ptr → System → System
unlink r s =
    let p = (s.message r).mn_reply_port in
    put_port p (record (s.port p) { mp_msg_list = remove_by (λ q. q == r) (s.port p).mp_msg_list })
      s

-- lib_WaitIO. The result is `r`, whose io_Error is returned. The Remove is that from the reply port, where a
-- message of the type NT_REPLYMSG is.
unfoldable pub wait_io : ℕ → Ptr → System → Option Outcome
wait_io zero r s = none
wait_io (suc n) r s =
    let a = s.message r in
    let bit = (s.port a.mn_reply_port).mp_sig_bit in
    if not (is_quick a) && a.ln_type == nt_message
    then after_wait (wait_signals (mask_bit bit) s.base) s (wait_io n r)
    else some (left_with r (if a.ln_type == nt_replymsg then unlink r s else s))

-- lib_SendIO; `begin_io` is the device's vector.
unfoldable pub send_io : (Ptr → System → System) → Ptr → System → System
send_io begin_io r s =
    begin_io r (put_message r (record (s.message r) { io_flags = 0; ln_type = nt_message }) s)

-- lib_DoIO. `left_with null` is the result -1.
unfoldable pub do_io : ℕ → (Ptr → System → System) → Ptr → System → Option Outcome
do_io n begin_io r s =
    let asked = put_message r (record (s.message r) { io_flags = 1; ln_type = 0 }) s in
    let begun = begin_io r asked in
    let waited = wait_io n r begun in
    if r == null || (s.message r).io_device == null
    then some (left_with null s)
    else if is_quick (begun.message r)
    then some (left_with r begun)
    else waited
