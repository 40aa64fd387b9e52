-- ===== src/Vectors/Exec.antt =====
-- The function table of exec.library in src/kickstart/lib.exec/_functab.c, and the vectors at which the macros of
-- exec_funcs.h look for their functions.
use poweros_raspi.Base.{
  ℕ, suc, ◌-◌, ◌<◌, ◌≡◌, refl, Option, none, some, List, [], ◌∷◌, map, arith, get_elem?,
}
use poweros_raspi.ExecList.{Ptr, Mem}
use poweros_raspi.Vectors.{get_vec_addr, int_make_functions}
use poweros_raspi.Vectors.Install.{IsTable, Fits, int_make_functions-calls}

-- The functions of exec.library.
pub data ExecFunc : Type 0 where
  open_lib close_lib expunge_lib ext_func_lib permit forbid enable disable new_list enqueue
        find_name rem_tail add_tail rem_head add_head remove insert new_list_type find_task add_task
        add_mem_list allocate deallocate alloc_vec free_vec schedule dispatch get_msg put_msg
        reply_msg signal wait open_device close_device rem_device add_device abort_io
        create_io_request delete_io_request check_io do_io send_io wait_io add_port find_port
        rem_port wait_port create_msg_port delete_msg_port alloc_signal free_signal open_library
        close_library add_library rem_library sum_library alert make_library rom_tag_scanner
        init_resident make_functions set_task_pri sn_print_f v_print_f vsn_print_f mem_set copy_mem
        set_signal add_int_server rem_int_server create_int_server add_exc_server rem_exc_server
        d_print_f task_create init_semaphore add_semaphore rem_semaphore find_semaphore
        obtain_semaphore attempt_semaphore release_semaphore obtain_semaphore_shared
        attempt_semaphore_shared init_resident_code set_function raw_do_fmt raw_io_init raw_put_char
        raw_may_get_char copy_mem_quick :
      ExecFunc

-- FuncTab; the entry of lib_Dispatch is NULL.
unfoldable pub func_tab : List (Option ExecFunc)
func_tab =
    some open_lib
    ∷ some close_lib
    ∷ some expunge_lib
    ∷ some ext_func_lib
    ∷ some permit
    ∷ some forbid
    ∷ some enable
    ∷ some disable
    ∷ some new_list
    ∷ some enqueue
    ∷ some find_name
    ∷ some rem_tail
    ∷ some add_tail
    ∷ some rem_head
    ∷ some add_head
    ∷ some remove
    ∷ some insert
    ∷ some new_list_type
    ∷ some find_task
    ∷ some add_task
    ∷ some add_mem_list
    ∷ some allocate
    ∷ some deallocate
    ∷ some alloc_vec
    ∷ some free_vec
    ∷ some schedule
    ∷ none
    ∷ some get_msg
    ∷ some put_msg
    ∷ some reply_msg
    ∷ some signal
    ∷ some wait
    ∷ some open_device
    ∷ some close_device
    ∷ some rem_device
    ∷ some add_device
    ∷ some abort_io
    ∷ some create_io_request
    ∷ some delete_io_request
    ∷ some check_io
    ∷ some do_io
    ∷ some send_io
    ∷ some wait_io
    ∷ some add_port
    ∷ some find_port
    ∷ some rem_port
    ∷ some wait_port
    ∷ some create_msg_port
    ∷ some delete_msg_port
    ∷ some alloc_signal
    ∷ some free_signal
    ∷ some open_library
    ∷ some close_library
    ∷ some add_library
    ∷ some rem_library
    ∷ some sum_library
    ∷ some alert
    ∷ some make_library
    ∷ some rom_tag_scanner
    ∷ some init_resident
    ∷ some make_functions
    ∷ some set_task_pri
    ∷ some sn_print_f
    ∷ some v_print_f
    ∷ some vsn_print_f
    ∷ some mem_set
    ∷ some copy_mem
    ∷ some set_signal
    ∷ some add_int_server
    ∷ some rem_int_server
    ∷ some create_int_server
    ∷ some add_exc_server
    ∷ some rem_exc_server
    ∷ some d_print_f
    ∷ some task_create
    ∷ some init_semaphore
    ∷ some add_semaphore
    ∷ some rem_semaphore
    ∷ some find_semaphore
    ∷ some obtain_semaphore
    ∷ some attempt_semaphore
    ∷ some release_semaphore
    ∷ some obtain_semaphore_shared
    ∷ some attempt_semaphore_shared
    ∷ some init_resident_code
    ∷ some set_function
    ∷ some raw_do_fmt
    ∷ some raw_io_init
    ∷ some raw_put_char
    ∷ some raw_may_get_char
    ∷ some copy_mem_quick
    ∷ []

-- The vector of each macro of exec_funcs.h.
unfoldable pub vector : ExecFunc → ℕ
vector open_lib = 1
vector close_lib = 2
vector expunge_lib = 3
vector ext_func_lib = 4
vector permit = 5
vector forbid = 6
vector enable = 7
vector disable = 8
vector new_list = 9
vector enqueue = 10
vector find_name = 11
vector rem_tail = 12
vector add_tail = 13
vector rem_head = 14
vector add_head = 15
vector remove = 16
vector insert = 17
vector new_list_type = 18
vector find_task = 19
vector add_task = 20
vector add_mem_list = 21
vector allocate = 22
vector deallocate = 23
vector alloc_vec = 24
vector free_vec = 25
vector schedule = 26
vector dispatch = 27
vector get_msg = 28
vector put_msg = 29
vector reply_msg = 30
vector signal = 31
vector wait = 32
vector open_device = 33
vector close_device = 34
vector rem_device = 35
vector add_device = 36
vector abort_io = 37
vector create_io_request = 38
vector delete_io_request = 39
vector check_io = 40
vector do_io = 41
vector send_io = 42
vector wait_io = 43
vector add_port = 44
vector find_port = 45
vector rem_port = 46
vector wait_port = 47
vector create_msg_port = 48
vector delete_msg_port = 49
vector alloc_signal = 50
vector free_signal = 51
vector open_library = 52
vector close_library = 53
vector add_library = 54
vector rem_library = 55
vector sum_library = 56
vector alert = 57
vector make_library = 58
vector rom_tag_scanner = 59
vector init_resident = 60
vector make_functions = 61
vector set_task_pri = 62
vector sn_print_f = 63
vector v_print_f = 64
vector vsn_print_f = 65
vector mem_set = 66
vector copy_mem = 67
vector set_signal = 68
vector add_int_server = 69
vector rem_int_server = 70
vector create_int_server = 71
vector add_exc_server = 72
vector rem_exc_server = 73
vector d_print_f = 74
vector task_create = 75
vector init_semaphore = 76
vector add_semaphore = 77
vector rem_semaphore = 78
vector find_semaphore = 79
vector obtain_semaphore = 80
vector attempt_semaphore = 81
vector release_semaphore = 82
vector obtain_semaphore_shared = 83
vector attempt_semaphore_shared = 84
vector init_resident_code = 85
vector set_function = 86
vector raw_do_fmt = 87
vector raw_io_init = 88
vector raw_put_char = 89
vector raw_may_get_char = 90
vector copy_mem_quick = 91

-- What is called through the vector: Dispatch has none.
abbrev pub callee : ExecFunc → Option ExecFunc
callee dispatch = none
callee f = some f

-- The address of a function, and NULL.
abbrev pub entry : (ExecFunc → ℕ) → Option ExecFunc → ℕ
entry address none = 0
entry address (some f) = address f

vector_pos : (f : ExecFunc) → 0 < vector f
unfolding vector
vector_pos open_lib = omega arith
vector_pos _ = omega arith

func_tab-vector : (f : ExecFunc) → get_elem? func_tab (vector f - 1) ≡ some (callee f)
unfolding func_tab vector
func_tab-vector open_lib = refl
func_tab-vector _ = refl

-- After IntMakeFunctions has installed FuncTab, every macro of exec_funcs.h calls the function that it names, but
-- Dispatch calls NULL.
pub exec-callee :
    (address : ExecFunc → ℕ) (k : ℕ) (sys_base table : Ptr) (m : Mem)
    → 91 < k
    → Fits sys_base 1 91 table
    → IsTable m table (map (entry address) func_tab)
    → (r : Mem) × (int_make_functions k sys_base table m ≡ some r)
      × ((f : ExecFunc) → get_vec_addr sys_base (vector f) r ≡ entry address (callee f))
unfolding func_tab
exec-callee address k sys_base table m fuel fits t =
    let (r, ran, calls) =
      int_make_functions-calls (entry address) func_tab k sys_base table m fuel fits t in
    (
      r,
      ran,
      λ f.
          let e : suc (vector f - 1) ≡ vector f = omega (arith, vector_pos f) in
          rw (← e) (calls (vector f - 1) (callee f) (func_tab-vector f)),
    )
