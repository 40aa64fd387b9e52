-- ===== src/Vectors/Utility.antt =====
-- The function table of utility.library in src/kickstart/lib.util/_functab.c, and the vectors of utility_funcs.h.
-- The first four are those that exec uses for every library (LIB_OPEN to LIB_EXTFUNC in include/library.h).
use poweros_raspi.Base.{ℕ, suc, ◌-◌, ◌<◌, ◌≡◌, refl, some, List, [], ◌∷◌, map, arith, get_elem?}
use poweros_raspi.ExecList.{Ptr, Mem}
use poweros_raspi.Vectors.{get_vec_addr, int_make_functions}
use poweros_raspi.Vectors.Install.{IsTable, Fits, int_make_functions-calls}

-- The functions of utility.library.
pub data UtilFunc : Type 0 where
  open_lib close_lib expunge_lib ext_func_lib is_lower is_upper to_upper to_lower strlen strnlen
        strncasecmp stricmp strnicmp strchr strcpy strrchr strcat find_tag_item next_tag_item
        get_tag_data pack_bool_tags allocate_tag_items free_tag_items clone_tag_items
        refresh_tag_item_clones filter_tag_items tag_in_array call_hook_ptr :
      UtilFunc

-- FuncTab
unfoldable pub util_func_tab : List UtilFunc
util_func_tab =
    open_lib ∷ close_lib ∷ expunge_lib ∷ ext_func_lib ∷ is_lower ∷ is_upper ∷ to_upper ∷ to_lower
    ∷ strlen ∷ strnlen ∷ strncasecmp ∷ stricmp ∷ strnicmp ∷ strchr ∷ strcpy ∷ strrchr ∷ strcat
    ∷ find_tag_item ∷ next_tag_item ∷ get_tag_data ∷ pack_bool_tags ∷ allocate_tag_items
    ∷ free_tag_items ∷ clone_tag_items ∷ refresh_tag_item_clones ∷ filter_tag_items ∷ tag_in_array
    ∷ call_hook_ptr ∷ []

-- The vector of each macro of utility_funcs.h.
unfoldable pub util_vector : UtilFunc → ℕ
util_vector open_lib = 1
util_vector close_lib = 2
util_vector expunge_lib = 3
util_vector ext_func_lib = 4
util_vector is_lower = 5
util_vector is_upper = 6
util_vector to_upper = 7
util_vector to_lower = 8
util_vector strlen = 9
util_vector strnlen = 10
util_vector strncasecmp = 11
util_vector stricmp = 12
util_vector strnicmp = 13
util_vector strchr = 14
util_vector strcpy = 15
util_vector strrchr = 16
util_vector strcat = 17
util_vector find_tag_item = 18
util_vector next_tag_item = 19
util_vector get_tag_data = 20
util_vector pack_bool_tags = 21
util_vector allocate_tag_items = 22
util_vector free_tag_items = 23
util_vector clone_tag_items = 24
util_vector refresh_tag_item_clones = 25
util_vector filter_tag_items = 26
util_vector tag_in_array = 27
util_vector call_hook_ptr = 28

util_vector_pos : (f : UtilFunc) → 0 < util_vector f
unfolding util_vector
util_vector_pos open_lib = omega arith
util_vector_pos _ = omega arith

util_func_tab-vector : (f : UtilFunc) → get_elem? util_func_tab (util_vector f - 1) ≡ some f
unfolding util_func_tab util_vector
util_func_tab-vector open_lib = refl
util_func_tab-vector _ = refl

-- With the table installed below UtilityBase, every macro of utility_funcs.h calls the function that it names.
pub util-callee :
    (address : UtilFunc → ℕ) (k : ℕ) (utility_base table : Ptr) (m : Mem)
    → 28 < k
    → Fits utility_base 1 28 table
    → IsTable m table (map address util_func_tab)
    → (r : Mem) × (int_make_functions k utility_base table m ≡ some r)
      × ((f : UtilFunc) → get_vec_addr utility_base (util_vector f) r ≡ address f)
unfolding util_func_tab
util-callee address k utility_base table m fuel fits t =
    let (r, ran, calls) =
      int_make_functions-calls address util_func_tab k utility_base table m fuel fits t in
    (
      r,
      ran,
      λ f.
          let e : suc (util_vector f - 1) ≡ util_vector f = omega (arith, util_vector_pos f) in
          rw (← e) (calls (util_vector f - 1) f (util_func_tab-vector f)),
    )
