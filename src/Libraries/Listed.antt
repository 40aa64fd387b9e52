-- ===== src/Libraries/Listed.antt =====
-- AddDevice, RemDevice and the search of OpenDevice in DevList, src/kickstart/lib.exec/devices.c.
use mathlib.Core.Path.{◌∙◌}
use poweros_raspi.Base.{
  ℕ, ◌≡◌, ◌≢◌, refl, ap, Bool, true, false, List, [], ◌∷◌, some, ◌==◌, arith, Off, Bool-cases, inl,
  inr, All, int8_gt, bit_or,
}
use poweros_raspi.ExecList.{Ptr, null, strcmp_eq}
use poweros_raspi.ExecList.Queue.{enqueue_by, remove_by, find_by}
use poweros_raspi.Tasks.{or_null}
use poweros_raspi.Libraries.{
  Kernel, Library, DevFuncs, forbidden, permitted, named, add_device, rem_device, put_library,
  nt_device, libf_changed,
}

-- None of the elements passes the test.
abbrev pub NonePass : (Ptr → Bool) → List Ptr → Type 0
NonePass is xs = All (λ x. is x ≡ false) xs

pub find-enqueue :
    (is : Ptr → Bool) (pri : Ptr → ℕ) (p : Ptr) (xs : List Ptr)
    → is p ≡ true
    → NonePass is xs
    → find_by is (enqueue_by pri p xs) ≡ some p
find-enqueue is pri p [] e h = rw e refl
find-enqueue is pri p (x ∷ xs) e (f, h) = elim (Bool-cases (int8_gt (pri p) (pri x))) [
  | inl y ↦ rw (y, e) refl
  | inr other ↦ rw (other, f) (find-enqueue is pri p xs e h)
]

remove-enqueue :
    (pri : Ptr → ℕ) (p : Ptr) (xs : List Ptr)
    → Off p xs
    → remove_by (λ q. q == p) (enqueue_by pri p xs) ≡ xs
remove-enqueue pri p [] h = let here : (p == p) ≡ true = ground arith in rw here refl
remove-enqueue pri p (x ∷ xs) (ne, h) =
    let here : (p == p) ≡ true = ground arith in
    let other : (x == p) ≡ false = ground arith in
    elim (Bool-cases (int8_gt (pri p) (pri x))) [
      | inl y ↦ rw (y, here) refl
      | inr low ↦ rw (low, other) (ap (λ ys. x ∷ ys) (remove-enqueue pri p xs h))
    ]

none-renamed :
    (d : Ptr) (l : Library) (name : List ℕ) (s : Kernel) (xs : List Ptr)
    → Off d xs
    → NonePass (λ q. strcmp_eq (s.library q).ln_name name) xs
    → NonePass (λ q. strcmp_eq ((put_library d l s).library q).ln_name name) xs
none-renamed d l name s [] off h = tt
none-renamed d l name s (x ∷ xs) (ne, off) (e, h) =
    let other : (x == d) ≡ false = ground arith in (rw other e, none-renamed d l name s xs off h)

pub add_device-named :
    (d : Ptr) (name : List ℕ) (s : Kernel)
    → Off d s.dev_list
    → strcmp_eq (s.library d).ln_name name ≡ true
    → NonePass (λ q. strcmp_eq (s.library q).ln_name name) s.dev_list
    → let t = add_device d s in named t.dev_list name t ≡ d
unfolding add_device forbidden permitted
add_device-named d name s off e others =
    let here : (d == d) ≡ true = ground arith in
    let added = record (s.library d) {
      ln_type = nt_device;
      lib_flags = bit_or (s.library d).lib_flags libf_changed;
    } in
    let s1 = put_library d added s in
    ap (λ o. or_null o null)
      (find-enqueue (λ q. strcmp_eq (s1.library q).ln_name name) (λ q. (s1.library q).ln_pri) d
        s.dev_list (rw here e) (none-renamed d added name s s.dev_list off others))

-- After AddDevice a search for its name gives the device, if no other in the list has the name, and RemDevice of it,
-- whose Expunge leaves DevList alone, takes just that device out of the list.
pub add_device-found :
    (vec : Ptr → DevFuncs) (d : Ptr) (name : List ℕ) (s : Kernel)
    → d ≢ null
    → Off d s.dev_list
    → strcmp_eq (s.library d).ln_name name ≡ true
    → NonePass (λ q. strcmp_eq (s.library q).ln_name name) s.dev_list
    → ((t : Kernel) → ((vec d).dev_expunge d t).0.dev_list ≡ t.dev_list)
    → let t = add_device d s in
      (named t.dev_list name t ≡ d) × ((rem_device vec d t).0.dev_list ≡ s.dev_list)
unfolding add_device rem_device forbidden permitted
add_device-found vec d name s ne off e others quiet =
    let some_device : (d == null) ≡ false = ground arith in
    let pri = λ (q : Ptr). ((add_device d s).library q).ln_pri in
    (
      add_device-named d name s off e others,
      rw some_device (quiet _ ∙ remove-enqueue pri d s.dev_list off),
    )
