-- ===== src/Util/Strings.antt =====
-- src/kickstart/lib.util/cstr.c: the strings, as chars in memory. Each loop that the terminator ends takes fuel,
-- of which one more than the length of the string is enough.
pub mod Compare
pub mod Search
pub mod Copy
use mathlib.Core.Option
use poweros_raspi.Base.{
  ℕ, zero, suc, ◌+◌, ◌≡◌, ◌<◌, Bool, true, false, not, ◌||◌, Option, none, some, List, [], ◌∷◌,
  ◌==◌, if◌then◌else◌, sub32,
}
use poweros_raspi.ExecList.{Ptr, null, write}
use poweros_raspi.Util.Chars.{to_lower}

-- The char at each address.
abbrev pub Bytes : Type 0
Bytes = Ptr → ℕ

-- The loop of util_Strlen.
pub end_of : ℕ → Bytes → Ptr → Option Ptr
end_of zero m sc = none
end_of (suc n) m sc = let rest = end_of n m (sc + 1) in if m sc == 0 then some sc else rest

-- util_Strlen
pub strlen : ℕ → Bytes → Ptr → Option ℕ
strlen n m s = Option.map (λ sc. sub32 sc s) (end_of n m s)

-- The loop of util_Strnlen.
pub end_within : ℕ → Bytes → Ptr → Ptr
end_within zero m sc = sc
end_within (suc count) m sc =
    let rest = end_within count m (sc + 1) in if m sc == 0 then sc else rest

-- util_Strnlen
pub strnlen : Bytes → Ptr → ℕ → ℕ
strnlen m s count = sub32 (end_within count m s) s

-- The test of the comparing loops.
abbrev pub stops : ℕ → ℕ → Bool
stops d c2 = not (d == 0) || c2 == 0

-- util_Stricmp
pub stricmp : ℕ → Bytes → Ptr → Ptr → Option ℕ
stricmp zero m s1 s2 = none
stricmp (suc n) m s1 s2 =
    let rest = stricmp n m (s1 + 1) (s2 + 1) in
    let c1 = to_lower (m s1) in
    let c2 = to_lower (m s2) in let d = sub32 c1 c2 in if stops d c2 then some d else rest

-- The loop of util_Strnicmp with its `d`.
pub compare_loop : ℕ → Bytes → Ptr → Ptr → ℕ → ℕ
compare_loop zero m s1 s2 d = d
compare_loop (suc n) m s1 s2 d =
    let c1 = to_lower (m s1) in
    let c2 = to_lower (m s2) in
    let d = sub32 c1 c2 in
    let rest = compare_loop n m (s1 + 1) (s2 + 1) d in if stops d c2 then d else rest

-- util_Strnicmp
pub strnicmp : Bytes → Ptr → Ptr → ℕ → ℕ
strnicmp m s1 s2 n = compare_loop n m s1 s2 0

-- util_Strncasecmp, whose loop is the same.
pub strncasecmp : Bytes → Ptr → Ptr → ℕ → ℕ
strncasecmp m s1 s2 n = compare_loop n m s1 s2 0

-- The loop of util_Strchr.
pub seek : ℕ → Bytes → Ptr → ℕ → Option Ptr
seek zero m s c = none
seek (suc n) m s c = let rest = seek n m (s + 1) c in if m s == 0 || m s == c then some s else rest

-- util_Strchr
pub strchr : ℕ → Bytes → Ptr → ℕ → Option Ptr
strchr n m s c = Option.map (λ p. if m p == c then p else null) (seek n m s c)

abbrev pub or_last : Option Ptr → Ptr → (Ptr → Option Ptr) → Option Ptr
or_last none last f = none
or_last (some p) last f = if p == null then some last else f p

-- The loop of util_Strrchr.
pub last_loop : ℕ → Bytes → Ptr → ℕ → Ptr → Option Ptr
last_loop zero m s i last = none
last_loop (suc n) m s i last = or_last (strchr n m s i) last (λ p. last_loop n m (p + 1) i p)

-- util_Strrchr
pub strrchr : ℕ → Bytes → Ptr → ℕ → Option Ptr
strrchr n m s i = if i == 0 then strchr n m s i else last_loop n m s i null

-- The loop of util_Strcpy.
pub copy_loop : ℕ → Bytes → Ptr → Ptr → Option Bytes
copy_loop zero m d s = none
copy_loop (suc n) m d s =
    let rest = copy_loop n (write m d (m s)) (d + 1) (s + 1) in
    if m s == 0 then some (write m d (m s)) else rest

-- util_Strcpy
pub strcpy : ℕ → Bytes → Ptr → Ptr → Option Bytes
strcpy n m dst src = copy_loop n m dst src

abbrev pub then_copy : Option Ptr → (Ptr → Option Bytes) → Option Bytes
then_copy none f = none
then_copy (some p) f = f p

-- util_Strcat
pub strcat : ℕ → Bytes → Ptr → Ptr → Option Bytes
strcat n m s1 s2 = then_copy (end_of n m s1) (λ p. copy_loop n m p s2)

-- The chars `xs` and their terminator are at `p`.
abbrev pub IsString : Bytes → Ptr → List ℕ → Type 0
IsString m p [] = m p ≡ 0
IsString m p (x ∷ xs) = (m p ≡ x) × (0 < x) × (x < 256) × IsString m (p + 1) xs
