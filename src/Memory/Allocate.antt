-- ===== src/Memory/Allocate.antt =====
-- lib_Allocate carries out the choice of `first_fit` on the chunks in memory.
use mathlib.Core.Option
use poweros_raspi.Base.{
  ℕ, zero, suc, ◌+◌, ◌-◌, ◌*◌, ◌^◌, ◌≤◌, ◌<◌, ◌≡◌, ◌≢◌, inl, inr, refl, ◌∙◌, true, false, none,
  some, Option, List, [], ◌∷◌, arith, ◌==◌, leb, leb→lt, length, Bool-cases, Option-cases,
}
use poweros_raspi.ExecList.{Ptr, null, Mem}
use poweros_raspi.Memory.{
  MemHeader, Allocated, allocated, nunits, take_units, allocate_loop, allocate,
}
use poweros_raspi.Memory.FreeList.{
  Chunk, chunk, head_addr, Links, Sorted, Apart, IsFreeList, Links-frame,
}
use poweros_raspi.Memory.FirstFit.{Fit, cut, keep, first_fit, IsCut, first_fit-IsCut}

pub Links-head :
    (m : Mem) (a : Ptr) (cs : List Chunk) (s : Ptr) → Links m a cs s → m a ≡ head_addr cs s
Links-head m a [] s k = k
Links-head m a (c ∷ cs) s k = k.0

-- A chunk before others takes over the links of the one before them.
Links-from :
    (m m' : Mem) (p a lo : Ptr) (cs : List Chunk) (s hi : Ptr)
    → Sorted lo cs hi
    → m' a ≡ m p
    → ((w : Ptr) → lo ≤ w → m' w ≡ m w)
    → Links m p cs s
    → Links m' a cs s
Links-from m m' p a lo [] s hi o e same k = e ∙ k
Links-from m m' p a lo (c ∷ cs) s hi o e same k = (
  e ∙ k.0,
  same (c.addr + 4) (omega arith) ∙ k.1,
  Links-frame m m' c.addr (c.addr + 8 * c.units) cs s hi o.2 (λ w p. same w (omega arith)) k.2,
)

-- The loop, or its body, took the block of `f`: the chunks left are linked, the block has its size
-- in its header, and no other word below `lo` than the first link has changed.
record Takes (n : ℕ) (mh : MemHeader) (m : Mem) (a lo : Ptr) (f : Fit) (r : Allocated)
    : Type 0 where
  block : r.block ≡ f.at + 8
  header : r.header ≡ record mh { mh_free = mh.mh_free - n }
  links : Links r.mem a f.left mh.mh_start
  size : r.mem (f.at + 4) ≡ n
  same : (w : Ptr) → w ≢ a → w < lo → r.mem w ≡ m w

module _ (mh : MemHeader) (n : ℕ) (pos : 0 < n) where
  take_exact :
      (m : Mem) (a lo : Ptr) (c : Chunk) (cs : List Chunk) (hi : Ptr)
      → a + 8 ≤ lo
      → Sorted lo (c ∷ cs) hi
      → Links m a (c ∷ cs) mh.mh_start
      → c.units ≡ n
      → Takes n mh m a lo (record { at = c.addr; left = cs }) (take_units mh n a c.addr m)
  unfolding take_units
  take_exact m a lo c cs hi up o k e =
      let t : (m (c.addr + 4) == n) ≡ true = ground (arith, k.1) in
      rw t (record {
        block = refl;
        header = refl;
        links =
            Links-from m _ c.addr a (c.addr + 8 * c.units) cs mh.mh_start hi o.2 (ground arith)
              (λ w p. ground arith) k.2;
        size = ground (arith, k.1);
        same = λ w p q. ground arith;
      })

  take_part :
      (m : Mem) (a lo : Ptr) (c : Chunk) (cs : List Chunk) (hi : Ptr)
      → a + 8 ≤ lo
      → Sorted lo (c ∷ cs) hi
      → Links m a (c ∷ cs) mh.mh_start
      → n < c.units
      → Takes n mh m a lo
          (record { at = c.addr + 8 * (c.units - n); left = chunk c.addr (c.units - n) ∷ cs })
          (take_units mh n a c.addr m)
  unfolding take_units
  take_part m a lo c cs hi up o k e =
      let t : (m (c.addr + 4) == n) ≡ false = ground (arith, k.1) in
      let u : m (c.addr + 4) ≡ c.units = k.1 in
      let h : m a ≡ c.addr = k.0 in
      rw (t, u)
        (record {
          block = ground arith;
          header = refl;
          links = (
            ground arith,
            ground arith,
            Links-frame m _ c.addr (c.addr + 8 * c.units) cs mh.mh_start hi o.2
                (λ w p. ground arith) k.2,
          );
          size = ground arith;
          same = λ w p q. ground arith;
        })

  Takes-keep :
      (m : Mem) (a lo : Ptr) (c : Chunk) (cs : List Chunk) (hi : Ptr) (f : Fit) (r : Allocated)
      → a + 8 ≤ lo
      → Sorted lo (c ∷ cs) hi
      → Links m a (c ∷ cs) mh.mh_start
      → Takes n mh m c.addr (c.addr + 8 * c.units) f r
      → Takes n mh m a lo (keep c f) r
  Takes-keep m a lo c cs hi f r up o k t = record {
    block = t.block;
    header = t.header;
    links = (
      t.same a (omega arith) (omega arith) ∙ k.0,
      t.same (c.addr + 4) (omega arith) (omega arith) ∙ k.1,
      t.links,
    );
    size = t.size;
    same = λ w p q. t.same w (omega arith) (omega arith);
  }

  -- What the loop answers to the choice on the chunks.
  abbrev Answers : Mem → Ptr → Ptr → Option Fit → Option Allocated → Type 0
  Answers m a lo none r = r ≡ some (allocated null mh m)
  Answers m a lo (some f) r = (t : Allocated) × (r ≡ some t) × Takes n mh m a lo f t

  Answers-keep :
      (m : Mem) (a lo : Ptr) (c : Chunk) (cs : List Chunk) (hi : Ptr) (o : Option Fit)
      (r : Option Allocated)
      → a + 8 ≤ lo
      → Sorted lo (c ∷ cs) hi
      → Links m a (c ∷ cs) mh.mh_start
      → Answers m c.addr (c.addr + 8 * c.units) o r
      → Answers m a lo (Option.map (keep c) o) r
  Answers-keep m a lo c cs hi none r up s k h = h
  Answers-keep m a lo c cs hi (some f) r up s k (t, e, h) =
      (t, e, Takes-keep m a lo c cs hi f t up s k h)

  take_cut :
      (m : Mem) (a lo : Ptr) (c : Chunk) (cs : List Chunk) (hi : Ptr)
      → a + 8 ≤ lo
      → Sorted lo (c ∷ cs) hi
      → Links m a (c ∷ cs) mh.mh_start
      → n ≤ c.units
      → Takes n mh m a lo (cut n c cs) (take_units mh n a c.addr m)
  take_cut m a lo c cs hi up o k fits = elim (Bool-cases (c.units == n)) [
    | inl e ↦ rw e (take_exact m a lo c cs hi up o k (ground arith))
    | inr e ↦ rw e (take_part m a lo c cs hi up o k (ground arith))
  ]

  allocate_loop-Answers :
      (fuel : ℕ) (m : Mem) (a lo : Ptr) (cs : List Chunk) (hi : Ptr)
      → length cs < fuel
      → a + 8 ≤ lo
      → mh.mh_start < lo
      → m (mh.mh_start + 4) ≡ 0
      → Sorted lo cs hi
      → Links m a cs mh.mh_start
      → Answers m a lo (first_fit n cs) (allocate_loop fuel mh n a (head_addr cs mh.mh_start) m)
  unfolding allocate_loop first_fit
  allocate_loop-Answers zero m a lo cs hi fl up st z o k = absurd (omega arith)
  allocate_loop-Answers (suc fuel) m a lo [] hi fl up st z o k =
      let small : leb n (m (mh.mh_start + 4)) ≡ false = ground arith in
      let wrapped : (mh.mh_start == mh.mh_start) ≡ true = ground arith in rw (small, wrapped)
  allocate_loop-Answers (suc fuel) m a lo (c ∷ cs) hi fl up st z o k =
      let size = k.1 in
      let next = Links-head m c.addr cs mh.mh_start k.2 in
      elim (Bool-cases (leb n c.units)) [
        | inl fits ↦
            let test : leb n (m (c.addr + 4)) ≡ true = ground arith in
            rw (fits, test)
              (take_units mh n a c.addr m, refl, take_cut m a lo c cs hi up o k (ground arith))
        | inr small ↦
            let inside : (c.addr == mh.mh_start) ≡ false = ground arith in
            let test : leb n (m (c.addr + 4)) ≡ false = ground arith in
            rw (small, test, inside, next)
              (Answers-keep m a lo c cs hi (first_fit n cs) _ up o k (
                allocate_loop-Answers fuel m c.addr (c.addr + 8 * c.units) cs hi (omega arith)
                  (omega arith) (omega arith) z o.2 k.2))
      ]

-- lib_Allocate looks for at least the bytes asked for, with 16 more, unless the sum wraps.
pub nunits_bounds :
    (nbytes : ℕ)
    → nbytes < 2 ^ 32 - 16
    → (nbytes + 16 ≤ 8 * nunits nbytes) × (8 * nunits nbytes ≤ nbytes + 23)
unfolding nunits
nunits_bounds nbytes h = omega arith

pub nunits-pos : (nbytes : ℕ) → 0 < nunits nbytes
unfolding nunits
nunits-pos nbytes = omega arith

-- The block of `f` is handed out: its header holds its size, it lies in the area and apart from the
-- chunks left, which are the free list of the new header.
pub record Grants (mh : MemHeader) (n : ℕ) (f : Fit) (hi : Ptr) (r : Allocated) : Type 0 where
  pub block : r.block ≡ f.at + 8
  pub size : r.mem (f.at + 4) ≡ n
  pub free_list : IsFreeList r.header r.mem f.left hi
  pub header : r.header ≡ record mh { mh_free = mh.mh_free - n }
  pub apart : Apart f.at n f.left
  pub above : mh.mh_start + 8 ≤ f.at
  pub below : f.at + 8 * n ≤ hi

abbrev pub Allocates : MemHeader → ℕ → Mem → Ptr → Option Fit → Option Allocated → Type 0
Allocates mh n m hi none r = r ≡ some (allocated null mh m)
Allocates mh n m hi (some f) r = (t : Allocated) × (r ≡ some t) × Grants mh n f hi t

module _ (mh : MemHeader) (m : Mem) (cs : List Chunk) (hi : Ptr) (fl : IsFreeList mh m cs hi) where
  Takes-Grants :
      (n : ℕ) (f : Fit) (r : Allocated)
      → IsCut n (mh.mh_start + 8) cs hi f
      → Takes n mh m mh.mh_start (mh.mh_start + 8) f r
      → Grants mh n f hi r
  Takes-Grants n f r c t = record {
    block = t.block;
    size = t.size;
    free_list = rw (t.header) (record {
      start_empty = t.same (mh.mh_start + 4) (omega arith) (omega arith) ∙ fl.start_empty;
      links = t.links;
      sorted = c.sorted;
      free = omega (arith, c.units, fl.free);
    });
    header = t.header;
    apart = c.apart;
    above = c.above;
    below = c.below;
  }

  Answers-Allocates :
      (n : ℕ) (o : Option Fit) (r : Option Allocated)
      → ((f : Fit) → o ≡ some f → IsCut n (mh.mh_start + 8) cs hi f)
      → (pos : 0 < n) → Answers mh n pos m mh.mh_start (mh.mh_start + 8) o r
      → Allocates mh n m hi o r
  Answers-Allocates n none r cut_ok pos h = h
  Answers-Allocates n (some f) r cut_ok pos (t, e, h) = (t, e, Takes-Grants n f t (cut_ok f refl) h)

  -- With fuel beyond the free chunks, lib_Allocate does what `first_fit` says of its number of units.
  pub allocate-first_fit :
      (fuel nbytes : ℕ)
      → nbytes ≢ 0
      → length cs < fuel
      → Allocates mh (nunits nbytes) m hi (first_fit (nunits nbytes) cs) (allocate fuel mh nbytes m)
  unfolding allocate
  allocate-first_fit fuel nbytes ne long =
      let n = nunits nbytes in
      let pos = nunits-pos nbytes in
      let set : (nbytes == 0) ≡ false = ground arith in
      let cut_ok = λ (f : Fit) (e : first_fit n cs ≡ some f).
        first_fit-IsCut n (mh.mh_start + 8) cs hi f pos fl.sorted e in
      let head = Links-head m mh.mh_start cs mh.mh_start fl.links in
      let loop = Answers-Allocates n (first_fit n cs) _ cut_ok pos (
        allocate_loop-Answers mh n pos fuel m mh.mh_start (mh.mh_start + 8) cs hi long (omega arith)
          (omega arith) fl.start_empty fl.sorted fl.links) in
      elim (Bool-cases (leb n mh.mh_free)) [
        | inl enough ↦ rw (set, enough, head) loop
        | inr short ↦
            let lack : first_fit n cs ≡ none = elim (Option-cases (first_fit n cs)) [
              | inl e ↦ e
              | inr (f, e) ↦
                  absurd (omega (arith, leb→lt n mh.mh_free short, (cut_ok f e).units, fl.free))
            ] in
            rw (set, short, lack)
      ]

  -- With fuel beyond the free chunks, lib_Allocate of `nbytes` bytes, from 1 to 2 ^ 32 - 17, looks for the bytes with 16
  -- more, rounded up to units of 8 bytes. It hands out the end of the first chunk that has as many units, and answers
  -- NULL and changes nothing exactly if there is none.
  pub allocate-Allocates :
      (fuel nbytes : ℕ)
      → nbytes ≢ 0
      → nbytes < 2 ^ 32 - 16
      → length cs < fuel
      → (n : ℕ) × (nbytes + 16 ≤ 8 * n)
        × (8 * n < nbytes + 16 + 8)
        × Allocates mh n m hi (first_fit n cs) (allocate fuel mh nbytes m)
  allocate-Allocates fuel nbytes ne small long =
      let (low, high) = nunits_bounds nbytes small in
      (nunits nbytes, low, omega (arith, high), allocate-first_fit fuel nbytes ne long)

-- lib_Allocate of no bytes answers NULL and changes nothing.
pub allocate-zero :
    (fuel : ℕ) (mh : MemHeader) (m : Mem) → allocate fuel mh 0 m ≡ some (allocated null mh m)
unfolding allocate
allocate-zero fuel mh m = refl
