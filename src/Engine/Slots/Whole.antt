-- ===== src/Engine/Slots/Whole.antt =====
-- Who holds a slot: the `SlotManager` of engine/block_manager.py.
use mathlib.Core.List.{append-nil, Perm}
use mathlib.Core.List.Perm
use llm_serve.Base.{
  ◌≤ℤ◌, pos, str_eq, String, ℕ, ◌<◌, ◌≡◌, ◌∙◌, refl, sym, ap, subst, arith, true, some, List, [],
  ◌∷◌, ◌++◌, length, length-append, length-Perm, perm_rotate, get_or, Bool-cases, inl, inr,
}
use llm_serve.Shuffle.{range}
use llm_serve.Engine.Request.{Request, output_len}
use llm_serve.Engine.Allocator.{Draining, Lawful, SameShape, with_table, Allocated}
use llm_serve.Engine.Held.{All, All-append, set_live-end}
use llm_serve.Engine.Blocks.{set_live, pop_live, mutate}
use llm_serve.Engine.Blocks.Owned.{
  NotLive, IsLive, tables, tables-set_live, tables-pop_live, tables-mutate, str_eq_refl,
}
use llm_serve.Engine.Blocks.Committing.{length-range}
use llm_serve.Engine.Slots.{
  SlotManager, init, can_allocate, allocate, allocate_from, append_slot, free, write, slots,
}

abbrev pub OneSlot : Request → Type 0
OneSlot r = length r.block_table ≡ 1

-- Every slot stands once in the free list or in the table of a running request, and each of these has one.
pub record IsWhole (n : ℕ) (m : SlotManager) : Type 0 where
  pub all_once : Perm (m.free_slots ++ tables m.live) (range n)
  pub one_each : All OneSlot m.live

pub init-IsWhole : (n max_len : ℕ) → IsWhole n (init n max_len)
unfolding init
init-IsWhole n max_len = record {
  all_once = subst (λ l. Perm l (range n)) (sym (append-nil (range n))) (Perm.refl _);
  one_each = tt;
}

pub mutate_self : (r : Request) (xs : List Request) → IsLive r xs → xs ≡ mutate r xs
unfolding mutate
mutate_self r [] h = absurd h
mutate_self r (x ∷ xs) (inl e) =
    let t : str_eq x.request_id r.request_id ≡ true = rw e (str_eq_refl r.request_id) in
    rw t (ap (λ y. y ∷ xs) e)
mutate_self r (x ∷ xs) (inr (n, h)) = rw n (ap (λ l. x ∷ l) (mutate_self r xs h))

pub All-IsLive :
    (P : Request → Type 0) (r : Request) (xs : List Request) → IsLive r xs → All P xs → P r
All-IsLive P r [] h a = absurd h
All-IsLive P r (x ∷ xs) (inl e) (p, a) = subst P e p
All-IsLive P r (x ∷ xs) (inr (n, h)) (p, a) = All-IsLive P r xs h a

pub All-pop_live :
    (P : Request → Type 0) (id : String) (xs : List Request) → All P xs → All P (pop_live id xs)
unfolding pop_live
All-pop_live P id [] a = tt
All-pop_live P id (x ∷ xs) (p, a) = elim (Bool-cases (str_eq x.request_id id)) [
  | inl e ↦ rw e a
  | inr e ↦ rw e (p, All-pop_live P id xs a)
]

pub All-mutate :
    (P : Request → Type 0) (r : Request) (xs : List Request) → P r → All P xs → All P (mutate r xs)
unfolding mutate
All-mutate P r [] q a = tt
All-mutate P r (x ∷ xs) q (p, a) = elim (Bool-cases (str_eq x.request_id r.request_id)) [
  | inl e ↦ rw e (q, a)
  | inr e ↦ rw e (p, All-mutate P r xs q a)
]

pub one_slot : (table : List ℕ) → length table ≡ 1 → get_or table 0 0 ∷ [] ≡ table
one_slot [] h = absurd (omega arith)
one_slot (x ∷ []) h = refl
one_slot (x ∷ y ∷ ys) h = absurd (omega arith)

module _ (n : ℕ) where
  pub admits_from :
      (m : SlotManager) (r : Request) (frees : List ℕ)
      → m.free_slots ≡ frees
      → IsWhole n m
      → NotLive r.request_id m.live
      → 0 < length frees
      → (q : SlotManager) × (table : List ℕ) × ((allocate_from m r frees
            ≡ some (q, with_table r table))
          × (IsWhole n q × (q.live ≡ m.live ++ (with_table r table ∷ []))))
  unfolding allocate_from
  admits_from m r [] e v new h = absurd (omega arith)
  admits_from m r (slot ∷ frees) e v new h =
      let r1 = with_table r (slot ∷ []) in
      let added = set_live-end r1 m.live new in
      (
        record m { free_slots = frees; live = set_live r1 m.live },
        slot ∷ [],
        (
          refl,
          (
            record {
              all_once = Perm.trans (Perm.append_left frees (tables-set_live r1 m.live new)) (
                  Perm.trans (perm_rotate frees (slot ∷ []) (tables m.live))
                    (subst (λ l. Perm (l ++ tables m.live) (range n)) e v.all_once));
              one_each =
                  subst (All OneSlot) (sym added)
                    (All-append OneSlot m.live (r1 ∷ []) v.one_each (refl, tt));
            },
            added,
          ),
        ),
      )

  pub admits :
      (m : SlotManager) (r : Request) (headroom : ℕ)
      → IsWhole n m
      → NotLive r.request_id m.live
      → pos (output_len r) ≤ℤ r.max_new_tokens
      → can_allocate m r headroom ≡ true
      → Allocated slots (IsWhole n) m r
  unfolding can_allocate allocate
  admits m r headroom v new le can = admits_from m r m.free_slots refl v new (ground arith)

  pub frees-IsWhole :
      (m : SlotManager) (r : Request) → IsWhole n m → IsLive r m.live → IsWhole n (free m r).0
  unfolding free
  frees-IsWhole m r v l =
      let one = one_slot r.block_table (All-IsLive OneSlot r m.live l v.one_each) in
      let slot = get_or r.block_table 0 0 in
      let rest = tables (pop_live r.request_id m.live) in
      record {
        all_once = Perm.trans (perm_rotate (slot ∷ []) m.free_slots rest) (
            Perm.trans
              (Perm.append_left m.free_slots (
                subst (λ t. Perm (t ++ rest) (tables m.live)) (sym one)
                  (Perm.symm (tables-pop_live r m.live l))))
              v.all_once);
        one_each = All-pop_live OneSlot r.request_id m.live v.one_each;
      }

  pub writes-IsWhole :
      (m : SlotManager) (r s : Request)
      → IsWhole n m
      → IsLive r m.live
      → SameShape r s
      → IsWhole n (write m s)
  unfolding write
  writes-IsWhole m r s v l shape = record {
    all_once =
        Perm.trans
          (Perm.append_left m.free_slots (
            Perm.trans (tables-mutate r s m.live shape.same_id l) (
              subst (λ b. Perm (b ++ tables (pop_live r.request_id m.live)) (tables m.live))
                (sym shape.same_table) (Perm.symm (tables-pop_live r m.live l)))))
          v.all_once;
    one_each =
        All-mutate OneSlot s m.live
          (ap length shape.same_table ∙ All-IsLive OneSlot r m.live l v.one_each) v.one_each;
  }

  alone_admits :
      (m : SlotManager) (r : Request)
      → IsWhole n m
      → m.live ≡ []
      → 0 < n
      → can_allocate m r 0 ≡ true
  unfolding can_allocate
  alone_admits m r v e h =
      let whole = length-Perm v.all_once ∙ length-range n in
      let both = length-append m.free_slots (tables m.live) in
      let t : length (tables m.live) ≡ 0 = ap (λ l. length (tables l)) e in ground arith

  unfoldable pub whole : Lawful slots
  unfolding append_slot free write
  whole = record {
    Ok = IsWhole n;
    Fits = λ r. 0 < n;
    fits_same = λ r s p m h. h;
    Room = λ r. Unit {0};
    sure = true;
    admits = admits;
    grows = λ m r v l. (m, r.block_table, true, (refl, (v, mutate_self r m.live l)));
    grows_room = λ m r v l. (λ h. tt, λ h. tt);
    grows_sure = λ m r e v l. refl;
    frees = λ m r v l. (frees-IsWhole m r v l, (refl, refl));
    writes = λ m r s v l shape le. (writes-IsWhole m r s v l shape, refl);
  }

  pub whole_Draining : Draining slots whole
  unfolding whole
  whole_Draining = record {
    alone_admits = λ m r v e fits le. alone_admits m r v e fits;
    alone_grows = λ m r v e fits le. refl;
  }
