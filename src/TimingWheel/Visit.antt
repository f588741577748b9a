-- ===== src/TimingWheel/Visit.antt =====
-- code/TimingWheel.cpp: the loop of `handle_timeout` over one bucket.
use ecron.Prelude.{
  Bool-cases, List, [], ap, arith, false, inl, inr, ltb, ok, refl, some, subst, sym, true, ℕ,
  ℕ_discrete, ◌++◌, ◌-◌, ◌<◌, ◌||◌, ◌∙◌, ◌∷◌, ◌≡◌, ◌≢◌,
}
use ecron.TimingWheel.{
  Timer, TimingWheel, contains, count_ticks, enter, insert, place, visit, visit_one,
}
use ecron.TimingWheel.Members.{Distinct, erase-Distinct, insert-Distinct}
use ecron.TimingWheel.Inv.{
  Held, IsSound, Same, Visited, cur_slot-visit_one, next_listed, next_timer, visit_one-Same,
  visit_one-Visited,
}

-- A change at one address keeps the wheel sound, if it does so at that address.
pub IsSound-at :
    (w w' : TimingWheel) (a : ℕ)
    → IsSound w
    → ((b : ℕ) → a ≢ b → Same b w w')
    → w'.cur_slot < count_ticks
    → ((s : ℕ) → contains (w'.wheel s) a ≡ true → Held w' s a)
    → ((s : ℕ) → Distinct (w'.wheel s))
    → IsSound w'
IsSound-at w w' a i same cur here distinct = record {
  current = cur;
  held = λ s b m. elim (ℕ_discrete a b) [
    | yes e ↦ subst (Held w' s) e (here s (rw e m))
    | no ne ↦
        let (kept, listed) = same b ne in
        let (t, e, q, l) = i.held s b (rw (← listed s) m) in (t, kept ∙ e, q, l)
  ];
  distinct = distinct;
}

visit_one-Distinct :
    (w : TimingWheel) (a : ℕ) (t : Timer)
    → IsSound w
    → (s : ℕ) → Distinct ((visit_one w a t).0.wheel s)
unfolding visit_one enter
visit_one-Distinct w a t i s = ground (
  arith,
  i.distinct s,
  insert-Distinct (w.wheel (place w t).slot) a (i.distinct (place w t).slot),
  erase-Distinct (w.wheel w.cur_slot) a (i.distinct w.cur_slot),
  erase-Distinct (insert (w.wheel (place w t).slot) a) a,
)

-- After the visit the timer lies in the buckets that `next_listed` says, if any, under its slot.
next_Held :
    (w : TimingWheel) (a : ℕ) (t : Timer) (w' : TimingWheel) (s : ℕ)
    → t.slot ≡ w.cur_slot
    → w.cur_slot < count_ticks
    → w'.heap a ≡ next_timer w t
    → next_listed w t s ≡ true
    → Held w' s a
next_Held w a t w' s home cur e h = elim (Bool-cases (ltb 0 t.rotation)) [
  | inl more ↦ (record t { rotation = t.rotation - 1 }, ground arith, ground arith, ground arith)
  | inr over ↦ (place w t, ground arith, ground arith, ground arith)
]

pub visit_one-IsSound :
    (w : TimingWheel) (a : ℕ) (t : Timer)
    → IsSound w
    → w.heap a ≡ some t
    → contains (w.wheel w.cur_slot) a ≡ true
    → IsSound (visit_one w a t).0
visit_one-IsSound w a t i e m =
    IsSound-at w w' a i (λ b ne. visit_one-Same w a b ne t)
      (rw (cur_slot-visit_one w a t) i.current) here (visit_one-Distinct w a t i)
  where
    w' : TimingWheel
    w' = (visit_one w a t).0

    v : Visited w a t w' (visit_one w a t).1
    v = visit_one-Visited w a t i e m

    at_home : t.slot ≡ w.cur_slot
    at_home = let (t', e', q, l) = i.held w.cur_slot a m in ground arith

    here : (s : ℕ) → contains (w'.wheel s) a ≡ true → Held w' s a
    here s h = next_Held w a t w' s at_home i.current v.timer (sym (v.listed s) ∙ h)

-- What the loop over the addresses `bs` leaves behind.
pub record Looped (w : TimingWheel) (bs : List ℕ) (w' : TimingWheel) (f : List ℕ) : Type 0 where
  pub sound : IsSound w'
  pub cur : w'.cur_slot ≡ w.cur_slot
  pub others : (b : ℕ) → contains bs b ≡ false → Same b w w'
  pub silent : (b : ℕ) → contains bs b ≡ false → contains f b ≡ false
  pub visited : (b : ℕ) (t : Timer) → contains bs b ≡ true → w.heap b ≡ some t → Visited w b t w' f

contains-append :
    (xs ys : List ℕ) (b : ℕ) → contains (xs ++ ys) b ≡ (contains xs b || contains ys b)
contains-append [] ys b = refl
contains-append (x ∷ xs) ys b = ground (arith, contains-append xs ys b)

visit_one-silent :
    (w : TimingWheel) (a b : ℕ) (t : Timer) → a ≢ b → contains (visit_one w a t).1 b ≡ false
unfolding visit_one
visit_one-silent w a b t ne = ground arith

Visited-cur :
    (w w₁ w' : TimingWheel) (b : ℕ) (t : Timer) (f : List ℕ)
    → w₁.cur_slot ≡ w.cur_slot
    → Visited w₁ b t w' f
    → Visited w b t w' f
Visited-cur w w₁ w' b t f e v = record {
  timer = ground (arith, v.timer);
  listed = λ s. ground (arith, v.listed s);
  called = v.called;
}

visit-cons :
    (w : TimingWheel) (a : ℕ) (rest : List ℕ) (t : Timer) (w' : TimingWheel) (f : List ℕ)
    → w.heap a ≡ some t
    → visit (visit_one w a t).0 rest ≡ ok (w', f)
    → visit w (a ∷ rest) ≡ ok (w', (visit_one w a t).1 ++ f)
unfolding visit
visit-cons w a rest t w' f e h = ground arith

visit-nil : (w : TimingWheel) → visit w [] ≡ ok (w, [])
unfolding visit
visit-nil w = refl

contains-head : (a : ℕ) (rest : List ℕ) → contains (a ∷ rest) a ≡ true
contains-head a rest = ground arith

-- The addresses that are still to be visited stay in the bucket.
still :
    (w : TimingWheel) (a : ℕ) (rest : List ℕ) (t : Timer)
    → contains rest a ≡ false
    → ((b : ℕ) → contains (a ∷ rest) b ≡ true → contains (w.wheel w.cur_slot) b ≡ true)
    → let w₁ = (visit_one w a t).0 in
      (b : ℕ) → contains rest b ≡ true → contains (w₁.wheel w₁.cur_slot) b ≡ true
still w a rest t apart all b h = elim (ℕ_discrete a b) [
  | yes e ↦ absurd (ground (arith, ap (contains rest) e))
  | no ne ↦ rw cur_slot-visit_one ((visit_one-Same w a b ne t).1 w.cur_slot ∙ all b (ground arith))
]

-- A visit to `a` and the loop over the rest make the loop over both.
module _ (w w₁ w' : TimingWheel) (a : ℕ) (rest : List ℕ) (t : Timer) (g f : List ℕ)
    (e : w.heap a ≡ some t) (apart : contains rest a ≡ false) (c : w₁.cur_slot ≡ w.cur_slot)
    (here : Visited w a t w₁ g) (same : (b : ℕ) → a ≢ b → Same b w w₁)
    (quiet : (b : ℕ) → a ≢ b → contains g b ≡ false) (loop : Looped w₁ rest w' f) where
  others : (b : ℕ) → contains (a ∷ rest) b ≡ false → a ≢ b × (contains rest b ≡ false)
  others b h = ground arith

  first-Visited : Visited w a t w' (g ++ f)
  first-Visited =
      let (heap, list) = loop.others a apart in
      record {
        timer = heap ∙ here.timer;
        listed = λ s. list s ∙ here.listed s;
        called = ground (arith, contains-append g f a, loop.silent a apart, here.called);
      }

  later-Visited :
      (b : ℕ) (u : Timer)
      → a ≢ b
      → contains rest b ≡ true
      → w.heap b ≡ some u
      → Visited w b u w' (g ++ f)
  later-Visited b u ne h eu =
      let v = Visited-cur w w₁ w' b u f c (loop.visited b u h ((same b ne).0 ∙ eu)) in
      record {
        timer = v.timer;
        listed = v.listed;
        called = ground (arith, contains-append g f b, quiet b ne, v.called);
      }

  cons-Looped : Looped w (a ∷ rest) w' (g ++ f)
  cons-Looped = record {
    sound = loop.sound;
    cur = loop.cur ∙ c;
    others = λ b h.
        let (ne, out) = others b h in
        let (heap₁, list₁) = same b ne in
        let (heap, list) = loop.others b out in (heap ∙ heap₁, λ s. list s ∙ list₁ s);
    silent = λ b h.
        let (ne, out) = others b h in
        ground (arith, contains-append g f b, quiet b ne, loop.silent b out);
    visited = λ b u h eu. elim (ℕ_discrete a b) [
      | yes q ↦
          let same_timer : t ≡ u = ground (arith, ap w.heap q) in
          subst (λ x. Visited w x u w' (g ++ f)) q
            (subst (λ y. Visited w a y w' (g ++ f)) same_timer first-Visited)
      | no ne ↦ later-Visited b u ne (ground arith) eu
    ];
  }

-- On a sound wheel the loop ends with no access through a dangling pointer.
pub visit-Looped :
    (w : TimingWheel) (bs : List ℕ)
    → IsSound w
    → Distinct bs
    → ((b : ℕ) → contains bs b ≡ true → contains (w.wheel w.cur_slot) b ≡ true)
    → (w' : TimingWheel) × (f : List ℕ) × (visit w bs ≡ ok (w', f)) × Looped w bs w' f
visit-Looped w [] i d all = (
  w,
  [],
  visit-nil w,
  record {
    sound = i;
    cur = refl;
    others = λ b h. (refl, λ s. refl);
    silent = λ b h. refl;
    visited = λ b t h e. cc;
  },
)
visit-Looped w (a ∷ rest) i d all =
    let m = all a (contains-head a rest) in
    let (t, e, q, l) = i.held w.cur_slot a m in
    let w₁ = (visit_one w a t).0 in
    let c = cur_slot-visit_one w a t in
    let (w', f, run, loop) =
      visit-Looped w₁ rest (visit_one-IsSound w a t i e m) d.1 (still w a rest t d.0 all) in
    (
      w',
      (visit_one w a t).1 ++ f,
      visit-cons w a rest t w' f e run,
      cons-Looped w w₁ w' a rest t (visit_one w a t).1 f e d.0 c (visit_one-Visited w a t i e m)
          (λ b ne. visit_one-Same w a b ne t) (λ b ne. visit_one-silent w a b t ne) loop,
    )
