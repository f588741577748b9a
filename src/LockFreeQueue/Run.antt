-- ===== src/LockFreeQueue/Run.antt =====
-- code/LockFreeQueue.hpp: any number of threads that push and pop, in any order of their accesses.
use ecron.Prelude.{
  >>=-eq-ok, Bool, Outcome, false, fault, if◌then◌else◌, length_error, ok, ok-injective,
  out_of_range, subst, suc, true, zero, ℕ, ◌==◌, ◌>>=◌, ◌≡◌,
}
use ecron.LockFreeQueue.{
  LockFreeQueue, Place, begin_pop, begin_push, create, outside, popped, pushed, step, with_sentry,
}

pub record System (A : Type 0) : Type 0 where
  pub shared : LockFreeQueue A
  pub threads : ℕ → Place A

abbrev pub place_at : {A : Type 0} → (ℕ → Place A) → ℕ → Place A → ℕ → Place A
place_at f k p j = if k == j then p else f j

abbrev pub go : {A : Type 0} → System A → ℕ → LockFreeQueue A × Place A → System A
go s k r = record { shared = r.0; threads = place_at s.threads k r.1 }

abbrev pub is_back : {A : Type 0} → Place A → Bool
is_back (pushed done) = true
is_back (popped got) = true
is_back _ = false

-- A thread calls `push` or `pop`, makes its next access, which does not fault, or returns.
pub data Step {A : Type 0} (s : System A) : System A → Type 0 where
  pushing : (k : ℕ) (v : A) → s.threads k ≡ outside → Step s (go s k (begin_push s.shared v))
  popping : (k : ℕ) → s.threads k ≡ outside → Step s (go s k (s.shared, begin_pop s.shared))
  moving :
      (k : ℕ) (weak : Bool) (r : LockFreeQueue A × Place A)
      → step weak s.shared (s.threads k) ≡ ok r
      → Step s (go s k r)
  returning : (k : ℕ) → is_back (s.threads k) ≡ true → Step s (go s k (s.shared, outside))

pub data Reach {A : Type 0} (s : System A) : System A → Type 0 where
  here : Reach s s
  next : {t u : System A} → Reach s t → Step t u → Reach s u

-- A queue behind its first `init(max_count)`, and no thread in it.
abbrev pub start : {A : Type 0} → A → ℕ → System A
start v max_count = record { shared = with_sentry create v max_count; threads = λ k. outside }

-- Thread `k` makes `n` accesses, none of which fails spuriously.
unfoldable pub alone : {A : Type 0} → ℕ → ℕ → System A → Outcome (System A)
alone zero k s = ok s
alone (suc n) k s = do r ← step false s.shared (s.threads k); alone n k (go s k r)

-- Where the outcome leads, `s` if to no state.
abbrev pub came_to : {A : Type 0} → System A → Outcome (System A) → System A
came_to s (ok t) = t
came_to s length_error = s
came_to s out_of_range = s
came_to s fault = s

pub alone-Reach :
    {A : Type 0} {s : System A} (n k : ℕ) (t u : System A)
    → Reach s t
    → alone n k t ≡ ok u
    → Reach s u
unfolding alone
alone-Reach {s = s} zero k t u r e = subst (Reach s) (ok-injective t u e) r
alone-Reach (suc n) k t u r e =
    let (m, made, rest) = >>=-eq-ok (step false t.shared (t.threads k)) _ u e in
    alone-Reach n k (go t k m) u (next r (moving k false m made)) rest
