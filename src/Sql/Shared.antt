-- ===== src/Sql/Shared.antt =====
-- examples/http/SqlConnPool.h: a handle is given out while it is in use.
use ecron.Prelude.{
  List, Option, [], ap, append-nil, append_assoc, arith, length, map, refl, some, sym, ℕ, ◌++◌, ◌∙◌,
  ◌∷◌, ◌≡◌,
}
use ecron.Sql.{SqlConnPool, acquire, acquire_each, free_conn, get_conn}

acquire-cons :
    (p : SqlConnPool) (sql : ℕ) (rest : List ℕ)
    → p.queue ≡ sql ∷ rest
    → acquire p ≡ (some sql, record p { queue = rest ++ sql ∷ [] })
unfolding acquire get_conn free_conn
acquire-cons p sql rest e = rw e refl

rotates :
    (xs ys closed : List ℕ)
    → acquire_each (length xs) (record { queue = xs ++ ys; closed = closed })
      ≡ (map some xs, record { queue = ys ++ xs; closed = closed })
unfolding acquire_each acquire get_conn free_conn
rotates [] ys closed = ap (λ q. ([], record { queue = q; closed = closed })) (sym (append-nil ys))
rotates (x ∷ xs) ys closed =
    ap
      (λ q. (
        some x ∷ (acquire_each (length xs) (record { queue = q; closed = closed })).0,
        (acquire_each (length xs) (record { queue = q; closed = closed })).1,
      ))
      (append_assoc xs ys (x ∷ []))
    ∙ ap (λ (r : List (Option ℕ) × SqlConnPool). (some x ∷ r.0, r.1))
        (rotates xs (ys ++ x ∷ []) closed
          ∙ ap (λ q. (map some xs, record { queue = q; closed = closed }))
              (append_assoc ys (x ∷ []) xs))

-- When every handle of the pool was acquired once, and no caller is done, the pool is as it was before:
-- the next caller is given the handle that the first one still uses.
pub acquire_each-again :
    (p : SqlConnPool) (sql : ℕ) (rest : List ℕ)
    → p.queue ≡ sql ∷ rest
    → (acquire_each (length p.queue) p ≡ (map some p.queue, p))
      × ((acquire (acquire_each (length p.queue) p).1).0 ≡ some sql)
acquire_each-again p sql rest e =
    let once : acquire_each (length p.queue) p ≡ (map some p.queue, p) =
      ap (λ q. acquire_each (length p.queue) (record { queue = q; closed = p.closed }))
        (sym (append-nil p.queue))
      ∙ rotates p.queue [] p.closed in
    (
      once,
      ap (λ (r : List (Option ℕ) × SqlConnPool). (acquire r.1).0) once
          ∙ ap (λ (r : Option ℕ × SqlConnPool). r.0) (acquire-cons p sql rest e),
    )

-- Handles come out of the pool in the order in which they were connected or given back.
pub free_conn-get_conn :
    (p : SqlConnPool) (sql : ℕ) → p.queue ≡ [] → get_conn (free_conn p (some sql)) ≡ (some sql, p)
unfolding get_conn free_conn
free_conn-get_conn p sql e = ground (arith, e)
