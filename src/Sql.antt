-- ===== src/Sql.antt =====
-- examples/http/SqlConnPool.h and examples/http/SqlConnPool.cpp: a pool of database connections, each
-- the handle that mysql gives. A method holds the mutex from its first line.
pub mod Shared
mod Tests
use ecron.Prelude.{Bool, List, Option, [], false, length, none, some, suc, true, zero, ℕ, ◌++◌, ◌∷◌}

pub record SqlConnPool : Type 0 where
  pub queue : List ℕ
  pub closed : List ℕ  -- the handles given to mysql_close

-- What mysql_init and mysql_real_connect give, for each turn of the loop, is an argument; false where
-- one of them fails.
unfoldable pub init : SqlConnPool → List (Option ℕ) → Bool × SqlConnPool
init p [] = (true, p)
init p (none ∷ made) = (false, p)
init p (some sql ∷ made) = init (record p { queue = p.queue ++ sql ∷ [] }) made

unfoldable pub close_pool : SqlConnPool → SqlConnPool
close_pool p = record { queue = []; closed = p.closed ++ p.queue }

unfoldable pub get_conn : SqlConnPool → Option ℕ × SqlConnPool
get_conn p = elim p.queue [ [] ↦ (none, p) | sql ∷ rest ↦ (some sql, record p { queue = rest }) ]

unfoldable pub free_conn : SqlConnPool → Option ℕ → SqlConnPool
free_conn p none = p
free_conn p (some sql) = record p { queue = p.queue ++ sql ∷ [] }

unfoldable pub get_free_conn_count : SqlConnPool → ℕ
get_free_conn_count p = length p.queue

-- `SqlConnRAII(&sql, pool);` is a temporary object: its destructor runs at the semicolon.
unfoldable pub acquire : SqlConnPool → Option ℕ × SqlConnPool
acquire p = let (sql, p') = get_conn p in (sql, free_conn p' sql)

-- What `n` callers in turn get from it, none of which is done with its handle.
unfoldable pub acquire_each : ℕ → SqlConnPool → List (Option ℕ) × SqlConnPool
acquire_each zero p = ([], p)
acquire_each (suc n) p =
    let (sql, p') = acquire p in let (more, p'') = acquire_each n p' in (sql ∷ more, p'')
