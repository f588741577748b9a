-- ===== src/Sql/Tests.antt =====
-- examples/http/SqlConnPool.cpp: a pool of two handles.
use ecron.Prelude.{[], false, map, none, refl, some, true, ◌∷◌, ◌≡◌}
use ecron.Sql.{SqlConnPool, acquire, acquire_each, free_conn, get_conn, get_free_conn_count, init}
use ecron.Sql.Shared.{acquire_each-again}

abbrev two : SqlConnPool
two = record { queue = 31 ∷ 32 ∷ []; closed = [] }

acquire_each-again_example :
    (acquire_each 2 two ≡ (map some (31 ∷ 32 ∷ []), two))
    × ((acquire (acquire_each 2 two).1).0 ≡ some 31)
acquire_each-again_example = acquire_each-again two 31 (32 ∷ []) refl

connected : init (record { queue = []; closed = [] }) (some 31 ∷ some 32 ∷ []) ≡ (true, two)
unfolding init
connected = refl

broken :
    init (record { queue = []; closed = [] }) (some 31 ∷ none ∷ some 33 ∷ [])
    ≡ (false, record { queue = 31 ∷ []; closed = [] })
unfolding init
broken = refl

given_back : get_free_conn_count (free_conn (get_conn two).1 (get_conn two).0) ≡ 2
unfolding get_free_conn_count free_conn get_conn
given_back = refl
