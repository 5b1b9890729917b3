-- ===== src/Redis/Failures.antt =====
-- The connection's state, and what failures do to it.
use headwater.Prelude.{◌≡◌, refl, false, Bool-cases, inl, inr, arith}
use headwater.Redis.Client.{Server, Reply, ok, redis_error}
use headwater.Redis.{
  Manager, get_client, initialize, attempt, caught, handle_connection_error, connect,
  reset_connection, close, is_available,
}

module _ (srv : Server) where
  -- There is a client exactly when the manager has been initialized.
  abbrev pub IsConsistent : Manager srv → Type 0
  IsConsistent m = m.client ≡ m.initialized

  initialize-IsConsistent : (m : Manager srv) → IsConsistent m → IsConsistent (initialize srv m)
  unfolding initialize connect
  initialize-IsConsistent m h = ground arith

  get_client-IsConsistent : (m : Manager srv) → IsConsistent m → IsConsistent (get_client srv m).1
  unfolding get_client
  get_client-IsConsistent m h = ground (arith, initialize-IsConsistent m h)

  caught-IsConsistent :
      {A : Type 0} (a : A) (r : Reply A × srv.State) (m : Manager srv)
      → IsConsistent m
      → IsConsistent (caught srv a r m).1
  unfolding handle_connection_error
  caught-IsConsistent a (ok b, s) m h = h
  caught-IsConsistent a (redis_error, s) m h = h

  attempt-IsConsistent :
      {A : Type 0} (a : A) (op : srv.State → Reply A × srv.State) (m : Manager srv)
      → IsConsistent m
      → IsConsistent (attempt srv a op m).1
  unfolding attempt
  attempt-IsConsistent a op m h =
      let h' = get_client-IsConsistent m h in
      elim (Bool-cases (get_client srv m).0) [
        | inl there ↦
            rw there
              (caught-IsConsistent a (op (get_client srv m).1.server) (get_client srv m).1 h')
        | inr gone ↦ rw gone h'
      ]

  -- From a manager that has a client exactly when it has been initialized, any operation, a reset
  -- and a close lead to such a manager, so that `is_available` says whether there is a client.
  pub connection-IsConsistent :
      {A : Type 0} (a : A) (op : srv.State → Reply A × srv.State) (m : Manager srv)
      → IsConsistent m
      → IsConsistent (attempt srv a op m).1
        × IsConsistent (reset_connection srv m).1
        × IsConsistent (close srv m)
        × (is_available srv (attempt srv a op m).1 ≡ (attempt srv a op m).1.client)
  unfolding reset_connection close is_available
  connection-IsConsistent a op m h =
      let reset = record m { client = false; initialized = false; connection_error_count = 0 } in
      let k : IsConsistent (attempt srv a op m).1 = attempt-IsConsistent a op m h in
      (k, initialize-IsConsistent reset refl, ground arith, ground arith)
