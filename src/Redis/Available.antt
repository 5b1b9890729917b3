-- ===== src/Redis/Available.antt =====
-- Operations while there is a connection.
use headwater.Prelude.{
  ◌≡◌, ◌∙◌, refl, ap, ℕ, suc, true, false, none, some, Option, Text, if◌then◌else◌, arith,
}
use headwater.Redis.Client.{Server, Reply, ok}
use headwater.Redis.{
  Manager, is_available, get_client, attempt, caught, mapped, manager_get, manager_set,
}

module _ (srv : Server) where
  get_client-available :
      (m : Manager srv) → is_available srv m ≡ true → get_client srv m ≡ (true, m)
  unfolding is_available get_client
  get_client-available m h = let c : m.client ≡ true = ground (arith, h) in rw c refl

  attempt-ok :
      {A : Type 0} (a b : A) (op : srv.State → Reply A × srv.State) (t : srv.State)
      (m : Manager srv)
      → is_available srv m ≡ true
      → op m.server ≡ (ok b, t)
      → attempt srv a op m ≡ (b, record m { server = t })
  unfolding attempt
  attempt-ok a b op t m h e =
      ap (λ p. if p.0 then caught srv a (op p.1.server) p.1 else (a, p.1))
        (get_client-available m h)
      ∙ ap (λ r. caught srv a r m) e

  pub manager_set-accepted :
      (k raw : Text) (t : ℕ) (m : Manager srv)
      → is_available srv m ≡ true
      → (srv.setex k (suc t) raw m.server).0 ≡ ok tt
      → manager_set srv k raw (some (suc t)) m
        ≡ (true, record m { server = (srv.setex k (suc t) raw m.server).1 })
  unfolding manager_set
  manager_set-accepted k raw t m h e =
      let t' = (srv.setex k (suc t) raw m.server).1 in
      attempt-ok false true (λ s. mapped srv (λ _. true) (srv.setex k (suc t) raw s)) t' m h
        (ap (λ r. mapped srv (λ _. true) (r, t')) e)

  pub manager_get-found :
      (k : Text) (found : Option Text) (m : Manager srv)
      → is_available srv m ≡ true
      → (srv.get k m.server).0 ≡ ok found
      → manager_get srv k m ≡ (found, record m { server = (srv.get k m.server).1 })
  unfolding manager_get
  manager_get-found k found m h e =
      let t = (srv.get k m.server).1 in attempt-ok none found (srv.get k) t m h (ap (λ r. (r, t)) e)
