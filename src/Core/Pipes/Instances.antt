-- ===== src/Core/Pipes/Instances.antt =====
-- REQ and REP keep their endpoints as the socket expects of a protocol.
use mangos_v.Prelude.{
  ℕ, ◌≡◌, refl, Bool, true, false, Option, none, some, arith, ◌==◌, if◌then◌else◌,
}
use mangos_v.Core.Pipes.Ownership.{Endpoints}
use mangos_v.Core.{Operations}
use mangos_v.Rep.{Rep}
use mangos_v.Req.{Req}
use mangos_v.Prelude.Table.{Table, delete, insert, lookup, lookup-delete, lookup-insert}
use mangos_v.Core.Requests.{req_operations}
use mangos_v.Rep
use mangos_v.Req

abbrev pub rep_operations : Operations Rep
rep_operations = record {
  sock = λ r. r.sock;
  set_option = Rep.set_option;
  get_option = Rep.get_option;
  send_hook = some Rep.send_hook;
  recv_hook = some Rep.recv_hook;
  add_endpoint = Rep.add_endpoint;
  remove_endpoint = λ id r. (Rep.remove_endpoint id r).0;
  shutdown = λ r. (Rep.shutdown r).0;
}

abbrev pub is_there : {V : Type 0} → Option V → Bool
is_there none = false
is_there (some v) = true

-- The endpoints are the keys of a map.
there-insert :
    {V : Type 0} (id j : ℕ) (v : V) (t : Table V)
    → is_there (lookup j (insert id v t)) ≡ (if id == j then true else is_there (lookup j t))
there-insert id j v t = ground (arith, lookup-insert id j v t)

there-delete :
    {V : Type 0} (id j : ℕ) (t : Table V)
    → is_there (lookup j (delete id t)) ≡ (if id == j then false else is_there (lookup j t))
there-delete id j t = ground (arith, lookup-delete id j t)

pub req-add :
    (p : Req) (id j : ℕ)
    → is_there (lookup j (Req.add_endpoint id p).eps)
      ≡ (if id == j then true else is_there (lookup j p.eps))
unfolding Req.add_endpoint
req-add p id j = there-insert id j false p.eps

pub req-remove :
    (p : Req) (id j : ℕ)
    → is_there (lookup j (Req.remove_endpoint id p).0.eps)
      ≡ (if id == j then false else is_there (lookup j p.eps))
unfolding Req.remove_endpoint
req-remove p id j = there-delete id j p.eps

abbrev pub req_endpoints : Endpoints req_operations
req_endpoints = record {
  has = λ r j. is_there (lookup j r.eps);
  has_add = req-add;
  has_remove = req-remove;
  has_shutdown = λ p j e. e;
}

pub rep-add :
    (p : Rep) (id j : ℕ)
    → is_there (lookup j (Rep.add_endpoint id p).eps)
      ≡ (if id == j then true else is_there (lookup j p.eps))
unfolding Rep.add_endpoint
rep-add p id j = there-insert id j _ p.eps

pub rep-remove :
    (p : Rep) (id j : ℕ)
    → is_there (lookup j (Rep.remove_endpoint id p).0.eps)
      ≡ (if id == j then false else is_there (lookup j p.eps))
unfolding Rep.remove_endpoint
rep-remove p id j = there-delete id j p.eps

pub rep-shutdown :
    (p : Rep) (j : ℕ)
    → is_there (lookup j p.eps) ≡ false
    → is_there (lookup j (Rep.shutdown p).0.eps) ≡ false
unfolding Rep.shutdown lookup
rep-shutdown p j e = refl

abbrev pub rep_endpoints : Endpoints rep_operations
rep_endpoints = record {
  has = λ r j. is_there (lookup j r.eps);
  has_add = rep-add;
  has_remove = rep-remove;
  has_shutdown = rep-shutdown;
}
