-- ===== src/Detection/Calls.antt =====
-- The calls of nodes, one by one: each pays what it owes, or counts what was not counted.
use cn_project.Base.{
  ℕ, String, ◌+◌, ◌%◌, ◌^◌, ◌≡◌, refl, ap, subst, Option, none, some, List, [], ◌∷◌, All, arith,
  inl, inr,
}
use cn_project.Base.Dict.{Dict, lookup, insert}
use cn_project.Message.{routing, data_packet}
use cn_project.Tcp.{Env}
use cn_project.Nodes.Queue.{MessageQueue, QueueLaws}
use cn_project.Nodes.Node.{
  AbstractNode, Output, LogLine, Call, taken_by, inc_converge, dec_converge, inc_running,
  dec_running, sleep_for, write_to_file, log_line, print_line,
}
use cn_project.Nodes.Router.{Router, RouterEnv}
use cn_project.Nodes.Host.{Host}
use cn_project.Controller.{
  NetworkController, inc_converge_counter, dec_converge_counter, inc_running_node_counter,
  dec_running_node_counter,
}
use cn_project.Network.{Network, print}
use cn_project.Network.Running.{perform, router_call, host_call}
use cn_project.Detection.{
  CountsMessages, IsOpen, IsAccountedBut, IsHereCall, debit, credit, debits, credits,
}
use cn_project.Detection.Deliver.{deliver_to-IsAccounted}
use cn_project.Detection.World.{IsExchange, router_at, host_at, with_router, with_host}

module _ (Here : String → Type 0) {Q : Type 0} (queue : MessageQueue Q) (laws : QueueLaws queue)
    (counts : CountsMessages queue laws) where
  abbrev But : ℕ → ℕ → Network Q → Type 0
  But = IsAccountedBut Here queue laws counts

  -- Files and what is printed do not matter.
  pub rewritten :
      (n : Network Q) (console : List Output) (logs : Dict (List LogLine)) (files : Dict (List ℕ))
      → But 0 0 n
      → But 0 0 (record n { console = console; logs = logs; files = files })
  rewritten n console logs files net = record {
    routers = net.routers;
    hosts = net.hosts;
    found = net.found;
    accounted = net.accounted;
  }

  -- A node that makes its first call.
  popped-IsExchange :
      (n : AbstractNode Q) (k : Call) (ks : List Call)
      → n.calls ≡ k ∷ ks
      → IsExchange Here queue laws counts 0 0 (debit k) (credit k) n (record n { calls = ks })
  popped-IsExchange n k ks e = record {
    opened = λ o. record {
      going = o.going;
      peered = o.peered;
      calling = (subst (All (IsHereCall Here)) e o.calling).1;
    };
    exchanged = λ o. omega (arith, ap debits e, ap credits e);
  }

  module _ (env : Env) (renv : RouterEnv) where
    -- The counter is what changes, and the nodes stay.
    counted :
        (d c : ℕ) (control : NetworkController) (n : Network Q)
        → ((a u : ℕ)
            → (n.controller.alg_converge_counter + u + c) % 2 ^ 64 ≡ (a + d) % 2 ^ 64
            → (control.alg_converge_counter + u + 0) % 2 ^ 64 ≡ (a + 0) % 2 ^ 64)
        → But d c n
        → But 0 0 (record n { controller = control })
    counted d c control n account net = record {
      routers = net.routers;
      hosts = net.hosts;
      found = net.found;
      accounted = account _ _ net.accounted;
    }

    -- A call that is addressed to a node of the network is made.
    perform-IsAccounted :
        (k : Call) (n : Network Q)
        → IsHereCall Here k
        → But (debit k) (credit k) n
        → But 0 0 (perform queue env renv k n)
    unfolding perform print inc_converge_counter dec_converge_counter inc_running_node_counter
        dec_running_node_counter
    perform-IsAccounted (taken_by at (routing m)) n is_here net =
        deliver_to-IsAccounted Here queue laws counts env renv at (routing m) n
          (inl (net.found at is_here)) net
    perform-IsAccounted (taken_by at (data_packet p)) n is_here net =
        deliver_to-IsAccounted Here queue laws counts env renv at (data_packet p) n (inr refl) net
    perform-IsAccounted inc_converge n is_here net =
        counted 0 1 _ n (λ a u account. omega (arith, account)) net
    perform-IsAccounted dec_converge n is_here net =
        counted 1 0 _ n (λ a u account. omega (arith, account)) net
    perform-IsAccounted inc_running n is_here net = counted 0 0 _ n (λ a u account. account) net
    perform-IsAccounted dec_running n is_here net = counted 0 0 _ n (λ a u account. account) net
    perform-IsAccounted (sleep_for time) n is_here net = net
    perform-IsAccounted (write_to_file host source bytes) n is_here net =
        rewritten n n.console n.logs _ net
    perform-IsAccounted (log_line file line) n is_here net = rewritten n n.console _ n.files net
    perform-IsAccounted (print_line line) n is_here net = rewritten n _ n.logs n.files net

    router_pops : String → Network Q → Router Q → List Call → Network Q
    router_pops at n r calls = elim calls [
      | [] ↦ n
      | k ∷ ks ↦ perform queue env renv k (record n {
        routers = insert at (record r { node = record r.node { calls = ks } }) n.routers;
      })
    ]

    host_pops : String → Network Q → Host Q → List Call → Network Q
    host_pops at n h calls = elim calls [
      | [] ↦ n
      | k ∷ ks ↦ perform queue env renv k (record n {
        hosts = insert at (record h { node = record h.node { calls = ks } }) n.hosts;
      })
    ]

    first_IsHere :
        (n : AbstractNode Q) (k : Call) (ks : List Call)
        → IsOpen Here n
        → n.calls ≡ k ∷ ks
        → IsHereCall Here k
    first_IsHere n k ks o e = (subst (All (IsHereCall Here)) e o.calling).0

    module _ (at : String) (n : Network Q) (net : But 0 0 n) where
      router_pops-IsAccounted :
          (r : Router Q)
          → lookup at n.routers ≡ some r
          → (calls : List Call) → r.node.calls ≡ calls
          → But 0 0 (router_pops at n r calls)
      unfolding router_pops
      router_pops-IsAccounted r found [] e = net
      router_pops-IsAccounted r found (k ∷ ks) e =
          let (opens, _) = router_at Here queue laws counts 0 0 0 0 at n net r found in
          perform-IsAccounted k _ (first_IsHere r.node k ks opens e) (
            with_router Here queue laws counts 0 0 (debit k) (credit k) at n net r _ found
              (popped-IsExchange r.node k ks e) refl)

      host_pops-IsAccounted :
          (h : Host Q)
          → lookup at n.hosts ≡ some h
          → (calls : List Call) → h.node.calls ≡ calls
          → But 0 0 (host_pops at n h calls)
      unfolding host_pops
      host_pops-IsAccounted h found [] e = net
      host_pops-IsAccounted h found (k ∷ ks) e =
          let opens = host_at Here queue laws counts 0 0 0 0 at n net h found in
          perform-IsAccounted k _ (first_IsHere h.node k ks opens e) (
            with_host Here queue laws counts 0 0 (debit k) (credit k) at n net h _ found
              (popped-IsExchange h.node k ks e))

      pub router_call-IsAccounted : But 0 0 (router_call queue env renv at n)
      unfolding router_call router_pops
      router_call-IsAccounted = called (lookup at n.routers) refl
        where
          called :
              (o : Option (Router Q))
              → lookup at n.routers ≡ o
              → But 0 0 (elim o as (λ _. Network Q) [
                | none ↦ n
                | some r ↦ router_pops at n r r.node.calls
              ])
          called none found = net
          called (some r) found = router_pops-IsAccounted r found r.node.calls refl

      pub host_call-IsAccounted : But 0 0 (host_call queue env renv at n)
      unfolding host_call host_pops
      host_call-IsAccounted = called (lookup at n.hosts) refl
        where
          called :
              (o : Option (Host Q))
              → lookup at n.hosts ≡ o
              → But 0 0
                  (elim o as (λ _. Network Q) [ none ↦ n | some h ↦ host_pops at n h h.node.calls ])
          called none found = net
          called (some h) found = host_pops-IsAccounted h found h.node.calls refl
