-- ===== src/Network/Threads.antt =====
-- The start of a network's threads.
use cn_project.Base.{
  ◌≡◌, ap, sym, ◌∙◌, Option, Bool, true, false, ◌||◌, [], ◌∷◌, refl, none, some, if◌then◌else◌,
}
use mathlib.Core.Option.{none-ne-some, some-injective}
use cn_project.Base.Dict.{Dict, map_values}
use cn_project.Base.Traverse.{try_values, try_values_lem, or_else}
use cn_project.Tcp.{Env, ◌>>=◌}
use cn_project.Controller.{set_start_alg_time}
use cn_project.Nodes.Queue.{MessageQueue}
use cn_project.Nodes.Router
use cn_project.Nodes.Router.{Router, RouterEnv}
use cn_project.Nodes.Host.{Host}
use cn_project.Network.{Network}
use cn_project.Network.Running.{start_nodes, run, as_host, as_router, any_joinable}

-- A chain of two that succeeds.
pub both_parts :
    {A B C : Type 0} (o : Option A) (p : Option B) (f : A → B → C) (c : C)
    → (o >>= λ a. p >>= λ b. some (f a b)) ≡ some c
    → (a : A) × (b : B) × (o ≡ some a) × (p ≡ some b) × (f a b ≡ c)
both_parts none p f c e = absurd (none-ne-some c e)
both_parts (some a) none f c e = absurd (none-ne-some c e)
both_parts (some a) (some b) f c e = (a, b, refl, refl, some-injective _ c e)

pub map_values-some :
    {A : Type 0} (f : A → A) (d : Dict A)
    → map_values (λ a. or_else a (some (f a))) d ≡ map_values f d
map_values-some f [] = refl
map_values-some f (entry ∷ rest) = ap (λ r. (entry.0, f entry.1) ∷ r) (map_values-some f rest)

module _ {Q : Type 0} (queue : MessageQueue Q) (env : Env) (renv : RouterEnv) where
  -- A host once it is started.
  abbrev pub host_up : Network Q → Host Q → Host Q
  host_up n h = or_else h ((as_host queue env renv n).start_node h)

  -- The network once all its nodes are started.
  abbrev pub all_up : Network Q → Network Q
  all_up n = record n {
    controller = set_start_alg_time env.now n.controller;
    hosts = map_values (host_up n) n.hosts;
    routers = map_values Router.start_node n.routers;
  }

  -- If `run` returns, no node had a thread, and the start of each node succeeded.
  pub run_parts :
      (n n' : Network Q)
      → run queue env renv n ≡ some n'
      → ((any_joinable queue env renv (as_host queue env renv n) n.hosts
            || any_joinable queue env renv (as_router queue env renv n) n.routers)
          ≡ false)
        × (start_nodes queue env renv n ≡ some n')
  unfolding run
  run_parts n n' e = chosen _ e
    where
      chosen :
          (b : Bool)
          → (if b then none else start_nodes queue env renv n) ≡ some n'
          → (b ≡ false) × (start_nodes queue env renv n ≡ some n')
      chosen true e = absurd (none-ne-some n' e)
      chosen false e = (refl, e)

  -- If `run` returns, it has started all nodes.
  pub started : (n n' : Network Q) → run queue env renv n ≡ some n' → all_up n ≡ n'
  unfolding start_nodes
  started n n' e =
      let (hosts, routers, on, ron, same) =
        both_parts (try_values (as_host queue env renv n).start_node n.hosts)
          (try_values (as_router queue env renv n).start_node n.routers)
          (λ hs rs. record n {
            controller = set_start_alg_time env.now n.controller;
            hosts = hs;
            routers = rs;
          })
          n' (run_parts n n' e).1 in
      (λ i. record n {
        controller = set_start_alg_time env.now n.controller;
        hosts = try_values_lem _ n.hosts hosts on i;
        routers =
            (sym (map_values-some Router.start_node n.routers)
                ∙ try_values_lem (as_router queue env renv n).start_node n.routers routers ron)
              i;
      })
      ∙ same
