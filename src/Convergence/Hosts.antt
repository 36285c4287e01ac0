-- ===== src/Convergence/Hosts.antt =====
-- Steps of hosts, timers and commands, as the routers see them.
use cn_project.Base.{
  ℕ, String, ◌≡◌, refl, subst, ◌∙◌, Bool, Option, none, some, List, [], ◌∷◌, if_both, ◌&&◌,
}
use cn_project.Base.Dict.{lookup, insert, contains}
use cn_project.Tcp.{Env, ◌>>=◌, connection_interface}
use cn_project.Nodes.Queue.{MessageQueue, QueueLaws}
use cn_project.Nodes.Node.{Call, unknown_nodes}
use cn_project.Nodes.Router.{RouterEnv, Turn, waiting, fault, going, left}
use cn_project.Nodes.Host
use cn_project.Nodes.Host.{Host}
use cn_project.Network.{Network, connect, connect_and_send, command_to_send, print}
use cn_project.Network.Running.{host_call, host_turn, host_timer, perform}
use cn_project.Convergence.{KeepsMessages}
use cn_project.Convergence.World.{IsLaterRouters, same-IsLaterRouters}
use cn_project.Convergence.Deliver.{perform-IsLater}

module _ {Q : Type 0} (queue : MessageQueue Q) where
  -- What is returned, if anything, has the same routers.
  unfoldable pub SameRouters : Network Q → Option (Network Q) → Type 0
  SameRouters n none = Unit {0}
  SameRouters n (some n') = n'.routers ≡ n.routers

  pub same_routers :
      (n n' : Network Q) (o : Option (Network Q))
      → o ≡ some n'
      → SameRouters n o
      → n'.routers ≡ n.routers
  unfolding SameRouters
  same_routers n n' o e s = subst (SameRouters n) e s

  returned : (n n' : Network Q) → n'.routers ≡ n.routers → SameRouters n (some n')
  unfolding SameRouters
  returned n n' same = same

  -- A host is put into its place, if there is one.
  stored :
      (n : Network Q) (at : String) (o : Option (Host Q))
      → SameRouters n (o >>= λ h. some (record n { hosts = insert at h n.hosts }))
  unfolding SameRouters
  stored n at none = tt
  stored n at (some h) = refl

  looked_up :
      (n : Network Q) (o : Option (Host Q)) (f : Host Q → Option (Network Q))
      → ((h : Host Q) → SameRouters n (f h))
      → SameRouters n (o >>= f)
  unfolding SameRouters
  looked_up n none f s = tt
  looked_up n (some h) f s = s h

  chained :
      (n : Network Q) (o : Option (Network Q)) (f : Network Q → Option (Network Q))
      → SameRouters n o
      → ((m : Network Q) → SameRouters m (f m))
      → SameRouters n (o >>= f)
  unfolding SameRouters
  chained n none f s next = tt
  chained n (some m) f s next = onward (f m) (next m)
    where
      onward : (o : Option (Network Q)) → SameRouters m o → SameRouters n o
      onward none t = tt
      onward (some n') t = t ∙ s

  module _ (env : Env) (renv : RouterEnv) (n : Network Q) where
    pub host_turn-SameRouters : (at : String) → SameRouters n (host_turn queue env renv at n)
    unfolding host_turn SameRouters
    host_turn-SameRouters at = begun (lookup at n.hosts)
      where
        turned : Turn (Host Q) → Option (Network Q)
        turned u = elim u [
          | waiting ↦ some n
          | fault ↦ none
          | going h' ↦ some (record n { hosts = insert at h' n.hosts })
          | left h' ↦ some (record n { hosts = insert at h' n.hosts })
        ]

        turned-SameRouters : (u : Turn (Host Q)) → SameRouters n (turned u)
        turned-SameRouters waiting = refl
        turned-SameRouters fault = tt
        turned-SameRouters (going h') = refl
        turned-SameRouters (left h') = refl

        begun :
            (o : Option (Host Q))
            → SameRouters n (elim o [
              | none ↦ some n
              | some h ↦ turned (
                  Host.turn queue
                    (connection_interface (record env { packet_size = n.packet_size }))
                    h)
            ])
        begun none = refl
        begun (some h) = turned-SameRouters _

    pub host_timer-SameRouters :
        (at end_point : String) (dequeued : Bool)
        → SameRouters n (host_timer queue env renv at end_point dequeued n)
    unfolding host_timer SameRouters
    host_timer-SameRouters at end_point dequeued = begun (lookup at n.hosts)
      where
        begun :
            (o : Option (Host Q))
            → SameRouters n (elim o [
              | none ↦ some n
              | some h ↦
                  Host.connection_timeout
                    (record env { packet_size = n.packet_size })
                    end_point
                    dequeued
                    h
                  >>= λ h'. some (record n { hosts = insert at h' n.hosts })
            ])
        begun none = refl
        begun (some h) = stored n at _

  module _ (env : Env) where
    connect-SameRouters :
        (host end_point : String) (n : Network Q) → SameRouters n (connect env host end_point n)
    unfolding connect
    connect-SameRouters host end_point n = looked_up n _ _ (λ h. returned n _ refl)

    pub command_to_send-SameRouters :
        (sender receiver : String) (bytes : List ℕ) (delay : ℕ) (n : Network Q)
        → SameRouters n (command_to_send env sender receiver bytes delay n)
    unfolding command_to_send connect_and_send print
    command_to_send-SameRouters sender receiver bytes delay n =
        if_both (SameRouters n) (contains sender n.hosts && contains receiver n.hosts) _ _
          (chained n (connect env sender receiver n) _ (connect-SameRouters sender receiver n)
            (λ one.
              chained one (connect env receiver sender one) _
                (connect-SameRouters receiver sender one)
                (λ both. looked_up both (lookup sender both.hosts) _ (λ h. stored both sender (
                  Host.send_message_to
                    (connection_interface (record env { packet_size = n.packet_size })) receiver
                    bytes delay h)))))
          (returned n (print unknown_nodes n) refl)

  module _ (laws : QueueLaws queue) (keeps : KeepsMessages queue laws) (env : Env)
      (renv : RouterEnv) (at : String) (n : Network Q) where
    abbrev LaterThan : Network Q → Type 0
    LaterThan n' = IsLaterRouters queue laws keeps n.routers n'.routers

    host_pops : Host Q → List Call → Network Q
    host_pops h calls = elim calls [
      | [] ↦ n
      | k ∷ ks ↦ perform queue env renv k (record n {
        hosts = insert at (record h { node = record h.node { calls = ks } }) n.hosts;
      })
    ]

    host_pops-IsLater : (h : Host Q) (calls : List Call) → LaterThan (host_pops h calls)
    unfolding host_pops
    host_pops-IsLater h [] = same-IsLaterRouters queue laws keeps n.routers _ refl
    host_pops-IsLater h (k ∷ ks) = perform-IsLater queue laws keeps env renv k _

    pub host_call-IsLater : LaterThan (host_call queue env renv at n)
    unfolding host_call host_pops
    host_call-IsLater = called (lookup at n.hosts)
      where
        called :
            (o : Option (Host Q))
            → LaterThan (elim o [ none ↦ n | some h ↦ host_pops h h.node.calls ])
        called none = same-IsLaterRouters queue laws keeps n.routers _ refl
        called (some h) = host_pops-IsLater h h.node.calls
