-- ===== src/Network/Quiet.antt =====
-- What timers and commands to send do to a network: they replace hosts by ones that have made quiet
-- calls, and print lines.
use cn_project.Base.{ℕ, String, ◌≡◌, refl, Bool, Option, none, some, List, if_both, ◌&&◌}
use cn_project.Base.Dict.{contains, lookup, insert}
use cn_project.Tcp.{Env, ◌>>=◌, connection_interface}
use cn_project.Nodes.Queue.{MessageQueue}
use cn_project.Nodes.Node.{Output}
use cn_project.Nodes.Router.{RouterEnv}
use cn_project.Nodes.Host
use cn_project.Nodes.Host.{Host}
use cn_project.Nodes.Quiet.{
  IsQuietly, IsQuietly-refl, IsQuietly-IsKept, GoodIf, send_message_to-Good,
  connection_timeout-Good, add_tcp_connection-Good,
}
use cn_project.Network.{Network, connect, connect_and_send, command_to_send, initial_rtt, print}
use cn_project.Network.Running.{host_timer}

module _ {Q : Type 0} (Good : Network Q → Type 0) where
  -- A property of networks that neither a line nor a host's quiet calls end.
  pub record IsKeptNetwork : Type 0 where
    pub printed : (line : Output) (n : Network Q) → Good n → Good (print line n)
    pub stored :
        (at : String) (h h' : Host Q) (n : Network Q)
        → lookup at n.hosts ≡ some h
        → IsQuietly h.node h'.node
        → Good n
        → Good (record n { hosts = insert at h' n.hosts })

  abbrev pub Returned : Option (Network Q) → Type 0
  Returned none = Unit {0}
  Returned (some n) = Good n

  module _ (keeps : IsKeptNetwork) where
    abbrev put : String → Network Q → Host Q → Option (Network Q)
    put at n h' = some (record n { hosts = insert at h' n.hosts })

    put-Returned :
        (at : String) (h : Host Q) (n : Network Q)
        → lookup at n.hosts ≡ some h
        → Good n
        → (o : Option (Host Q)) → GoodIf (IsQuietly h.node) (IsQuietly-IsKept h.node) o
        → Returned (o >>= put at n)
    put-Returned at h n found g none quiet = tt
    put-Returned at h n found g (some h') quiet = keeps.stored at h h' n found quiet g

    -- A chain of calls, each of which keeps the property.
    chained :
        (o : Option (Network Q)) (f : Network Q → Option (Network Q))
        → Returned o
        → ((n : Network Q) → Good n → Returned (f n))
        → Returned (o >>= f)
    chained none f g next = tt
    chained (some n) f g next = next n g

    pub host_timer-Returned :
        (queue : MessageQueue Q) (env : Env) (renv : RouterEnv) (at end_point : String)
        (dequeued : Bool) (n : Network Q)
        → Good n
        → Returned (host_timer queue env renv at end_point dequeued n)
    unfolding host_timer
    host_timer-Returned queue env renv at end_point dequeued n g = begun (lookup at n.hosts) refl
      where
        sized : Env
        sized = record env { packet_size = n.packet_size }

        begun :
            (o : Option (Host Q))
            → lookup at n.hosts ≡ o
            → Returned (elim o [
              | none ↦ some n
              | some h ↦ Host.connection_timeout sized end_point dequeued h >>= put at n
            ])
        begun none found = g
        begun (some h) found = put-Returned at h n found g _ (
            connection_timeout-Good (IsQuietly h.node) (IsQuietly-IsKept h.node)
              (connection_interface sized) end_point h (IsQuietly-refl h.node) sized dequeued)

    module _ (env : Env) where
      connect-Returned :
          (host end_point : String) (n : Network Q)
          → Good n
          → Returned (connect env host end_point n)
      unfolding connect
      connect-Returned host end_point n g = begun (lookup host n.hosts) refl
        where
          begun :
              (o : Option (Host Q))
              → lookup host n.hosts ≡ o
              → Returned (
                  o >>= λ h.
                  put host n (
                    Host.add_tcp_connection (connection_interface env) end_point (initial_rtt n) h))
          begun none found = tt
          begun (some h) found =
              keeps.stored host h _ n found
                (add_tcp_connection-Good (IsQuietly h.node) (IsQuietly-IsKept h.node)
                  (connection_interface env) end_point h (IsQuietly-refl h.node) (initial_rtt n))
                g

      sent-Returned :
          (sized : Env) (sender receiver : String) (bytes : List ℕ) (delay : ℕ) (n : Network Q)
          → Good n
          → Returned (
              lookup sender n.hosts >>= λ h.
              Host.send_message_to (connection_interface sized) receiver bytes delay h
              >>= put sender n)
      sent-Returned sized sender receiver bytes delay n g = begun (lookup sender n.hosts) refl
        where
          begun :
              (o : Option (Host Q))
              → lookup sender n.hosts ≡ o
              → Returned (
                  o >>= λ h.
                  Host.send_message_to (connection_interface sized) receiver bytes delay h
                  >>= put sender n)
          begun none found = tt
          begun (some h) found = put-Returned sender h n found g _ (
              send_message_to-Good (IsQuietly h.node) (IsQuietly-IsKept h.node)
                (connection_interface sized) receiver h (IsQuietly-refl h.node) bytes delay)

      pub command_to_send-Returned :
          (sender receiver : String) (bytes : List ℕ) (delay : ℕ) (n : Network Q)
          → Good n
          → Returned (command_to_send env sender receiver bytes delay n)
      unfolding command_to_send connect_and_send
      command_to_send-Returned sender receiver bytes delay n g =
          if_both Returned (contains sender n.hosts && contains receiver n.hosts) _ _
            (chained (connect env sender receiver n) _ (connect-Returned sender receiver n g)
              (λ one g₁.
                chained (connect env receiver sender one) _
                  (connect-Returned receiver sender one g₁)
                  (λ both g₂.
                    sent-Returned (record env { packet_size = n.packet_size }) sender receiver bytes
                      delay both g₂)))
            (keeps.printed _ n g)
