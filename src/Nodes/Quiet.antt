-- ===== src/Nodes/Quiet.antt =====
-- Calls that tell no routes and leave the counter of routing messages as it is. What each of them
-- keeps of a node is kept by the methods that make no others: logging, printing, the forwarding of
-- packets, and all that a host does for a connection.
use cn_project.Base.{
  ℕ, String, ◌≡◌, sym, ap, ◌∙◌, subst, Bool, Option, none, some, List, [], ◌∷◌, ◌++◌, Option-cases,
  inl, inr, if_both, length, All, All-append, append-nil, append_assoc,
}
use cn_project.Base.Dict.{lookup, insert, contains}
use cn_project.Message.{Packet, routing, data_packet}
use cn_project.Tcp.{
  Env, TcpConnection, ConnectionInterface, Effect, send, write_file, sleep, ◌>>=◌, timeout_body,
}
use cn_project.Nodes.Node.{
  AbstractNode, RoutingTableEntry, Output, Call, taken_by, inc_converge, dec_converge, inc_running,
  dec_running, sleep_for, write_to_file, log_line, print_line, LogLine, log, call, sending_packet,
  address_not_found, adding_connection, sending_data,
}
use cn_project.Nodes.Broadcast.{calling}
use cn_project.Nodes.Router.{Router, route_and_forward_packet}
use cn_project.Nodes.Host
use cn_project.Nodes.Host.{Host, send_packet, perform_effects, at_connection, print_all}

abbrev pub IsQuiet : Call → Type 0
IsQuiet (taken_by y (routing m)) = ⊥
IsQuiet (taken_by y (data_packet p)) = Unit {0}
IsQuiet inc_converge = ⊥
IsQuiet dec_converge = ⊥
IsQuiet inc_running = Unit {0}
IsQuiet dec_running = Unit {0}
IsQuiet (sleep_for time) = Unit {0}
IsQuiet (write_to_file host source bytes) = Unit {0}
IsQuiet (log_line file line) = Unit {0}
IsQuiet (print_line line) = Unit {0}

module _ {Q : Type 0} (Good : AbstractNode Q → Type 0) where
  -- A property of nodes that no quiet call ends.
  pub record IsKept : Type 0 where
    pub kept : (k : Call) (n : AbstractNode Q) → IsQuiet k → Good n → Good (call k n)

  module _ (keeps : IsKept) where
    pub log-Good : (line : LogLine) (n : AbstractNode Q) → Good n → Good (log line n)
    unfolding log
    log-Good line n g = keeps.kept _ n tt g

    print_all-Good : (lines : List Output) (n : AbstractNode Q) → Good n → Good (print_all lines n)
    print_all-Good [] n g = g
    print_all-Good (line ∷ rest) n g = print_all-Good rest _ (keeps.kept (print_line line) n tt g)

    pub route_and_forward_packet-Good :
        (p : Packet) (r : Router Q) → Good r.node → Good (route_and_forward_packet p r).node
    unfolding route_and_forward_packet
    route_and_forward_packet-Good p r g =
        elim (Option-cases (lookup p.destination r.node.routing_table)) [
          | inl e ↦
              subst (λ o. Good (forward o).node) (sym e)
                (keeps.kept (print_line address_not_found) r.node tt g)
          | inr (entry, e) ↦
              subst (λ o. Good (forward o).node) (sym e)
                (keeps.kept (taken_by entry.next_hop (data_packet p)) _ tt
                  (keeps.kept (sleep_for r.delay) r.node tt g))
        ]
      where
        forward : Option RoutingTableEntry → Router Q
        forward o = elim o [
          | none ↦ record r { node = call (print_line address_not_found) r.node }
          | some entry ↦ record r {
            node = call (taken_by entry.next_hop (data_packet p)) (call (sleep_for r.delay) r.node);
          }
        ]

    send_packet-Good : (p : Packet) (n : AbstractNode Q) → Good n → Good (send_packet p n)
    unfolding send_packet
    send_packet-Good p n g = elim (Option-cases (lookup p.destination n.routing_table)) [
      | inl e ↦ subst (λ o. Good (sent o)) (sym e) (log-Good (sending_packet p.destination) n g)
      | inr (entry, e) ↦
          subst (λ o. Good (sent o)) (sym e)
            (keeps.kept (taken_by entry.next_hop (data_packet p)) _ tt
              (log-Good (sending_packet p.destination) n g))
    ]
      where
        sent : Option RoutingTableEntry → AbstractNode Q
        sent o = elim o [
          | none ↦ log (sending_packet p.destination) n
          | some entry ↦
              call (taken_by entry.next_hop (data_packet p)) (log (sending_packet p.destination) n)
        ]

    perform_effects-Good :
        (effects : List Effect) (n : AbstractNode Q) → Good n → Good (perform_effects effects n)
    unfolding perform_effects
    perform_effects-Good [] n g = g
    perform_effects-Good (send p ∷ rest) n g = perform_effects-Good rest _ (send_packet-Good p n g)
    perform_effects-Good (write_file host source bytes ∷ rest) n g =
        perform_effects-Good rest _ (keeps.kept (write_to_file host source bytes) n tt g)
    perform_effects-Good (sleep time ∷ rest) n g =
        perform_effects-Good rest _ (keeps.kept (sleep_for time) n tt g)

    -- If a call returns a host, its node has the property.
    abbrev pub GoodIf : Option (Host Q) → Type 0
    GoodIf none = Unit {0}
    GoodIf (some h) = Good h.node

    pub at_connection-Good :
        (end_point : String) (missing : List Output) (method : TcpConnection → Option TcpConnection)
        (h : Host Q)
        → Good h.node
        → GoodIf (at_connection end_point missing method h)
    unfolding at_connection
    at_connection-Good end_point missing method h g =
        elim (Option-cases (lookup end_point h.connections)) [
          | inl e ↦ subst (λ o. GoodIf (reached o)) (sym e) (print_all-Good missing h.node g)
          | inr (c, e) ↦ subst (λ o. GoodIf (reached o)) (sym e) (after (method c))
        ]
      where
        stored : TcpConnection → Option (Host Q)
        stored c' = some (record h {
          node = perform_effects c'.effects h.node;
          connections = insert end_point (record c' { effects = [] }) h.connections;
        })

        reached : Option TcpConnection → Option (Host Q)
        reached o = elim o [
          | none ↦ some (record h { node = print_all missing h.node })
          | some c ↦ method c >>= stored
        ]

        after : (o : Option TcpConnection) → GoodIf (o >>= stored)
        after none = tt
        after (some c') = perform_effects-Good c'.effects h.node g

    -- The methods of a host that a network calls for its connections.
    module _ (tcp : ConnectionInterface TcpConnection) (end_point : String) (h : Host Q)
        (g : Good h.node) where
      pub send_message_to-Good :
          (bytes : List ℕ) (delay : ℕ) → GoodIf (Host.send_message_to tcp end_point bytes delay h)
      unfolding Host.send_message_to Host.log
      send_message_to-Good bytes delay =
          at_connection-Good end_point _ _ _
            (log-Good (sending_data (length bytes) end_point) h.node g)

      pub connection_timeout-Good :
          (env : Env) (dequeued : Bool) → GoodIf (Host.connection_timeout env end_point dequeued h)
      unfolding Host.connection_timeout
      connection_timeout-Good env dequeued =
          at_connection-Good end_point [] (timeout_body env dequeued) h g

      pub add_tcp_connection-Good :
          (rtt : ℕ) → Good (Host.add_tcp_connection tcp end_point rtt h).node
      unfolding Host.add_tcp_connection Host.log
      add_tcp_connection-Good rtt =
          let g' = log-Good (adding_connection end_point) h.node g in
          if_both (λ (x : Host Q). Good x.node) (contains end_point h.connections) _ _ g' g'

-- A node has become another one by quiet calls alone.
pub record IsQuietly {Q : Type 0} (n n' : AbstractNode Q) : Type 0 where
  pub made : List Call
  pub quiet : All IsQuiet made
  pub same : n' ≡ calling made n

pub IsQuietly-refl : {Q : Type 0} (n : AbstractNode Q) → IsQuietly n n
IsQuietly-refl n = record {
  made = [];
  quiet = tt;
  same = ap (λ cs. record n { calls = cs }) (sym (append-nil n.calls));
}

pub IsQuietly-IsKept : {Q : Type 0} (n : AbstractNode Q) → IsKept (IsQuietly n)
IsQuietly-IsKept n = record {
  kept = λ k n' is_quiet g. record {
    made = g.made ++ (k ∷ []);
    quiet = All-append IsQuiet g.made (k ∷ []) g.quiet (is_quiet, tt);
    same =
        ap (call k) g.same
        ∙ ap (λ cs. record n { calls = cs }) (append_assoc n.calls g.made (k ∷ []));
  };
}
