-- ===== src/Routing/Hosts.antt =====
-- The handling of messages by a host leaves a sound node sound.
use cn_project.Base.{ℕ, String, sym, subst, List, [], ◌∷◌, All, add64}
use cn_project.Message.{Message, routing, data_packet}
use cn_project.Tcp.{TcpConnection, ConnectionInterface}
use cn_project.Nodes.Queue.{MessageQueue, QueueLaws}
use cn_project.Nodes.Node.{
  AbstractNode, Call, taken_by, inc_converge, dec_converge, inc_running, dec_running, sleep_for,
  write_to_file, log_line, print_line, call, update_routing_table as update_node_table,
}
use cn_project.Nodes.Host
use cn_project.Nodes.Host.{Host}
use cn_project.Nodes.Quiet.{IsQuiet, IsKept, IsQuietly, GoodIf, at_connection-Good}
use cn_project.Routing.{Topology, IsTwoWay, IsTrueCall, IsSound}
use cn_project.Routing.Update.{calling-IsSound, update_node_table-IsSound, heard-IsRoute}
use cn_project.Routing.Handle.{IsTrueMessage, heard_from}

module _ (t : Topology) {Q : Type 0} (queue : MessageQueue Q) (laws : QueueLaws queue)
    (two_way : IsTwoWay t) (at : String) where
  abbrev Sound : AbstractNode Q → Type 0
  Sound = IsSound t queue laws at

  quiet_IsTrueCall : (k : Call) → IsQuiet k → IsTrueCall t k
  quiet_IsTrueCall (taken_by y (routing m)) q = absurd q
  quiet_IsTrueCall (taken_by y (data_packet p)) q = tt
  quiet_IsTrueCall inc_converge q = tt
  quiet_IsTrueCall dec_converge q = tt
  quiet_IsTrueCall inc_running q = tt
  quiet_IsTrueCall dec_running q = tt
  quiet_IsTrueCall (sleep_for time) q = tt
  quiet_IsTrueCall (write_to_file host source bytes) q = tt
  quiet_IsTrueCall (log_line file line) q = tt
  quiet_IsTrueCall (print_line line) q = tt

  pub IsSound-IsKept : IsKept Sound
  IsSound-IsKept = record {
    kept = λ k n quiet s.
        calling-IsSound t queue laws two_way at (k ∷ []) n (quiet_IsTrueCall k quiet, tt) s;
  }

  quiet_calls : (ks : List Call) → All IsQuiet ks → All (IsTrueCall t) ks
  quiet_calls [] q = tt
  quiet_calls (k ∷ ks) (q, qs) = (quiet_IsTrueCall k q, quiet_calls ks qs)

  pub quietly-IsSound : (n n' : AbstractNode Q) → IsQuietly n n' → Sound n → Sound n'
  quietly-IsSound n n' q s =
      subst Sound (sym q.same)
        (calling-IsSound t queue laws two_way at q.made n (quiet_calls q.made q.quiet) s)

  pub host_handle-IsSound :
      (tcp : ConnectionInterface TcpConnection) (m : Message) (h : Host Q)
      → IsTrueMessage t queue laws two_way at m
      → Sound h.node
      → GoodIf Sound IsSound-IsKept (Host.handle_new_message tcp m h)
  unfolding Host.handle_new_message Host.handle_packet
  host_handle-IsSound tcp (routing m) h true_message s =
      let (l, linked, cost) = heard_from t queue laws two_way at m h.node true_message s in
      subst (λ p. Sound (from p)) (sym cost)
        (calling-IsSound t queue laws two_way at (dec_converge ∷ []) _ (tt, tt)
          (update_node_table-IsSound t queue laws two_way at m.destination (add64 m.cost l.cost)
            m.sender h.node (heard-IsRoute t queue laws two_way at m l true_message linked) s))
    where
      from : ℕ × AbstractNode Q → AbstractNode Q
      from p = call dec_converge (update_node_table m.destination (add64 m.cost p.0) m.sender p.1).0
  host_handle-IsSound tcp (data_packet p) h true_message s =
      at_connection-Good Sound IsSound-IsKept p.source _ _ h s
