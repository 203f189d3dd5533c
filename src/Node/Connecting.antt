-- ===== src/Node/Connecting.antt =====
-- pkg/node/node.go: a new node, and a connection from its first message until its peer is entered. The
-- timeouts of the connection are left out.
use lock_free_p2p_go.Prelude.{
  ℕ, ◌≡◌, ◌⊎◌, refl, sym, Bool, true, false, not, Option, none, some, List, [], if◌then◌else◌, inl,
  inr,
}
use mathlib.Core.Path.{subst}
use lock_free_p2p_go.Broadcast.Sending.{write_message-id}
use lock_free_p2p_go.Run.{Run, ok, err, panic}
use lock_free_p2p_go.Peer.{
  Peer, Connection, connected, inbound, outbound, new_peer, set_addr, shut_down, set_state,
  set_connected_at, read_message,
}
use lock_free_p2p_go.Peer.Manager.{
  add_peer, get_peer, new_peer_manager, has_peer_by_addr, can_dial_outbound, can_accept_inbound,
}
use lock_free_p2p_go.Peer.Manager.Invariant.{IsConfig, IsCounted}
use lock_free_p2p_go.Node.{
  Node, write_bytes, handshake_ack_bytes, receive_handshake, send_handshake, send_handshake_ack,
  receive_handshake_ack, start_peer, node_remove_peer,
}
use lock_free_p2p_go.Node.Config.{Config, validate_config, to_peer_manager_config}
use lock_free_p2p_go.Node.Joining.{Failed, node_remove_peer-start_peer}
use lock_free_p2p_go.Node.Agreement.{
  Greeted, Accepted, receive_handshake-Greeted, receive_handshake_ack-Accepted,
}

-- `New`, with the identifier and the nonce that it draws.
unfoldable pub new_node : {C V : Type 0} → (id : List ℕ) → (nonce : ℕ) → Config → Node C V
new_node id nonce config =
    let c = validate_config config in
    record {
      id = id;
      nonce = nonce;
      listen_port = 0;
      user_agent = c.user_agent;
      peer_manager = new_peer_manager (to_peer_manager_config c);
      running = false;
    }

module _ {C V : Type 0} (checksum_ieee : List ℕ → ℕ) (hex : List ℕ → List ℕ)
    (io : Connection C) where
  -- `conn.Close()` of a connection whose peer is given up
  abbrev pub close_conn : Peer C V → Peer C V
  close_conn p = record p { conn = (shut_down io p.conn).0 }

  -- Goes on with a peer after a call that returned no error; after an error the connection is closed,
  -- and a panic ends the process.
  abbrev pub or_close :
      Node C V
      → Peer C V × Run (Unit {0})
      → (Peer C V → Node C V × Peer C V × Run Bool)
      → Node C V × Peer C V × Run Bool
  or_close n (p, ok u) go_on = go_on p
  or_close n (p, err e) go_on = (n, close_conn p, ok false)
  or_close n (p, panic) go_on = (n, p, panic)

  -- `handleInboundConnection`: the node, the peer, and whether the loop that reads starts. `now` is the
  -- time at which all of it happens.
  unfoldable pub handle_inbound_connection :
      (peer_addr : Peer C V → ℕ → List ℕ)
      → (now : ℕ) → Node C V
      → C
      → Node C V × Peer C V × Run Bool
  handle_inbound_connection peer_addr now n conn =
      let p = new_peer now (some conn) inbound in
      or_close n (receive_handshake checksum_ieee io hex peer_addr now n p) λ q.
        or_close n (send_handshake_ack checksum_ieee io n q true []) λ r. start_peer hex io now n r

  -- The body of `acceptLoop` on a connection that was accepted: `none` when it was closed at once.
  unfoldable pub accept_connection :
      (peer_addr : Peer C V → ℕ → List ℕ)
      → (now : ℕ) → Node C V
      → C
      → Node C V × Option (Peer C V) × Run Bool
  accept_connection peer_addr now n conn =
      let r = handle_inbound_connection peer_addr now n conn in
      if not (can_accept_inbound n.peer_manager) then (n, none, ok false) else (r.0, some r.1, r.2)

  -- What `connectToPeer` does with the connection that Dial returns.
  unfoldable pub handle_outbound_connection :
      (now : ℕ) → Node C V → (addr : List ℕ) → C → Node C V × Peer C V × Run Bool
  handle_outbound_connection now n addr conn =
      let p = set_addr (new_peer now (some conn) outbound) addr in
      or_close n (send_handshake checksum_ieee io n p) λ q.
        or_close n (receive_handshake_ack checksum_ieee io now n q) λ r. start_peer hex io now n r

  abbrev pub dialled :
      (now : ℕ) → Node C V → (addr : List ℕ) → Option C → Node C V × Option (Peer C V) × Run Bool
  dialled now n addr none = (n, none, ok false)
  dialled now n addr (some conn) =
      let r = handle_outbound_connection now n addr conn in (r.0, some r.1, r.2)

  -- `connectToPeer`; `dial` is what Dial of package transport returns, `none` for its error.
  unfoldable pub connect_to_peer :
      (dial : List ℕ → Option C)
      → (now : ℕ) → Node C V
      → (addr : List ℕ) → Node C V × Option (Peer C V) × Run Bool
  connect_to_peer dial now n addr =
      let r = dialled now n addr (dial addr) in
      if has_peer_by_addr n.peer_manager addr
      then (n, none, ok false)
      else if not (can_dial_outbound n.peer_manager)
      then (n, none, ok false)
      else r

  -- The peer of startPeer, which is marked as connected.
  abbrev pub entering : (now : ℕ) → Peer C V → Peer C V
  entering now p = set_connected_at (set_state p connected) now

  -- The connection is given up: no loop reads, the node is as it was, and the connection is shut.
  pub record GivenUp (n : Node C V) (p : Peer C V) (s : Node C V × Peer C V × Run Bool)
      : Type 0 where
    pub loop : s.2 ≡ ok false
    pub same : s.0 ≡ n
    pub shut : s.1.conn ≡ (shut_down io p.conn).0

  -- The peer is entered, with the identifier of `p`: the loop reads; the identifier had no peer before
  -- and has this one, connected; and removePeer of the peer makes the node what it was.
  pub record Entered (n : Node C V) (p : Peer C V) (s : Node C V × Peer C V × Run Bool)
      : Type 0 where
    pub loop : s.2 ≡ ok true
    pub up : s.1.state ≡ connected
    pub named : s.1.id ≡ p.id
    pub new : get_peer hex n.peer_manager s.1.id ≡ none
    pub found : get_peer hex s.0.peer_manager s.1.id ≡ some s.1
    pub undone : (node_remove_peer hex io s.0 s.1).0 ≡ n

  -- How a connection ends up after the calls `first` and `second`: the peer is entered, both returned no
  -- error, and the nodes have agreed; or the connection is given up, after an error of the first, of the second or of
  -- AddPeer; or one of the two panicked, which ends the process.
  abbrev pub Settled :
      (now : ℕ)
      → Node C V
      → (first second : Peer C V × Run (Unit {0})) → (Agreed : Type 0)
      → Node C V × Peer C V × Run Bool
      → Type 0
  Settled now n first second Agreed s =
      (Entered n second.0 s × (first.1 ≡ ok tt) × (second.1 ≡ ok tt) × Agreed)
      ⊎ (GivenUp n first.0 s × Failed first.1)
      ⊎ (GivenUp n second.0 s
          × (first.1 ≡ ok tt)
          × (Failed second.1
              ⊎ ((second.1 ≡ ok tt)
                  × Failed (add_peer hex n.peer_manager (entering now second.0)).1)))
      ⊎ ((s.2 ≡ panic) × ((first.1 ≡ panic) ⊎ ((first.1 ≡ ok tt) × (second.1 ≡ panic))))

  second-Settled :
      (now : ℕ) (n : Node C V) (p : Peer C V) (second : Peer C V × Run (Unit {0})) (Agreed : Type 0)
      → (second.1 ≡ ok tt → Agreed)
      → IsConfig n.peer_manager.config
      → IsCounted n.peer_manager
      → Settled now n (p, ok tt) second Agreed (or_close n second λ q. start_peer hex io now n q)
  unfolding set_state set_connected_at
  second-Settled now n p (q, ok u) Agreed agree fits c =
      elim (node_remove_peer-start_peer hex io now n q fits c) [
        | inl (off, same, down, shut, failed) ↦
            inr (
              inr (inl (record { loop = off; same = same; shut = shut }, refl, inr (refl, failed))))
        | inr (on, up, named, new, found, undone) ↦ inl (
          record { loop = on; up = up; named = named; new = new; found = found; undone = undone },
          refl,
          refl,
          agree refl,
        )
      ]
  second-Settled now n p (q, err e) Agreed agree fits c =
      inr (inr (inl (record { loop = refl; same = refl; shut = refl }, refl, inl (e, refl))))
  second-Settled now n p (q, panic) Agreed agree fits c = inr (inr (inr (refl, inr (refl, refl))))

  -- Two calls that may fail, and startPeer.
  two_calls-Settled :
      (now : ℕ) (n : Node C V) (first : Peer C V × Run (Unit {0}))
      (next : Peer C V → Peer C V × Run (Unit {0})) (Agreed : Type 0)
      → (first.1 ≡ ok tt → (next first.0).1 ≡ ok tt → Agreed)
      → IsConfig n.peer_manager.config
      → IsCounted n.peer_manager
      → Settled now n first
          (next first.0)
          Agreed
          (or_close n first λ q. or_close n (next q) λ p. start_peer hex io now n p)
  two_calls-Settled now n (p, ok u) next Agreed agree fits c =
      second-Settled now n p (next p) Agreed (agree refl) fits c
  two_calls-Settled now n (p, err e) next Agreed agree fits c =
      inr (inl (record { loop = refl; same = refl; shut = refl }, (e, refl)))
  two_calls-Settled now n (p, panic) next Agreed agree fits c = inr (inr (inr (refl, inl refl)))

  send_handshake_ack-id :
      (n : Node C V) (p : Peer C V) (accepted : Bool) (reason : List ℕ)
      → (send_handshake_ack checksum_ieee io n p accepted reason).0.id ≡ p.id
  unfolding send_handshake_ack
  send_handshake_ack-id n p accepted reason =
      written (handshake_ack_bytes checksum_ieee n accepted reason)
    where
      written : (r : Run (List ℕ)) → (write_bytes checksum_ieee io p r).0.id ≡ p.id
      written (ok data') = write_message-id io p data'
      written (err e) = refl
      written panic = refl

  -- On a node whose peer manager has the right counts and limits that an int of 64 bits holds, whatever
  -- comes over a connection. From outside, with receiveHandshake and sendHandshakeAck as the two calls;
  -- to outside, with sendHandshake and receiveHandshakeAck. When neither call nor AddPeer returns an
  -- error, the loop that reads starts, the peer's identifier had no peer before and has this one,
  -- connected, after it, and removePeer of the peer makes the node what it was; what was read is, from
  -- outside, a handshake of the own version with another nonce than the own one, and to outside, an
  -- answer that accepts, with another nonce; and the identifier is the one that it tells. When a call
  -- or AddPeer returns an error, the node is as it was, the connection is shut and no loop starts. When
  -- a call panics, so does all of it.
  pub connections_settle :
      (peer_addr : Peer C V → ℕ → List ℕ) (now : ℕ) (n : Node C V) (addr : List ℕ) (conn : C)
      → IsConfig n.peer_manager.config
      → IsCounted n.peer_manager
      → let p = new_peer now (some conn) inbound in
        let r = receive_handshake checksum_ieee io hex peer_addr now n p in
        let a = send_handshake_ack checksum_ieee io n r.0 true [] in
        let sent =
          send_handshake checksum_ieee io n (set_addr (new_peer now (some conn) outbound) addr) in
        let ack = receive_handshake_ack checksum_ieee io now n sent.0 in
        Settled now n r a
          (Greeted checksum_ieee n (read_message io now p).1 a.0.id)
          (handle_inbound_connection peer_addr now n conn)
        × Settled now n sent ack
            (Accepted checksum_ieee n (read_message io now sent.0).1 ack.0.id)
            (handle_outbound_connection now n addr conn)
  unfolding handle_inbound_connection handle_outbound_connection
  connections_settle peer_addr now n addr conn fits c =
      let p = new_peer now (some conn) inbound in
      let r = receive_handshake checksum_ieee io hex peer_addr now n p in
      let a = send_handshake_ack checksum_ieee io n r.0 true [] in
      let sent =
        send_handshake checksum_ieee io n (set_addr (new_peer now (some conn) outbound) addr) in
      let ack = receive_handshake_ack checksum_ieee io now n sent.0 in
      (
        two_calls-Settled now n r (λ q. send_handshake_ack checksum_ieee io n q true [])
            (Greeted checksum_ieee n (read_message io now p).1 a.0.id)
            (λ e f.
              subst (Greeted checksum_ieee n (read_message io now p).1)
                (sym (send_handshake_ack-id n r.0 true []))
                (receive_handshake-Greeted checksum_ieee io hex peer_addr now n p e))
            fits c,
        two_calls-Settled now n sent (λ q. receive_handshake_ack checksum_ieee io now n q)
            (Accepted checksum_ieee n (read_message io now sent.0).1 ack.0.id)
            (λ e f. receive_handshake_ack-Accepted checksum_ieee io now n sent.0 f) fits c,
      )
