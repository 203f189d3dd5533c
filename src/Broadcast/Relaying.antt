-- ===== src/Broadcast/Relaying.antt =====
-- pkg/node/broadcast.go: a relay.
use lock_free_p2p_go.Prelude.{
  ℕ, suc, ◌+◌, ◌≡◌, ◌≢◌, refl, ap, sym, Bool, true, false, List, ◌∷◌, [], map, length, Bool-cases,
  inl, inr, arith, All, Perm, Mem, select, some, ◌∙◌, ◌++◌,
}
use mathlib.Core.Path.{subst}
use mathlib.Core.List.{Memᴰ}
use mathlib.Core.List.{mem-cons_self, mem-cons_of_mem}
use lock_free_p2p_go.Run.{ok, panic}
use lock_free_p2p_go.Bytes.{bytes_eq}
use lock_free_p2p_go.Bytes.Laws.{bytes_eq→≡, bytes_eq_iff}
use lock_free_p2p_go.GoMap.{lookup}
use lock_free_p2p_go.Peer.{Peer, Connection, is_connected, write_message}
use lock_free_p2p_go.Peer.Manager.{PeerManager}
use lock_free_p2p_go.Protocol.Message.{Message}
use lock_free_p2p_go.Protocol.Message.Wire.{wire, encode-wire}
use lock_free_p2p_go.Broadcast.{
  BroadcastManager, is_excluded, put_back, send_each, mark_seen, has_seen, message_hash, Outcome,
  relay_if_new, select_gossip_targets, and_new,
}
use lock_free_p2p_go.Broadcast.Seen.{mark_seen-is_new, mark_seen-config}
use lock_free_p2p_go.Broadcast.Sending.{
  wrote, takes, send_each_other, put_back-lookup, put_back_other,
}
use lock_free_p2p_go.Broadcast.Reaching.{Run-cases}
use lock_free_p2p_go.Broadcast.Targets.{
  IsChoice, all_wanted, select_gossip_targets-IsChoice, select_gossip_targets-Perm,
}

All-Mem : {A : Type 0} (P : A → Type 0) (xs : List A) → ((a : A) → Mem a xs → P a) → All P xs
All-Mem P [] h = tt
All-Mem P (x ∷ xs) h = (h x mem-cons_self, All-Mem P xs (λ a m. h a (mem-cons_of_mem x m)))

All-Memᴰ : {A : Type 0} (P : A → Type 0) (xs : List A) → ((a : A) → Memᴰ a xs → P a) → All P xs
All-Memᴰ P [] h = tt
All-Memᴰ P (x ∷ xs) h = (h x (Memᴰ.head refl), All-Memᴰ P xs (λ a m. h a (Memᴰ.tail m)))

some-injective : {A : Type 0} {a b : A} → some a ≡ some b → a ≡ b
some-injective e = cc

module _ {C V : Type 0} (hex : List ℕ → List ℕ) (io : Connection C) (data' : List ℕ) where
  -- No write panics: the loop returns how many of the peers took the message.
  send_each_counts :
      (ps : List (Peer C V)) (m : PeerManager (Peer C V)) (count : ℕ)
      → All (λ p. (write_message io p data').1 ≢ panic) ps
      → (send_each hex io data' ps m count).1 ≡ ok (count + length (select (takes io data') ps))
  unfolding send_each
  send_each_counts [] m count a = ap ok (omega arith)
  send_each_counts (p ∷ ps) m count a =
      let later = λ (c : ℕ). send_each_counts ps (put_back hex m (wrote io data' p)) c a.1 in
      elim (Run-cases (write_message io p data').1) [
        | inl sent ↦ rw (send_each, sent) (later (suc count) ∙ ap ok (omega arith))
        | inr (inl (x, failed)) ↦ rw (send_each, failed) (later count)
        | inr (inr crashed) ↦ absurd (a.0 crashed)
      ]

  -- One round of the loop, whose write does not panic.
  send_each_next :
      (p : Peer C V) (ps : List (Peer C V)) (m : PeerManager (Peer C V)) (count : ℕ)
      → (write_message io p data').1 ≢ panic
      → (c : ℕ) × (send_each hex io data' (p ∷ ps) m count
          ≡ send_each hex io data' ps (put_back hex m (wrote io data' p)) c)
  unfolding send_each
  send_each_next p ps m count answers = elim (Run-cases (write_message io p data').1) [
    | inl sent ↦ (suc count, rw (send_each, sent) refl)
    | inr (inl (x, failed)) ↦ (count, rw (send_each, failed) refl)
    | inr (inr crashed) ↦ absurd (answers crashed)
  ]

  -- The same identifier is the same peer.
  abbrev IsOne : Peer C V → Peer C V → Type 0
  IsOne p q = bytes_eq (hex q.id) (hex p.id) ≡ true → q ≡ p

  put_back_own :
      (m : PeerManager (Peer C V)) (p : Peer C V)
      → lookup (put_back hex m (wrote io data' p)).peers (hex p.id) ≡ some (wrote io data' p)
  put_back_own m p =
      let self : bytes_eq (hex p.id) (hex p.id) ≡ true =
        (bytes_eq_iff (hex p.id) (hex p.id)).1 refl in
      put_back-lookup hex io data' m p (hex p.id) ∙ rw self refl

  -- A peer that was written to stays so.
  send_each_kept :
      (p : Peer C V) (ps : List (Peer C V)) (m : PeerManager (Peer C V)) (count : ℕ)
      → All (λ q. (write_message io q data').1 ≢ panic) ps
      → All (IsOne p) ps
      → lookup m.peers (hex p.id) ≡ some (wrote io data' p)
      → lookup (send_each hex io data' ps m count).0.peers (hex p.id) ≡ some (wrote io data' p)
  unfolding send_each
  send_each_kept p [] m count a one e = e
  send_each_kept p (q ∷ ps) m count a one e =
      let next = put_back hex m (wrote io data' q) in
      let written : lookup next.peers (hex p.id) ≡ some (wrote io data' p) =
        elim (Bool-cases (bytes_eq (hex q.id) (hex p.id))) [
          | inl same ↦
              let here = one.0 same in
              subst
                (λ x.
                  lookup (put_back hex m (wrote io data' x)).peers (hex p.id)
                  ≡ some (wrote io data' p))
                (sym here) (put_back_own m p)
          | inr other ↦ put_back_other hex io data' m q (hex p.id) other ∙ e
        ] in
      let (c, round) = send_each_next q ps m count a.0 in
      ap (λ r. lookup r.0.peers (hex p.id)) round ∙ send_each_kept p ps next c a.1 one.1 written

  -- The loop writes to each of its peers.
  send_each_writes :
      (p : Peer C V) (ps : List (Peer C V)) (m : PeerManager (Peer C V)) (count : ℕ)
      → All (λ q. (write_message io q data').1 ≢ panic) ps
      → All (IsOne p) ps
      → Memᴰ p ps
      → lookup (send_each hex io data' ps m count).0.peers (hex p.id) ≡ some (wrote io data' p)
  send_each_writes p [] m count a one i = elim i [ ]
  send_each_writes p (q ∷ ps) m count a one (Memᴰ.head e) =
      let next = put_back hex m (wrote io data' q) in
      let (c, round) = send_each_next q ps m count a.0 in
      let written : lookup next.peers (hex p.id) ≡ some (wrote io data' p) =
        subst
          (λ x.
            lookup (put_back hex m (wrote io data' x)).peers (hex p.id) ≡ some (wrote io data' p))
          e (put_back_own m p) in
      ap (λ r. lookup r.0.peers (hex p.id)) round ∙ send_each_kept p ps next c a.1 one.1 written
  send_each_writes p (q ∷ ps) m count a one (Memᴰ.tail i) =
      let next = put_back hex m (wrote io data' q) in
      let (c, round) = send_each_next q ps m count a.0 in
      ap (λ r. lookup r.0.peers (hex p.id)) round ∙ send_each_writes p ps next c a.1 one.1 i

not_excluded :
    (from id : List ℕ) → is_excluded ((from, true) ∷ []) id ≡ false → bytes_eq from id ≡ false
not_excluded from id h = elim (Bool-cases (bytes_eq from id)) [
  | inl same ↦ absurd (cc (rw same at h))
  | inr other ↦ other
]

module _ {C V : Type 0} (hex : List ℕ → List ℕ) (io : Connection C) (sum64 : List ℕ → ℕ)
    (range : List (List ℕ × Peer C V) → List (List ℕ × Peer C V))
    (shuffle : List (Peer C V) → List (Peer C V)) where
  new_relay :
      (now : ℕ) (bm : BroadcastManager) (m : PeerManager (Peer C V)) (msg : Message)
      (from : Peer C V)
      → has_seen bm (message_hash sum64 msg) ≡ false
      → let marked = (mark_seen now bm (message_hash sum64 msg)).0 in
        let targets = select_gossip_targets range shuffle marked m ((from.id, true) ∷ []) in
        let r = send_each hex io (wire msg) targets m 0 in
        relay_if_new hex io sum64 range shuffle now bm m msg from
        ≡ record { manager = marked; peers = r.0; result = and_new r.1 }
  unfolding relay_if_new
  new_relay now bm m msg from new =
      let first = mark_seen-is_new now bm (message_hash sum64 msg) new in
      rw (relay_if_new, first, encode-wire msg) refl

  -- What RelayIfNew leaves, when it has taken `targets` of the connected peers that are not the sender
  -- and has left `rest`.
  pub record IsSpread (m : PeerManager (Peer C V)) (msg : Message) (from : Peer C V) (fanout : ℕ)
      (targets rest : List (Peer C V)) (r : Outcome C V (ℕ × Bool)) : Type 0 where
    pub choice : IsChoice range m ((from.id, true) ∷ []) fanout targets
    pub each_once : Perm (targets ++ rest) (all_wanted range m ((from.id, true) ∷ []))
    pub result : r.result ≡ ok (length (select (takes io (wire msg)) targets), true)
    pub written : All (λ p. lookup r.peers.peers (hex p.id) ≡ some (wrote io (wire msg) p)) targets
    pub kept :
        (p : Peer C V)
        → Mem p (map (λ e. e.1) m.peers)
        → (Mem p targets → ⊥)
        → lookup r.peers.peers (hex p.id) ≡ lookup m.peers (hex p.id)
    pub sender : lookup r.peers.peers (hex from.id) ≡ lookup m.peers (hex from.id)

  same_peer :
      (m : PeerManager (Peer C V))
      → ((p : Peer C V) → Mem p (map (λ e. e.1) m.peers) → lookup m.peers (hex p.id) ≡ some p)
      → (p q : Peer C V) → Mem p (map (λ e. e.1) m.peers)
      → Mem q (map (λ e. e.1) m.peers)
      → bytes_eq (hex q.id) (hex p.id) ≡ true
      → q ≡ p
  same_peer m under p q i j e =
      let equal = bytes_eq→≡ (hex q.id) (hex p.id) e in
      some-injective (sym (under q j) ∙ ap (lookup m.peers) equal ∙ under p i)

  -- RelayIfNew of a message that is new, when each peer stands under its identifier, no connected peer
  -- lacks a connection and the encoding of the identifiers is injective, in whatever order a loop goes
  -- through the peers and whatever the shuffle: it takes some of the peers that are connected and not
  -- the sender, each at most once, at most the fanout, and all of them or as many as the fanout; it
  -- writes the message to each of these, and the other peers, the sender included, stay as they were;
  -- and it returns the number of those that took the message, and that it is new.
  pub relay_if_new_spreads :
      (now : ℕ) (bm : BroadcastManager) (m : PeerManager (Peer C V)) (msg : Message)
      (from : Peer C V)
      → ((a b : List ℕ) → hex a ≡ hex b → a ≡ b)
      → ((es : List (List ℕ × Peer C V)) → Perm (range es) es)
      → ((ps : List (Peer C V)) → Perm (shuffle ps) ps)
      → ((p : Peer C V) → Mem p (map (λ e. e.1) m.peers) → lookup m.peers (hex p.id) ≡ some p)
      → ((p : Peer C V)
          → Mem p (map (λ e. e.1) m.peers)
          → is_connected p ≡ true
          → (write_message io p (wire msg)).1 ≢ panic)
      → has_seen bm (message_hash sum64 msg) ≡ false
      → (targets rest : List (Peer C V)) × IsSpread m msg from bm.config.gossip_fanout targets rest
          (relay_if_new hex io sum64 range shuffle now bm m msg from)
  relay_if_new_spreads now bm m msg from distinct same mixed under answers new =
      let exclude : List (List ℕ × Bool) = (from.id, true) ∷ [] in
      let marked = (mark_seen now bm (message_hash sum64 msg)).0 in
      let targets = select_gossip_targets range shuffle marked m exclude in
      let (rest, once) = select_gossip_targets-Perm range m exclude shuffle marked same mixed in
      let choice =
        subst (λ c. IsChoice range m exclude c.gossip_fanout targets)
          (mark_seen-config now bm (message_hash sum64 msg))
          (select_gossip_targets-IsChoice range m exclude shuffle marked same mixed) in
      let answer =
        All-Mem _ targets
          (λ p i. (let (within, w) = choice.each p i in answers p within w.connected)) in
      let one = λ (p : Peer C V) (i : Mem p (map (λ e. e.1) m.peers)).
        All-Mem (λ q. bytes_eq (hex q.id) (hex p.id) ≡ true → q ≡ p) targets
          (λ q j. same_peer m under p q i (choice.each q j).0) in
      let apart =
        All-Mem (λ p. bytes_eq (hex p.id) (hex from.id) ≡ false) targets
          (λ p i. differ p.id (not_excluded from.id p.id (choice.each p i).1.not_excluded)) in
      rw (new_relay now bm m msg from new) (
        targets,
        rest,
        record {
          choice = choice;
          each_once = once;
          result =
              ap and_new (send_each_counts hex io (wire msg) targets m 0 answer)
              ∙ ap (λ n. ok (n, true)) (omega arith);
          written = All-Memᴰ _ targets (λ p i.
              send_each_writes hex io (wire msg) p targets m 0 answer
                (one p (choice.each p ∣ i ∣₁).0) i);
          kept = λ p i out. send_each_other hex io (wire msg) targets m 0 (hex p.id) (
              All-Mem (λ q. bytes_eq (hex q.id) (hex p.id) ≡ false) targets
                (λ q j. elim (Bool-cases (bytes_eq (hex q.id) (hex p.id))) [
                  | inl equal ↦ absurd (
                      out (
                        subst (λ x. Mem x targets)
                          (same_peer m under p q i (choice.each q j).0 equal) j))
                  | inr unequal ↦ unequal
                ]));
          sender = send_each_other hex io (wire msg) targets m 0 (hex from.id) apart;
        },
      )
    where
      differ : (id : List ℕ) → bytes_eq from.id id ≡ false → bytes_eq (hex id) (hex from.id) ≡ false
      differ id h = elim (Bool-cases (bytes_eq (hex id) (hex from.id))) [
        | inl equal ↦
            let one = distinct id from.id (bytes_eq→≡ (hex id) (hex from.id) equal) in
            absurd (cc (h, (bytes_eq_iff from.id id).1 (sym one)))
        | inr unequal ↦ unequal
      ]
