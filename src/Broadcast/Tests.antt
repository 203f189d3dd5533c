-- ===== src/Broadcast/Tests.antt =====
-- The theorems on broadcasts at two connected peers and a third one.
use mathlib.Core.List.Memᴰ as Memᴰ
use mathlib.Core.Logic.{∥∥₁_elim}
use lock_free_p2p_go.Bytes.{bytes_eq}
use lock_free_p2p_go.Bytes.Laws.{bytes_eq→≡}
use lock_free_p2p_go.Prelude.{
  Bool-cases, inl, inr, ◌∙◌, [], Mem, ℕ, suc, ◌≡◌, ◌≢◌, refl, List, ◌∷◌, [], map, true, false, none,
  some, length, ◌%◌, ◌^◌,
}
use mathlib.Core.List.Perm
use mathlib.Core.List.Permᴰ as Permᴰ
use lock_free_p2p_go.Run.{ok, err, panic, io_failure}
use lock_free_p2p_go.GoMap.{lookup}
use lock_free_p2p_go.GoMap.Keys.{IsMap}
use lock_free_p2p_go.GoMap.Totals.{total}
use lock_free_p2p_go.Peer.{
  Connection, Peer, inbound, connected, new_peer, is_connected, write_message,
}
use lock_free_p2p_go.Peer.Manager.{PeerManager, default_manager_config, new_peer_manager}
use lock_free_p2p_go.Protocol.Message.{Message}
use lock_free_p2p_go.Protocol.Message.Wire.{wire}
use lock_free_p2p_go.Broadcast.{
  BroadcastManager, new_broadcast_manager, mark_seen, cleanup, has_seen, get_stats, message_hash,
  broadcast, relay_if_new, select_gossip_targets,
}
use lock_free_p2p_go.Broadcast.Seen.{IsCounted, fresh, marked, cleaned, Reached-IsCounted}
use lock_free_p2p_go.Broadcast.Once.{stays, marks, IsIgnored, relayed_once}
use lock_free_p2p_go.Broadcast.Targets.{IsChoice, select_gossip_targets-IsChoice}
use lock_free_p2p_go.Broadcast.Sending.{is_wanted}
use lock_free_p2p_go.Broadcast.Reaching.{accepted, updated, if_there, broadcast_reaches}
use lock_free_p2p_go.Broadcast.Relaying.{IsSpread, relay_if_new_spreads}

-- A connection that counts what it takes.
abbrev counting : Connection ℕ
counting = record {
  read = λ n. (n, err io_failure);
  write = λ n data'. (suc n, ok tt);
  shut = λ n. (n, ok tt);
  is_shut = λ n. false;
}

abbrev peer_of : ℕ → Peer ℕ ℕ
peer_of n = record (new_peer 7 (some 0) inbound) { id = n ∷ []; state = connected }

abbrev asleep : Peer ℕ ℕ
asleep = record (new_peer 7 none inbound) { id = 3 ∷ [] }

abbrev peers : PeerManager (Peer ℕ ℕ)
peers = record (new_peer_manager default_manager_config) {
  peers = (1 ∷ [], peer_of 1) ∷ (2 ∷ [], peer_of 2) ∷ (3 ∷ [], asleep) ∷ [];
}

abbrev ping : Message
ping = record { type = 2; payload = 9 ∷ []; checksum = 5 }

abbrev fresh_manager : BroadcastManager
fresh_manager = new_broadcast_manager none

-- A hash of bytes, an encoding of identifiers, and an order, for the tests.
abbrev sum : List ℕ → ℕ
sum b = length b

abbrev digits : List ℕ → List ℕ
digits b = b

abbrev in_order : {A : Type 0} → List A → List A
in_order xs = xs

Reached-IsCounted_example :
    let bm = cleanup in_order (10 ^ 15) (mark_seen 5 fresh_manager 77).0 in
    IsMap bm.seen_messages × (get_stats bm ≡ length bm.seen_messages % 2 ^ 64)
Reached-IsCounted_example =
    Reached-IsCounted in_order (λ es. Perm.rfl) (cleaned (10 ^ 15) (marked 5 77 (fresh none)))

fresh-IsCounted_none : IsCounted fresh_manager
unfolding new_broadcast_manager
fresh-IsCounted_none = record { one_each = tt; count_is = refl }

not_seen : has_seen fresh_manager (message_hash sum ping) ≡ false
unfolding has_seen new_broadcast_manager
not_seen = refl

relayed_once_example :
    IsIgnored digits counting sum in_order in_order 100
      (mark_seen 90
        (relay_if_new digits counting sum in_order in_order 50 fresh_manager peers ping
          (peer_of 1)).manager
        4).0
      peers
      ping
relayed_once_example =
    relayed_once digits counting sum in_order in_order in_order 50 100 fresh_manager _ peers peers
      ping ping (peer_of 1) (λ es. Perm.rfl) fresh-IsCounted_none not_seen (marks 90 4 stays) refl

select_gossip_targets-IsChoice_example :
    IsChoice in_order peers
      ((2 ∷ [], true) ∷ [])
      fresh_manager.config.gossip_fanout
      (select_gossip_targets in_order in_order fresh_manager peers ((2 ∷ [], true) ∷ []))
select_gossip_targets-IsChoice_example =
    select_gossip_targets-IsChoice in_order peers ((2 ∷ [], true) ∷ []) in_order fresh_manager
      (λ es. Perm.rfl) (λ ps. Perm.rfl)

write_answers : (n : ℕ) (data' : List ℕ) → (write_message counting (peer_of n) data').1 ≢ panic
unfolding write_message new_peer
write_answers n data' e = absurd (cc e)

IsSafe : Peer ℕ ℕ → Type 0
IsSafe p = is_wanted [] p ≡ true → (write_message counting p (wire ping)).1 ≢ panic

asleep-IsSafe : IsSafe asleep
unfolding IsSafe new_peer
asleep-IsSafe w = absurd (cc w)

awake-IsSafe : (n : ℕ) → IsSafe (peer_of n)
unfolding IsSafe bytes_eq
awake-IsSafe n w = write_answers n (wire ping)

ready : (k : List ℕ) (p : Peer ℕ ℕ) → lookup peers.peers k ≡ some p → (digits p.id ≡ k) × IsSafe p
ready k p e = elim (Bool-cases (bytes_eq (1 ∷ []) k)) [
  | inl first ↦ ready_as (1 ∷ []) (peer_of 1) first refl (rw first at e) (awake-IsSafe 1)
  | inr not_first ↦ elim (Bool-cases (bytes_eq (2 ∷ []) k)) [
    | inl second ↦
        ready_as (2 ∷ []) (peer_of 2) second refl (rw (not_first, second) at e) (awake-IsSafe 2)
    | inr not_second ↦ elim (Bool-cases (bytes_eq (3 ∷ []) k)) [
      | inl third ↦
          ready_as (3 ∷ []) asleep third refl (rw (not_first, not_second, third) at e) asleep-IsSafe
      | inr not_third ↦ absurd (cc (rw (not_first, not_second, not_third) at e))
    ]
  ]
]
  where
    ready_as :
        (key : List ℕ) (q : Peer ℕ ℕ)
        → bytes_eq key k ≡ true
        → digits q.id ≡ key
        → some q ≡ some p
        → IsSafe q
        → (digits p.id ≡ k) × IsSafe p
    ready_as key q same id_is found safe =
        let one : q ≡ p = cc found in rw (← one) ((id_is ∙ bytes_eq→≡ key k same, safe))

broadcast_reaches_example :
    let r = broadcast digits counting sum in_order 50 fresh_manager peers ping [] in
    (r.result ≡ ok (total (accepted counting (wire ping) []) peers.peers))
    × ((k : List ℕ)
        → lookup r.peers.peers k ≡ if_there (updated counting ping []) (lookup peers.peers k))
unfolding IsSafe bytes_eq
broadcast_reaches_example =
    broadcast_reaches digits counting sum in_order 50 fresh_manager peers ping []
      (Permᴰ.refl peers.peers) (refl, (refl, (refl, tt))) ready not_seen

answers :
    (p : Peer ℕ ℕ)
    → Mem p (map (λ e. e.1) peers.peers)
    → is_connected p ≡ true
    → (write_message counting p (wire ping)).1 ≢ panic
unfolding new_peer
answers p i up e = ∥∥₁_elim i (hlevel) (λ j. elim (Memᴰ.cases_cons j) [
  | inl a ↦ write_answers 1 (wire ping) (rw a at e)
  | inr j' ↦ elim (Memᴰ.cases_cons j') [
    | inl b ↦ write_answers 2 (wire ping) (rw b at e)
    | inr j'' ↦ elim (Memᴰ.cases_cons j'') [
      | inl c ↦ let down : is_connected asleep ≡ true = rw c at up in cc down
      | inr none_left ↦ Memᴰ.not-nil none_left
    ]
  ]
])

under :
    (p : Peer ℕ ℕ) → Mem p (map (λ e. e.1) peers.peers) → lookup peers.peers (digits p.id) ≡ some p
unfolding new_peer bytes_eq
under p i = ∥∥₁_elim i (hlevel) (λ j. elim (Memᴰ.cases_cons j) [
  | inl a ↦ rw a refl
  | inr j' ↦ elim (Memᴰ.cases_cons j') [
    | inl b ↦ rw b refl
    | inr j'' ↦ elim (Memᴰ.cases_cons j'') [
      | inl c ↦ rw c refl
      | inr none_left ↦ absurd (Memᴰ.not-nil none_left)
    ]
  ]
])

relay_if_new_spreads_example :
    (targets rest : List (Peer ℕ ℕ)) × IsSpread digits counting sum in_order in_order peers ping
      (peer_of 2)
      fresh_manager.config.gossip_fanout
      targets
      rest
      (relay_if_new digits counting sum in_order in_order 50 fresh_manager peers ping (peer_of 2))
relay_if_new_spreads_example =
    relay_if_new_spreads digits counting sum in_order in_order 50 fresh_manager peers ping
      (peer_of 2) (λ a b e. e) (λ es. Perm.rfl) (λ ps. Perm.rfl) under answers not_seen
