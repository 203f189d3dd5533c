-- ===== src/Broadcast/Reaching.antt =====
-- pkg/node/broadcast.go: which peers a Broadcast writes to.
use lock_free_p2p_go.Prelude.{
  ℕ, suc, ◌+◌, ◌≡◌, ◌≢◌, ◌⊎◌, refl, ◌∙◌, ap, sym, Bool, true, false, Option, none, some, List, ◌∷◌,
  [], map, if◌then◌else◌, Bool-cases, inl, inr, arith, All,
}
use mathlib.Core.List.{Permᴰ}
use mathlib.Core.List.Permᴰ as Permᴰ
use lock_free_p2p_go.Run.{Run, ok, err, panic, Error}
use lock_free_p2p_go.Bytes.{bytes_eq}
use lock_free_p2p_go.Bytes.Laws.{bytes_eq→≡}
use lock_free_p2p_go.GoMap.{lookup}
use lock_free_p2p_go.GoMap.Keys.{IsMap}
use lock_free_p2p_go.GoMap.Totals.{total}
use lock_free_p2p_go.GoMap.Orders.{perm-SameMap, perm-total}
use lock_free_p2p_go.GoMap.Sweep.{IsWithin-itself, IsWithin}
use lock_free_p2p_go.Peer.{Peer, Connection, is_connected, write_message}
use lock_free_p2p_go.Peer.Manager.{PeerManager}
use lock_free_p2p_go.Protocol.Message.{Message}
use lock_free_p2p_go.Protocol.Message.Wire.{wire, encode-wire}
use lock_free_p2p_go.Broadcast.{
  BroadcastManager, is_excluded, put_back, send_to_all, mark_seen, has_seen, message_hash,
  broadcast,
}
use lock_free_p2p_go.Broadcast.Sending.{
  is_wanted, wrote, takes, put_back-lookup, put_back_other, for_each_peer-all,
}

pub Run-cases : (r : Run (Unit {0})) → (r ≡ ok tt) ⊎ ((e : Error) × (r ≡ err e)) ⊎ (r ≡ panic)
Run-cases (ok u) = inl refl
Run-cases (err e) = inr (inl (e, refl))
Run-cases panic = inr (inr refl)

module _ {C V : Type 0} (io : Connection C) (data' : List ℕ) (exclude : List (List ℕ × Bool)) where
  -- What a key looks up after the loop has gone through entries, of which it looks up the first.
  abbrev pub after : Option (Peer C V) → Option (Peer C V) → Option (Peer C V)
  after none before = before
  after (some p) before = if is_wanted exclude p then some (wrote io data' p) else before

  abbrev pub accepted : Peer C V → ℕ
  accepted p = if is_wanted exclude p then (if takes io data' p then 1 else 0) else 0

module _ {C V : Type 0} (hex : List ℕ → List ℕ) (io : Connection C) (data' : List ℕ)
    (exclude : List (List ℕ × Bool)) where
  skips :
      (p : Peer C V) (ps : List (Peer C V)) (m : PeerManager (Peer C V)) (count : ℕ)
      → is_wanted exclude p ≡ false
      → send_to_all hex io data' exclude (p ∷ ps) m count
        ≡ send_to_all hex io data' exclude ps m count
  unfolding send_to_all
  skips p ps m count h = elim (Bool-cases (is_excluded exclude p.id)) [
    | inl out ↦ rw (send_to_all, out) refl
    | inr within ↦
        let down : is_connected p ≡ false = rw within at h in rw (send_to_all, within, down) refl
  ]

  wanted-split :
      (p : Peer C V)
      → is_wanted exclude p ≡ true
      → (is_excluded exclude p.id ≡ false) × (is_connected p ≡ true)
  wanted-split p h = ground (arith, h)

  sends :
      (p : Peer C V) (ps : List (Peer C V)) (m : PeerManager (Peer C V)) (count : ℕ)
      → is_wanted exclude p ≡ true
      → (write_message io p data').1 ≢ panic
      → send_to_all hex io data' exclude (p ∷ ps) m count
        ≡ send_to_all hex io data' exclude ps
            (put_back hex m (wrote io data' p))
            (if takes io data' p then suc count else count)
  unfolding send_to_all
  sends p ps m count h answers =
      let (within, up) = wanted-split p h in
      elim (Run-cases (write_message io p data').1) [
        | inl sent ↦ rw (send_to_all, within, up, sent) refl
        | inr (inl (e, failed)) ↦ rw (send_to_all, within, up, failed) refl
        | inr (inr crashed) ↦ absurd (answers crashed)
      ]

  -- Each entry stands under the identifier of its peer, and no write to it panics.
  abbrev pub IsReady : List (List ℕ × Peer C V) → Type 0
  IsReady es =
      All
        (λ e.
          (hex e.1.id ≡ e.0)
          × (is_wanted exclude e.1 ≡ true → (write_message io e.1 data').1 ≢ panic))
        es

  record Reaches (order : List (List ℕ × Peer C V)) (m : PeerManager (Peer C V)) (count : ℕ)
      (r : PeerManager (Peer C V) × Run ℕ) : Type 0 where
    result : r.1 ≡ ok (count + total (accepted io data' exclude) order)
    looks_up :
        (k : List ℕ)
        → lookup r.0.peers k ≡ after io data' exclude (lookup order k) (lookup m.peers k)

  send_to_all-Reaches :
      (order : List (List ℕ × Peer C V)) (m : PeerManager (Peer C V)) (count : ℕ)
      → IsMap order
      → IsReady order
      → Reaches order m count (send_to_all hex io data' exclude (map (λ e. e.1) order) m count)
  unfolding send_to_all
  send_to_all-Reaches [] m count one ready = record {
    result = ap ok (omega arith);
    looks_up = λ k. refl;
  }
  send_to_all-Reaches (e ∷ order) m count one ready = elim (Bool-cases (is_wanted exclude e.1)) [
    | inr left_out ↦
        let later = send_to_all-Reaches order m count one.1 ready.1 in
        rw (skips e.1 (map (λ x. x.1) order) m count left_out) (record {
          result = later.result ∙ ap ok (counts_not left_out);
          looks_up = λ k. elim (Bool-cases (bytes_eq e.0 k)) [
            | inl here ↦
                let absent : lookup order k ≡ none = rw (bytes_eq→≡ e.0 k here) at one.0 in
                rw (here, left_out) (later.looks_up k ∙ rw absent refl)
            | inr other ↦ rw other (later.looks_up k)
          ];
        })
    | inl wanted ↦
        let next = put_back hex m (wrote io data' e.1) in
        let count' = if takes io data' e.1 then suc count else count in
        let later = send_to_all-Reaches order next count' one.1 ready.1 in
        rw (sends e.1 (map (λ x. x.1) order) m count wanted (ready.0.1 wanted)) (record {
          result = later.result ∙ ap ok (counts wanted);
          looks_up = λ k. elim (Bool-cases (bytes_eq e.0 k)) [
            | inl here ↦
                let absent : lookup order k ≡ none = rw (bytes_eq→≡ e.0 k here) at one.0 in
                let at_key : bytes_eq (hex e.1.id) k ≡ true = rw ready.0.0 here in
                let written : lookup next.peers k ≡ some (wrote io data' e.1) =
                  put_back-lookup hex io data' m e.1 k ∙ rw at_key refl in
                rw (here, wanted) (later.looks_up k ∙ rw (absent, written) refl)
            | inr other ↦
                let apart : bytes_eq (hex e.1.id) k ≡ false = rw ready.0.0 other in
                rw other (later.looks_up k ∙ rw (put_back_other hex io data' m e.1 k apart) refl)
          ];
        })
  ]
    where
      counts :
          is_wanted exclude e.1 ≡ true
          → (if takes io data' e.1 then suc count else count)
              + total (accepted io data' exclude) order
            ≡ count + total (accepted io data' exclude) (e ∷ order)
      counts h = rw h (elim (Bool-cases (takes io data' e.1)) [
        | inl taken ↦ rw taken (omega arith)
        | inr refused ↦ rw refused (omega arith)
      ])

      counts_not :
          is_wanted exclude e.1 ≡ false
          → count + total (accepted io data' exclude) order
            ≡ count + total (accepted io data' exclude) (e ∷ order)
      counts_not h = rw h (omega arith)

  IsReady-in_order :
      (order es : List (List ℕ × Peer C V))
      → ((k : List ℕ) (p : Peer C V)
          → lookup es k ≡ some p
          → (hex p.id ≡ k) × (is_wanted exclude p ≡ true → (write_message io p data').1 ≢ panic))
      → IsWithin order es
      → IsReady order
  IsReady-in_order [] es h w = tt
  IsReady-in_order (e ∷ order) es h w = (h e.0 e.1 w.0, IsReady-in_order order es h w.1)

abbrev pub if_there : {A : Type 0} → (A → A) → Option A → Option A
if_there f none = none
if_there f (some a) = some (f a)

module _ {C V : Type 0} where
  -- Whether Broadcast sends a message to a peer, and how the peer is afterwards.
  abbrev pub updated :
      Connection C → Message → (exclude : List (List ℕ × Bool)) → Peer C V → Peer C V
  updated io msg exclude p = if is_wanted exclude p then wrote io (wire msg) p else p

module _ {C V : Type 0} (hex : List ℕ → List ℕ) (io : Connection C) (sum64 : List ℕ → ℕ)
    (range : List (List ℕ × Peer C V) → List (List ℕ × Peer C V)) where
  -- Broadcast of a message that is new, when each peer stands under its identifier and no connected
  -- peer lacks a connection, in whatever order the loop goes through the peers: each peer that is
  -- connected and not excluded is written to once, the others stay as they were, and what is returned
  -- is the number of those that took the message.
  pub broadcast_reaches :
      (now : ℕ) (bm : BroadcastManager) (m : PeerManager (Peer C V)) (msg : Message)
      (exclude : List (List ℕ × Bool))
      → Permᴰ (range m.peers) m.peers
      → IsMap m.peers
      → ((k : List ℕ) (p : Peer C V)
          → lookup m.peers k ≡ some p
          → (hex p.id ≡ k)
            × (is_wanted exclude p ≡ true → (write_message io p (wire msg)).1 ≢ panic))
      → has_seen bm (message_hash sum64 msg) ≡ false
      → let r = broadcast hex io sum64 range now bm m msg exclude in
        (r.result ≡ ok (total (accepted io (wire msg) exclude) m.peers))
        × ((k : List ℕ)
            → lookup r.peers.peers k ≡ if_there (updated io msg exclude) (lookup m.peers k))
  unfolding broadcast mark_seen has_seen
  broadcast_reaches now bm m msg exclude p one ready new =
      let s = perm-SameMap (Permᴰ.symm p) one in
      let within = IsWithin-itself (range m.peers) s.is_map in
      let order_ready =
        IsReady-in_order hex io (wire msg) exclude (range m.peers) (range m.peers)
          (λ k q e. ready k q (sym (s.looks_up k) ∙ e)) within in
      let reached =
        send_to_all-Reaches hex io (wire msg) exclude (range m.peers) m 0 s.is_map order_ready in
      rw (broadcast, encode-wire msg, new, for_each_peer-all (range m.peers))
        (
          reached.result ∙ ap ok (omega (arith, perm-total (accepted io (wire msg) exclude) p)),
          λ k. reached.looks_up k ∙ rw (s.looks_up k) (same (lookup m.peers k)),
        )
    where
      same :
          (o : Option (Peer C V))
          → after io (wire msg) exclude o o ≡ if_there (updated io msg exclude) o
      same none = refl
      same (some q) = elim (Bool-cases (is_wanted exclude q)) [
        | inl wanted ↦ rw wanted refl
        | inr left_out ↦ rw left_out refl
      ]
