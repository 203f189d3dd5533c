-- ===== src/Broadcast/Sending.antt =====
-- pkg/node/broadcast.go: what the loops that send do to the peers.
use lock_free_p2p_go.Prelude.{
  ℕ, suc, ◌≡◌, refl, ◌∙◌, ap, Bool, true, false, Option, none, some, List, ◌∷◌, [], map,
  if◌then◌else◌, All,
}
use lock_free_p2p_go.Run.{Run, ok, err, panic}
use lock_free_p2p_go.Bytes.{bytes_eq}
use lock_free_p2p_go.GoMap.{lookup}
use lock_free_p2p_go.GoMap.Laws.{lookup-assign}
use lock_free_p2p_go.Peer.{Peer, Connection, is_connected, write_message, after_write, write_to}
use lock_free_p2p_go.Peer.Manager.{PeerManager, for_each_peer}
use lock_free_p2p_go.Broadcast.{is_excluded, put_back, send_each}

-- `err == nil`
abbrev pub is_ok : Run (Unit {0}) → Bool
is_ok (ok u) = true
is_ok (err e) = false
is_ok panic = false

-- Whether Broadcast sends to a peer.
abbrev pub is_wanted : {C V : Type 0} → (exclude : List (List ℕ × Bool)) → Peer C V → Bool
is_wanted exclude p = if is_excluded exclude p.id then false else is_connected p

module _ {C V : Type 0} where
  after_write-id :
      (io : Connection C) (p : Peer C V) (data' : List ℕ) (r : Run (Unit {0}))
      → (after_write io p data' r).id ≡ p.id
  after_write-id io p data' (ok u) = refl
  after_write-id io p data' (err e) = refl
  after_write-id io p data' panic = refl

  write_to-id :
      (io : Connection C) (p : Peer C V) (data' : List ℕ) (c : Option C)
      → (write_to io p data' c).0.id ≡ p.id
  write_to-id io p data' none = refl
  write_to-id io p data' (some c) =
      let r = io.write c data' in after_write-id io (record p { conn = some r.0 }) data' r.1

  pub write_message-id :
      (io : Connection C) (p : Peer C V) (data' : List ℕ) → (write_message io p data').0.id ≡ p.id
  unfolding write_message
  write_message-id io p data' = write_to-id io p data' p.conn

  pub for_each_peer-all :
      (es : List (List ℕ × Peer C V)) → for_each_peer (λ p. true) es ≡ map (λ e. e.1) es
  unfolding for_each_peer
  for_each_peer-all [] = refl
  for_each_peer-all (e ∷ es) = ap (λ ps. e.1 ∷ ps) (for_each_peer-all es)

module _ {C V : Type 0} (io : Connection C) (data' : List ℕ) where
  -- How a peer is after a write, and whether it took the message.
  abbrev pub wrote : Peer C V → Peer C V
  wrote p = (write_message io p data').0

  abbrev pub takes : Peer C V → Bool
  takes p = is_ok (write_message io p data').1

module _ {C V : Type 0} (hex : List ℕ → List ℕ) (io : Connection C) (data' : List ℕ) where
  pub put_back-lookup :
      (m : PeerManager (Peer C V)) (p : Peer C V) (k : List ℕ)
      → lookup (put_back hex m (wrote io data' p)).peers k
        ≡ (if bytes_eq (hex p.id) k then some (wrote io data' p) else lookup m.peers k)
  unfolding put_back
  put_back-lookup m p k =
      rw (write_message-id io p data') (lookup-assign m.peers (hex p.id) k (wrote io data' p))

  pub put_back_other :
      (m : PeerManager (Peer C V)) (p : Peer C V) (k : List ℕ)
      → bytes_eq (hex p.id) k ≡ false
      → lookup (put_back hex m (wrote io data' p)).peers k ≡ lookup m.peers k
  put_back_other m p k h = put_back-lookup m p k ∙ rw h refl

  -- The loop leaves a peer that it does not send to as it was.
  pub send_each_other :
      (ps : List (Peer C V)) (m : PeerManager (Peer C V)) (count : ℕ) (k : List ℕ)
      → All (λ p. bytes_eq (hex p.id) k ≡ false) ps
      → lookup (send_each hex io data' ps m count).0.peers k ≡ lookup m.peers k
  unfolding send_each
  send_each_other [] m count k a = refl
  send_each_other (p ∷ ps) m count k a =
      go (write_message io p data').1 λ n.
        send_each_other ps (put_back hex m (wrote io data' p)) n k a.1 ∙ put_back_other m p k a.0
    where
      go :
          (r : Run (Unit {0}))
          → ((n : ℕ)
              → lookup (send_each hex io data' ps (put_back hex m (wrote io data' p)) n).0.peers k
                ≡ lookup m.peers k)
          → lookup
              (elim r as (λ x. PeerManager (Peer C V) × Run ℕ) [
                | ok u ↦ send_each hex io data' ps (put_back hex m (wrote io data' p)) (suc count)
                | err e ↦ send_each hex io data' ps (put_back hex m (wrote io data' p)) count
                | panic ↦ (put_back hex m (wrote io data' p), panic)
              ]).0.peers
              k
            ≡ lookup m.peers k
      go (ok u) later = later (suc count)
      go (err e) later = later count
      go panic later = put_back_other m p k a.0
