-- ===== src/Discovery/Book/Gathering.antt =====
-- pkg/discovery/seed.go: the loops that gather peers, against the list functions.
use lock_free_p2p_go.Prelude.{
  ℕ, suc, ◌-◌, ◌<◌, ◌≡◌, ◌∙◌, ap, sym, Bool, false, List, ◌∷◌, [], ◌++◌, map, length, take, select,
  leb, Bool-cases, inl, inr, arith, append_assoc, append-nil, length-append, take_all,
}
use lock_free_p2p_go.Discovery.{PeerInfo}
use lock_free_p2p_go.Discovery.Book.{Book, gather}

take_one_more :
    (limit : ℕ) (peers : List PeerInfo) (p : PeerInfo) (ps : List PeerInfo)
    → length peers < limit
    → (peers ++ (p ∷ [])) ++ take (limit - length (peers ++ (p ∷ []))) ps
      ≡ peers ++ take (limit - length peers) (p ∷ ps)
take_one_more limit peers p ps h =
    let one : limit - length peers ≡ suc (limit - length (peers ++ (p ∷ []))) =
      omega (arith, length-append peers (p ∷ [])) in
    rw one (append_assoc peers (p ∷ []) (take (limit - length (peers ++ (p ∷ []))) ps))

module _ (keep : List ℕ × PeerInfo → Bool) where
  -- The peers that the loop goes through.
  abbrev pub kept : Book → List PeerInfo
  kept es = map (λ e. e.1) (select keep es)

  -- Without a break the loop appends them all.
  pub gather_all :
      (es : Book) (peers : List PeerInfo) → gather keep (λ n. false) es peers ≡ peers ++ kept es
  unfolding gather
  gather_all [] peers = sym (append-nil peers)
  gather_all (e ∷ es) peers = elim (Bool-cases (keep e)) [
    | inl wanted ↦
        rw wanted (gather_all es (peers ++ (e.1 ∷ [])) ∙ append_assoc peers (e.1 ∷ []) (kept es))
    | inr skipped ↦ rw skipped (gather_all es peers)
  ]

  -- With the break at a limit that is not yet reached it stops there.
  pub gather_up_to :
      (stop : ℕ → Bool) (limit : ℕ)
      → ((n : ℕ) → 0 < n → stop n ≡ leb limit n)
      → (es : Book) (peers : List PeerInfo) → length peers < limit
      → gather keep stop es peers ≡ peers ++ take (limit - length peers) (kept es)
  unfolding gather
  gather_up_to stop limit same [] peers h =
      rw (take_all {A = PeerInfo} [] (limit - length peers) (omega arith)) (sym (append-nil peers))
  gather_up_to stop limit same (e ∷ es) peers h = elim (Bool-cases (keep e)) [
    | inr skipped ↦ rw skipped (gather_up_to stop limit same es peers h)
    | inl wanted ↦
        let more : List PeerInfo = peers ++ (e.1 ∷ []) in
        rw (wanted, same (length more) (omega (arith, length-append peers (e.1 ∷ []))))
          (elim (Bool-cases (leb limit (length more))) [
            | inl full ↦
                let none_left : 0 ≡ limit - length more = ground arith in
                rw full (
                  sym (append-nil more)
                  ∙ ap (λ n. more ++ take n (kept es)) none_left
                  ∙ take_one_more limit peers e.1 (kept es) h)
            | inr room ↦ rw room (
                gather_up_to stop limit same es more (ground arith)
                ∙ take_one_more limit peers e.1 (kept es) h)
          ])
  ]

  pub gather_first :
      (stop : ℕ → Bool) (limit : ℕ)
      → ((n : ℕ) → 0 < n → stop n ≡ leb limit n)
      → 0 < limit
      → (es : Book) → gather keep stop es [] ≡ take limit (kept es)
  gather_first stop limit same h es =
      let whole : limit - 0 ≡ limit = omega arith in
      gather_up_to stop limit same es [] h ∙ ap (λ n. take n (kept es)) whole
