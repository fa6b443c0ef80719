-- ===== src/SyncService/Progress.antt =====
-- A cycle as a sequence of harmless steps (internal/service/sync.go).
use voting_service.Base.{
  ℕ, ◌≤◌, max, ◌≡◌, sym, ◌∙◌, ◌⊎◌, inl, inr, String, true, false, some, none, List, arith, contains,
  Bool-cases, str_eq, str_eq_iff,
}
use voting_service.Base.Int.{ℤ}
use voting_service.Entity.Poll.{Poll, option_ids}
use voting_service.Ports.{Counts, VoteStore, PollRepository}
use voting_service.VoteStore.Replies.{Holds}
use voting_service.SyncService.Sync.{settled}
use voting_service.SyncService.Durable.{Views, Agree, Ready, SyncLaws}

module _ {W : Type 0} (v : Views W) (settle_after : ℤ) (now : ℕ) where
  -- Why a poll may be dropped in a world: there is no such poll, or it is settled and every vote for
  -- one of its options is durable.
  abbrev pub MayDrop : W → String → Type 0
  MayDrop w p =
      (v.stored w p ≡ none)
      ⊎ ((poll : Poll) × (v.stored w p ≡ some poll)
          × (settled settle_after now poll ≡ true)
          × ((o : String) → contains o (option_ids poll) ≡ true → v.votes w p o ≤ v.durable w p o))

  -- A later world of a cycle: votes and polls are the same, a durable count has not fallen and is at
  -- most the greater of what it was and the votes, and only polls that may be dropped were dropped.
  pub record Progress (w w' : W) : Type 0 where
    pub votes : (p o : String) → v.votes w' p o ≡ v.votes w p o
    pub stored : (p : String) → v.stored w' p ≡ v.stored w p
    pub grows : (p o : String) → v.durable w p o ≤ v.durable w' p o
    pub bounded : (p o : String) → v.durable w' p o ≤ max (v.durable w p o) (v.votes w p o)
    pub kept : (p : String) → v.tracked w p ≡ true → (v.tracked w' p ≡ true) ⊎ MayDrop w' p

  pub Progress-of_Agree : (w w' : W) → Agree v w w' → Progress w w'
  Progress-of_Agree w w' a = record {
    votes = a.votes;
    stored = a.stored;
    grows = λ p o. omega (arith, a.durable p o);
    bounded = λ p o. omega (arith, a.durable p o);
    kept = λ p t. inl (a.tracked p ∙ t);
  }

  MayDrop-Progress : (w w' : W) (p : String) → Progress w w' → MayDrop w p → MayDrop w' p
  MayDrop-Progress w w' p g (inl gone) = inl (g.stored p ∙ gone)
  MayDrop-Progress w w' p g (inr (poll, found, done, saved)) = inr (
    poll,
    g.stored p ∙ found,
    done,
    λ o known. omega (arith, saved o known, g.votes p o, g.grows p o),
  )

  pub Progress-trans : (w w' w'' : W) → Progress w w' → Progress w' w'' → Progress w w''
  Progress-trans w w' w'' a b = record {
    votes = λ p o. b.votes p o ∙ a.votes p o;
    stored = λ p. b.stored p ∙ a.stored p;
    grows = λ p o. omega (arith, a.grows p o, b.grows p o);
    bounded = λ p o. omega (arith, a.bounded p o, b.bounded p o, a.votes p o);
    kept = λ p t. from p (a.kept p t);
  }
    where
      from :
          (p : String)
          → (v.tracked w' p ≡ true) ⊎ MayDrop w' p
          → (v.tracked w'' p ≡ true) ⊎ MayDrop w'' p
      from p (inl t) = b.kept p t
      from p (inr d) = inr (MayDrop-Progress w' w'' p b d)

  pub Ready-Progress :
      (Named : String → List String → Type 0) (w w' : W) (p : String)
      → Progress w w'
      → Ready v Named w p
      → Ready v Named w' p
  Ready-Progress Named w w' p g r = record {
    fits = λ o. omega (arith, g.votes p o, r.fits o);
    named = λ poll found. r.named poll (sym (g.stored p) ∙ found);
  }

  module _ {Tx : Type 0} (repo : PollRepository W Tx) (store : VoteStore W)
      (Named : String → List String → Type 0) (laws : SyncLaws repo store v Named) where
    pub save-Progress :
        (p : String) (ids : List String) (c : Counts) (w : W)
        → Named p ids
        → Holds ids (v.votes w p) c
        → Progress w (repo.save_results p c w).1
    save-Progress p ids c w n h = record {
      votes = laws.save_votes p c w;
      stored = laws.save_stored p c w;
      grows = laws.save_grows p c w;
      bounded = λ q o. bound q o (Bool-cases (str_eq q p));
      kept = λ q t. inl (laws.save_tracked p c w q ∙ t);
    }
      where
        bound :
            (q o : String)
            → (str_eq q p ≡ true) ⊎ (str_eq q p ≡ false)
            → v.durable (repo.save_results p c w).1 q o ≤ max (v.durable w q o) (v.votes w q o)
        bound q o (inl same) =
            rw ((str_eq_iff q p).0 same) (laws.save_bounded p ids (v.votes w p) c w o n h)
        bound q o (inr other) =
            omega (arith, laws.save_others p ids c w q o n (λ e. cc (other, (str_eq_iff q p).1 e)))

    -- To drop a poll that may be dropped.
    pub untrack-Progress :
        (p : String) (w : W) → MayDrop w p → Progress w (store.untrack_poll p w).1
    untrack-Progress p w may = record {
      votes = laws.untrack_votes p w;
      stored = laws.untrack_stored p w;
      grows = λ q o. omega (arith, laws.untrack_durable p w q o);
      bounded = λ q o. omega (arith, laws.untrack_durable p w q o);
      kept = λ q t. elim (Bool-cases (str_eq q p)) [
        | inl same ↦ inr (still q (rw ((str_eq_iff q p).0 same) may))
        | inr other ↦ inl (laws.untrack_others p w q (λ e. cc (other, (str_eq_iff q p).1 e)) ∙ t)
      ];
    }
      where
        still : (q : String) → MayDrop w q → MayDrop (store.untrack_poll p w).1 q
        still q (inl gone) = inl (laws.untrack_stored p w q ∙ gone)
        still q (inr (poll, found, done, saved)) = inr (
          poll,
          laws.untrack_stored p w q ∙ found,
          done,
          λ o known.
              omega
                (arith, saved o known, laws.untrack_votes p w q o, laws.untrack_durable p w q o),
        )
