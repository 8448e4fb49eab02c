-- ===== src/AutoRelease/Eligible.antt =====
-- Which escrows the job releases, and what it does with one that is disputed.
use market_x_backend.Common.{
  ℕ, ◌+◌, ◌*◌, ◌≤◌, true, false, not, ◌&&◌, some, List, [], ◌∷◌, ◌++◌, ◌≡◌, refl, ap, ◌∙◌,
  if◌then◌else◌, arith, All, length, Bool-cases, Option-cases, inl, inr, ◌==◌, ◌⊎◌, none, ==_refl,
}
use market_x_backend.Common.Outcome.{Outcome, ok, err, World, resume}
use market_x_backend.Common.Database.{Database}
use market_x_backend.Status.{◌===◌}
use market_x_backend.Entities.{
  EscrowEntity, EscrowStatus, escrow_status_enum, Order, OrderStatus, Dispute, DisputeStatus,
  dispute_status_enum,
}
use market_x_backend.Events.{Event}
use market_x_backend.Rows.{Rows}
use market_x_backend.Escrow.Network.{Stellar}
use market_x_backend.Escrow.Service.{escrow_at}
use market_x_backend.AutoRelease.{
  ms_per_day, is_delivered, is_active, concerns, eligible_loop, find_eligible_escrows, first_active,
  process_auto_release, tally, release_loop, trigger_manual_release,
}
use market_x_backend.Common.Counts.{length-find-old}

module _ (db : Database) where
  -- The order of the escrow was delivered seven days before `now`, or earlier.
  abbrev pub DeliveredLongAgo : ℕ → World (Rows db) Event → EscrowEntity → Type 0
  DeliveredLongAgo now w e =
      (o : Order) × (delivered_at : ℕ) × (db.find_one e.order_id w.rows.orders ≡ some o)
      × (o.status ≡ OrderStatus.delivered)
      × (o.delivered_at ≡ some delivered_at)
      × (delivered_at + 7 * ms_per_day ≤ now)

  abbrev pub Eligible : ℕ → World (Rows db) Event → EscrowEntity → Type 0
  Eligible now w e =
      (e.status ≡ EscrowStatus.locked) × (e.dispute_flag ≡ false) × DeliveredLongAgo now w e

  delivered_long_ago :
      (now : ℕ) (w : World (Rows db) Event) (e : EscrowEntity)
      → is_delivered now (db.find_one e.order_id w.rows.orders) ≡ true
      → DeliveredLongAgo now w e
  unfolding is_delivered
  delivered_long_ago now w e h = elim (Option-cases (db.find_one e.order_id w.rows.orders)) [
    | inl missing ↦ absurd (ground arith)
    | inr (o, found) ↦ elim (Option-cases o.delivered_at) [
      | inl undated ↦ absurd (ground arith)
      | inr (delivered_at, dated) ↦ (o, delivered_at, found, ground arith, dated, ground arith)
    ]
  ]

  abbrev Open : EscrowEntity → Type 0
  Open e = (e.status === EscrowStatus.locked && not e.dispute_flag) ≡ true

  All-snoc :
      (P : EscrowEntity → Type 0) (es : List EscrowEntity) (e : EscrowEntity)
      → All P es
      → P e
      → All P (es ++ e ∷ [])
  All-snoc P [] e h p = (p, tt)
  All-snoc P (f ∷ es) e h p = (h.0, All-snoc P es e h.1 p)

  eligible_loop_sound :
      (now : ℕ) (w : World (Rows db) Event) (es found : List EscrowEntity)
      → All Open es
      → All (Eligible now w) found
      → (result : List EscrowEntity) × (eligible_loop db now es found w ≡ (ok result, w))
        × All (Eligible now w) result
  unfolding eligible_loop
  eligible_loop_sound now w [] found opens h = (found, refl, h)
  eligible_loop_sound now w (e ∷ es) found opens h =
      elim (Bool-cases (is_delivered now (db.find_one e.order_id w.rows.orders))) [
        | inl delivered ↦ rw delivered (
            eligible_loop_sound now w es (found ++ e ∷ []) opens.1 (
              All-snoc (Eligible now w) found e h (
                ground (arith, opens.0),
                ground (arith, opens.0),
                delivered_long_ago now w e delivered,
              )))
        | inr early ↦ rw early (eligible_loop_sound now w es found opens.1 h)
      ]

  -- The job looks for eligible escrows without failing or changing anything, and finds only escrows
  -- that are locked, are not flagged as disputed, and belong to an order that is delivered and was
  -- so at least seven times 24 hours ago.
  pub find_eligible_escrows_sound :
      (now : ℕ) (w : World (Rows db) Event)
      → (result : List EscrowEntity) × (find_eligible_escrows db now w ≡ (ok result, w))
        × All (Eligible now w) result
  unfolding find_eligible_escrows
  find_eligible_escrows_sound now w =
      eligible_loop_sound now w _ [] (db.find-holds _ w.rows.escrows) tt

module _ (db : Database) (stellar : Stellar) where
  -- A stored dispute about the escrow that is not decided is among those that the job finds.
  finds_dispute :
      (k j : ℕ) (w : World (Rows db) Event) (d : Dispute)
      → db.find_one j w.rows.disputes ≡ some d
      → d.escrow_id ≡ some k
      → (d.status ≡ DisputeStatus.open_dispute) ⊎ (d.status ≡ DisputeStatus.escalated)
      → first_active db (db.find (λ x. concerns k x && is_active x) w.rows.disputes) ≡ true
  finds_dispute k j w d stored about undecided =
      let p = λ (x : Dispute). concerns k x && is_active x in
      let freed = record d { escrow_id = none } in
      let same : db.find_one freed.id w.rows.disputes ≡ some d =
        ground (arith, db.find_one-key j w.rows.disputes d stored) in
      let met : p d ≡ true = ground (arith, ==_refl k) in
      let counted = length-find-old db p freed w.rows.disputes d same in
      ground (arith, met, counted)

  -- While a stored dispute about the escrow is open or escalated, the job does not pay the escrow
  -- out, whatever the network would answer: it is flagged, so that it is no longer eligible, and
  -- nothing is sent and no other escrow changed.
  pub process_auto_release_disputed :
      (now j : ℕ) (w : World (Rows db) Event) (e : EscrowEntity) (d : Dispute)
      → db.find_one j w.rows.disputes ≡ some d
      → d.escrow_id ≡ some e.id
      → (d.status ≡ DisputeStatus.open_dispute) ⊎ (d.status ≡ DisputeStatus.escalated)
      → let (r, w') = process_auto_release db stellar now e w in
        (r ≡ ok tt)
        × (w'.emitted ≡ w.emitted)
        × ((i : ℕ)
            → escrow_at db i w'
              ≡ (if e.id == i then some (record e { dispute_flag = true }) else escrow_at db i w))
  unfolding process_auto_release
  process_auto_release_disputed now j w e d stored about undecided =
      let disputed = finds_dispute e.id j w d stored about undecided in
      (
        ground (arith, disputed),
        ground (arith, disputed),
        λ i. grind (arith, disputed, db.find_one-save i),
      )

  tally-sum :
      (r : Outcome (Unit {0})) (counts : ℕ × ℕ)
      → (tally db stellar r counts).0 + (tally db stellar r counts).1 ≡ counts.0 + counts.1 + 1
  tally-sum (ok _) counts = omega arith
  tally-sum (err _) counts = omega arith

  release_loop_counts :
      (now : ℕ) (es : List EscrowEntity) (counts : ℕ × ℕ) (w : World (Rows db) Event)
      → (result : ℕ × ℕ) × (w' : World (Rows db) Event) × (release_loop db stellar now es counts w
          ≡ (ok result, w'))
        × (result.0 + result.1 ≡ counts.0 + counts.1 + length es)
  unfolding release_loop
  release_loop_counts now [] counts w = (counts, w, refl, omega arith)
  release_loop_counts now (e ∷ es) counts w =
      let (r, w1) = process_auto_release db stellar now e w in
      let (result, w', run, sum) = release_loop_counts now es (tally db stellar r counts) w1 in
      (result, w', run, omega (arith, sum, tally-sum r counts))

  -- The job never fails as a whole: it handles every eligible escrow, whatever becomes of the
  -- others, and its two counts add up to how many there were.
  pub trigger_manual_release_returns :
      (now : ℕ) (w : World (Rows db) Event)
      → (eligible : List EscrowEntity) × (counts : ℕ × ℕ) × (w' : World (Rows db) Event)
        × (find_eligible_escrows db now w ≡ (ok eligible, w))
        × (trigger_manual_release db stellar now w ≡ (ok counts, w'))
        × (counts.0 + counts.1 ≡ length eligible)
  unfolding trigger_manual_release
  trigger_manual_release_returns now w =
      let (eligible, finds, _) = find_eligible_escrows_sound db now w in
      let (counts, w', run, sum) = release_loop_counts now eligible (0, 0) w in
      (
        eligible,
        counts,
        w',
        finds,
        ap (resume (λ es. release_loop db stellar now es (0, 0))) finds ∙ run,
        omega (arith, sum),
      )
