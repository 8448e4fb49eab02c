-- ===== src/Disputes/Expiry.antt =====
-- `autoResolveDisputes`, which closes disputes by time.
use market_x_backend.Common.{
  ℕ, ◌+◌, Bool, true, false, some, List, [], ◌∷◌, ◌≡◌, ◌⊎◌, refl, ◌∙◌, ap, arith, Bool-cases, inl,
  inr, if◌then◌else◌, ◌==◌,
}
use market_x_backend.Common.Outcome.{ok, World, resume}
use market_x_backend.Common.Database.{Database}
use market_x_backend.Status.{◌===◌}
use market_x_backend.Entities.{Dispute, DisputeStatus, dispute_status_enum}
use market_x_backend.Events.{Event}
use market_x_backend.Rows.{Rows}
use market_x_backend.Disputes.StateMachine.{should_auto_resolve}
use market_x_backend.Disputes.Service.{resolve_if, auto_resolve_loop, auto_resolve_disputes}

module _ (db : Database) where
  -- A dispute is as it was, or has been resolved by time.
  abbrev pub Marked : ℕ → World (Rows db) Event → World (Rows db) Event → Type 0
  Marked j w w' =
      (db.find_one j w'.rows.disputes ≡ db.find_one j w.rows.disputes)
      ⊎ ((d : Dispute) × (db.find_one j w'.rows.disputes ≡ some d)
          × (d.status ≡ DisputeStatus.auto_resolved))

  Marked-trans :
      (j : ℕ) (w w1 w2 : World (Rows db) Event) → Marked j w w1 → Marked j w1 w2 → Marked j w w2
  Marked-trans j w w1 w2 (inl e) (inl e') = inl (e' ∙ e)
  Marked-trans j w w1 w2 (inr (d, found, done)) (inl e') = inr (d, e' ∙ found, done)
  Marked-trans j w w1 w2 h (inr marked) = inr marked

  abbrev pub OnlyMarks : World (Rows db) Event → World (Rows db) Event → Type 0
  OnlyMarks w w' =
      (w'.rows ≡ record w.rows { disputes = w'.rows.disputes })
      × (w'.emitted ≡ w.emitted)
      × ((j : ℕ) → Marked j w w')

  OnlyMarks-trans :
      (w w1 w2 : World (Rows db) Event) → OnlyMarks w w1 → OnlyMarks w1 w2 → OnlyMarks w w2
  OnlyMarks-trans w w1 w2 (rows, out, marks) (rows', out', marks') =
      (ground arith, out' ∙ out, λ j. Marked-trans j w w1 w2 (marks j) (marks' j))

  resolve_if-marks :
      (due : Bool) (d : Dispute) (w : World (Rows db) Event)
      → (w' : World (Rows db) Event) × (resolve_if db due d w ≡ (ok tt, w')) × OnlyMarks w w'
  resolve_if-marks false d w = (w, refl, (refl, refl, λ j. inl refl))
  resolve_if-marks true d w =
      let d' : Dispute = record d { status = DisputeStatus.auto_resolved } in
      let stored : (j : ℕ)
          → db.find_one j (db.save d' w.rows.disputes)
            ≡ (if d.id == j then some d' else db.find_one j w.rows.disputes) =
        λ j. db.find_one-save j d' w.rows.disputes in
      (
        (resolve_if db true d w).1,
        refl,
        (
          refl,
          refl,
          λ j. elim (Bool-cases (d.id == j)) [
            | inl same ↦ inr (
              d',
              stored j ∙ ap (λ b. if b then some d' else db.find_one j w.rows.disputes) same,
              refl,
            )
            | inr other ↦
                inl
                  (stored j ∙ ap (λ b. if b then some d' else db.find_one j w.rows.disputes) other)
          ],
        ),
      )

  auto_resolve_loop-marks :
      (now : ℕ) (ds : List Dispute) (count : ℕ) (w : World (Rows db) Event)
      → (n : ℕ) × (w' : World (Rows db) Event) × (auto_resolve_loop db now ds count w ≡ (ok n, w'))
        × OnlyMarks w w'
  unfolding auto_resolve_loop
  auto_resolve_loop-marks now [] count w = (count, w, refl, (refl, refl, λ j. inl refl))
  auto_resolve_loop-marks now (d ∷ ds) count w =
      let due =
        should_auto_resolve d (db.find (λ e. e.dispute_id == d.id) w.rows.evidences) now 3 in
      let (w1, first, marks) = resolve_if-marks due d w in
      let (n, w2, others, marks') =
        auto_resolve_loop-marks now ds (if due then count + 1 else count) w1 in
      (
        n,
        w2,
        ap (resume (λ _. auto_resolve_loop db now ds (if due then count + 1 else count))) first
            ∙ others,
        OnlyMarks-trans w w1 w2 marks marks',
      )

  -- Closing disputes by time never fails. It changes disputes only, and those only to resolved by
  -- time: no escrow is released, refunded or unfrozen, in favor of whomever, and nothing is sent.
  pub auto_resolve_disputes-OnlyMarks :
      (now : ℕ) (w : World (Rows db) Event)
      → (n : ℕ) × (w' : World (Rows db) Event) × (auto_resolve_disputes db now w ≡ (ok n, w'))
        × OnlyMarks w w'
  unfolding auto_resolve_disputes
  auto_resolve_disputes-OnlyMarks now w =
      auto_resolve_loop-marks now
        (db.find (λ d. d.status === DisputeStatus.open_dispute) w.rows.disputes) 0 w
