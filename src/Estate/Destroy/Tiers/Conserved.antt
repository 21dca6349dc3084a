-- ===== src/Estate/Destroy/Tiers/Conserved.antt =====
-- estate/destroy.py: what a tier reports and what it leaves recorded.
use tezcatlipoca.Base.{
  ℕ, ◌+◌, Bool, true, false, not, ◌&&◌, ◌||◌, ◌≡◌, refl, sym, ap, ◌∙◌, Option, some, List, [], ◌∷◌,
  ◌++◌, arith, if◌then◌else◌, keep, length, Text, text_beq,
}
use tezcatlipoca.Base.Actions.{Result, ok, err, continue-eq-ok}
use tezcatlipoca.Proxmox.{Proxmox}
use tezcatlipoca.Ownership.{Failure, World}
use tezcatlipoca.Estate.Rows.{Row}
use tezcatlipoca.Estate.Rows.Kinds.{rows_of, forget-rows_of}
use tezcatlipoca.Estate.Destroy.{
  among, in_only, RowFate, destroyed, refused, kept, Report, no_report, report_row, skip_row,
  forget_row,
}
use tezcatlipoca.Estate.Destroy.Tiers.{
  Estate, attempt, settle_row, visit_row, visit_rows, destroy_tier,
}

pub count : (Row → Bool) → List Row → ℕ
unfolding keep
count f rows = length (keep f rows)

-- the rows that a report has under any of its four headings
pub tally : (Row → Bool) → Report → ℕ
unfolding count
tally f r = count f r.destroyed + count f r.refused + count f r.skipped + count f r.kept

tally-no_report : (f : Row → Bool) → tally f no_report ≡ 0
unfolding tally count keep
tally-no_report f = refl

count-snoc :
    (f : Row → Bool) (rows : List Row) (row : Row)
    → count f (rows ++ row ∷ []) ≡ count f rows + (if f row then 1 else 0)
unfolding count keep
count-snoc f [] row = ground arith
count-snoc f (r ∷ rows) row = ground (arith, count-snoc f rows row)

tally-report_row :
    (f : Row → Bool) (fate : RowFate) (row : Row) (r : Report)
    → tally f (report_row fate row r) ≡ tally f r + (if f row then 1 else 0)
unfolding tally report_row
tally-report_row f destroyed row r = ground (arith, count-snoc f r.destroyed row)
tally-report_row f refused row r = ground (arith, count-snoc f r.refused row)
tally-report_row f kept row r = ground (arith, count-snoc f r.kept row)

tally-skip_row :
    (f : Row → Bool) (row : Row) (r : Report)
    → tally f (skip_row row r) ≡ tally f r + (if f row then 1 else 0)
unfolding tally skip_row
tally-skip_row f row r = ground (arith, count-snoc f r.skipped row)

forget_row-rows_of :
    (fate : RowFate) (kind k : Text) (row : Row) (rows : List Row)
    → text_beq kind k ≡ false
    → rows_of k (forget_row fate kind row rows) ≡ rows_of k rows
unfolding forget_row
forget_row-rows_of destroyed kind k row rows h =
    forget-rows_of kind k (some row.name) row.vmid row.bridge rows h
forget_row-rows_of refused kind k row rows h = refl
forget_row-rows_of kept kind k row rows h =
    forget-rows_of kind k (some row.name) row.vmid row.bridge rows h

module _ (px : Proxmox) (comp run_id : Text) (kind : Text) (nodes : Option (List Text))
    (only : Option (List ℕ × List Text)) where
  -- the visit of a row puts it into the report, unless `only` leaves it out
  pub reported : Row → Bool
  reported row = not (among nodes row) || in_only only row

  settled :
      (row : Row) (r : Report) (rows : List Row) (o : Result Failure RowFate) (w : World px)
      (r' : Report)
      → (settle_row px comp run_id kind row r rows (o, w)).0 ≡ ok r'
      → ((f : Row → Bool) → tally f r' ≡ tally f r + (if f row then 1 else 0))
        × ((k : Text)
            → text_beq kind k ≡ false
            → rows_of k (settle_row px comp run_id kind row r rows (o, w)).1.rows ≡ rows_of k rows)
  unfolding settle_row
  settled row r rows (err e) w r' h = cc
  settled row r rows (ok fate) w r' h =
      let q : report_row fate row r ≡ r' = ap (λ o. elim o [ ok x ↦ x | err e ↦ r' ]) h in
      (
        (λ f. ap (tally f) (sym q) ∙ tally-report_row f fate row r),
        (λ k other. forget_row-rows_of fate kind k row rows other),
      )

  picked :
      (a b : Bool) (row : Row) (r : Report) (e : Estate px) (o : Result Failure RowFate)
      (w : World px) (r' : Report)
      → (if not a
          then (ok (skip_row row r), e)
          else if not b
          then (ok r, e)
          else settle_row px comp run_id kind row r e.rows (o, w)).0
        ≡ ok r'
      → ((f : Row → Bool) → tally f r' ≡ tally f r + (if (not a || b) && f row then 1 else 0))
        × ((k : Text)
            → text_beq kind k ≡ false
            → rows_of k
                (if not a
                  then (ok (skip_row row r), e)
                  else if not b
                  then (ok r, e)
                  else settle_row px comp run_id kind row r e.rows (o, w)).1.rows
              ≡ rows_of k e.rows)
  picked false b row r e o w r' h =
      let q : skip_row row r ≡ r' = ap (λ o. elim o [ ok x ↦ x | err e ↦ r' ]) h in
      ((λ f. ap (tally f) (sym q) ∙ tally-skip_row f row r), λ k other. refl)
  picked true false row r e o w r' h =
      let q : r ≡ r' = ap (λ o. elim o [ ok x ↦ x | err e ↦ r' ]) h in
      ((λ f. rw (sym q) (omega arith)), λ k other. refl)
  picked true true row r e o w r' h = settled row r e.rows o w r' h

  visit_row-keeps :
      (row : Row) (r : Report) (e : Estate px) (r' : Report)
      → (visit_row px comp run_id kind nodes only row r e).0 ≡ ok r'
      → ((f : Row → Bool) → tally f r' ≡ tally f r + (if reported row && f row then 1 else 0))
        × ((k : Text)
            → text_beq kind k ≡ false
            → rows_of k (visit_row px comp run_id kind nodes only row r e).1.rows
              ≡ rows_of k e.rows)
  unfolding visit_row reported
  visit_row-keeps row r e r' h =
      let tried = attempt px comp run_id kind row e.world in
      picked (among nodes row) (in_only only row) row r e tried.0 tried.1 r' h

  visit_rows-keeps :
      (rows : List Row) (r : Report) (e : Estate px) (r' : Report)
      → (visit_rows px comp run_id kind nodes only rows r e).0 ≡ ok r'
      → ((f : Row → Bool) → tally f r' ≡ tally f r + count (λ row. reported row && f row) rows)
        × ((k : Text)
            → text_beq kind k ≡ false
            → rows_of k (visit_rows px comp run_id kind nodes only rows r e).1.rows
              ≡ rows_of k e.rows)
  unfolding visit_rows count keep
  visit_rows-keeps [] r e r' h =
      let q : r ≡ r' = ap (λ o. elim o [ ok x ↦ x | err e ↦ r' ]) h in
      ((λ f. rw (sym q) (omega arith)), λ k other. refl)
  visit_rows-keeps (row ∷ rows) r e r' h =
      let first = visit_row px comp run_id kind nodes only row r e in
      let (r1, done, rest, same) =
        continue-eq-ok first.0 first.1 (visit_rows px comp run_id kind nodes only rows) h in
      let here = visit_row-keeps row r e r1 done in
      let later = visit_rows-keeps rows r1 first.1 r' rest in
      (
        (λ f. ground (arith, here.0 f, later.0 f)),
        (λ k other. ap (λ x. rows_of k x.rows) same ∙ later.1 k other ∙ here.1 k other),
      )

  -- When `destroy_tier` returns, each row of the kind that it visits is in the report once, under
  -- one of its four headings, as often as the inventory had it: the rows on a node that was not
  -- asked for, and of the others those that `only` names. The rows of other kinds stay as recorded.
  pub destroy_tier-reports :
      (e : Estate px) (r : Report) (f : Row → Bool) (k : Text)
      → text_beq kind k ≡ false
      → (destroy_tier px comp run_id kind nodes only e).0 ≡ ok r
      → (tally f r ≡ count (λ row. reported row && f row) (rows_of kind e.rows))
        × (rows_of k (destroy_tier px comp run_id kind nodes only e).1.rows ≡ rows_of k e.rows)
  unfolding destroy_tier rows_of
  destroy_tier-reports e r f k other h =
      let kept_rows = visit_rows-keeps (rows_of kind e.rows) no_report e r h in
      (ground (arith, kept_rows.0 f, tally-no_report f), kept_rows.1 k other)
