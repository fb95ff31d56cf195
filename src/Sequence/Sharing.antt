-- ===== src/Sequence/Sharing.antt =====
-- The connector that copies of a sequence share.
use sql_handler.Cursor.{Cursor, reset}
use sql_handler.Odbc.Calls.{close}
use sql_handler.Odbc.State.{Driver, Connector}
use sql_handler.Prelude.{
  ℕ, zero, suc, ◌-◌, ◌≡◌, refl, ap, ◌∙◌, Bool, true, false, Option, none, some, List, [], ◌∷◌, ◌==◌,
  if◌then◌else◌, arith,
}
use sql_handler.Sequence.{
  Shared, reset_connector, reset_if_ready, first_sequence, copy_sequence, drop_sequence,
}

-- A copy of a sequence, or the end of one.
pub data Use : Type 0 where
  copied dropped : Use

-- How many sequences there are after the uses; there is none to copy or to drop at zero.
unfoldable pub left : ℕ → List Use → Option ℕ
left n [] = some n
left zero (u ∷ us) = none
left (suc n) (copied ∷ us) = left (suc (suc n)) us
left (suc n) (dropped ∷ us) = left n us

module _ {W : Type 0} (d : Driver W) where
  unfoldable pub run_uses : Shared W → List Use → Shared W
  run_uses s [] = s
  run_uses s (copied ∷ us) = run_uses (copy_sequence s) us
  run_uses s (dropped ∷ us) = run_uses (drop_sequence d s) us

  reset_twice : (c : Cursor) → reset (reset c) ≡ reset c
  unfolding reset
  reset_twice c = refl

  -- The connector that `n` sequences share.
  abbrev pub shared_by : Connector W → ℕ → Connector W
  shared_by o zero = (close d (reset_connector o)).0
  shared_by o (suc n) = reset_connector o

  abbrev pub share : Connector W → ℕ → Shared W
  share o n = record { connector = shared_by o n; count = n }

  reset_ready : (o : Connector W) → o.ready ≡ true → reset_if_ready o ≡ reset_connector o
  unfolding reset_if_ready
  reset_ready o h = ground (arith, h)

  copy-share :
      (o : Connector W) (n : ℕ)
      → o.ready ≡ true
      → copy_sequence (share o (suc n)) ≡ share o (suc (suc n))
  unfolding copy_sequence
  copy-share o n h =
      ap (λ (w : Connector W). record { connector = w; count = suc (suc n) })
        (reset_ready (reset_connector o) h
          ∙ ap (λ (c : Cursor). record o { cursor = c }) (reset_twice o.cursor))

  drop-share : (o : Connector W) (n : ℕ) → drop_sequence d (share o (suc n)) ≡ share o n
  unfolding drop_sequence
  drop-share o zero = refl
  drop-share o (suc n) =
      let more : (suc (suc n) == 1) ≡ false = ground arith in
      let less : suc (suc n) - 1 ≡ suc n = omega arith in
      ap
        (λ (b : Bool). record {
          connector = if b then (close d (reset_connector o)).0 else reset_connector o;
          count = suc (suc n) - 1;
        })
        more
      ∙ ap (λ (k : ℕ). record { connector = reset_connector o; count = k }) less

  run_uses-share :
      (o : Connector W) (us : List Use) (n m : ℕ)
      → o.ready ≡ true
      → left n us ≡ some m
      → run_uses (share o n) us ≡ share o m
  unfolding run_uses left
  run_uses-share o [] n m h e = let same : n ≡ m = cc in ap (share o) same
  run_uses-share o (u ∷ us) zero m h e = cc
  run_uses-share o (copied ∷ us) (suc n) m h e =
      ap (λ s. run_uses s us) (copy-share o n h) ∙ run_uses-share o us (suc (suc n)) m h e
  run_uses-share o (dropped ∷ us) (suc n) m h e =
      ap (λ s. run_uses s us) (drop-share o n) ∙ run_uses-share o us n m h e

  -- For a connector that is ready, and any copies and ends of sequences, from the first sequence on,
  -- that neither copy nor end a sequence where none is left: while a sequence is left, they share the
  -- connector in front of its first cell and nothing else of it is changed; when the last one ends,
  -- the connector is as `close()` leaves it.
  pub run_uses-shared_by :
      (o : Connector W) (us : List Use) (n : ℕ)
      → o.ready ≡ true
      → left 1 us ≡ some n
      → run_uses (first_sequence o) us ≡ record { connector = shared_by o n; count = n }
  unfolding first_sequence
  run_uses-shared_by o us n h e =
      ap (λ (w : Connector W). run_uses (record { connector = w; count = 1 }) us) (reset_ready o h)
      ∙ run_uses-share o us 1 n h e
