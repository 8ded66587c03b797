-- ===== src/Instruments/Filters.antt =====
-- Which orders pass the filters.
use wickra_exchange.Prelude.{◌≡◌, Bool, true, false, not, ◌&&◌, ◌||◌, Option, none, some, arith}
use mathlib.Core.Path.{subst}
use wickra_exchange.Prelude.Ord.{same}
use wickra_exchange.Decimal.{Decimal, decimal_ord, ltd}
use wickra_exchange.Error.{Result, ok, err, filter, ◌>>◌}
use wickra_exchange.Instruments.{InstrumentFilters, validate_quantity, validate_price, validate}

-- The answer is a success, or an error of the filters.
abbrev pub Answers : Bool → Result (Unit {0}) → Type 0
Answers accepted (ok _) = accepted ≡ true
Answers accepted (err (filter _)) = accepted ≡ false
Answers accepted (err _) = ⊥

Answers-seq :
    (a b : Bool) (r s : Result (Unit {0})) → Answers a r → Answers b s → Answers (a && b) (r >> s)
Answers-seq a b (ok _) s h k = rw h k
Answers-seq a b (err e) s h k = ground arith

Answers-none : (a : Bool) (r : Result (Unit {0})) → Answers a r → Answers a (r >> ok tt)
Answers-none a (ok _) h = h
Answers-none a (err e) h = h

and_assoc : (a b c : Bool) → a && (b && c) ≡ a && b && c
and_assoc a b c = ground arith

module _ {D : Type 0} ⦃d : Decimal D⦄ where
  -- A value between two bounds and on a grid; a maximum or a step that is not positive sets none.
  abbrev pub is_within : D → D → D → D → Bool
  is_within lowest highest step value =
      not (ltd value lowest)
      && (not (ltd d.nought highest) || not (ltd highest value))
      && (not (ltd d.nought step) || same (d.rem value step) d.nought)

  -- The order keeps to every filter of the instrument.
  abbrev pub is_acceptable : InstrumentFilters D → D → Option D → Bool
  is_acceptable f quantity none = is_within f.min_quantity f.max_quantity f.step_size quantity
  is_acceptable f quantity (some price) =
      is_within f.min_quantity f.max_quantity f.step_size quantity
      && is_within f.min_price f.max_price f.tick_size price
      && (not (ltd d.nought f.min_notional) || not (ltd (d.mul quantity price) f.min_notional))

  quantity-Answers :
      (f : InstrumentFilters D) (quantity : D)
      → Answers
          (is_within f.min_quantity f.max_quantity f.step_size quantity)
          (validate_quantity f quantity)
  unfolding validate_quantity
  quantity-Answers f quantity = ground arith

  price-Answers :
      (f : InstrumentFilters D) (quantity price : D)
      → Answers
          (is_within f.min_price f.max_price f.tick_size price
            && (not (ltd d.nought f.min_notional)
                || not (ltd (d.mul quantity price) f.min_notional)))
          (validate_price f quantity price)
  unfolding validate_price
  price-Answers f quantity price = ground arith

  -- An order is let through exactly if its quantity lies within its bounds and on the step's grid
  -- and, where it has a price, the price lies within its bounds and on the tick's grid and the
  -- notional is not below its minimum; a maximum, a step, a tick or a minimum notional that is not
  -- positive asks for nothing. Every other order gets an error of the filters.
  pub validate_lem :
      (f : InstrumentFilters D) (quantity : D) (price : Option D)
      → Answers (is_acceptable f quantity price) (validate f quantity price)
  unfolding validate
  validate_lem f quantity none = Answers-none _ _ (quantity-Answers f quantity)
  validate_lem f quantity (some price) =
      let fits = is_within f.min_quantity f.max_quantity f.step_size quantity in
      let priced = is_within f.min_price f.max_price f.tick_size price in
      subst (λ b. Answers b (validate f quantity (some price))) (and_assoc fits priced _)
        (Answers-seq fits _ _ (validate_price f quantity price) (quantity-Answers f quantity)
          (price-Answers f quantity price))
