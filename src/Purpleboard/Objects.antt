-- ===== src/Purpleboard/Objects.antt =====
-- The objects that the board makes and deletes.
use leos_sdk.Prelude.{ℕ, ◌+◌, Bool, true, false, if◌then◌else◌, ◌==◌, some, ◌≡◌, refl, ◌∙◌, arith}
use leos_sdk.Purpleboard.Types.{Result, pb_ok, Purpleboard, Library}
use leos_sdk.Purpleboard.Board.{
  make, detected, set_up_bme, set_up_ltr, set_up_tsl, begin_sensors, init, deinit,
}

-- How often an object was made at an address, and how often one was deleted there.
pub record Counts : Type 0 where
  pub made : ℕ → ℕ
  pub deleted : ℕ → ℕ

abbrev pub one_at : ℕ → ℕ → ℕ
one_at a q = if q == a then 1 else 0

abbrev pub count_new : ℕ × Counts → Counts
count_new (a, c) = record c { made = λ q. one_at a q + c.made q }

abbrev pub count_delete : ℕ → Counts → Counts
count_delete a c = record c { deleted = λ q. one_at a q + c.deleted q }

-- `new` and `delete` are counted, and the other calls do neither.
pub record CountsObjects {W F : Type 0} (lib : Library W F) (counts : W → Counts) : Type 0 where
  pub new_purpleboard :
      (w : W) → counts (lib.new_purpleboard w).1 ≡ count_new ((lib.new_purpleboard w).0, counts w)
  pub new_two_wire :
      (i d c : ℕ) (w : W)
      → counts (lib.new_two_wire i d c w).1 ≡ count_new ((lib.new_two_wire i d c w).0, counts w)
  pub new_bme680 :
      (a : ℕ) (w : W) → counts (lib.new_bme680 a w).1 ≡ count_new ((lib.new_bme680 a w).0, counts w)
  pub new_ltr390 :
      (w : W) → counts (lib.new_ltr390 w).1 ≡ count_new ((lib.new_ltr390 w).0, counts w)
  pub new_pm25aqi :
      (w : W) → counts (lib.new_pm25aqi w).1 ≡ count_new ((lib.new_pm25aqi w).0, counts w)
  pub new_tsl2591 :
      (w : W) → counts (lib.new_tsl2591 w).1 ≡ count_new ((lib.new_tsl2591 w).0, counts w)
  pub delete : (a : ℕ) (w : W) → counts (lib.delete a w) ≡ count_delete a (counts w)
  pub bme_begin : (a : ℕ) (w : W) → counts (lib.bme_begin a w).1 ≡ counts w
  pub set_temperature_oversampling_8x :
      (a : ℕ) (w : W) → counts (lib.set_temperature_oversampling_8x a w) ≡ counts w
  pub set_humidity_oversampling_2x :
      (a : ℕ) (w : W) → counts (lib.set_humidity_oversampling_2x a w) ≡ counts w
  pub set_pressure_oversampling_4x :
      (a : ℕ) (w : W) → counts (lib.set_pressure_oversampling_4x a w) ≡ counts w
  pub set_iir_filter_size_3 : (a : ℕ) (w : W) → counts (lib.set_iir_filter_size_3 a w) ≡ counts w
  pub set_gas_heater_320_150 : (a : ℕ) (w : W) → counts (lib.set_gas_heater_320_150 a w) ≡ counts w
  pub ltr_begin : (a b : ℕ) (w : W) → counts (lib.ltr_begin a b w).1 ≡ counts w
  pub set_mode_uvs : (a : ℕ) (w : W) → counts (lib.set_mode_uvs a w) ≡ counts w
  pub set_resolution_16bit : (a : ℕ) (w : W) → counts (lib.set_resolution_16bit a w) ≡ counts w
  pub set_gain_1 : (a : ℕ) (w : W) → counts (lib.set_gain_1 a w) ≡ counts w
  pub ltr_disable : (a : ℕ) (w : W) → counts (lib.ltr_disable a w) ≡ counts w
  pub aqi_begin_i2c : (a b : ℕ) (w : W) → counts (lib.aqi_begin_i2c a b w).1 ≡ counts w
  pub tsl_begin : (a b : ℕ) (w : W) → counts (lib.tsl_begin a b w).1 ≡ counts w
  pub set_gain_med : (a : ℕ) (w : W) → counts (lib.set_gain_med a w) ≡ counts w
  pub set_timing_300ms : (a : ℕ) (w : W) → counts (lib.set_timing_300ms a w) ≡ counts w

-- Each object that stands in the structure, and the structure, is one more at its address.
abbrev pub owned : Purpleboard → ℕ → ℕ
owned pb q =
    one_at pb.self q
    + one_at pb.wire q
    + one_at pb.bme q
    + one_at pb.ltr q
    + one_at pb.aqi q
    + one_at pb.tsl q

module _ {W F : Type 0} (lib : Library W F) (counts : W → Counts)
    (c : CountsObjects lib counts) where
  detected-counts :
      (set_up : W → W) (r : Result) (o : Bool × W)
      → ((w : W) → counts (set_up w) ≡ counts w)
      → counts (detected lib set_up r o).1 ≡ counts o.1
  detected-counts set_up r (false, w) keeps = refl
  detected-counts set_up r (true, w) keeps = keeps w

  set_up_bme-counts : (a : ℕ) (w : W) → counts (set_up_bme lib a w) ≡ counts w
  unfolding set_up_bme
  set_up_bme-counts a w =
      simp
        (
          c.set_gas_heater_320_150, c.set_iir_filter_size_3, c.set_pressure_oversampling_4x,
          c.set_humidity_oversampling_2x, c.set_temperature_oversampling_8x,
        )
        refl

  set_up_ltr-counts : (a : ℕ) (w : W) → counts (set_up_ltr lib a w) ≡ counts w
  unfolding set_up_ltr
  set_up_ltr-counts a w = simp (c.set_gain_1, c.set_resolution_16bit, c.set_mode_uvs) refl

  set_up_tsl-counts : (a : ℕ) (w : W) → counts (set_up_tsl lib a w) ≡ counts w
  unfolding set_up_tsl
  set_up_tsl-counts a w = simp (c.set_timing_300ms, c.set_gain_med) refl

  begin_sensors-counts : (pb : Purpleboard) (w : W) → counts (begin_sensors lib pb w).1 ≡ counts w
  unfolding begin_sensors
  begin_sensors-counts pb w =
      let a = detected lib (λ w. set_up_bme lib pb.bme w) pb_ok (lib.bme_begin pb.bme w) in
      let b = detected lib (λ w. set_up_ltr lib pb.ltr w) a.0 (lib.ltr_begin pb.ltr pb.wire a.1) in
      let d = detected lib (λ w. w) b.0 (lib.aqi_begin_i2c pb.aqi pb.wire b.1) in
      detected-counts _ d.0 (lib.tsl_begin pb.tsl pb.wire d.1) (set_up_tsl-counts pb.tsl)
      ∙ c.tsl_begin pb.tsl pb.wire d.1
      ∙ detected-counts _ b.0 (lib.aqi_begin_i2c pb.aqi pb.wire b.1) (λ w. refl)
      ∙ c.aqi_begin_i2c pb.aqi pb.wire b.1
      ∙ detected-counts _ a.0 (lib.ltr_begin pb.ltr pb.wire a.1) (set_up_ltr-counts pb.ltr)
      ∙ c.ltr_begin pb.ltr pb.wire a.1
      ∙ detected-counts _ pb_ok (lib.bme_begin pb.bme w) (set_up_bme-counts pb.bme)
      ∙ c.bme_begin pb.bme w

  make-counts :
      (i2c sda scl : ℕ) (w : W) (q : ℕ)
      → let (pb, w') = make lib i2c sda scl w in
        ((counts w').made q ≡ owned pb q + (counts w).made q)
        × ((counts w').deleted q ≡ (counts w).deleted q)
  unfolding make
  make-counts i2c sda scl w q =
      simp
        (
          c.new_tsl2591, c.new_pm25aqi, c.new_ltr390, c.new_bme680, c.new_two_wire,
          c.new_purpleboard,
        )
        (omega arith, refl)

  -- The board's start, whatever it answers, makes six objects, which the structure holds, and
  -- deletes none; and its end deletes exactly these: at each address as many objects were deleted
  -- since as were made.
  pub deinit-init_objects :
      (i2c sda scl : ℕ) (w : W) (q : ℕ)
      → let (_, pb, w') = init lib i2c sda scl w in
        let w'' = deinit lib (some pb) w' in
        ((counts w').made q ≡ owned pb q + (counts w).made q)
        × ((counts w').deleted q ≡ (counts w).deleted q)
        × ((counts w'').made q ≡ (counts w').made q)
        × ((counts w'').deleted q ≡ owned pb q + (counts w).deleted q)
  unfolding init deinit
  deinit-init_objects i2c sda scl w q =
      let m = make lib i2c sda scl w in
      let (made, deleted) = make-counts i2c sda scl w q in
      let begun = begin_sensors-counts m.0 m.1 in
      (
        rw begun made,
        rw begun deleted,
        simp (c.delete, c.ltr_disable) refl,
        simp (c.delete, c.ltr_disable, begun) (omega arith),
      )
