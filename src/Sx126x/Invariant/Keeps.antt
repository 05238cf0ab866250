-- ===== src/Sx126x/Invariant/Keeps.antt =====
-- The parts of init, start_tx and start_rx that only call the vendor library.
use leos_sdk.Prelude.{ℕ, ◌≢◌, Buffer, Bool-cases, inl, inr, arith}
use leos_sdk.Sx126x.Types.{Config, ok, err_arg}
use leos_sdk.Sx126x.Vendor.{Driver, rc_13m, set_standby, timeout_convert_to_register}
use leos_sdk.Sx126x.Convert.{to_vendor_sf, to_vendor_bw, to_vendor_cr}
use leos_sdk.Sx126x.Context.{exec}
use leos_sdk.Sx126x.Frame.{
  Keeps, Keeps-after, Keeps-command, Keeps-commands, Keeps-bind, Keeps-then, Keeps-pure,
  Keeps-or_give_up, Keeps-get_config,
}
use leos_sdk.Sx126x.Setup.{
  apply_packet_params, convert_delay, apply_tcxo, apply_rf_switch, apply_radio_settings,
  basic_setup, apply_config,
}
use leos_sdk.Sx126x.Transmit.{prepare_tx}
use leos_sdk.Sx126x.Api.{prepare_rx}

err_arg-ne-ok : err_arg ≢ ok
err_arg-ne-ok h = cc

module _ {W F : Type 0} (d : Driver W F) where
  pub Keeps-apply_packet_params : (len : ℕ) → Keeps (apply_packet_params d len)
  unfolding apply_packet_params
  Keeps-apply_packet_params len = Keeps-bind W _ _ (Keeps-get_config W) (λ cfg. Keeps-command d _)

  pub Keeps-prepare_tx : (payload : Buffer) (len : ℕ) → Keeps (prepare_tx d payload len)
  unfolding prepare_tx
  Keeps-prepare_tx payload len =
      Keeps-then W _ _ (Keeps-commands d _)
        (Keeps-then W _ _ (Keeps-apply_packet_params _) (Keeps-command d _))

  pub Keeps-prepare_rx : Keeps (prepare_rx d)
  unfolding prepare_rx
  Keeps-prepare_rx =
      Keeps-then W _ _ (Keeps-commands d _)
        (Keeps-then W _ _ (Keeps-apply_packet_params _) (Keeps-command d _))

  Keeps-convert_delay : (us : ℕ) → Keeps (convert_delay d us)
  unfolding convert_delay
  Keeps-convert_delay us =
      Keeps-after d (exec d (timeout_convert_to_register us)) _ (λ s q. ground arith)

  Keeps-apply_tcxo : (cfg : Config) → Keeps (apply_tcxo d cfg)
  unfolding apply_tcxo
  Keeps-apply_tcxo cfg = elim (Bool-cases cfg.dio3_tcxo_enable) [
    | inl on ↦ rw on (
        Keeps-bind W _ _ (Keeps-or_give_up W _ _ err_arg-ne-ok)
          (λ voltage. Keeps-bind W _ _ (Keeps-convert_delay _) (λ delay. Keeps-command d _)))
    | inr off ↦ rw off (Keeps-pure W _)
  ]

  Keeps-apply_rf_switch : (cfg : Config) → Keeps (apply_rf_switch d cfg)
  unfolding apply_rf_switch
  Keeps-apply_rf_switch cfg = elim (Bool-cases cfg.dio2_rf_switch_enable) [
    | inl on ↦ rw on (Keeps-command d _)
    | inr off ↦ rw off (Keeps-pure W _)
  ]

  Keeps-apply_radio_settings : (cfg : Config) → Keeps (apply_radio_settings d cfg)
  unfolding apply_radio_settings
  Keeps-apply_radio_settings cfg = Keeps-bind W _ _ (Keeps-command d _) (λ freq_reg.
      Keeps-then W _ _ (Keeps-commands d _) (
        Keeps-then W _ _ (Keeps-apply_packet_params _) (
          Keeps-then W _ _ (Keeps-commands d _) (
            Keeps-bind W _ _ (Keeps-command d _) (λ modulation.
              Keeps-then W _ _ (Keeps-commands d _)
                (Keeps-bind W _ _ (Keeps-command d _) (λ clamp. Keeps-commands d _)))))))

  pub Keeps-apply_config : Keeps (apply_config d)
  unfolding apply_config
  Keeps-apply_config = Keeps-bind W _ _ (Keeps-get_config W) (λ cfg.
      Keeps-bind W _ _
        (Keeps-or_give_up W (to_vendor_sf cfg.spreading_factor) err_arg err_arg-ne-ok)
        (λ sf.
          Keeps-bind W _ _ (Keeps-or_give_up W (to_vendor_bw cfg.bandwidth) err_arg err_arg-ne-ok)
            (λ bw.
              Keeps-bind W _ _
                (Keeps-or_give_up W (to_vendor_cr cfg.coding_rate) err_arg err_arg-ne-ok)
                (λ cr. Keeps-then W _ _ (Keeps-command d (set_standby rc_13m)) (
                  Keeps-then W _ _ (Keeps-apply_tcxo cfg) (
                    Keeps-then W _ _ (Keeps-apply_rf_switch cfg) (
                      Keeps-then W _ _ (Keeps-commands d (basic_setup cfg sf bw cr))
                        (Keeps-apply_radio_settings cfg))))))))
