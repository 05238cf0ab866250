-- ===== src/Mcp251xfd/Debug.antt =====
-- The printing of src/leos_mcp251xfd/include/leos/mcp251xfd/debug.h, as the text that is printed.
use leos_sdk.Prelude.{
  ℕ, zero, suc, ◌-◌, Bool, if◌then◌else◌, ◌==◌, List, [], ◌∷◌, ◌++◌, length, replicate,
}
use leos_sdk.Log.Text.{codes, decimal}

-- eMCP251XFD_OperationMode, of the controller's library.
pub data OperationMode : Type 0 where
  normal_canfd_mode sleep_mode internal_loopback_mode listen_only_mode : OperationMode
  configuration_mode external_loopback_mode normal_can20_mode : OperationMode
  restricted_operation_mode : OperationMode
  other : ℕ → OperationMode

-- The bits of eMCP251XFD_TXRXErrorStatus that are looked at.
pub data ErrorFlag : Type 0 where
  tx_bus_off_state tx_bus_passive_state tx_warning_state : ErrorFlag
  rx_bus_passive_state rx_warning_state : ErrorFlag

unfoldable pub mode_text : OperationMode → List ℕ
mode_text normal_canfd_mode = codes "Normal CAN-FD\n"
mode_text sleep_mode = codes "Sleep\n"
mode_text internal_loopback_mode = codes "Internal Loopback\n"
mode_text listen_only_mode = codes "Listen Only\n"
mode_text configuration_mode = codes "Configuration\n"
mode_text external_loopback_mode = codes "External Loopback\n"
mode_text normal_can20_mode = codes "Normal CAN 2.0\n"
mode_text restricted_operation_mode = codes "Restricted Operation\n"
mode_text (other _) = codes "Unknown\n"

-- The result of MCP251XFD_GetActualOperationMode, 0 for ERR_OK, and the mode.
unfoldable pub print_operation_mode : ℕ × OperationMode → List ℕ
unfolding mode_text
print_operation_mode (zero, mode) = codes "Current Operation Mode: " ++ mode_text mode
print_operation_mode (suc _, mode) = codes "Failed to get operation mode.\n"

-- `%3u`.
unfoldable pub decimal_spaced : ℕ → ℕ → List ℕ
unfolding decimal
decimal_spaced width n = replicate (width - length (decimal n)) b' ' ++ decimal n

-- The text of a flag where it is set; `is_set` is the test of the status with the flag's mask.
abbrev pub flag_text : (ErrorFlag → Bool) → ErrorFlag → List ℕ → List ℕ
flag_text is_set flag text = if is_set flag then text else []

-- The result of MCP251XFD_GetTransmitReceiveErrorCountAndStatus, 0 for ERR_OK, and the counts and
-- the status.
unfoldable pub print_error_status : (ℕ → ErrorFlag → Bool) → ℕ → ℕ → ℕ → ℕ → List ℕ
unfolding decimal_spaced
print_error_status is_set (suc _) tec rec status = []
print_error_status is_set zero tec rec status =
    codes "TEC: "
    ++ decimal_spaced 3 tec
    ++ codes " | REC: "
    ++ decimal_spaced 3 rec
    ++ codes " | Status: "
    ++ flag_text (is_set status) tx_bus_off_state (codes "TX_BUS_OFF ")
    ++ flag_text (is_set status) tx_bus_passive_state (codes "TX_PASSIVE ")
    ++ flag_text (is_set status) tx_warning_state (codes "TX_WARNING ")
    ++ flag_text (is_set status) rx_bus_passive_state (codes "RX_PASSIVE ")
    ++ flag_text (is_set status) rx_warning_state (codes "RX_WARNING ")
    ++ (if status == 0 then codes "OK" else [])
    ++ 10 ∷ []

-- ERR_ErrorStrings, of the controller's library, at the result.
unfoldable pub error_reason : (ℕ → List ℕ) → ℕ → List ℕ
error_reason strings result = strings result
