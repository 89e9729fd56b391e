-- ===== src/Controller/Helpers/History.antt =====
-- The run history (helpers.go `appendHistory`).
use rca_lab.Base.{
  ◌-◌, ◌≡◌, ◌+◌, arith, List, [], ◌∷◌, ◌++◌, length, take, length-append, length-drop,
  take-append-drop, min,
}
use rca_lab.Types.{RunHistoryEntry}
use rca_lab.Controller.Helpers.{append_history, history_cap}

-- The history never holds more than 10 entries: it is a suffix of the old entries with the new one
-- behind them, all of them if they are at most 10, and the last 10 otherwise.
pub append_history_lem :
    (history : List RunHistoryEntry) (entry : RunHistoryEntry)
    → (length (append_history history entry) ≡ min history_cap (length history + 1))
      × (take (length history + 1 - history_cap) (history ++ entry ∷ [])
            ++ append_history history entry
          ≡ history ++ entry ∷ [])
unfolding append_history
append_history_lem history entry =
    let longer = history ++ entry ∷ [] in
    let extra = length longer - history_cap in
    ground (
      arith,
      length-append history (entry ∷ []),
      length-drop extra longer,
      take-append-drop extra longer,
      take-append-drop 0 longer,
    )
