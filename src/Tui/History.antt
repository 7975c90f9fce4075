-- ===== src/Tui/History.antt =====
-- historyModel of internal/tui/dashboard/history.go: the totals and the latest transfers.
use edge_grid.Prelude.{ℕ, Bool, Text, [], Option, none, some, if◌then◌else◌}
use edge_grid.Prelude.Int.{pos}
use edge_grid.Prelude.Results.{Result, ok, err}
use edge_grid.Db.Transfers.{Rows}
use edge_grid.Db.Transfers.Totals.{Sum, Totals}

-- historyModel; of `funcs`, whether each is not nil. The rows are shown without the columns that
-- TransferSummary leaves out.
pub record History : Type 0 where
  pub has_totals : Bool
  pub has_recent : Bool
  pub totals : Totals
  pub recent : Rows
  pub error : Option Text

-- historyLimit
abbrev pub history_limit : ℕ
history_limit = 20

-- What the two functions return when they are called, Recent at the limit.
pub record Reads : Type 0 where
  pub totals : Result Text Totals
  pub recent : ℕ → Result Text Rows

abbrev pub no_sum : Sum
no_sum = record { bytes = pos 0; count = 0; secs = pos 0 }

-- newHistoryModel
unfoldable pub new_history_model : Bool → Bool → History
new_history_model has_totals has_recent = record {
  has_totals = has_totals;
  has_recent = has_recent;
  totals = record { sent = no_sum; received = no_sum };
  recent = [];
  error = none;
}

take_totals : Result Text Totals → History → History
take_totals (ok t) m = record m { totals = t; error = none }
take_totals (err e) m = record m { error = some e }

take_recent : Result Text Rows → History → History
take_recent (ok r) m = record m { recent = r }
take_recent (err e) m = m

refresh_totals : Reads → History → History
unfolding take_totals
refresh_totals r m = if m.has_totals then take_totals r.totals m else m

-- historyModel.refresh
unfoldable pub refresh : Reads → History → History
unfolding refresh_totals take_recent
refresh r m =
    let m' = refresh_totals r m in
    if m.has_recent then take_recent (r.recent history_limit) m' else m'
