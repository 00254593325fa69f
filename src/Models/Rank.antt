-- ===== src/Models/Rank.antt =====
-- src/iceberg/models.py: the orders on markings and requirements, and what they mean.
use iceberg_cti.Base.{ℕ, Bool, leb, max, if◌then◌else◌}
use iceberg_cti.Models.Enums.{Tlp, Priority, RequirementKind, is_pir}
use iceberg_cti.Models.Tables.{Requirement}

unfoldable pub tlp_rank : Tlp → ℕ
tlp_rank Tlp.red = 4
tlp_rank Tlp.amber_strict = 3
tlp_rank Tlp.amber = 2
tlp_rank Tlp.green = 1
tlp_rank Tlp.clear = 0

unfoldable pub is_disseminable : Tlp → Tlp → Bool
unfolding tlp_rank
is_disseminable report_tlp max_tlp = leb (tlp_rank report_tlp) (tlp_rank max_tlp)

unfoldable pub priority_rank : Priority → ℕ
priority_rank Priority.critical = 3
priority_rank Priority.high = 2
priority_rank Priority.medium = 1
priority_rank Priority.low = 0

unfoldable pub kind_rank : RequirementKind → ℕ
kind_rank RequirementKind.pir = 2
kind_rank RequirementKind.gir = 1
kind_rank RequirementKind.rfi = 0

unfoldable pub board_rank : Requirement → ℕ
unfolding priority_rank
board_rank req =
    let base = priority_rank req.priority in
    if is_pir req.kind then max base (priority_rank Priority.high) else base
